-- ===== src/Tests/Running.antt =====
-- The runner on a host where every call succeeds, and a generator that draws zeros.
use shark_42tokyo_tuning.Prelude.{
  ◌+◌, ◌≡◌, ◌≢◌, refl, String, ℕ, none, some, [], ◌∷◌, ok, concat, length,
}
use shark_42tokyo_tuning.Prelude.Int.{pos}
use shark_42tokyo_tuning.Prelude.Paths.{clean}
use shark_42tokyo_tuning.Prelude.Paths.Elements.{All}
use shark_42tokyo_tuning.Worker.Score.{Floats, find_key, compute_final_score_from_k6}
use shark_42tokyo_tuning.Worker.Runner.{Flags, or_default, files_of}
use shark_42tokyo_tuning.Worker.Runner.Main.{Host, script_raw, main, scorefile, local_test}
use shark_42tokyo_tuning.Worker.Runner.Main.Scored.{
  printed, Scored, Alone, argument_of, main-Scored, main-Alone, script_raw-files_of,
}
use shark_42tokyo_tuning.Worker.Orders.{Rand, main2}
use shark_42tokyo_tuning.Worker.Orders.Bounds.{IsRequest, main2-All}

abbrev raw_given : Flags
raw_given = record { target_ip = "10.0.0.1"; summary = ""; raw = "raw.json"; final = "" }

abbrev no_flags : Flags
no_flags = record { target_ip = ""; summary = ""; raw = ""; final = "" }

-- The raw data has 3 runs of users and 4 of robots.
abbrev whole_floats : Floats
whole_floats = record {
  Float = ℕ;
  whole = λ n. n;
  add = λ m n. m + n;
  round_int = λ n. pos n;
  round_int-add = λ m n h. refl;
}

abbrev fine_host : Host
fine_host = record {
  floats = whole_floats;
  target_ip = "";
  ts = "20250911110719";
  dir = λ p. "/app/scores";
  mkdir_error = λ p. none;
  k6_error = λ a t. none;
  read = λ p. ok "{}";
  unmarshal = λ s. some (
      ("bench_uj_success_count", ("count", 3) ∷ [])
      ∷ ("bench_robot_success_count", ("count", 4) ∷ [])
      ∷ []);
  write_error = λ p. none;
}

main-Scored_example :
    Scored fine_host (files_of raw_given "" "20250911110719") (main fine_host raw_given)
main-Scored_example = main-Scored fine_host raw_given

prints_7 : printed (main fine_host raw_given).1 ≡ pos 7 ∷ []
unfolding main compute_final_score_from_k6 find_key
prints_7 = refl

given : (s : String) → s ≡ "raw.json" → s ≢ ""
given s p q = cc

main-Alone_example :
    Alone (scorefile fine_host "raw.json") (pos 7) × Alone (local_test fine_host "raw.json") (pos 7)
unfolding files_of or_default
main-Alone_example = main-Alone fine_host raw_given (pos 7) prints_7 (given "raw.json" refl)

script_raw-files_of_example :
    clean (
      concat "/app/"
        (script_raw (argument_of (files_of no_flags "a/b" "20250911110719") "20250911110719")))
    ≡ (files_of no_flags "a/b" "20250911110719").raw
script_raw-files_of_example = script_raw-files_of no_flags "a/b" "20250911110719" refl refl

abbrev zeros : Rand
zeros = record { State = ℕ; intn = λ s n. (0, s); intn_lt = λ s n h. h }

main2-All_example : (length (main2 zeros 42) ≡ 100) × All IsRequest (main2 zeros 42)
main2-All_example = main2-All zeros 42
