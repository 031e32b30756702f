-- ===== src/Worker/Score.antt =====
-- `ComputeFinalScoreFromK6` of benchmarker/worker/score/calcScore.go. The floating-point numbers are an
-- argument.
pub mod Whole
use shark_42tokyo_tuning.Prelude.{
  ℕ, ◌+◌, ◌^◌, ◌<◌, ◌≡◌, String, str_eq, if◌then◌else◌, Option, none, some, List, [], ◌∷◌, failure,
  Result, ok, err, ◌>>=◌,
}
use shark_42tokyo_tuning.Prelude.Int.{ℤ, pos}

-- A float64: sums of whole numbers below 2 ^ 53 are exact.
pub record Floats : Type 1 where
  pub Float : Type 0
  pub whole : ℕ → Float
  pub add : Float → Float → Float
  -- `int(math.Round(x))`
  pub round_int : Float → ℤ
  pub round_int-add : (m n : ℕ) → m + n < 2 ^ 53 → round_int (add (whole m) (whole n)) ≡ pos (m + n)

-- A decoded JSON object: its keys are different.
abbrev pub Object : Type 0 → Type 0
Object A = List (String × A)

unfoldable pub find_key : {A : Type 0} → String → Object A → Option A
find_key k [] = none
find_key k ((j, a) ∷ o) = let rest = find_key k o in if str_eq j k then some a else rest

module _ (f : Floats) where
  unfoldable pub count_in : Option (Object f.Float) → f.Float
  count_in none = f.whole 0
  count_in (some values) = elim (find_key "count" values) [ none ↦ f.whole 0 | some n ↦ n ]

  unfoldable pub metric : String → Object (Object f.Float) → f.Float
  unfolding count_in
  metric name metrics = count_in (find_key name metrics)

  decoded : Option (Object (Object f.Float)) → Result (Object (Object f.Float))
  decoded none = err (failure "unmarshal json")
  decoded (some metrics) = ok metrics

  -- From what the file reads as, and the decoder of its metrics.
  unfoldable pub compute_final_score_from_k6 :
      Result String → (String → Option (Object (Object f.Float))) → Result ℤ
  unfolding metric decoded
  compute_final_score_from_k6 read unmarshal = do
    raw ← read
    metrics ← decoded (unmarshal raw)
    ok (
        f.round_int (
          f.add (metric "bench_uj_success_count" metrics)
            (metric "bench_robot_success_count" metrics)))
