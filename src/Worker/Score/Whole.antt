-- ===== src/Worker/Score/Whole.antt =====
-- The score of counts that are whole numbers.
use shark_42tokyo_tuning.Prelude.{◌≡◌, ap, ℕ, ◌+◌, ◌^◌, ◌<◌, String, Option, some, ok}
use shark_42tokyo_tuning.Prelude.Int.{pos}
use shark_42tokyo_tuning.Worker.Score.{Floats, Object, metric, compute_final_score_from_k6}

module _ (f : Floats) where
  -- The count of a metric is the whole number; a metric that is missing, or has no count, counts 0.
  abbrev pub Counts : (name : String) → Object (Object f.Float) → ℕ → Type 0
  Counts name metrics n = metric f name metrics ≡ f.whole n

  -- If the file decodes, and the counts of users and robots are whole numbers with a sum below 2 ^ 53,
  -- the score is their sum.
  pub compute_final_score_from_k6-Counts :
      (raw : String) (unmarshal : String → Option (Object (Object f.Float)))
      (metrics : Object (Object f.Float)) (users robots : ℕ)
      → unmarshal raw ≡ some metrics
      → Counts "bench_uj_success_count" metrics users
      → Counts "bench_robot_success_count" metrics robots
      → users + robots < 2 ^ 53
      → compute_final_score_from_k6 f (ok raw) unmarshal ≡ ok (pos (users + robots))
  unfolding compute_final_score_from_k6
  compute_final_score_from_k6-Counts raw unmarshal metrics users robots p u r h =
      rw (p, u, r) (ap (λ n. ok n) (f.round_int-add users robots h))
