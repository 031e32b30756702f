-- ===== src/Service/Timeout.antt =====
-- webapp/backend/internal/service/utils/timeout.go
use shark_42tokyo_tuning.Prelude.{
  ◌*◌, ◌^◌, ◌≡◌, refl, Option, none, some, ◌&&◌, true, if◌then◌else◌, arith, ok, err, panic,
  deadline_exceeded, Result,
}
use shark_42tokyo_tuning.Prelude.Int.{ℤ, pos, ltb_ℤ, ◌≤ℤ◌}
use shark_42tokyo_tuning.Env.{Env}
use shark_42tokyo_tuning.World.{Action}

-- 20 s, in nanoseconds.
abbrev pub default_timeout : ℤ
default_timeout = pos (20 * 10 ^ 9)

-- The timeout, from the time until the parent's deadline.
pub effective_timeout : Option ℤ → ℤ
effective_timeout none = default_timeout
effective_timeout (some rem) =
    if ltb_ℤ (pos 0) rem && ltb_ℤ rem default_timeout then rem else default_timeout

-- Which case of the `select` is taken: the function's result, or the end of the context. In the
-- second the goroutine is not stopped: it runs on, and its result is dropped; a query that the end of the
-- context cuts off is one that the database fails.
pub data Race : Type 0 where
  finishes expires : Race

-- A panic in the goroutine ends the process, whichever comes first.
unfoldable pub outlived : {A : Type 0} → Result A → Result A
outlived (ok a) = err deadline_exceeded
outlived (err x) = err deadline_exceeded
outlived panic = panic

module _ {e : Env} where
  -- `WithTimeout`
  unfoldable pub with_timeout : {A : Type 0} → Race → Action e A → Action e A
  unfolding outlived
  with_timeout finishes fn w = fn w
  with_timeout expires fn w = let (r, w') = fn w in (outlived r, w')

-- The timeout is positive, at most 20 s, and no longer than a deadline that is still to come.
pub effective_timeout_bounds :
    (deadline : Option ℤ)
    → (ltb_ℤ (pos 0) (effective_timeout deadline) ≡ true)
      × (effective_timeout deadline ≤ℤ default_timeout)
      × ((rem : ℤ)
          → deadline ≡ some rem
          → ltb_ℤ (pos 0) rem ≡ true
          → effective_timeout deadline ≤ℤ rem)
unfolding effective_timeout
effective_timeout_bounds none = (refl, omega arith, λ rem p h. cc)
effective_timeout_bounds (some rem) = (ground arith, ground arith, λ rem' p h. ground arith)
