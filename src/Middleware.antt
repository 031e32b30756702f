-- ===== src/Middleware.antt =====
-- webapp/backend/internal/middleware/auth.go
pub mod Guards
pub mod LoggedIn
pub mod Sessions
pub mod Tracing
use shark_42tokyo_tuning.Prelude.{
  ◌≡◌, ◌≢◌, refl, inl, inr, ◌⊎◌, ℕ, String, Option, none, some, ◌||◌, not, if◌then◌else◌, str_eq,
  eq_iff, arith, Result, ok, err, panic, Result-cases, Bool-cases, Error,
}
use shark_42tokyo_tuning.Prelude.Int.{ℤ}
use shark_42tokyo_tuning.Model.{Time}
use shark_42tokyo_tuning.Env.{Env}
use shark_42tokyo_tuning.World.{World, Action, continue, ◌>>=◌}
use shark_42tokyo_tuning.Repository.Session.{find_user_by_session_id}
use shark_42tokyo_tuning.Handler.Response.{Response, http_error}

-- The request that a handler sees: the cookie and header that the middleware reads, and the user
-- that it put into the context.
pub record Request : Type 0 where
  pub session_cookie : Option String
  pub api_key : String
  pub user : Option ℤ

abbrev pub Serve : Env → Type 0
Serve e = Request → Action e Response

module _ {e : Env} where
  unfoldable pub authenticated : Serve e → Request → Result ℤ → Action e Response
  authenticated next r (ok user_id) w = next (record r { user = some user_id }) w
  authenticated next r (err x) w = (ok (http_error 401 "Unauthorized: Invalid session"), w)
  authenticated next r panic w = (panic, w)

  unfoldable pub with_cookie : (now : Time) → Serve e → Request → Option String → Action e Response
  unfolding authenticated
  with_cookie now next r none w = (ok (http_error 401 "Unauthorized: No session cookie"), w)
  with_cookie now next r (some session_id) w =
      let (found, w') = find_user_by_session_id now session_id w in authenticated next r found w'

  -- `UserAuthMiddleware`
  unfoldable pub user_auth_middleware : (now : Time) → Serve e → Serve e
  unfolding with_cookie
  user_auth_middleware now next r = with_cookie now next r r.session_cookie

  -- `RobotAuthMiddleware`
  unfoldable pub robot_auth_middleware : (valid_api_key : String) → Serve e → Serve e
  robot_auth_middleware valid_api_key next r w =
      if str_eq r.api_key "" || not (str_eq r.api_key valid_api_key)
      then (ok (http_error 403 "Forbidden: Invalid or missing API key"), w)
      else next r w

-- `GetUserFromContext`
abbrev pub get_user_from_context : Request → Option ℤ
get_user_from_context r = r.user
