-- ===== src/Handler/Auth.antt =====
-- webapp/backend/internal/handler/auth.go
pub mod Refused
use shark_42tokyo_tuning.Prelude.{
  String, Option, none, some, Result, Error, user_not_found, invalid_password,
}
use shark_42tokyo_tuning.Model.{Time, LoginRequest}
use shark_42tokyo_tuning.Env.{Env}
use shark_42tokyo_tuning.World.{Action, pure}
use shark_42tokyo_tuning.Service.Timeout.{Race}
use shark_42tokyo_tuning.Service.Auth.{login}
use shark_42tokyo_tuning.Handler.Response.{Response, message, http_error, answer}

unfoldable pub login_failed : Error → Response
login_failed user_not_found = http_error 401 "Unauthorized: Invalid credentials"
login_failed invalid_password = http_error 401 "Unauthorized: Invalid credentials"
login_failed _ = http_error 500 "Internal server error"

-- The cookie "session_id", with its value and its expiry.
unfoldable pub login_succeeded : String × Time → Response
login_succeeded session = record {
  status = 200;
  cookie = some session;
  accel_redirect = none;
  body = message "Login successful";
}

module _ {e : Env} where
  -- `Login`
  unfoldable pub login_handler :
      Race → Result String → (now : Time) → Option LoginRequest → Action e Response
  unfolding login_failed login_succeeded
  login_handler race uuid now none = pure (http_error 400 "Invalid request body")
  login_handler race uuid now (some req) =
      answer (login race uuid now req.user_name req.password) login_succeeded login_failed
