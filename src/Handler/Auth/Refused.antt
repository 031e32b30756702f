-- ===== src/Handler/Auth/Refused.antt =====
-- Logins that are refused.
use shark_42tokyo_tuning.Prelude.{
  ◌≡◌, refl, inl, inr, ◌⊎◌, String, some, [], ◌∷◌, false, Result, ok, err, no_rows,
}
use shark_42tokyo_tuning.Model.{Time, User, LoginRequest}
use shark_42tokyo_tuning.Env.{Env, text}
use shark_42tokyo_tuning.World.{World}
use shark_42tokyo_tuning.Repository.User.{user_query, find_by_user_name}
use shark_42tokyo_tuning.Service.Timeout.{finishes, with_timeout}
use shark_42tokyo_tuning.Service.Auth.{
  make_password_cache_key, holds, check_password, log_in, login,
}
use shark_42tokyo_tuning.Handler.Response.{http_error, answer, answer_result}
use shark_42tokyo_tuning.Handler.Auth.{login_failed, login_handler}

module _ {e : Env} where
  -- There is no user of the name, or the user's password is another: it has no cached key, and bcrypt
  -- does not accept it.
  abbrev pub IsWrong : LoginRequest → World e → Type 0
  IsWrong req w =
      (e.get_user w.db user_query (text req.user_name ∷ []) ≡ err no_rows)
      ⊎ ((user : User) × (e.get_user w.db user_query (text req.user_name ∷ []) ≡ ok user)
          × (holds (make_password_cache_key e.crypto user.password_hash req.password)
                w.password_cache
              ≡ false)
          × ((e.crypto).matches user.password_hash req.password ≡ false))

  -- A login in time of a user that does not exist, and one with a password that has no cached key and
  -- that bcrypt does not accept, get the same answer, a 401 that does not tell which, and change
  -- nothing.
  pub login_handler-refused :
      (uuid : Result String) (now : Time) (req : LoginRequest) (w : World e)
      → IsWrong req w
      → login_handler finishes uuid now (some req) w
        ≡ (ok (http_error 401 "Unauthorized: Invalid credentials"), w)
  unfolding login_handler answer answer_result login_failed login with_timeout log_in
      find_by_user_name check_password
  login_handler-refused uuid now req w (inl unknown) = rw unknown refl
  login_handler-refused uuid now req w (inr (user, known, not_cached, no_match)) =
      rw (known, not_cached, no_match) refl
