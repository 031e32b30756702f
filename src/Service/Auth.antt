-- ===== src/Service/Auth.antt =====
-- webapp/backend/internal/service/auth.go
pub mod Password
pub mod Key
use shark_42tokyo_tuning.Prelude.{
  ℕ, ◌+◌, ◌*◌, ◌/◌, ◌%◌, ◌^◌, String, Bool, true, false, ◌||◌, List, [], ◌∷◌, if◌then◌else◌, get_or,
  str_eq, concat, Result, ok, err, panic, Error, user_not_found, invalid_password, internal_server,
  no_rows,
}
use shark_42tokyo_tuning.Model.{Time, User}
use shark_42tokyo_tuning.Env.{Env, Crypto}
use shark_42tokyo_tuning.World.{World, Action, continue, ◌>>=◌, ◌>>◌, pure, throw, gets, modify}
use shark_42tokyo_tuning.Repository.User.{find_by_user_name}
use shark_42tokyo_tuning.Repository.Session.{create}
use shark_42tokyo_tuning.Service.Timeout.{Race, with_timeout}

-- `hex.EncodeToString`
abbrev pub hex_digits : List String
hex_digits =
    "0" ∷ "1" ∷ "2" ∷ "3" ∷ "4" ∷ "5" ∷ "6" ∷ "7" ∷ "8" ∷ "9" ∷ "a" ∷ "b" ∷ "c" ∷ "d" ∷ "e" ∷ "f"
    ∷ []

unfoldable pub encode_hex : List ℕ → String
encode_hex [] = ""
encode_hex (b ∷ bs) =
    concat (get_or hex_digits (b / 16) "") (concat (get_or hex_digits (b % 16) "") (encode_hex bs))

unfoldable pub make_password_cache_key : Crypto → String → String → String
unfolding encode_hex
make_password_cache_key c password_hash password =
    concat password_hash (concat ":" (encode_hex (c.sha256 password)))

-- The keys of the `sync.Map`.
unfoldable pub holds : String → List String → Bool
holds key [] = false
holds key (k ∷ ks) = str_eq k key || holds key ks

-- 24 hours, in nanoseconds.
abbrev pub session_duration : ℕ
session_duration = 24 * 3600 * 10 ^ 9

-- The error for a user query that failed with `x`.
unfoldable pub lookup_failed : Error → Error
lookup_failed no_rows = user_not_found
lookup_failed _ = internal_server

unfoldable pub on_error : {A : Type 0} → (Error → Error) → Result A → Result A
on_error f (ok a) = ok a
on_error f (err x) = err (f x)
on_error f panic = panic

module _ {e : Env} where
  unfoldable pub mapping_error : {A : Type 0} → (Error → Error) → Action e A → Action e A
  unfolding on_error
  mapping_error f m w = let (r, w') = m w in (on_error f r, w')

  unfoldable pub check_password : User → String → Action e (Unit {0})
  unfolding make_password_cache_key holds
  check_password user password w =
      let key = make_password_cache_key e.crypto user.password_hash password in
      if holds key w.password_cache
      then (ok tt, w)
      else if (e.crypto).matches user.password_hash password
      then (ok tt, record w { password_cache = key ∷ w.password_cache })
      else (err invalid_password, w)

  unfoldable pub start_session : Result String → (now : Time) → User → Action e (String × Time)
  unfolding mapping_error
  start_session uuid now user =
      mapping_error (λ _. internal_server) (create uuid now user.user_id session_duration)

  unfoldable pub admit :
      Result String → (now : Time) → (password : String) → User → Action e (String × Time)
  unfolding start_session check_password
  admit uuid now password user = do check_password user password; start_session uuid now user

  -- The function that `Login` runs under the timeout.
  unfoldable pub log_in : Result String → (now : Time) → String → String → Action e (String × Time)
  unfolding lookup_failed mapping_error admit
  log_in uuid now user_name password =
      mapping_error lookup_failed (find_by_user_name user_name) >>= admit uuid now password

  -- `Login`
  unfoldable pub login :
      Race → Result String → (now : Time) → String → String → Action e (String × Time)
  unfolding log_in
  login race uuid now user_name password = with_timeout race (log_in uuid now user_name password)
