-- ===== src/Service/Auth/Password.antt =====
-- Who can log in: the cache of password checks against bcrypt.
use mathlib.Core.Path.{subst}
use shark_42tokyo_tuning.Prelude.{
  ◌≡◌, refl, sym, inl, inr, String, true, List, [], ◌∷◌, str_eq, eq_iff, Result, ok, err, panic,
  Bool-cases, Error,
}
use shark_42tokyo_tuning.Model.{Time, User}
use shark_42tokyo_tuning.Env.{Env, Crypto, text}
use shark_42tokyo_tuning.World.{World, Action, continue, >>=-eq-ok}
use shark_42tokyo_tuning.Repository.User.{user_query, find_by_user_name}
use shark_42tokyo_tuning.Repository.Session.Lookup.{password_cache-create}
use shark_42tokyo_tuning.Service.Timeout.{Race, finishes, expires, with_timeout}
use shark_42tokyo_tuning.Service.Auth.{
  encode_hex, make_password_cache_key, holds, lookup_failed, on_error, mapping_error,
  check_password, log_in, login, admit, start_session, session_duration,
}
use shark_42tokyo_tuning.Service.Auth.Key.{make_password_cache_key_inj}

-- Bcrypt has accepted a password for the hash, under the key.
pub record Vouched (c : Crypto) (key : String) : Type 0 where
  pub password_hash : String
  pub password : String
  pub keyed : make_password_cache_key c password_hash password ≡ key
  pub accepted : c.matches password_hash password ≡ true

-- Every cached key is one that bcrypt has vouched for.
abbrev pub AllVouched : Crypto → List String → Type 0
AllVouched c keys = (key : String) → holds key keys ≡ true → Vouched c key

AllVouched-cons :
    (c : Crypto) (keys : List String) (hash password : String)
    → c.matches hash password ≡ true
    → AllVouched c keys
    → AllVouched c (make_password_cache_key c hash password ∷ keys)
unfolding holds
AllVouched-cons c keys hash password m all key h =
    elim (Bool-cases (str_eq (make_password_cache_key c hash password) key)) [
      | inl same ↦ record {
        password_hash = hash;
        password = password;
        keyed = (eq_iff _ _).0 same;
        accepted = m;
      }
      | inr other ↦ all key (rw other at h)
    ]

pub on_error-eq-ok :
    {A : Type 0} (f : Error → Error) (r : Result A) {a : A} → on_error f r ≡ ok a → r ≡ ok a
unfolding on_error
on_error-eq-ok f (ok a) h = h
on_error-eq-ok f (err x) h = cc
on_error-eq-ok f panic h = cc

abbrev pub key_of : Crypto → User → String → String
key_of c user password = make_password_cache_key c user.password_hash password

module _ (e : Env) where
  -- A user for whom bcrypt has accepted this password, or one with the same SHA-256 digest.
  pub record Accepted (user_name password : String) (d : e.Db) : Type 0 where
    pub user : User
    pub known : e.get_user d user_query (text user_name ∷ []) ≡ ok user
    pub accepted_password : String
    pub same_digest :
        encode_hex ((e.crypto).sha256 accepted_password) ≡ encode_hex ((e.crypto).sha256 password)
    pub accepted : (e.crypto).matches user.password_hash accepted_password ≡ true

module _ {e : Env} where
  pub check_password-Vouched :
      (user : User) (password : String) (w : World e)
      → AllVouched e.crypto w.password_cache
      → AllVouched e.crypto ((check_password user password w).1).password_cache
        × ((check_password user password w).0 ≡ ok tt
            → Vouched e.crypto (key_of e.crypto user password))
  unfolding check_password
  check_password-Vouched user password w all =
      elim (Bool-cases (holds (key_of e.crypto user password) w.password_cache)) [
        | inl cached ↦ rw cached (all, λ _. all (key_of e.crypto user password) cached)
        | inr new ↦ rw new (elim (Bool-cases ((e.crypto).matches user.password_hash password)) [
          | inl m ↦ rw m (
            AllVouched-cons e.crypto w.password_cache user.password_hash password m all,
            λ _. record {
              password_hash = user.password_hash;
              password = password;
              keyed = refl;
              accepted = m;
            },
          )
          | inr no_match ↦ rw no_match (all, λ h. cc)
        ])
      ]

  Vouched-Accepted :
      (user : User) (user_name password : String) (d : e.Db)
      → e.get_user d user_query (text user_name ∷ []) ≡ ok user
      → Vouched e.crypto (key_of e.crypto user password)
      → Accepted e user_name password d
  Vouched-Accepted user user_name password d known v =
      let (same_hash, same_digest) =
        make_password_cache_key_inj e.crypto v.password_hash user.password_hash v.password password
          v.keyed in
      record {
        user = user;
        known = known;
        accepted_password = v.password;
        same_digest = same_digest;
        accepted = rw (← same_hash) v.accepted;
      }

  -- While bcrypt has vouched for every cached key, a login succeeds only for a user of the database
  -- and a password that bcrypt accepts for the user's hash, up to a collision of SHA-256.
  pub login-Accepted :
      (uuid : Result String) (now : Time) (user_name password : String) (w w' : World e)
      {session : String × Time}
      → AllVouched e.crypto w.password_cache
      → login finishes uuid now user_name password w ≡ (ok session, w')
      → Accepted e user_name password w.db
  unfolding login with_timeout log_in admit find_by_user_name
  login-Accepted uuid now user_name password w w' all h =
      let (user, found, rest) =
        >>=-eq-ok (mapping_error lookup_failed (find_by_user_name user_name))
          (admit uuid now password) w h in
      let (_, checked, _) =
        >>=-eq-ok (check_password user password) (λ _. start_session uuid now user) w rest in
      Vouched-Accepted user user_name password w.db (on_error-eq-ok lookup_failed _ found)
        ((check_password-Vouched user password w all).1 checked)

  -- A block leaves vouched keys if what follows its first part does.
  continue-AllVouched :
      {A B : Type 0} (r : Result A) (f : A → Action e B) (w : World e)
      → AllVouched e.crypto w.password_cache
      → ((a : A) → AllVouched e.crypto ((f a w).1).password_cache)
      → AllVouched e.crypto ((continue r f w).1).password_cache
  continue-AllVouched (ok a) f w all next = next a
  continue-AllVouched (err x) f w all next = all
  continue-AllVouched panic f w all next = all

  admit-AllVouched :
      (uuid : Result String) (now : Time) (password : String) (user : User) (w : World e)
      → AllVouched e.crypto w.password_cache
      → AllVouched e.crypto ((admit uuid now password user w).1).password_cache
  unfolding admit
  admit-AllVouched uuid now password user w all =
      let checked = (check_password-Vouched user password w all).0 in
      let w' : World e = (check_password user password w).1 in
      continue-AllVouched (check_password user password w).0 (λ _. start_session uuid now user) w'
        checked
        λ _.
          subst (AllVouched e.crypto)
            (sym (password_cache-create uuid now user.user_id session_duration w')) checked

  log_in-AllVouched :
      (uuid : Result String) (now : Time) (user_name password : String) (w : World e)
      → AllVouched e.crypto w.password_cache
      → AllVouched e.crypto ((log_in uuid now user_name password w).1).password_cache
  unfolding log_in find_by_user_name
  log_in-AllVouched uuid now user_name password w all =
      continue-AllVouched (mapping_error lookup_failed (find_by_user_name user_name) w).0
        (admit uuid now password) w all λ user. admit-AllVouched uuid now password user w all

  -- Every login, in time or not, keeps the cached keys vouched for.
  pub login-AllVouched :
      (race : Race) (uuid : Result String) (now : Time) (user_name password : String) (w : World e)
      → AllVouched e.crypto w.password_cache
      → AllVouched e.crypto ((login race uuid now user_name password w).1).password_cache
  unfolding login with_timeout
  login-AllVouched finishes uuid now user_name password w all =
      log_in-AllVouched uuid now user_name password w all
  login-AllVouched expires uuid now user_name password w all =
      log_in-AllVouched uuid now user_name password w all
