-- ===== src/Api/Moves/Reads.antt =====
-- The actions that leave the database alone.
use shark_42tokyo_tuning.Prelude.{
  ◌≡◌, refl, ◌∙◌, inl, inr, String, Option, none, some, List, Result, ok, err, panic, Bool-cases,
  ltb, concat,
}
use shark_42tokyo_tuning.Prelude.Int.{ℤ}
use shark_42tokyo_tuning.Model.{Time, User, ListRequest}
use shark_42tokyo_tuning.Env.{Env, Arg, SessionEntry}
use shark_42tokyo_tuning.World.{World, Action, continue, ◌>>=◌, query}
use shark_42tokyo_tuning.Repository.Session.{found_session}
use shark_42tokyo_tuning.Repository.Product.{list_products, list_total, total_from}
use shark_42tokyo_tuning.Service.Auth.{make_password_cache_key, holds, check_password}
use shark_42tokyo_tuning.Service.Product.{fetch_products}

module _ {e : Env} where
  -- An action that leaves the database alone.
  abbrev pub Reads : {A : Type 0} → Action e A → Type 0
  Reads m = (w : World e) → ((m w).1).db ≡ w.db

  continue-Reads :
      {A B : Type 0} (r : Result A) (f : A → Action e B)
      → ((a : A) → Reads (f a))
      → Reads (continue r f)
  continue-Reads (ok a) f k w = k a w
  continue-Reads (err x) f k w = refl
  continue-Reads panic f k w = refl

  >>=-Reads :
      {A B : Type 0} (m : Action e A) (f : A → Action e B)
      → Reads m
      → ((a : A) → Reads (f a))
      → Reads (m >>= f)
  >>=-Reads m f h k w = continue-Reads (m w).0 f k (m w).1 ∙ h w

  pub found_session-Reads :
      (now : Time) (id : String) (c : Option SessionEntry) → Reads (found_session {e = e} now id c)
  unfolding found_session
  found_session-Reads now id none w = refl
  found_session-Reads now id (some v) w = elim (Bool-cases (ltb now v.expires_at)) [
    | inl live ↦ rw live refl
    | inr dead ↦ rw dead refl
  ]

  total_from-Reads :
      (search filter : String) (args : List Arg) (c : Option ℤ)
      → Reads (total_from {e = e} search filter args c)
  unfolding total_from
  total_from-Reads search filter args (some v) w = refl
  total_from-Reads search filter args none w =
      continue-Reads (e.get_int w.db (concat "SELECT COUNT(1) FROM products " filter) args) _
        (λ total v. refl) w

  pub fetch_products-Reads : (req : ListRequest) → Reads (fetch_products {e = e} req)
  unfolding fetch_products list_products list_total
  fetch_products-Reads req =
      >>=-Reads (list_total req.search) _ (λ w. total_from-Reads req.search _ _ _ _)
        λ total. >>=-Reads (query _) _ (λ w. refl) (λ products w. refl)

  pub check_password-Reads :
      (user : User) (password : String) → Reads (check_password {e = e} user password)
  unfolding check_password
  check_password-Reads user password w =
      elim (Bool-cases
        (holds (make_password_cache_key e.crypto user.password_hash password) w.password_cache)) [
          | inl known ↦ rw known refl
          | inr new ↦ elim (Bool-cases ((e.crypto).matches user.password_hash password)) [
            | inl m ↦ rw (new, m) refl
            | inr no_match ↦ rw (new, no_match) refl
          ]
        ]
