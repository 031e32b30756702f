-- ===== src/World.antt =====
-- The state that the backend's methods share, and their monad. A method returns what it returns and
-- the state it leaves; what was done before an error stays done.
use shark_42tokyo_tuning.Prelude.{String, List, Result, ok, err, panic, Error, ◌≡◌, refl, ap}
use shark_42tokyo_tuning.Prelude.Int.{ℤ, IntMap}
use shark_42tokyo_tuning.Model.{Order}
use shark_42tokyo_tuning.Env.{Env, Slice}

-- What the `db` field of a store is: the connection pool, or a transaction.
pub data Conn : Type 0 where
  pool tx : Conn

-- `orderRepoState`. `newOrderRepository` makes the map before a method runs, so it is not nil.
pub record OrderRepoState : Type 0 where
  pub shipping_orders_version : ℤ
  pub shipping_orders_cache : Slice Order
  pub count_by_user : IntMap

-- The fields of `Store` and of the services that hold state.
pub record World (e : Env) : Type 0 where
  pub conn : Conn
  pub db : e.Db
  pub order_state : OrderRepoState
  pub session_cache : (e.session_lru).Cache
  pub list_count_cache : (e.count_lru).Cache
  pub password_cache : List String

module _ (e : Env) where
  abbrev pub Action : Type 0 → Type 0
  Action A = World e → Result A × World e

module _ {e : Env} where
  abbrev pub continue : {A B : Type 0} → Result A → (A → Action e B) → Action e B
  continue (ok a) f w = f a w
  continue (err x) f w = (err x, w)
  continue panic f w = (panic, w)

  infixl 5 ◌>>=◌ ◌>>◌
  abbrev pub ◌>>=◌ : {A B : Type 0} → Action e A → (A → Action e B) → Action e B
  ◌>>=◌ m f w = let (r, w') = m w in continue r f w'

  abbrev pub ◌>>◌ : {B : Type 0} → Action e (Unit {0}) → Action e B → Action e B
  m >> n = m >>= λ _. n

  abbrev pub pure : {A : Type 0} → A → Action e A
  pure a w = (ok a, w)

  abbrev pub throw : {A : Type 0} → Error → Action e A
  throw x w = (err x, w)

  abbrev pub lift : {A : Type 0} → Result A → Action e A
  lift r w = (r, w)

  abbrev pub gets : {A : Type 0} → (World e → A) → Action e A
  gets f w = (ok (f w), w)

  abbrev pub modify : (World e → World e) → Action e (Unit {0})
  modify f w = (ok tt, f w)

  -- A query of the current connection.
  abbrev pub query : {A : Type 0} → (e.Db → Result A) → Action e A
  query q w = (q w.db, w)

  abbrev pub write_db : {A : Type 0} → Result (e.Db × A) → Action e A
  write_db (ok (d, a)) w = (ok a, record w { db = d })
  write_db (err x) w = (err x, w)
  write_db panic w = (panic, w)

  -- What a last `return` of a value leaves.
  continue-pure_state :
      {A B : Type 0} (r : Result A) (b : B) (w : World e) → (continue r (λ _. pure b) w).1 ≡ w
  continue-pure_state (ok a) b w = refl
  continue-pure_state (err x) b w = refl
  continue-pure_state panic b w = refl

  pub then-pure_state :
      {B : Type 0} (m : Action e (Unit {0})) (b : B) (w : World e) → ((m >> pure b) w).1 ≡ (m w).1
  then-pure_state m b w = continue-pure_state (m w).0 b (m w).1

  continue-eq-ok :
      {A B : Type 0} (r : Result A) (f : A → Action e B) (w : World e) {b : B} {w' : World e}
      → continue r f w ≡ (ok b, w')
      → (a : A) × (r ≡ ok a) × (f a w ≡ (ok b, w'))
  continue-eq-ok (ok a) f w h = (a, refl, h)
  continue-eq-ok (err x) f w h = cc (ap (λ p. p.0) h)
  continue-eq-ok panic f w h = cc (ap (λ p. p.0) h)

  -- Inversion of a block that returned a value.
  pub >>=-eq-ok :
      {A B : Type 0} (m : Action e A) (f : A → Action e B) (w : World e) {b : B} {w' : World e}
      → (m >>= f) w ≡ (ok b, w')
      → (a : A) × ((m w).0 ≡ ok a) × (f a (m w).1 ≡ (ok b, w'))
  >>=-eq-ok m f w h = continue-eq-ok (m w).0 f (m w).1 h
