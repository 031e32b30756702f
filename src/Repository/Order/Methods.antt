-- ===== src/Repository/Order/Methods.antt =====
-- What each method of the order repository leaves in the state and in the caches.
use shark_42tokyo_tuning.Prelude.{
  ◌≡◌, refl, sym, inl, inr, ◌⊎◌, String, Option, none, some, List, [], ◌∷◌, map, Result, ok, err,
  panic, Result-cases, ◌≢◌,
}
use shark_42tokyo_tuning.Prelude.Int.{ℤ, lookup}
use shark_42tokyo_tuning.Model.{Order}
use shark_42tokyo_tuning.Env.{Env, Arg, Slice, SqlResult}
use shark_42tokyo_tuning.World.{Conn, pool, tx, OrderRepoState, World, Action, continue}
use shark_42tokyo_tuning.Repository.Order.{
  insert_query, update_query, drop_shipping, counts_dropped, store_shipping, update_statuses,
  batch_create, get_shipping_orders, cached_count, read_shipping, count_from, insert_orders,
}
use shark_42tokyo_tuning.Repository.Order.Coherent.{
  shipping, count_of, Serves, Serves-store_shipping, Serves-count,
}

module _ {e : Env} where
  -- An update of statuses either leaves the state as it was, or has written the rows and dropped
  -- the cached list.
  pub record Updated (ids : List ℤ) (status : String) (w w' : World e) : Type 0 where
    pub sql : String
    pub args : List Arg
    pub db' : e.Db
    pub built : e.sqlx_in update_query status ids ≡ ok (sql, args)
    pub written : e.exec w.db (e.rebind sql) args ≡ ok db'
    pub left : w' ≡ record w { db = db'; order_state = drop_shipping w.order_state }

  written_cases :
      (i : ℤ) (is : List ℤ) (status : String) (w : World e) (q : String) (args : List Arg)
      → e.sqlx_in update_query status (i ∷ is) ≡ ok (q, args)
      → ((update_statuses (i ∷ is) status w).1 ≡ w)
          × ((update_statuses (i ∷ is) status w).0 ≢ ok tt)
        ⊎ Updated (i ∷ is) status w (update_statuses (i ∷ is) status w).1
          × ((update_statuses (i ∷ is) status w).0 ≡ ok tt)
  unfolding update_statuses
  written_cases i is status w q args built = elim (Result-cases (e.exec w.db (e.rebind q) args)) [
    | inl (d, written) ↦
        rw (built, written)
          (inr (
            record { sql = q; args = args; db' = d; built = built; written = written; left = refl },
            refl,
          ))
    | inr (inl (x, f)) ↦ rw (built, f) (inl (refl, λ p. cc))
    | inr (inr f) ↦ rw (built, f) (inl (refl, λ p. cc))
  ]

  pub update_statuses_cases :
      (i : ℤ) (is : List ℤ) (status : String) (w : World e)
      → ((update_statuses (i ∷ is) status w).1 ≡ w)
          × ((update_statuses (i ∷ is) status w).0 ≢ ok tt)
        ⊎ Updated (i ∷ is) status w (update_statuses (i ∷ is) status w).1
          × ((update_statuses (i ∷ is) status w).0 ≡ ok tt)
  unfolding update_statuses
  update_statuses_cases i is status w =
      elim (Result-cases (e.sqlx_in update_query status (i ∷ is))) [
        | inl ((q, args), built) ↦ written_cases i is status w q args built
        | inr (inl (x, f)) ↦ rw f (inl (refl, λ p. cc))
        | inr (inr f) ↦ rw f (inl (refl, λ p. cc))
      ]

  -- An insert either leaves the state as it was, or has written the rows and dropped the cached
  -- list and the users' counts.
  pub record Inserted (orders : List Order) (w w' : World e) : Type 0 where
    pub db' : e.Db
    pub result : SqlResult
    pub written : e.named_exec w.db insert_query orders ≡ ok (db', result)
    pub left : w' ≡ record w {
      db = db';
      order_state = counts_dropped (e.lo).uniq (map (λ o. o.user_id) orders) w.order_state;
    }

  continue_state :
      {A B : Type 0} (r : Result A) (f : A → Action e B) (w : World e)
      → ((a : A) → (f a w).1 ≡ w)
      → (continue r f w).1 ≡ w
  continue_state (ok a) f w h = h a
  continue_state (err x) f w h = refl
  continue_state panic f w h = refl

  insert_orders_cases :
      (c : Conn) (os : List Order) (w : World e)
      → ((insert_orders c os w).1 ≡ w) ⊎ Inserted os w (insert_orders c os w).1
  unfolding insert_orders
  insert_orders_cases pool os w = inl refl
  insert_orders_cases tx os w = elim (Result-cases (e.named_exec w.db insert_query os)) [
    | inl ((d, r), written) ↦ rw written (
        inr (record {
          db' = d;
          result = r;
          written = written;
          left =
              continue_state r.last_insert_id _ _
                λ last_id. continue_state r.rows_affected _ _ λ rows. refl;
        }))
    | inr (inl (x, f)) ↦ rw f (inl refl)
    | inr (inr f) ↦ rw f (inl refl)
  ]

  pub batch_create_cases :
      (os : List Order) (w : World e)
      → ((batch_create os w).1 ≡ w) ⊎ Inserted os w (batch_create os w).1
  unfolding batch_create
  batch_create_cases [] w = inl refl
  batch_create_cases (o ∷ os) w = insert_orders_cases w.conn (o ∷ os) w

  -- `m` returns what the database reads and leaves caches that serve it.
  abbrev pub ReadsThrough : {A : Type 0} → Action e A → (e.Db → Result A) → World e → Type 0
  ReadsThrough m q w =
      ((m w).0 ≡ q w.db)
      × ((s : OrderRepoState) × ((m w).1 ≡ record w { order_state = s }) × Serves e w.db s)

  read_shipping_lem :
      (c : Slice Order) (ver : ℤ) (w : World e)
      → ((l : List Order) → c ≡ some l → shipping e w.db ≡ ok (some l))
      → Serves e w.db w.order_state
      → ReadsThrough (read_shipping c ver) (shipping e) w
  unfolding read_shipping
  read_shipping_lem (some l) ver w held h = (sym (held l refl), (w.order_state, refl, h))
  read_shipping_lem none ver w held h = elim (Result-cases (shipping e w.db)) [
    | inl (orders, q) ↦ rw q (
      refl,
      (store_shipping ver orders w.order_state, refl, Serves-store_shipping ver orders q h),
    )
    | inr (inl (x, q)) ↦ rw q (refl, (w.order_state, refl, h))
    | inr (inr q) ↦ rw q (refl, (w.order_state, refl, h))
  ]

  -- With caches that serve the database, `GetShippingOrders` returns what its query reads there,
  -- from the cache or not; it changes nothing but the caches, and they serve the database after it.
  pub get_shipping_orders-ReadsThrough :
      (w : World e) → Serves e w.db w.order_state → ReadsThrough get_shipping_orders (shipping e) w
  unfolding get_shipping_orders
  get_shipping_orders-ReadsThrough w h =
      read_shipping_lem w.order_state.shipping_orders_cache w.order_state.shipping_orders_version w
        h.shipping_held h

  count_from_lem :
      (u : ℤ) (c : Option ℤ) (w : World e)
      → ((n : ℤ) → c ≡ some n → count_of e u w.db ≡ ok n)
      → Serves e w.db w.order_state
      → ReadsThrough (count_from c u) (count_of e u) w
  unfolding count_from
  count_from_lem u (some n) w held h = (sym (held n refl), (w.order_state, refl, h))
  count_from_lem u none w held h = elim (Result-cases (count_of e u w.db)) [
    | inl (n, q) ↦ rw q (refl, (_, refl, Serves-count u n q h))
    | inr (inl (x, q)) ↦ rw q (refl, (w.order_state, refl, h))
    | inr (inr q) ↦ rw q (refl, (w.order_state, refl, h))
  ]

  -- With caches that serve the database, the total of a list without a search is the count that the
  -- database reads; only the caches change, and they serve the database after it.
  pub cached_count-ReadsThrough :
      (u : ℤ) (w : World e)
      → Serves e w.db w.order_state
      → ReadsThrough (cached_count u) (count_of e u) w
  unfolding cached_count
  cached_count-ReadsThrough u w h =
      count_from_lem u (lookup u w.order_state.count_by_user) w (h.count_held u) h
