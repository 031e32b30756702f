-- ===== src/Service/Product/Wanted.antt =====
-- The orders that `CreateOrders` of webapp/backend/internal/service/product.go inserts.
use mathlib.Core.Path.{subst}
use shark_42tokyo_tuning.Prelude.{
  ℕ, ◌≡◌, ◌≢◌, refl, sym, ap, ◌∙◌, inl, inr, List, [], ◌∷◌, ◌++◌, replicate, none, Result, ok,
  Result-cases,
}
use shark_42tokyo_tuning.Prelude.Int.{ℤ, pos}
use shark_42tokyo_tuning.Model.{Order, RequestItem}
use shark_42tokyo_tuning.Env.{Env, Lo, SqlResult}
use shark_42tokyo_tuning.World.{pool, tx, World, Action, >>=-eq-ok, ◌>>=◌, lift, pure}
use shark_42tokyo_tuning.Repository.Store.Transaction.{exec_tx-TxOutcome}
use shark_42tokyo_tuning.Repository.Order.{
  insert_query, inserted_ids, rows_of, insert_orders, on_update_orders, batch_create,
}
use shark_42tokyo_tuning.Service.Product.{orders_to_create, insert_all, create_orders}

-- An order of a product for a user, and nothing else.
abbrev pub order_for : (user_id product_id : ℤ) → Order
order_for user product = record {
  order_id = pos 0;
  user_id = user;
  product_id = product;
  product_name = "";
  shipped_status = "";
  weight = pos 0;
  value = pos 0;
  created_at = 0;
  arrived_at = none;
}

-- The orders that a request stands for: `quantity` of each item, in the request's order.
abbrev pub wanted : (user_id : ℤ) → List (ℤ × ℕ) → List Order
wanted user_id [] = []
wanted user_id ((product_id, n) ∷ items) =
    replicate n (order_for user_id product_id) ++ wanted user_id items

abbrev pub item_of : ℤ × ℕ → RequestItem
item_of (product_id, n) = record { product_id = product_id; quantity = pos n }

abbrev pub items_of : List (ℤ × ℕ) → List RequestItem
items_of [] = []
items_of (i ∷ is) = item_of i ∷ items_of is

orders_to_create-eq-wanted :
    (lo : Lo) (user_id : ℤ) (items : List (ℤ × ℕ))
    → orders_to_create lo user_id (items_of items) ≡ ok (wanted user_id items)
unfolding orders_to_create
orders_to_create-eq-wanted lo user_id [] = lo.flat_map-nil _
orders_to_create-eq-wanted lo user_id ((product_id, n) ∷ items) = rw (
  lo.flat_map-cons,
  lo.repeat_by-pos n (order_for user_id product_id),
  orders_to_create-eq-wanted lo user_id items,
)

ok_inj : {A : Type 0} {a b : A} → ◌≡◌ {A = Result A} (ok a) (ok b) → a ≡ b
ok_inj p = cc

module _ (e : Env) where
  -- The database has taken the orders by one statement, and `ids` are those that it gave them;
  -- without orders it has taken none.
  pub data Ordered (orders : List Order) (ids : List ℤ) (d d' : e.Db) : Type 0 where
    nothing : orders ≡ [] → ids ≡ [] → d' ≡ d → Ordered orders ids d d'
    inserted :
        (result : SqlResult) (last_id rows : ℤ)
        → orders ≢ []
        → e.named_exec d insert_query orders ≡ ok (d', result)
        → result.last_insert_id ≡ ok last_id
        → result.rows_affected ≡ ok rows
        → ids ≡ inserted_ids last_id (rows_of rows) 0
        → Ordered orders ids d d'

module _ {e : Env} where
  -- The end of an insert.
  abbrev read_ids : SqlResult → Action e (List ℤ)
  read_ids result = do
    last_id ← lift (result.last_insert_id)
    rows ← lift (result.rows_affected)
    pure (inserted_ids last_id (rows_of rows) 0)

  read_ids-Ordered :
      (o : Order) (os : List Order) (result : SqlResult) (d : e.Db) (w : World e) {ids : List ℤ}
      {w' : World e}
      → e.named_exec d insert_query (o ∷ os) ≡ ok (w.db, result)
      → read_ids result w ≡ (ok ids, w')
      → Ordered e (o ∷ os) ids d w'.db
  read_ids-Ordered o os result d w {ids} {w'} written h =
      let (last_id, last_eq, rest) = >>=-eq-ok (lift (result.last_insert_id)) _ w h in
      let (rows, rows_eq, end) = >>=-eq-ok (lift (result.rows_affected)) _ w rest in
      let same : w.db ≡ w'.db = ap (λ (p : Result (List ℤ) × World e). (p.1).db) end in
      inserted result last_id rows (λ p. cc) (written ∙ ap (λ d'. ok (d', result)) same) last_eq
        rows_eq (ok_inj (sym (ap (λ (p : Result (List ℤ) × World e). p.0) end)))

  insert_orders-Ordered :
      (o : Order) (os : List Order) (w : World e) {ids : List ℤ} {w' : World e}
      → insert_orders tx (o ∷ os) w ≡ (ok ids, w')
      → Ordered e (o ∷ os) ids w.db w'.db
  unfolding insert_orders on_update_orders
  insert_orders-Ordered o os w h = elim (Result-cases (e.named_exec w.db insert_query (o ∷ os))) [
    | inl ((d, result), written) ↦ read_ids-Ordered o os result w.db _ written (rw written at h)
    | inr (inl (x, failed)) ↦ cc (rw failed at (ap (λ (p : Result (List ℤ) × World e). p.0) h))
    | inr (inr failed) ↦ cc (rw failed at (ap (λ (p : Result (List ℤ) × World e). p.0) h))
  ]

  insert_all-Ordered :
      (os : List Order) (w : World e) (d : e.Db) {ids : List ℤ} {w' : World e}
      → insert_all os (record w { conn = tx; db = d }) ≡ (ok ids, w')
      → Ordered e os ids d w'.db
  unfolding insert_all batch_create
  insert_all-Ordered [] w d h =
      nothing refl (ok_inj (sym (ap (λ (p : Result (List ℤ) × World e). p.0) h)))
        (sym (ap (λ (p : Result (List ℤ) × World e). (p.1).db) h))
  insert_all-Ordered (o ∷ os) w d h = insert_orders-Ordered o os (record w { conn = tx; db = d }) h

  -- From the pool, if no quantity is negative: when `CreateOrders` returns ids, one transaction,
  -- begun as `begun`, has been committed, in which one statement has inserted exactly the wanted
  -- orders, as many of each item's product as its quantity and all for the user, and the ids are those
  -- that the statement's result stands for; where none are wanted, nothing is inserted.
  pub create_orders-Ordered :
      (user_id : ℤ) (items : List (ℤ × ℕ)) (w w' : World e) (ids : List ℤ)
      → w.conn ≡ pool
      → create_orders user_id (items_of items) w ≡ (ok ids, w')
      → (begun left : e.Db) × (e.begin w.db ≡ ok begun)
        × Ordered e (wanted user_id items) ids begun left
        × (e.commit w.db left ≡ ok w'.db)
  unfolding create_orders
  create_orders-Ordered user_id items w w' ids h run =
      let fn : Action e (List ℤ) =
        lift (orders_to_create e.lo user_id (items_of items)) >>= insert_all in
      elim (exec_tx-TxOutcome fn w h) [
        | inl (a, p, c) ↦
            let same_ids : a ≡ ids =
              ok_inj (sym p ∙ ap (λ (r : Result (List ℤ) × World e). r.0) run) in
            let same_db : c.db' ≡ w'.db =
              sym (ap (λ (v : World e). v.db) c.result)
              ∙ ap (λ (r : Result (List ℤ) × World e). (r.1).db) run in
            let (orders, made, ran) =
              >>=-eq-ok (lift (orders_to_create e.lo user_id (items_of items))) insert_all
                (record w { conn = tx; db = c.begun }) c.ran in
            let same : orders ≡ wanted user_id items =
              ok_inj (sym made ∙ orders_to_create-eq-wanted e.lo user_id items) in
            (
              c.begun,
              (c.left).db,
              c.begin_ok,
              subst (λ os. Ordered e os ids c.begun (c.left).db) same
                  (subst (λ is. Ordered e orders is c.begun (c.left).db) same_ids
                    (insert_all-Ordered orders w c.begun ran)),
              c.commit_ok ∙ ap ok same_db,
            )
        | inr (_, _, failed, _) ↦
            absurd (failed ids (ap (λ (r : Result (List ℤ) × World e). r.0) run))
      ]
