-- ===== src/Api/Frame.antt =====
-- What the methods leave alone: the password cache and the pool.
use shark_42tokyo_tuning.Prelude.{
  ◌≡◌, refl, ap, ◌∙◌, inl, inr, String, none, some, List, [], ◌∷◌, Result, ok, err, panic,
  Result-cases,
}
use shark_42tokyo_tuning.Prelude.Int.{ℤ}
use shark_42tokyo_tuning.Model.{Order, RequestItem}
use shark_42tokyo_tuning.Env.{Env, Slice, elems}
use shark_42tokyo_tuning.World.{
  Conn, pool, tx, World, Action, continue, ◌>>=◌, lift, then-pure_state,
}
use shark_42tokyo_tuning.Delivery.{best_select_orders_for_delivery}
use shark_42tokyo_tuning.Repository.Store.{exec_tx, on_conn, in_tx, finish_tx, commit_tx}
use shark_42tokyo_tuning.Repository.Order.{
  get_shipping_orders, read_shipping, update_statuses, batch_create,
}
use shark_42tokyo_tuning.Service.Robot.{mark_delivering, deliver, plan_delivery}
use shark_42tokyo_tuning.Repository.Order.Coherent.{shipping}
use shark_42tokyo_tuning.Repository.Order.Methods.{update_statuses_cases, batch_create_cases}
use shark_42tokyo_tuning.Repository.Store.Transaction.{exec_tx-TxOutcome}
use shark_42tokyo_tuning.Service.Product.{insert_all, orders_to_create, create_orders}

module _ {e : Env} where
  -- An action that keeps a relation between the state before and the state after.
  abbrev pub Keeps : (World e → World e → Type 0) → {A : Type 0} → Action e A → Type 0
  Keeps R m = (w : World e) → R w (m w).1

  abbrev pub SamePasswords : World e → World e → Type 0
  SamePasswords w w' = w'.password_cache ≡ w.password_cache

  continue-SamePasswords :
      {A B : Type 0} (r : Result A) (f : A → Action e B) (w v : World e)
      → SamePasswords w v
      → ((a : A) → Keeps SamePasswords (f a))
      → SamePasswords w (continue r f v).1
  continue-SamePasswords (ok a) f w v h k = k a v ∙ h
  continue-SamePasswords (err x) f w v h k = h
  continue-SamePasswords panic f w v h k = h

  pub >>=-SamePasswords :
      {A B : Type 0} (m : Action e A) (f : A → Action e B)
      → Keeps SamePasswords m
      → ((a : A) → Keeps SamePasswords (f a))
      → Keeps SamePasswords (m >>= f)
  >>=-SamePasswords m f h k w = continue-SamePasswords (m w).0 f w (m w).1 (h w) k

  finish_tx-SamePasswords :
      {A : Type 0} (base : e.Db) (r : Result A) (w v : World e)
      → SamePasswords w v
      → SamePasswords w (finish_tx base r v).1
  unfolding finish_tx commit_tx
  finish_tx-SamePasswords base (ok a) w v h = elim (Result-cases (e.commit base v.db)) [
    | inl (d, c) ↦ rw (c, commit_tx) h
    | inr (inl (x, c)) ↦ rw (c, commit_tx) h
    | inr (inr c) ↦ rw (c, commit_tx) h
  ]
  finish_tx-SamePasswords base (err x) w v h = h
  finish_tx-SamePasswords base panic w v h = h

  in_tx-SamePasswords :
      {A : Type 0} (r : Result e.Db) (fn : Action e A)
      → Keeps SamePasswords fn
      → Keeps SamePasswords (in_tx r fn)
  unfolding in_tx
  in_tx-SamePasswords (ok d) fn h w =
      finish_tx-SamePasswords w.db _ w _ (h (record w { conn = tx; db = d }))
  in_tx-SamePasswords (err x) fn h w = refl
  in_tx-SamePasswords panic fn h w = refl

  on_conn-SamePasswords :
      {A : Type 0} (c : Conn) (fn : Action e A)
      → Keeps SamePasswords fn
      → Keeps SamePasswords (on_conn c fn)
  unfolding on_conn
  on_conn-SamePasswords pool fn h w = in_tx-SamePasswords (e.begin w.db) fn h w
  on_conn-SamePasswords tx fn h w = h w

  pub exec_tx-SamePasswords :
      {A : Type 0} (fn : Action e A) → Keeps SamePasswords fn → Keeps SamePasswords (exec_tx fn)
  unfolding exec_tx
  exec_tx-SamePasswords fn h w = on_conn-SamePasswords w.conn fn h w

  pub update_statuses-SamePasswords :
      (ids : List ℤ) (status : String) → Keeps SamePasswords (update_statuses ids status)
  unfolding update_statuses
  update_statuses-SamePasswords [] status w = refl
  update_statuses-SamePasswords (i ∷ is) status w = elim (update_statuses_cases i is status w) [
    | inl (same, _) ↦ ap (λ (v : World e). v.password_cache) same
    | inr (u, _) ↦ ap (λ (v : World e). v.password_cache) u.left
  ]

  batch_create-SamePasswords : (os : List Order) → Keeps SamePasswords (batch_create os)
  batch_create-SamePasswords os w = elim (batch_create_cases os w) [
    | inl same ↦ ap (λ (v : World e). v.password_cache) same
    | inr i ↦ ap (λ (v : World e). v.password_cache) i.left
  ]

  read_shipping-SamePasswords :
      (c : Slice Order) (ver : ℤ) → Keeps SamePasswords (read_shipping c ver)
  unfolding read_shipping
  read_shipping-SamePasswords (some l) ver w = refl
  read_shipping-SamePasswords none ver w = elim (Result-cases (shipping e w.db)) [
    | inl (orders, q) ↦ rw q refl
    | inr (inl (x, q)) ↦ rw q refl
    | inr (inr q) ↦ rw q refl
  ]

  mark_delivering-SamePasswords : (os : List Order) → Keeps SamePasswords (mark_delivering os)
  unfolding mark_delivering
  mark_delivering-SamePasswords [] w = refl
  mark_delivering-SamePasswords (o ∷ os) w = update_statuses-SamePasswords _ "delivering" w

  deliver-SamePasswords :
      (robot_id : String) (capacity : ℤ) (orders : Slice Order)
      → Keeps SamePasswords (deliver robot_id capacity orders)
  unfolding deliver
  deliver-SamePasswords robot_id capacity orders w =
      elim (Result-cases (best_select_orders_for_delivery (elems orders) robot_id capacity)) [
        | inl (plan, p) ↦
            rw (p, then-pure_state (mark_delivering plan.orders) plan w)
              (mark_delivering-SamePasswords plan.orders w)
        | inr (inl (x, p)) ↦ rw p refl
        | inr (inr p) ↦ rw p refl
      ]

  pub plan_delivery-SamePasswords :
      (robot_id : String) (capacity : ℤ) → Keeps SamePasswords (plan_delivery robot_id capacity)
  unfolding plan_delivery get_shipping_orders
  plan_delivery-SamePasswords robot_id capacity =
      >>=-SamePasswords get_shipping_orders (deliver robot_id capacity)
        (λ w. read_shipping-SamePasswords _ _ w) (deliver-SamePasswords robot_id capacity)

  insert_all-SamePasswords : (os : List Order) → Keeps SamePasswords (insert_all os)
  unfolding insert_all
  insert_all-SamePasswords [] w = refl
  insert_all-SamePasswords (o ∷ os) w = batch_create-SamePasswords (o ∷ os) w

  pub create_orders-SamePasswords :
      (user_id : ℤ) (items : List RequestItem) → Keeps SamePasswords (create_orders user_id items)
  unfolding create_orders
  create_orders-SamePasswords user_id items = exec_tx-SamePasswords _ (
      >>=-SamePasswords (lift (orders_to_create e.lo user_id items)) insert_all (λ w. refl)
        insert_all-SamePasswords)

  -- A transaction that is begun from the pool leaves the pool.
  pub exec_tx-pooled :
      {A : Type 0} (fn : Action e A) (w : World e) → w.conn ≡ pool → ((exec_tx fn w).1).conn ≡ pool
  exec_tx-pooled fn w h = elim (exec_tx-TxOutcome fn w h) [
    | inl (a, p, c) ↦ ap (λ (v : World e). v.conn) c.result
    | inr (d, p, q, s) ↦ p
  ]
