-- ===== src/Service/Robot/Plan.antt =====
-- What `GenerateDeliveryPlan` returns, and what it has written then.
use mathlib.Core.Path.{subst}
use shark_42tokyo_tuning.Prelude.{
  ℕ, ◌+◌, ◌^◌, ◌<◌, ◌≡◌, refl, sym, ap, ◌∙◌, inl, inr, String, List, [], ◌∷◌, Result, ok,
}
use shark_42tokyo_tuning.Prelude.Int.{ℤ, pos}
use shark_42tokyo_tuning.Model.{Order, DeliveryPlan}
use shark_42tokyo_tuning.Env.{Env, Arg, Slice, elems}
use shark_42tokyo_tuning.World.{pool, tx, World, >>=-eq-ok, lift}
use shark_42tokyo_tuning.Repository.Store.Transaction.{exec_tx-TxOutcome}
use shark_42tokyo_tuning.Repository.Order.{update_query, get_shipping_orders}
use shark_42tokyo_tuning.Repository.Order.Coherent.{shipping, DbLaws, Serves, Serves-reads}
use shark_42tokyo_tuning.Repository.Order.Methods.{
  update_statuses_cases, get_shipping_orders-ReadsThrough,
}
use shark_42tokyo_tuning.Delivery.{best_select_orders_for_delivery}
use shark_42tokyo_tuning.Delivery.Selection.{values}
use shark_42tokyo_tuning.Delivery.Optimal.{IsOptimal, best_select_cases}
use shark_42tokyo_tuning.Service.Timeout.{finishes, with_timeout}
use shark_42tokyo_tuning.Service.Robot.{
  order_ids, mark_delivering, deliver, plan_delivery, generate_delivery_plan,
}

module _ (e : Env) where
  -- The planned orders have been set to "delivering" by one statement on the database `d`, which
  -- gave `d'`; a plan with no orders writes nothing.
  pub data Marked (orders : List Order) (d d' : e.Db) : Type 0 where
    nothing : orders ≡ [] → d' ≡ d → Marked orders d d'
    updated :
        (sql : String) (args : List Arg)
        → e.sqlx_in update_query "delivering" (order_ids orders) ≡ ok (sql, args)
        → e.exec d (e.rebind sql) args ≡ ok d'
        → Marked orders d d'

-- The plan that the call returns is an optimal one.
selected-IsOptimal :
    (orders : List Order) (robot_id : String) (capacity : ℕ) (plan : DeliveryPlan)
    → capacity + 1 < 2 ^ 63
    → values orders < 2 ^ 63
    → best_select_orders_for_delivery orders robot_id (pos capacity) ≡ ok plan
    → IsOptimal orders robot_id capacity plan
selected-IsOptimal orders robot_id capacity plan small_w small_v h =
    elim (best_select_cases orders robot_id capacity small_w small_v) [
      | inl (found, returned, optimal) ↦
          let same : found ≡ plan = cc in subst (IsOptimal orders robot_id capacity) same optimal
      | inr (_, panics) ↦ cc (panics, h)
    ]

module _ {e : Env} where
  mark_delivering-Marked :
      (os : List Order) (w : World e)
      → (mark_delivering os w).0 ≡ ok tt
      → Marked e os w.db ((mark_delivering os w).1).db
  unfolding mark_delivering
  mark_delivering-Marked [] w h = nothing refl refl
  mark_delivering-Marked (o ∷ os) w h =
      elim (update_statuses_cases o.order_id (order_ids os) "delivering" w) [
        | inl (_, failed) ↦ absurd (failed h)
        | inr (u, _) ↦ rw u.left (updated u.sql u.args u.built u.written)
      ]

  deliver-eq-ok :
      (robot_id : String) (capacity : ℤ) (orders : Slice Order) (w : World e) {plan : DeliveryPlan}
      {w' : World e}
      → deliver robot_id capacity orders w ≡ (ok plan, w')
      → (best_select_orders_for_delivery (elems orders) robot_id capacity ≡ ok plan)
        × Marked e plan.orders w.db w'.db
  unfolding deliver
  deliver-eq-ok robot_id capacity orders w {plan} {w'} h =
      let (p, selected, rest) =
        >>=-eq-ok (lift (best_select_orders_for_delivery (elems orders) robot_id capacity)) _ w h in
      let (_, done, last) = >>=-eq-ok (mark_delivering p.orders) _ w rest in
      let same_plan : p ≡ plan = cc (ap (λ (r : Result DeliveryPlan × World e). r.0) last) in
      rw (← same_plan, ← ap (λ (r : Result DeliveryPlan × World e). r.1) last)
        (selected, mark_delivering-Marked p.orders w done)

  pub plan_delivery-eq-ok :
      (robot_id : String) (capacity : ℤ) (w : World e) {plan : DeliveryPlan} {w' : World e}
      → Serves e w.db w.order_state
      → plan_delivery robot_id capacity w ≡ (ok plan, w')
      → (orders : Slice Order) × (shipping e w.db ≡ ok orders)
        × (best_select_orders_for_delivery (elems orders) robot_id capacity ≡ ok plan)
        × Marked e plan.orders w.db w'.db
  unfolding plan_delivery
  plan_delivery-eq-ok robot_id capacity w {plan} {w'} serves h =
      let (orders, read, rest) = >>=-eq-ok get_shipping_orders (deliver robot_id capacity) w h in
      let (through, (s, left, _)) = get_shipping_orders-ReadsThrough w serves in
      let (selected, marked) =
        deliver-eq-ok robot_id capacity orders (get_shipping_orders w).1 rest in
      (
        orders,
        sym through ∙ read,
        selected,
        subst (λ d. Marked e plan.orders d w'.db) (ap (λ (v : World e). v.db) left) marked,
      )

  -- From the pool, with caches that serve a database with the laws `DbLaws`, and with a capacity and
  -- values whose sums fit an int: a plan that is returned in time is an optimal one for the orders
  -- that the database has to ship, and the committed transaction, begun as `begun`, has set the
  -- orders of the plan to "delivering" by one statement for their ids, if there are any.
  pub generate_delivery_plan-IsOptimal :
      (laws : DbLaws e) (robot_id : String) (capacity : ℕ) (w w' : World e) (plan : DeliveryPlan)
      → w.conn ≡ pool
      → Serves e w.db w.order_state
      → capacity + 1 < 2 ^ 63
      → ((orders : Slice Order) → shipping e w.db ≡ ok orders → values (elems orders) < 2 ^ 63)
      → generate_delivery_plan finishes robot_id (pos capacity) w ≡ (ok plan, w')
      → (orders : Slice Order) × (shipping e w.db ≡ ok orders)
        × IsOptimal (elems orders) robot_id capacity plan
        × ((begun marked : e.Db) × (e.begin w.db ≡ ok begun)
            × Marked e plan.orders begun marked
            × (e.commit w.db marked ≡ ok w'.db))
  unfolding generate_delivery_plan with_timeout
  generate_delivery_plan-IsOptimal laws robot_id capacity w w' plan h serves small_w small_v run =
      elim (exec_tx-TxOutcome (plan_delivery robot_id (pos capacity)) w h) [
        | inl (a, p, c) ↦
            let same_plan : a ≡ plan =
              cc (p, ap (λ (r : Result DeliveryPlan × World e). r.0) run) in
            let same_db : c.db' ≡ w'.db =
              sym (ap (λ (v : World e). v.db) c.result)
              ∙ ap (λ (r : Result DeliveryPlan × World e). (r.1).db) run in
            let begun = laws.begin_reads w.db c.begun c.begin_ok in
            let (orders, read, selected, marked) =
              plan_delivery-eq-ok robot_id (pos capacity) (record w { conn = tx; db = c.begun })
                (Serves-reads begun serves) c.ran in
            let read' : shipping e w.db ≡ ok orders = begun.shipping_eq ∙ read in
            (
              orders,
              read',
              selected-IsOptimal (elems orders) robot_id capacity plan small_w
                  (small_v orders read') (selected ∙ ap ok same_plan),
              (
                c.begun,
                c.left.db,
                c.begin_ok,
                subst (λ (q : DeliveryPlan). Marked e q.orders c.begun c.left.db) same_plan marked,
                c.commit_ok ∙ ap ok same_db,
              ),
            )
        | inr (_, _, failed, _) ↦
            absurd (failed plan (ap (λ (r : Result DeliveryPlan × World e). r.0) run))
      ]
