-- ===== src/Service/Robot/Coherent.antt =====
-- The robot's methods, and the caches of the order repository against the database.
use shark_42tokyo_tuning.Prelude.{
  ◌≡◌, inl, inr, String, List, [], ◌∷◌, Result, ok, err, panic, Result-cases,
}
use shark_42tokyo_tuning.Prelude.Int.{ℤ}
use shark_42tokyo_tuning.Model.{Order}
use shark_42tokyo_tuning.Env.{Env, Slice, elems}
use shark_42tokyo_tuning.World.{pool, World, continue, then-pure_state}
use shark_42tokyo_tuning.Repository.Store.Transaction.{ServesBoth, exec_tx-Serves}
use shark_42tokyo_tuning.Repository.Order.{get_shipping_orders}
use shark_42tokyo_tuning.Repository.Order.Coherent.{DbLaws, Serves, Serves-reads, SameReads-sym}
use shark_42tokyo_tuning.Repository.Order.Methods.{get_shipping_orders-ReadsThrough}
use shark_42tokyo_tuning.Repository.Order.Serves.{update_statuses-Serves}
use shark_42tokyo_tuning.Delivery.{best_select_orders_for_delivery}
use shark_42tokyo_tuning.Service.Timeout.{Race, finishes, expires, with_timeout}
use shark_42tokyo_tuning.Service.Robot.{
  order_ids, mark_delivering, deliver, plan_delivery, generate_delivery_plan, update_order_status,
}

module _ {e : Env} (laws : DbLaws e) where
  mark_delivering-Serves :
      (os : List Order) (w : World e) (base : e.Db)
      → Serves e base w.order_state
      → Serves e w.db w.order_state
      → let w' = (mark_delivering os w).1 in
        Serves e base w'.order_state × Serves e w'.db w'.order_state
  unfolding mark_delivering
  mark_delivering-Serves [] w base hb hw = (hb, hw)
  mark_delivering-Serves (o ∷ os) w base hb hw =
      update_statuses-Serves laws (order_ids (o ∷ os)) "delivering" w base hb hw

  -- What follows the read of the orders.
  planned-Serves :
      (r : Result (Slice Order)) (robot_id : String) (capacity : ℤ) (w : World e) (base : e.Db)
      → Serves e base w.order_state
      → Serves e w.db w.order_state
      → let w' = (continue r (deliver robot_id capacity) w).1 in
        Serves e base w'.order_state × Serves e w'.db w'.order_state
  unfolding deliver
  planned-Serves (err x) robot_id capacity w base hb hw = (hb, hw)
  planned-Serves panic robot_id capacity w base hb hw = (hb, hw)
  planned-Serves (ok orders) robot_id capacity w base hb hw =
      elim (Result-cases (best_select_orders_for_delivery (elems orders) robot_id capacity)) [
        | inl (plan, p) ↦
            rw (p, then-pure_state (mark_delivering plan.orders) plan w)
              (mark_delivering-Serves plan.orders w base hb hw)
        | inr (inl (x, p)) ↦ rw p (hb, hw)
        | inr (inr p) ↦ rw p (hb, hw)
      ]

  plan_delivery-ServesBoth :
      (robot_id : String) (capacity : ℤ) → ServesBoth {e = e} (plan_delivery robot_id capacity)
  unfolding plan_delivery
  plan_delivery-ServesBoth robot_id capacity w base same serves =
      let (read, (s, left, sw)) = get_shipping_orders-ReadsThrough w (Serves-reads same serves) in
      rw left (
        planned-Serves (get_shipping_orders w).0 robot_id capacity (record w { order_state = s })
          base (Serves-reads (SameReads-sym same) sw) sw)

  -- Whatever `GenerateDeliveryPlan` returns from the pool, and whether or not it was in time, caches
  -- that served the database still do, if the database has the laws `DbLaws`.
  pub generate_delivery_plan-Serves :
      (race : Race) (robot_id : String) (capacity : ℤ) (w : World e)
      → w.conn ≡ pool
      → Serves e w.db w.order_state
      → let w' = (generate_delivery_plan race robot_id capacity w).1 in
        Serves e w'.db w'.order_state
  unfolding generate_delivery_plan with_timeout
  generate_delivery_plan-Serves finishes robot_id capacity w h serves =
      exec_tx-Serves laws (plan_delivery robot_id capacity) w
        (plan_delivery-ServesBoth robot_id capacity) h serves
  generate_delivery_plan-Serves expires robot_id capacity w h serves =
      exec_tx-Serves laws (plan_delivery robot_id capacity) w
        (plan_delivery-ServesBoth robot_id capacity) h serves

  -- Whatever `UpdateOrderStatus` returns, and whether or not it was in time, caches that served the
  -- database still do, if the database has the laws `DbLaws`.
  pub update_order_status-Serves :
      (race : Race) (order_id : ℤ) (status : String) (w : World e)
      → Serves e w.db w.order_state
      → let w' = (update_order_status race order_id status w).1 in Serves e w'.db w'.order_state
  unfolding update_order_status with_timeout
  update_order_status-Serves finishes order_id status w serves =
      (update_statuses-Serves laws (order_id ∷ []) status w w.db serves serves).1
  update_order_status-Serves expires order_id status w serves =
      (update_statuses-Serves laws (order_id ∷ []) status w w.db serves serves).1
