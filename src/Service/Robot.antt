-- ===== src/Service/Robot.antt =====
-- webapp/backend/internal/service/robot.go; `bestSelectOrdersForDelivery` is in Delivery.antt.
pub mod Coherent
pub mod Plan
pub mod Returns
use shark_42tokyo_tuning.Prelude.{String, List, [], ◌∷◌, map, Result, ok}
use shark_42tokyo_tuning.Prelude.Int.{ℤ}
use shark_42tokyo_tuning.Model.{Order, DeliveryPlan}
use shark_42tokyo_tuning.Env.{Env, Slice, elems}
use shark_42tokyo_tuning.World.{World, Action, continue, ◌>>=◌, ◌>>◌, pure, lift}
use shark_42tokyo_tuning.Repository.Store.{exec_tx}
use shark_42tokyo_tuning.Repository.Order.{get_shipping_orders, update_statuses}
use shark_42tokyo_tuning.Delivery.{best_select_orders_for_delivery}
use shark_42tokyo_tuning.Service.Timeout.{Race, with_timeout}

abbrev pub order_ids : List Order → List ℤ
order_ids orders = map (λ o. o.order_id) orders

module _ {e : Env} where
  -- The update of the planned orders, if there are any.
  unfoldable pub mark_delivering : List Order → Action e (Unit {0})
  mark_delivering [] = pure tt
  mark_delivering (o ∷ os) = update_statuses (order_ids (o ∷ os)) "delivering"

  -- The function that runs in the transaction, behind the read of the orders.
  unfoldable pub deliver : String → ℤ → Slice Order → Action e DeliveryPlan
  unfolding mark_delivering
  deliver robot_id capacity orders = do
    plan ← lift (best_select_orders_for_delivery (elems orders) robot_id capacity)
    mark_delivering plan.orders
    pure plan

  unfoldable pub plan_delivery : String → ℤ → Action e DeliveryPlan
  unfolding deliver
  plan_delivery robot_id capacity = get_shipping_orders >>= deliver robot_id capacity

  unfoldable pub generate_delivery_plan : Race → String → ℤ → Action e DeliveryPlan
  unfolding plan_delivery
  generate_delivery_plan race robot_id capacity =
      with_timeout race (exec_tx (plan_delivery robot_id capacity))

  unfoldable pub update_order_status : Race → ℤ → String → Action e (Unit {0})
  update_order_status race order_id new_status =
      with_timeout race (update_statuses (order_id ∷ []) new_status)
