-- ===== src/Api/Planned.antt =====
-- Two delivery plans, one after the other.
use mathlib.Core.Path.{subst}
use shark_42tokyo_tuning.Prelude.{
  ◌≡◌, refl, ◌∙◌, ℕ, ◌+◌, ◌^◌, ◌<◌, String, false, List, [], ◌∷◌, Result, ok,
}
use shark_42tokyo_tuning.Prelude.Int.{ℤ, pos, contains}
use shark_42tokyo_tuning.Prelude.Paths.Elements.{All, All-reverse_aux}
use shark_42tokyo_tuning.Model.{Order, DeliveryPlan}
use shark_42tokyo_tuning.Env.{Env, Arg, Slice, elems}
use shark_42tokyo_tuning.World.{World}
use shark_42tokyo_tuning.Repository.Order.{update_query}
use shark_42tokyo_tuning.Repository.Order.Coherent.{shipping, DbLaws}
use shark_42tokyo_tuning.Delivery.Selection.{values, Selection, done, skip, take}
use shark_42tokyo_tuning.Service.Timeout.{finishes}
use shark_42tokyo_tuning.Service.Robot.{order_ids, generate_delivery_plan}
use shark_42tokyo_tuning.Service.Robot.Plan.{
  Marked, nothing, updated, generate_delivery_plan-IsOptimal,
}
use shark_42tokyo_tuning.Api.Good.{IsGood}
use shark_42tokyo_tuning.Api.Services.{generate_delivery_plan-Safe}

-- An order that is not among the ids.
abbrev pub IsOther : List ℤ → Order → Type 0
IsOther ids o = contains o.order_id ids ≡ false

-- What the update to "delivering" promises: an order whose status it has set is not selected as one
-- to ship any more.
abbrev pub MarkedLeave : Env → Type 0
MarkedLeave e =
    (d d' : e.Db) (ids : List ℤ) (sql : String) (args : List Arg) (orders : Slice Order)
    → e.sqlx_in update_query "delivering" ids ≡ ok (sql, args)
    → e.exec d (e.rebind sql) args ≡ ok d'
    → shipping e d' ≡ ok orders
    → All (IsOther ids) (elems orders)

pub All-Selection :
    (P : Order → Type 0) {os chosen : List Order} → Selection os chosen → All P os → All P chosen
All-Selection P done all = tt
All-Selection P (skip s) all = All-Selection P s all.1
All-Selection P (take u s) all = (all.0, All-Selection P s all.1)

All-IsOther : (os : List Order) → All (IsOther []) os
unfolding contains
All-IsOther [] = tt
All-IsOther (o ∷ os) = (refl, All-IsOther os)

module _ {e : Env} (laws : DbLaws e) (leave : MarkedLeave e) where
  pub Marked-IsOther :
      (planned : List Order) (d d' : e.Db) (orders : Slice Order)
      → Marked e planned d d'
      → shipping e d' ≡ ok orders
      → All (IsOther (order_ids planned)) (elems orders)
  Marked-IsOther planned d d' orders (nothing none_planned same) read =
      rw none_planned (All-IsOther (elems orders))
  Marked-IsOther planned d d' orders (updated sql args built written) read =
      leave d d' (order_ids planned) sql args orders built written read

  -- If a database with the laws `DbLaws` does not select orders as orders to ship once they are set
  -- to "delivering", then of two plans that are returned in time one after the other, for
  -- capacities and values whose sums fit an int, the second has no order of the first.
  pub generate_delivery_plan-IsOther :
      (robot_1 robot_2 : String) (capacity_1 capacity_2 : ℕ) (w w_1 w_2 : World e)
      (plan_1 plan_2 : DeliveryPlan)
      → IsGood w
      → capacity_1 + 1 < 2 ^ 63
      → capacity_2 + 1 < 2 ^ 63
      → ((orders : Slice Order) → shipping e w.db ≡ ok orders → values (elems orders) < 2 ^ 63)
      → ((orders : Slice Order) → shipping e w_1.db ≡ ok orders → values (elems orders) < 2 ^ 63)
      → generate_delivery_plan finishes robot_1 (pos capacity_1) w ≡ (ok plan_1, w_1)
      → generate_delivery_plan finishes robot_2 (pos capacity_2) w_1 ≡ (ok plan_2, w_2)
      → All (IsOther (order_ids plan_1.orders)) plan_2.orders
  generate_delivery_plan-IsOther robot_1 robot_2 capacity_1 capacity_2 w w_1 w_2 plan_1 plan_2 good
        small_1 small_2 values_1 values_2 run_1 run_2 =
      let good_1 : IsGood w_1 =
        subst (λ (r : Result DeliveryPlan × World e). IsGood r.1) run_1
          (generate_delivery_plan-Safe laws finishes robot_1 (pos capacity_1) w good) in
      let (_, _, _, (begun, marked, _, set, committed)) =
        generate_delivery_plan-IsOptimal laws robot_1 capacity_1 w w_1 plan_1 good.pooled
          good.serves small_1 values_1 run_1 in
      let (orders, read, optimal, _) =
        generate_delivery_plan-IsOptimal laws robot_2 capacity_2 w_1 w_2 plan_2 good_1.pooled
          good_1.serves small_2 values_2 run_2 in
      let seen = (laws.commit_reads w.db marked w_1.db committed).shipping_eq ∙ read in
      All-Selection (IsOther (order_ids plan_1.orders)) optimal.selected (
        All-reverse_aux (IsOther (order_ids plan_1.orders)) (elems orders) []
          (Marked-IsOther plan_1.orders begun marked orders set seen) tt)
