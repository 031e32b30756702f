-- ===== src/Api/Once.antt =====
-- A delivery plan, any calls after it, and another plan.
use mathlib.Core.Path.{subst}
use shark_42tokyo_tuning.Prelude.{◌≡◌, ℕ, ◌+◌, ◌^◌, ◌<◌, String, List, [], Result, ok}
use shark_42tokyo_tuning.Prelude.Int.{ℤ, pos}
use shark_42tokyo_tuning.Prelude.Paths.Elements.{All, All-reverse_aux}
use shark_42tokyo_tuning.Model.{Order, DeliveryPlan}
use shark_42tokyo_tuning.Env.{Env, Slice, elems}
use shark_42tokyo_tuning.World.{World}
use shark_42tokyo_tuning.Repository.Order.Coherent.{shipping, DbLaws}
use shark_42tokyo_tuning.Delivery.Selection.{values}
use shark_42tokyo_tuning.Service.Timeout.{finishes}
use shark_42tokyo_tuning.Service.Robot.{order_ids, generate_delivery_plan}
use shark_42tokyo_tuning.Service.Robot.Plan.{
  Marked, nothing, updated, generate_delivery_plan-IsOptimal,
}
use shark_42tokyo_tuning.Api.{Reach}
use shark_42tokyo_tuning.Api.Good.{IsGood}
use shark_42tokyo_tuning.Api.Services.{generate_delivery_plan-Safe}
use shark_42tokyo_tuning.Api.Planned.{IsOther, All-Selection, Marked-IsOther}
use shark_42tokyo_tuning.Api.Gone.{
  OrderLaws, AllEnded, All-imp, All-order_ids, IsGone, commit-IsGone, Reach-IsGone,
}

module _ {e : Env} (laws : DbLaws e) (rows : OrderLaws e) where
  Marked-used :
      (os : List Order) (d d' : e.Db) (ids : List ℤ)
      → Marked e os d d'
      → All (rows.Used d) ids
      → All (rows.Used d') ids
  Marked-used os d d' ids (nothing _ same) all = rw same all
  Marked-used os d d' ids (updated sql args built written) all =
      All-imp (rows.Used d) (rows.Used d') ids
        (λ i.
          rows.update_used d d' (order_ids os) "delivering" i
            (record { sql = sql; args = args; built = built; written = written }))
        all

  -- The orders of a plan are gone when it is returned.
  plan-IsGone :
      (robot : String) (capacity : ℕ) (w w' : World e) (plan : DeliveryPlan)
      → IsGood w
      → capacity + 1 < 2 ^ 63
      → ((orders : Slice Order) → shipping e w.db ≡ ok orders → values (elems orders) < 2 ^ 63)
      → generate_delivery_plan finishes robot (pos capacity) w ≡ (ok plan, w')
      → IsGone laws rows (order_ids plan.orders) w'.db
  plan-IsGone robot capacity w w' plan good small_w small_v run =
      let (orders, read, optimal, (begun, marked, begin_ok, set, committed)) =
        generate_delivery_plan-IsOptimal laws robot capacity w w' plan good.pooled good.serves
          small_w small_v run in
      let ids = order_ids plan.orders in
      let chosen = λ (d : e.Db) (o : Order). rows.Used d o.order_id in
      let used : All (rows.Used w.db) ids = All-order_ids (rows.Used w.db) plan.orders (
        All-Selection (chosen w.db) optimal.selected (
          All-reverse_aux (chosen w.db) (elems orders) [] (rows.shipped_used w.db orders read)
            tt)) in
      let used_begun =
        All-imp (rows.Used w.db) (rows.Used begun) ids (λ i. rows.begin_used w.db begun i begin_ok)
          used in
      commit-IsGone laws rows ids w.db marked w'.db committed (record {
        used = Marked-used plan.orders begun marked ids set used_begun;
        absent = λ rest read'.
            Marked-IsOther laws rows.marked_leave plan.orders begun marked rest set read';
      })

  -- If the database has the laws `DbLaws` and `OrderLaws`: after a plan that is returned in time, and
  -- any calls of the server in any order, other plans, logins, new orders and lists among them, a
  -- plan that is returned in time has no order of the first one; only no robot may have reported,
  -- for an order of the first plan, a status other than "delivering" and "completed". The
  -- capacities and the values fit an int in their sums.
  pub Reach-IsOther :
      (robot_1 robot_2 : String) (capacity_1 capacity_2 : ℕ) (w w_1 w_2 w_3 : World e)
      (plan_1 plan_2 : DeliveryPlan)
      → IsGood w
      → capacity_1 + 1 < 2 ^ 63
      → capacity_2 + 1 < 2 ^ 63
      → ((orders : Slice Order) → shipping e w.db ≡ ok orders → values (elems orders) < 2 ^ 63)
      → ((orders : Slice Order) → shipping e w_2.db ≡ ok orders → values (elems orders) < 2 ^ 63)
      → generate_delivery_plan finishes robot_1 (pos capacity_1) w ≡ (ok plan_1, w_1)
      → (run : Reach w_1 w_2) → AllEnded (order_ids plan_1.orders) run
      → generate_delivery_plan finishes robot_2 (pos capacity_2) w_2 ≡ (ok plan_2, w_3)
      → All (IsOther (order_ids plan_1.orders)) plan_2.orders
  Reach-IsOther robot_1 robot_2 capacity_1 capacity_2 w w_1 w_2 w_3 plan_1 plan_2 good small_1
        small_2 values_1 values_2 run_1 run ended run_2 =
      let good_1 : IsGood w_1 =
        subst (λ (r : Result DeliveryPlan × World e). IsGood r.1) run_1
          (generate_delivery_plan-Safe laws finishes robot_1 (pos capacity_1) w good) in
      let gone_1 = plan-IsGone robot_1 capacity_1 w w_1 plan_1 good small_1 values_1 run_1 in
      let (good_2, gone_2) =
        Reach-IsGone laws rows (order_ids plan_1.orders) run ended good_1 gone_1 in
      let (orders, read, optimal, _) =
        generate_delivery_plan-IsOptimal laws robot_2 capacity_2 w_2 w_3 plan_2 good_2.pooled
          good_2.serves small_2 values_2 run_2 in
      All-Selection (IsOther (order_ids plan_1.orders)) optimal.selected (
        All-reverse_aux (IsOther (order_ids plan_1.orders)) (elems orders) []
          (gone_2.absent orders read) tt)
