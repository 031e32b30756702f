-- ===== src/Tests/Delivering.antt =====
-- Delivery plans of the small shop.
use mathlib.Core.Path.{subst}
use shark_42tokyo_tuning.Prelude.{
  ◌≡◌, refl, ℕ, ◌^◌, ◌<◌, List, [], ◌∷◌, some, arith, Result, ok, err, panic, true,
}
use shark_42tokyo_tuning.Prelude.Int.{ℤ, pos, add64, ltb_ℤ, ◌≤ℤ◌}
use shark_42tokyo_tuning.Model.{Order, DeliveryPlan}
use shark_42tokyo_tuning.Env.{Slice, elems}
use shark_42tokyo_tuning.World.{World}
use shark_42tokyo_tuning.Delivery.{
  make_table, relax_at, relax, consider, fill, best_weight, restore,
  best_select_orders_for_delivery,
}
use shark_42tokyo_tuning.Delivery.Selection.{values}
use shark_42tokyo_tuning.Delivery.Optimal.{IsOptimal, best_select-IsOptimal}
use shark_42tokyo_tuning.Delivery.Panics.{best_select-panics}
use shark_42tokyo_tuning.Repository.Order.{drop_shipping, update_statuses, get_shipping_orders}
use shark_42tokyo_tuning.Repository.Store.{exec_tx}
use shark_42tokyo_tuning.Repository.Order.Coherent.{shipping, Serves}
use shark_42tokyo_tuning.Repository.Order.Methods.{ReadsThrough, get_shipping_orders-ReadsThrough}
use shark_42tokyo_tuning.Service.Timeout.{
  finishes, expires, effective_timeout, default_timeout, with_timeout, effective_timeout_bounds,
}
use shark_42tokyo_tuning.Service.Robot.{generate_delivery_plan}
use shark_42tokyo_tuning.Service.Robot.Plan.{Marked, generate_delivery_plan-IsOptimal}
use shark_42tokyo_tuning.Service.Robot.Coherent.{generate_delivery_plan-Serves}
use shark_42tokyo_tuning.Tests.Shop.{
  shop, order_of, three_orders, shop_world, warm_world, empty_caches,
}
use shark_42tokyo_tuning.Tests.Laws.{shop_laws, Serves-cold, Serves-warm}

abbrev values_of : Result (Slice Order) → ℕ
values_of (ok orders) = values (elems orders)
values_of (err x) = 0
values_of panic = 0

abbrev plan_of_two : DeliveryPlan
plan_of_two = record {
  robot_id = "r1";
  total_weight = pos 5;
  total_value = pos 60;
  orders = order_of 2 3 30 ∷ order_of 1 2 30 ∷ [];
}

-- The two lighter orders are picked, the last one first.
picks_two : best_select_orders_for_delivery three_orders "r1" (pos 5) ≡ ok plan_of_two
unfolding best_select_orders_for_delivery make_table add64 restore fill consider relax relax_at
    best_weight
picks_two = refl

best_select-IsOptimal_example :
    (plan : DeliveryPlan) × (best_select_orders_for_delivery three_orders "r1" (pos 5) ≡ ok plan)
    × IsOptimal three_orders "r1" 5 plan
best_select-IsOptimal_example =
    best_select-IsOptimal three_orders "r1" 5 (omega arith) (omega arith)

best_select-panics_example :
    best_select_orders_for_delivery three_orders "r1" (pos (10 ^ 18)) ≡ panic
best_select-panics_example =
    best_select-panics (order_of 1 2 30) (order_of 2 3 30 ∷ order_of 3 5 50 ∷ []) "r1" (10 ^ 18)
      (omega arith) (omega arith)

-- The two orders are marked, and the cached list has been dropped.
abbrev planned_world : World shop
planned_world = record shop_world {
  db =
      record (order_of 1 2 30) { shipped_status = "delivering" }
      ∷ record (order_of 2 3 30) { shipped_status = "delivering" }
      ∷ order_of 3 5 50
      ∷ [];
  order_state = record empty_caches { shipping_orders_version = pos 1 };
}

plans_two :
    generate_delivery_plan finishes "r1" (pos 5) shop_world ≡ (ok plan_of_two, planned_world)
unfolding generate_delivery_plan with_timeout exec_tx get_shipping_orders
    best_select_orders_for_delivery make_table add64 restore fill consider relax relax_at
    best_weight update_statuses drop_shipping
plans_two = refl

generate_delivery_plan-IsOptimal_example :
    (orders : Slice Order) × (shipping shop three_orders ≡ ok orders)
    × IsOptimal (elems orders) "r1" 5 plan_of_two
    × ((begun marked : List Order) × (shop.begin three_orders ≡ ok begun)
        × Marked shop plan_of_two.orders begun marked
        × (shop.commit three_orders marked ≡ ok planned_world.db))
generate_delivery_plan-IsOptimal_example =
    generate_delivery_plan-IsOptimal shop_laws "r1" 5 shop_world planned_world plan_of_two refl
      Serves-cold (omega arith)
      (λ orders p. subst (λ (r : Result (Slice Order)). values_of r < 2 ^ 63) p (omega arith))
      plans_two

generate_delivery_plan-Serves_example :
    let w' : World shop = (generate_delivery_plan expires "r1" (pos 5) warm_world).1 in
    Serves shop w'.db w'.order_state
generate_delivery_plan-Serves_example =
    generate_delivery_plan-Serves shop_laws expires "r1" (pos 5) warm_world refl Serves-warm

get_shipping_orders-ReadsThrough_example :
    ReadsThrough {e = shop} get_shipping_orders (shipping shop) warm_world
get_shipping_orders-ReadsThrough_example = get_shipping_orders-ReadsThrough warm_world Serves-warm

effective_timeout_bounds_example :
    (ltb_ℤ (pos 0) (effective_timeout (some (pos 5))) ≡ true)
    × (effective_timeout (some (pos 5)) ≤ℤ default_timeout)
    × ((rem : ℤ)
        → some (pos 5) ≡ some rem
        → ltb_ℤ (pos 0) rem ≡ true
        → effective_timeout (some (pos 5)) ≤ℤ rem)
effective_timeout_bounds_example = effective_timeout_bounds (some (pos 5))
