-- ===== src/Tests/Moving.antt =====
-- The calls of the small shop's robots.
use mathlib.Core.Path.{subst}
use shark_42tokyo_tuning.Prelude.{◌≡◌, refl, inl, inr, arith, some, [], ◌∷◌, Result, ok}
use shark_42tokyo_tuning.Prelude.Int.{pos, add64}
use shark_42tokyo_tuning.Prelude.Paths.Elements.{All}
use shark_42tokyo_tuning.Model.{DeliveryPlan, UpdateOrderStatusRequest}
use shark_42tokyo_tuning.World.{World}
use shark_42tokyo_tuning.Delivery.{
  make_table, relax_at, relax, consider, fill, best_weight, restore,
  best_select_orders_for_delivery,
}
use shark_42tokyo_tuning.Service.Timeout.{finishes, with_timeout}
use shark_42tokyo_tuning.Service.Robot.{order_ids, generate_delivery_plan, update_order_status}
use shark_42tokyo_tuning.Handler.Response.{answer}
use shark_42tokyo_tuning.Handler.Robot.{update_order_status_handler}
use shark_42tokyo_tuning.Repository.Store.{exec_tx}
use shark_42tokyo_tuning.Api.{report, here, next}
use shark_42tokyo_tuning.Api.Good.{IsGood}
use shark_42tokyo_tuning.Api.Once.{Reach-IsOther}
use shark_42tokyo_tuning.Api.Services.{generate_delivery_plan-Safe}
use shark_42tokyo_tuning.Api.Moves.Steps.{Step-Move}
use shark_42tokyo_tuning.Repository.Order.{drop_shipping, update_statuses, get_shipping_orders}
use shark_42tokyo_tuning.Api.Moves.{Move}
use shark_42tokyo_tuning.Api.Planned.{IsOther}
use shark_42tokyo_tuning.Tests.Shop.{set_statuses, shop, three_orders, shop_world}
use shark_42tokyo_tuning.Tests.Laws.{shop_laws}
use shark_42tokyo_tuning.Tests.Planning.{
  shop-IsGood, first_plan, second_plan, after_first, plans_first, small_values,
}
use shark_42tokyo_tuning.Tests.Numbered.{numbered-OrderLaws}

abbrev arrived : UpdateOrderStatusRequest
arrived = record { order_id = pos 1; new_status = "completed" }

-- The first robot reports an order of its plan.
abbrev after_report : World shop
after_report = (update_order_status_handler finishes (some arrived) after_first).1

abbrev after_all : World shop
after_all = (generate_delivery_plan {e = shop} finishes "r2" (pos 5) after_report).1

plans_later :
    generate_delivery_plan finishes "r2" (pos 5) after_report ≡ (ok second_plan, after_all)
unfolding generate_delivery_plan with_timeout exec_tx get_shipping_orders
    best_select_orders_for_delivery make_table add64 restore fill consider relax relax_at
    best_weight update_statuses drop_shipping update_order_status_handler update_order_status answer
plans_later = refl

arrived_rows : after_report.db ≡ set_statuses "completed" (pos 1 ∷ []) after_first.db
unfolding update_order_status_handler update_order_status with_timeout update_statuses answer
arrived_rows = refl

after_first-IsGood : IsGood after_first
after_first-IsGood =
    subst (λ (r : Result DeliveryPlan × World shop). IsGood r.1) plans_first
      (generate_delivery_plan-Safe shop_laws finishes "r1" (pos 5) shop_world shop-IsGood)

Step-Move_example : Move shop (some (pos 1, "completed")) after_first.db after_report.db
Step-Move_example = Step-Move shop_laws (report finishes (some arrived)) after_first-IsGood

Reach-IsOther_example : All (IsOther (order_ids first_plan.orders)) second_plan.orders
Reach-IsOther_example =
    Reach-IsOther shop_laws numbered-OrderLaws "r1" "r2" 5 5 shop_world after_first after_report
      after_all first_plan second_plan shop-IsGood (omega arith) (omega arith)
      (small_values three_orders (omega arith))
      (rw arrived_rows
        (small_values (set_statuses "completed" (pos 1 ∷ []) after_first.db) (omega arith)))
      plans_first (next here (report finishes (some arrived))) (tt, inl (inr refl)) plans_later
