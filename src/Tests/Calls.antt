-- ===== src/Tests/Calls.antt =====
-- Calls of the small shop's server.
use shark_42tokyo_tuning.Prelude.{◌≡◌, ℕ, true, some, Result, ok, err, panic}
use shark_42tokyo_tuning.Prelude.Int.{pos}
use shark_42tokyo_tuning.Model.{ListRequest, UpdateOrderStatusRequest, Order}
use shark_42tokyo_tuning.Env.{Slice, elems}
use shark_42tokyo_tuning.World.{World}
use shark_42tokyo_tuning.Delivery.Selection.{values}
use shark_42tokyo_tuning.Repository.Store.{new_store}
use shark_42tokyo_tuning.Repository.Order.{build_order_by, list_orders}
use shark_42tokyo_tuning.Repository.Order.Methods.{ReadsThrough}
use shark_42tokyo_tuning.Repository.Order.Listing.{
  order_texts, is_listed, build_order_by-listed, page_of, list_orders-ReadsThrough,
}
use shark_42tokyo_tuning.Repository.Product.{list_total}
use shark_42tokyo_tuning.Repository.Product.Served.{total_of, TotalsServed, list_total-Served}
use shark_42tokyo_tuning.Service.Timeout.{finishes}
use shark_42tokyo_tuning.Handler.Robot.{get_delivery_plan, update_order_status_handler}
use shark_42tokyo_tuning.Handler.Image.{get_image}
use shark_42tokyo_tuning.Handler.Image.Inside.{Inside, get_image-Inside}
use shark_42tokyo_tuning.Api.{plan, report, here, next}
use shark_42tokyo_tuning.Api.Good.{IsGood}
use shark_42tokyo_tuning.Api.Invariant.{Reach-IsGood}
use shark_42tokyo_tuning.Tests.Shop.{shop, three_orders, shop_world, warm_world}
use shark_42tokyo_tuning.Tests.Laws.{shop_laws, Serves-warm}

abbrev arrived : UpdateOrderStatusRequest
arrived = record { order_id = pos 1; new_status = "completed" }

-- A plan for a robot with room for 5, and the report of an arrival.
abbrev planned_then : World shop
planned_then =
    (get_delivery_plan {e = shop} finishes (some (some (pos 5))) (new_store three_orders)).1

abbrev reported_then : World shop
reported_then = (update_order_status_handler finishes (some arrived) planned_then).1

Reach-IsGood_example : IsGood reported_then
Reach-IsGood_example =
    Reach-IsGood shop_laws three_orders
      (next (next here (plan finishes (some (some (pos 5))))) (report finishes (some arrived)))

get_image-Inside_example : Inside (get_image "a/./b.png")
get_image-Inside_example = get_image-Inside "a/./b.png"

abbrev worth : Result (Slice Order) → ℕ
worth (ok orders) = values (elems orders)
worth (err x) = 0
worth panic = 0

list_total-Served_example :
    ((list_total {e = shop} "box" shop_world).0 ≡ total_of shop three_orders "box")
    × (((list_total {e = shop} "box" shop_world).1).db ≡ three_orders)
    × (((list_total {e = shop} "box" shop_world).1).order_state ≡ shop_world.order_state)
    × TotalsServed shop three_orders ((list_total {e = shop} "box" shop_world).1).list_count_cache
list_total-Served_example = list_total-Served "box" shop_world (λ t n p. cc)

abbrev first_page : ListRequest
first_page = record {
  search = "";
  match_type = "partial";
  page = pos 1;
  page_size = pos 20;
  sort_field = "arrived_at";
  sort_order = "desc";
  offset = pos 0;
}

list_orders-ReadsThrough_example :
    ReadsThrough {e = shop}
      (list_orders (pos 1) first_page)
      (page_of shop (pos 1) first_page)
      warm_world
list_orders-ReadsThrough_example =
    list_orders-ReadsThrough (pos 1) first_page warm_world Serves-warm

build_order_by-listed_example :
    is_listed (build_order_by "arrived_at; DROP TABLE orders" "desc") order_texts ≡ true
build_order_by-listed_example = build_order_by-listed "arrived_at; DROP TABLE orders" "desc"
