-- ===== src/Tests/Serving.antt =====
-- Requests to the small shop.
use shark_42tokyo_tuning.Prelude.{◌≡◌, refl, ok, List, ◌∷◌}
use shark_42tokyo_tuning.Handler.Response.{http_error}
use shark_42tokyo_tuning.Middleware.{Serve}
use shark_42tokyo_tuning.Server.{Handlers, Route, health, robot_key, setup_routes, new_server}
use shark_42tokyo_tuning.Tests.Shop.{shop}

abbrev pub reached : Serve shop
reached r w = (ok (http_error 500 "reached"), w)

abbrev pub all_reached : Handlers shop
all_reached = record {
  log_in = reached;
  list_products = reached;
  create_orders = reached;
  list_orders = reached;
  get_image = reached;
  get_delivery_plan = reached;
  update_order_status = reached;
}

abbrev shop_routes : List (Route shop)
shop_routes =
    (record { method = "*"; pattern_ = "/debug/*"; serve = reached })
    ∷ (record { method = "GET"; pattern_ = "/api/health"; serve = health })
    ∷ setup_routes 5 "test-robot-key" all_reached

starts_up : new_server {e = shop} (ok tt) 5 "" reached all_reached ≡ ok shop_routes
unfolding new_server robot_key
starts_up = refl
