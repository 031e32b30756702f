-- ===== src/Api/Invariant.antt =====
-- The invariant of the server's state over the calls.
use shark_42tokyo_tuning.Prelude.{refl, ℕ, Option, none, some, Result, String}
use shark_42tokyo_tuning.Prelude.Int.{ℤ, lookup}
use shark_42tokyo_tuning.Model.{
  ListRequest, LoginRequest, CreateOrderRequest, UpdateOrderStatusRequest,
}
use shark_42tokyo_tuning.Env.{Env}
use shark_42tokyo_tuning.World.{World}
use shark_42tokyo_tuning.Repository.Store.{new_store}
use shark_42tokyo_tuning.Repository.Order.Coherent.{DbLaws}
use shark_42tokyo_tuning.Service.Auth.{holds, login}
use shark_42tokyo_tuning.Service.Timeout.{Race}
use shark_42tokyo_tuning.Service.Order.{fetch_orders}
use shark_42tokyo_tuning.Service.Robot.{generate_delivery_plan, update_order_status}
use shark_42tokyo_tuning.Service.Product.{create_orders, fetch_products}
use shark_42tokyo_tuning.Handler.Auth.{login_handler}
use shark_42tokyo_tuning.Handler.Order
use shark_42tokyo_tuning.Handler.Product
use shark_42tokyo_tuning.Handler.Product.{create_orders_handler}
use shark_42tokyo_tuning.Handler.Paging.{order_defaults, product_defaults}
use shark_42tokyo_tuning.Handler.Robot.{plan_for, get_delivery_plan, update_order_status_handler}
use shark_42tokyo_tuning.Api.{
  Step, authenticate, sign_in, see_products, buy, see_orders, plan, report, Reach, here, next,
}
use shark_42tokyo_tuning.Api.Good.{IsGood, Safe, answer-Safe, find_user_by_session_id-Safe}
use shark_42tokyo_tuning.Api.Services.{
  generate_delivery_plan-Safe, create_orders-Safe, update_order_status-Safe, login-Safe,
  fetch_orders-Safe, fetch_products-Safe,
}

module _ {e : Env} where
  new_store-IsGood : (d : e.Db) → IsGood {e = e} (new_store d)
  unfolding new_store holds lookup
  new_store-IsGood d = record {
    pooled = refl;
    serves = record { shipping_held = λ l p. cc; count_held = λ u n p. cc };
    vouched = λ key h. cc;
  }

module _ {e : Env} (laws : DbLaws e) where
  login_handler-Safe :
      (race : Race) (uuid : Result String) (now : ℕ) (body : Option LoginRequest)
      → Safe (login_handler {e = e} race uuid now body)
  unfolding login_handler
  login_handler-Safe race uuid now none w good = good
  login_handler-Safe race uuid now (some req) w good =
      answer-Safe (login race uuid now req.user_name req.password) _ _
        (login-Safe laws race uuid now req.user_name req.password) w good

  see_products-Safe :
      (user : Option ℤ) (body : Option ListRequest) → Safe (Product.list {e = e} user body)
  unfolding Product.list Product.list_for
  see_products-Safe none body w good = good
  see_products-Safe (some u) none w good = good
  see_products-Safe (some u) (some req) w good =
      answer-Safe (fetch_products (product_defaults req)) _ _
        (fetch_products-Safe laws (product_defaults req)) w good

  see_orders-Safe :
      (race : Race) (user : Option ℤ) (body : Option ListRequest)
      → Safe (Order.list {e = e} race user body)
  unfolding Order.list Order.list_for
  see_orders-Safe race none body w good = good
  see_orders-Safe race (some u) none w good = good
  see_orders-Safe race (some u) (some req) w good =
      answer-Safe (fetch_orders race u (order_defaults req)) _ _
        (fetch_orders-Safe laws race u (order_defaults req)) w good

  buy-Safe :
      (user : Option ℤ) (body : Option CreateOrderRequest)
      → Safe (create_orders_handler {e = e} user body)
  unfolding create_orders_handler Product.create_for
  buy-Safe none body w good = good
  buy-Safe (some u) none w good = good
  buy-Safe (some u) (some req) w good =
      answer-Safe (create_orders u req.items) _ _ (create_orders-Safe laws u req.items) w good

  plan-Safe :
      (race : Race) (capacity : Option (Option ℤ)) → Safe (get_delivery_plan {e = e} race capacity)
  unfolding get_delivery_plan plan_for
  plan-Safe race none w good = good
  plan-Safe race (some none) w good = good
  plan-Safe race (some (some c)) w good =
      answer-Safe (generate_delivery_plan race "robot-001" c) _ _
        (generate_delivery_plan-Safe laws race "robot-001" c) w good

  report-Safe :
      (race : Race) (body : Option UpdateOrderStatusRequest)
      → Safe (update_order_status_handler {e = e} race body)
  unfolding update_order_status_handler
  report-Safe race none w good = good
  report-Safe race (some req) w good =
      answer-Safe (update_order_status race req.order_id req.new_status) _ _
        (update_order_status-Safe laws race req.order_id req.new_status) w good

  pub Step-IsGood : {w w' : World e} → Step w w' → IsGood w → IsGood w'
  Step-IsGood {w} (authenticate now id) good = find_user_by_session_id-Safe now id w good
  Step-IsGood {w} (sign_in race uuid now body) good = login_handler-Safe race uuid now body w good
  Step-IsGood {w} (see_products user body) good = see_products-Safe user body w good
  Step-IsGood {w} (buy user body) good = buy-Safe user body w good
  Step-IsGood {w} (see_orders race user body) good = see_orders-Safe race user body w good
  Step-IsGood {w} (plan race capacity) good = plan-Safe race capacity w good
  Step-IsGood {w} (report race body) good = report-Safe race body w good

  Reach-from : {w w' : World e} → IsGood w → Reach w w' → IsGood w'
  Reach-from good here = good
  Reach-from good (next r st) = Step-IsGood st (Reach-from good r)

  -- In every state that calls, one at a time, reach from a new store on a database with the laws
  -- `DbLaws`: the store runs on the pool, the cached orders and counts are what the database reads,
  -- and bcrypt has accepted a password for each key of the password cache.
  pub Reach-IsGood : (d : e.Db) {w : World e} → Reach (new_store d) w → IsGood w
  Reach-IsGood d r = Reach-from (new_store-IsGood d) r
