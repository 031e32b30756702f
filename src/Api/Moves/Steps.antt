-- ===== src/Api/Moves/Steps.antt =====
-- The moves of the calls.
use shark_42tokyo_tuning.Prelude.{refl, ap, none, some, [], ◌∷◌}
use shark_42tokyo_tuning.Prelude.Int.{ℤ}
use shark_42tokyo_tuning.Model.{ListRequest}
use shark_42tokyo_tuning.Env.{Env}
use shark_42tokyo_tuning.World.{World}
use shark_42tokyo_tuning.Repository.Session.{find_user_by_session_id}
use shark_42tokyo_tuning.Repository.Order.{update_statuses, list_orders}
use shark_42tokyo_tuning.Repository.Order.Coherent.{DbLaws}
use shark_42tokyo_tuning.Repository.Order.Listing.{list_orders-ReadsThrough}
use shark_42tokyo_tuning.Service.Timeout.{Race}
use shark_42tokyo_tuning.Service.Auth.{login}
use shark_42tokyo_tuning.Service.Product.{create_orders, fetch_products}
use shark_42tokyo_tuning.Service.Order.{fetch_orders}
use shark_42tokyo_tuning.Service.Robot.{generate_delivery_plan, update_order_status}
use shark_42tokyo_tuning.Handler.Auth.{login_handler}
use shark_42tokyo_tuning.Handler.Order
use shark_42tokyo_tuning.Handler.Product
use shark_42tokyo_tuning.Handler.Product.{create_orders_handler}
use shark_42tokyo_tuning.Handler.Paging.{order_defaults, product_defaults}
use shark_42tokyo_tuning.Handler.Robot.{plan_for, get_delivery_plan, update_order_status_handler}
use shark_42tokyo_tuning.Api.{
  Step, authenticate, sign_in, see_products, buy, see_orders, plan, report,
}
use shark_42tokyo_tuning.Api.Good.{IsGood}
use shark_42tokyo_tuning.Api.Moves.{Move, stay, reported_by}
use shark_42tokyo_tuning.Api.Moves.Reads.{found_session-Reads, fetch_products-Reads}
use shark_42tokyo_tuning.Api.Moves.Services.{
  Moves, Reads-Moves, answer-Moves, with_timeout-Moves, login-Moves, update_statuses-Moves,
  create_orders-Moves, generate_delivery_plan-Moves,
}

module _ {e : Env} (laws : DbLaws e) where
  see_orders-Reads :
      (race : Race) (u : ℤ) (req : ListRequest) → Moves none (fetch_orders {e = e} race u req)
  unfolding fetch_orders
  see_orders-Reads race u req = with_timeout-Moves none race (list_orders u req) λ w good.
      let (_, (s, left, _)) = list_orders-ReadsThrough u req w good.serves in
      stay (ap (λ (v : World e). v.db) left)

  -- From a good state, a call makes one move of the database, whatever it returns.
  pub Step-Move : {w w' : World e} (st : Step w w') → IsGood w → Move e (reported_by st) w.db w'.db
  unfolding find_user_by_session_id login_handler Product.list Product.list_for
      create_orders_handler Product.create_for Order.list Order.list_for get_delivery_plan plan_for
      update_order_status_handler update_order_status
  Step-Move {w} (authenticate now id) good = stay (found_session-Reads now id _ _)
  Step-Move {w} (sign_in race uuid now none) good = stay refl
  Step-Move {w} (sign_in race uuid now (some req)) good =
      answer-Moves none (login race uuid now req.user_name req.password) _ _
        (login-Moves race uuid now req.user_name req.password) w good
  Step-Move {w} (see_products none body) good = stay refl
  Step-Move {w} (see_products (some u) none) good = stay refl
  Step-Move {w} (see_products (some u) (some req)) good =
      answer-Moves none (fetch_products (product_defaults req)) _ _
        (Reads-Moves none (fetch_products (product_defaults req))
          (fetch_products-Reads (product_defaults req)))
        w good
  Step-Move {w} (buy none body) good = stay refl
  Step-Move {w} (buy (some u) none) good = stay refl
  Step-Move {w} (buy (some u) (some req)) good =
      answer-Moves none (create_orders u req.items) _ _ (create_orders-Moves u req.items) w good
  Step-Move {w} (see_orders race none body) good = stay refl
  Step-Move {w} (see_orders race (some u) none) good = stay refl
  Step-Move {w} (see_orders race (some u) (some req)) good =
      answer-Moves none (fetch_orders race u (order_defaults req)) _ _
        (see_orders-Reads race u (order_defaults req)) w good
  Step-Move {w} (plan race none) good = stay refl
  Step-Move {w} (plan race (some none)) good = stay refl
  Step-Move {w} (plan race (some (some c))) good =
      answer-Moves none (generate_delivery_plan race "robot-001" c) _ _
        (generate_delivery_plan-Moves laws race "robot-001" c) w good
  Step-Move {w} (report race none) good = stay refl
  Step-Move {w} (report race (some req)) good =
      answer-Moves (some (req.order_id, req.new_status))
        (update_order_status race req.order_id req.new_status) _ _
        (with_timeout-Moves (some (req.order_id, req.new_status)) race
          (update_statuses (req.order_id ∷ []) req.new_status)
          (update_statuses-Moves req.order_id req.new_status))
        w good
