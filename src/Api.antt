-- ===== src/Api.antt =====
-- The calls of webapp/backend/internal/handler and middleware that read or write the state of the
-- server, as the steps that one state takes to the next. The calls run one at a time.
mod Frame
pub mod Good
pub mod Services
pub mod Gone
pub mod Invariant
pub mod Moves
pub mod Once
pub mod Planned
use shark_42tokyo_tuning.Prelude.{String, Option, Result}
use shark_42tokyo_tuning.Prelude.Int.{ℤ}
use shark_42tokyo_tuning.Model.{
  Time, LoginRequest, ListRequest, CreateOrderRequest, UpdateOrderStatusRequest,
}
use shark_42tokyo_tuning.Env.{Env}
use shark_42tokyo_tuning.World.{World}
use shark_42tokyo_tuning.Repository.Store.{new_store}
use shark_42tokyo_tuning.Repository.Session.{find_user_by_session_id}
use shark_42tokyo_tuning.Service.Timeout.{Race}
use shark_42tokyo_tuning.Handler.Auth.{login_handler}
use shark_42tokyo_tuning.Handler.Order
use shark_42tokyo_tuning.Handler.Product
use shark_42tokyo_tuning.Handler.Product.{create_orders_handler}
use shark_42tokyo_tuning.Handler.Robot.{get_delivery_plan, update_order_status_handler}

module _ {e : Env} where
  -- Any user, body, clock and outcome of a timeout.
  pub data Step (w : World e) : World e → Type 0 where
    authenticate :
        (now : Time) (session_id : String) → Step w (find_user_by_session_id now session_id w).1
    sign_in :
        (race : Race) (uuid : Result String) (now : Time) (body : Option LoginRequest)
        → Step w (login_handler race uuid now body w).1
    see_products :
        (user : Option ℤ) (body : Option ListRequest) → Step w (Product.list user body w).1
    buy :
        (user : Option ℤ) (body : Option CreateOrderRequest)
        → Step w (create_orders_handler user body w).1
    see_orders :
        (race : Race) (user : Option ℤ) (body : Option ListRequest)
        → Step w (Order.list race user body w).1
    plan :
        (race : Race) (capacity : Option (Option ℤ)) → Step w (get_delivery_plan race capacity w).1
    report :
        (race : Race) (body : Option UpdateOrderStatusRequest)
        → Step w (update_order_status_handler race body w).1

  pub data Reach (w : World e) : World e → Type 0 where
    here : Reach w w
    next : {v u : World e} → Reach w v → Step v u → Reach w u
