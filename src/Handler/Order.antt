-- ===== src/Handler/Order.antt =====
-- webapp/backend/internal/handler/order.go. A body that does not decode is none.
use shark_42tokyo_tuning.Prelude.{Option, none, some}
use shark_42tokyo_tuning.Prelude.Int.{ℤ}
use shark_42tokyo_tuning.Model.{ListRequest}
use shark_42tokyo_tuning.Env.{Env}
use shark_42tokyo_tuning.World.{Action, pure}
use shark_42tokyo_tuning.Service.Timeout.{Race}
use shark_42tokyo_tuning.Service.Order.{fetch_orders}
use shark_42tokyo_tuning.Handler.Response.{Response, respond, orders_page, http_error, answer}
use shark_42tokyo_tuning.Handler.Paging.{order_defaults}

module _ {e : Env} where
  unfoldable pub list_for : Race → ℤ → Option ListRequest → Action e Response
  list_for race user_id none = pure (http_error 400 "Invalid request body")
  list_for race user_id (some req) =
      answer (fetch_orders race user_id (order_defaults req))
        (λ p. respond 200 (orders_page p.0 p.1)) (λ _. http_error 500 "Failed to fetch orders")

  -- `List`
  unfoldable pub list : Race → (user : Option ℤ) → Option ListRequest → Action e Response
  unfolding list_for
  list race none body = pure (http_error 500 "User not found")
  list race (some user_id) body = list_for race user_id body
