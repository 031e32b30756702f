-- ===== src/Handler/Product.antt =====
-- webapp/backend/internal/handler/product.go
use shark_42tokyo_tuning.Prelude.{Option, none, some}
use shark_42tokyo_tuning.Prelude.Int.{ℤ}
use shark_42tokyo_tuning.Model.{ListRequest, CreateOrderRequest}
use shark_42tokyo_tuning.Env.{Env}
use shark_42tokyo_tuning.World.{Action, pure}
use shark_42tokyo_tuning.Service.Product.{fetch_products, create_orders}
use shark_42tokyo_tuning.Handler.Response.{
  Response, respond, products_page, created, http_error, answer,
}
use shark_42tokyo_tuning.Handler.Paging.{product_defaults}

module _ {e : Env} where
  unfoldable pub list_for : Option ListRequest → Action e Response
  list_for none = pure (http_error 400 "Invalid request body")
  list_for (some req) =
      answer (fetch_products (product_defaults req)) (λ p. respond 200 (products_page p.0 p.1))
        (λ _. http_error 500 "Failed to fetch products")

  -- `List`
  unfoldable pub list : (user : Option ℤ) → Option ListRequest → Action e Response
  unfolding list_for
  list none body = pure (http_error 500 "User not found in context")
  list (some user_id) body = list_for body

  unfoldable pub create_for : ℤ → Option CreateOrderRequest → Action e Response
  create_for user_id none = pure (http_error 400 "Invalid request body")
  create_for user_id (some req) =
      answer (create_orders user_id req.items)
        (λ ids. respond 201 (created "Orders created successfully" ids))
        (λ _. http_error 500 "Failed to process order request")

  -- `CreateOrders`
  unfoldable pub create_orders_handler :
      (user : Option ℤ) → Option CreateOrderRequest → Action e Response
  unfolding create_for
  create_orders_handler none body = pure (http_error 500 "User not found in context")
  create_orders_handler (some user_id) body = create_for user_id body
