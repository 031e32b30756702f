-- ===== src/Server.antt =====
-- `NewServer` and `setupRoutes` of webapp/backend/internal/server/server.go: the routes that are
-- registered with the router, in order, each behind the middlewares of its group. The database
-- connection, the environment and the handlers are arguments.
pub mod Guarded
pub mod Open
use shark_42tokyo_tuning.Prelude.{
  String, str_eq, if◌then◌else◌, concat, List, [], ◌∷◌, ◌++◌, Result, ok, ◌>>=◌,
}
use shark_42tokyo_tuning.Handler.Response.{respond, plain}
use shark_42tokyo_tuning.Model.{Time}
use shark_42tokyo_tuning.Env.{Env}
use shark_42tokyo_tuning.Middleware.{Serve, user_auth_middleware, robot_auth_middleware}

-- The methods of the handlers that are routed to.
pub record Handlers (e : Env) : Type 0 where
  pub log_in : Serve e
  pub list_products : Serve e
  pub create_orders : Serve e
  pub list_orders : Serve e
  pub get_image : Serve e
  pub get_delivery_plan : Serve e
  pub update_order_status : Serve e

pub record Route (e : Env) : Type 0 where
  pub method : String
  pub pattern_ : String
  pub serve : Serve e

unfoldable pub robot_key : (robot_api_key : String) → String
robot_key robot_api_key = if str_eq robot_api_key "" then "test-robot-key" else robot_api_key

module _ {e : Env} where
  abbrev route : String → String → Serve e → Route e
  route method pattern_ serve = record { method = method; pattern_ = pattern_; serve = serve }

  -- `r.Route` with its `r.Use`.
  group : String → (Serve e → Serve e) → List (Route e) → List (Route e)
  group prefix guard [] = []
  group prefix guard (r ∷ rs) =
      route r.method (concat prefix r.pattern_) (guard r.serve) ∷ group prefix guard rs

  -- With the time of the request and the key of the robots.
  pub setup_routes : (now : Time) → (valid_api_key : String) → Handlers e → List (Route e)
  unfolding group
  setup_routes now valid_api_key h =
      route "POST" "/api/login" h.log_in
        ∷ group "/api/v1" (user_auth_middleware now) (
            route "POST" "/product" h.list_products
            ∷ route "POST" "/product/post" h.create_orders
            ∷ route "POST" "/orders" h.list_orders
            ∷ route "GET" "/image" h.get_image
            ∷ [])
      ++ group "/api/robot" (robot_auth_middleware valid_api_key) (
          route "GET" "/delivery-plan" h.get_delivery_plan
          ∷ route "PATCH" "/orders/status" h.update_order_status
          ∷ [])

  unfoldable pub health : Serve e
  health r w = (ok (respond 200 (plain "ok")), w)

  -- `NewServer`, with what `InitDBConnection` returns, the time of the request, `ROBOT_API_KEY` and
  -- the handler of pprotein. A handler that is registered for all methods has the method "*".
  unfoldable pub new_server :
      Result (Unit {0})
      → (now : Time) → (robot_api_key : String) → (debug : Serve e) → Handlers e
      → Result (List (Route e))
  unfolding health robot_key setup_routes
  new_server connected now robot_api_key debug h = connected >>= λ _. ok (
      route "*" "/debug/*" debug
      ∷ route "GET" "/api/health" health
      ∷ setup_routes now (robot_key robot_api_key) h)
