-- ===== src/Server/Guarded.antt =====
-- The routes that `setupRoutes` registers, and the credentials that they ask for.
use shark_42tokyo_tuning.Prelude.{◌≡◌, refl, ◌⊎◌, inl, inr, String, none, List, [], ◌∷◌, ok}
use shark_42tokyo_tuning.Model.{Time}
use shark_42tokyo_tuning.Env.{Env}
use shark_42tokyo_tuning.World.{World}
use shark_42tokyo_tuning.Handler.Response.{http_error}
use shark_42tokyo_tuning.Middleware.{
  Request, Serve, with_cookie, user_auth_middleware, robot_auth_middleware,
}
use shark_42tokyo_tuning.Middleware.Guards.{robot_auth_middleware_lem}
use shark_42tokyo_tuning.Server.{Handlers, Route, group, setup_routes}

module _ {e : Env} where
  -- A request with no session cookie and no key gets 401 or 403, and nothing is changed.
  abbrev pub Refuses : Serve e → Type 0
  Refuses serve =
      (r : Request) (w : World e)
      → r.session_cookie ≡ none
      → r.api_key ≡ ""
      → (serve r w ≡ (ok (http_error 401 "Unauthorized: No session cookie"), w))
        ⊎ (serve r w ≡ (ok (http_error 403 "Forbidden: Invalid or missing API key"), w))

  abbrev pub Guarded : List (Route e) → Type 0
  Guarded [] = Unit
  Guarded (r ∷ rs) = ((r.pattern_ ≡ "/api/login") ⊎ Refuses r.serve) × Guarded rs

  user-Refuses : (now : Time) (next : Serve e) → Refuses (user_auth_middleware now next)
  unfolding user_auth_middleware with_cookie
  user-Refuses now next r w no_cookie no_key = inl (rw no_cookie refl)

  robot-Refuses : (key : String) (next : Serve e) → Refuses (robot_auth_middleware key next)
  robot-Refuses key next r w no_cookie no_key =
      inr ((robot_auth_middleware_lem next r w key).1 (inr no_key))

  -- Every route that `setupRoutes` registers is the login, or refuses a request without credentials.
  pub setup_routes-Guarded :
      (now : Time) (valid_api_key : String) (h : Handlers e)
      → Guarded (setup_routes now valid_api_key h)
  unfolding setup_routes group
  setup_routes-Guarded now valid_api_key h = (
    inl refl,
    (
      inr (user-Refuses now h.list_products),
      (
        inr (user-Refuses now h.create_orders),
        (
          inr (user-Refuses now h.list_orders),
          (
            inr (user-Refuses now h.get_image),
            (
              inr (robot-Refuses valid_api_key h.get_delivery_plan),
              (inr (robot-Refuses valid_api_key h.update_order_status), tt),
            ),
          ),
        ),
      ),
    ),
  )
