-- ===== src/Middleware/Guards.antt =====
-- Which requests the middleware lets through, and as whom.
use shark_42tokyo_tuning.Prelude.{◌≡◌, ◌≢◌, ◌⊎◌, String, eq_iff, arith, ok}
use shark_42tokyo_tuning.Env.{Env}
use shark_42tokyo_tuning.World.{World}
use shark_42tokyo_tuning.Handler.Response.{http_error}
use shark_42tokyo_tuning.Middleware.{Request, Serve, robot_auth_middleware}

module _ {e : Env} (next : Serve e) (r : Request) (w : World e) where
  -- A robot's request reaches the handler exactly with the valid key, which is not empty; any other
  -- gets 403 and changes nothing.
  pub robot_auth_middleware_lem :
      (key : String)
      → (r.api_key ≡ key → key ≢ "" → robot_auth_middleware key next r w ≡ next r w)
        × ((r.api_key ≢ key) ⊎ (r.api_key ≡ "")
            → robot_auth_middleware key next r w
              ≡ (ok (http_error 403 "Forbidden: Invalid or missing API key"), w))
  unfolding robot_auth_middleware
  robot_auth_middleware_lem key = (
    λ h ne. ground (arith, eq_iff r.api_key "", eq_iff r.api_key key),
    λ h. ground (arith, eq_iff r.api_key "", eq_iff r.api_key key),
  )
