-- ===== src/Middleware/Sessions.antt =====
-- A session from its creation to the requests that carry its cookie.
use shark_42tokyo_tuning.Prelude.{ℕ, ◌+◌, ◌≤◌, ◌<◌, ◌≡◌, refl, String, some, Result, ok}
use shark_42tokyo_tuning.Prelude.Int.{ℤ}
use shark_42tokyo_tuning.Model.{Time}
use shark_42tokyo_tuning.Env.{Env}
use shark_42tokyo_tuning.World.{World}
use shark_42tokyo_tuning.Repository.Session.{create, find_user_by_session_id}
use shark_42tokyo_tuning.Repository.Session.Lookup.{find_user_by_session_id-create}
use shark_42tokyo_tuning.Handler.Response.{http_error}
use shark_42tokyo_tuning.Middleware.{
  Request, Serve, authenticated, with_cookie, user_auth_middleware,
}

module _ {e : Env} where
  -- A request with the cookie of a session that has just been created reaches the handler as its
  -- user, in some state, until the session expires, and gets 401 from then on.
  pub user_auth_middleware-create :
      (next : Serve e) (r : Request) (uuid : Result String) (created now : Time) (user_id : ℤ)
      (duration : ℕ) (w w' : World e) {id : String} {expires_at : Time}
      → create uuid created user_id duration w ≡ (ok (id, expires_at), w')
      → r.session_cookie ≡ some id
      → (now < created + duration
          → (w'' : World e) × (user_auth_middleware now next r w'
              ≡ next (record r { user = some user_id }) w''))
        × (created + duration ≤ now
            → (user_auth_middleware now next r w').0
              ≡ ok (http_error 401 "Unauthorized: Invalid session"))
  unfolding user_auth_middleware with_cookie authenticated
  user_auth_middleware-create next r uuid created now user_id duration w w' {id} made carries =
      let (live, dead) =
        find_user_by_session_id-create uuid created now user_id duration w w' made in
      (
        λ early. ((find_user_by_session_id now id w').1, rw (carries, live early) refl),
        λ late. rw (carries, dead late) refl,
      )
