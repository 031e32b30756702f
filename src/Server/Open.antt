-- ===== src/Server/Open.antt =====
-- The routes of a new server, and the credentials that they ask for.
use shark_42tokyo_tuning.Prelude.{
  ◌≡◌, refl, sym, inl, inr, ◌⊎◌, String, List, [], ◌∷◌, Result, ok, err, panic,
}
use shark_42tokyo_tuning.Model.{Time}
use shark_42tokyo_tuning.Env.{Env}
use shark_42tokyo_tuning.Middleware.{Serve}
use shark_42tokyo_tuning.Server.{Handlers, Route, robot_key, setup_routes, new_server}
use shark_42tokyo_tuning.Server.Guarded.{Refuses, Guarded, setup_routes-Guarded}

ok_injective : {A : Type 0} {a b : A} → ok a ≡ ok b → a ≡ b
ok_injective p = cc

module _ {e : Env} where
  -- A route is the login, the health check or the handler of pprotein, or refuses a request with
  -- no session cookie and no key.
  abbrev pub Covered : List (Route e) → Type 0
  Covered [] = Unit
  Covered (r ∷ rs) =
      ((r.pattern_ ≡ "/api/login")
        ⊎ ((r.pattern_ ≡ "/api/health") ⊎ ((r.pattern_ ≡ "/debug/*") ⊎ Refuses r.serve)))
      × Covered rs

  Guarded-Covered : (rs : List (Route e)) → Guarded rs → Covered rs
  Guarded-Covered [] g = tt
  Guarded-Covered (r ∷ rs) (inl login, g) = (inl login, Guarded-Covered rs g)
  Guarded-Covered (r ∷ rs) (inr refuses, g) = (inr (inr (inr refuses)), Guarded-Covered rs g)

  -- Of the routes of a server that starts, the login, the health check and the handler of pprotein
  -- alone serve a request with no session cookie and no key; the others answer it with 401 or 403
  -- and change nothing. So it is with `ROBOT_API_KEY` unset, too.
  pub new_server-Covered :
      (connected : Result (Unit {0})) (now : Time) (robot_api_key : String) (debug : Serve e)
      (h : Handlers e) (routes : List (Route e))
      → new_server connected now robot_api_key debug h ≡ ok routes
      → Covered routes
  unfolding new_server
  new_server-Covered (ok tt) now key debug h routes p = rw (sym (ok_injective p)) (
    inr (inr (inl refl)),
    (
      inr (inl refl),
      Guarded-Covered (setup_routes now (robot_key key) h)
          (setup_routes-Guarded now (robot_key key) h),
    ),
  )
  new_server-Covered (err x) now key debug h routes p = cc
  new_server-Covered panic now key debug h routes p = cc
