-- ===== src/Boot/Course.antt =====
-- The courses that the process can take, by the answers of the system.
use mathlib.Core.List.{append_assoc, append-nil}
use shark_42tokyo_tuning.Prelude.{
  ◌≡◌, ◌≢◌, refl, ap, ◌∙◌, inl, inr, ◌⊎◌, String, Option, none, some, List, [], ◌∷◌, ◌++◌, ok, err,
  Error, Option-cases, Bool-cases, ◌*◌,
}
use shark_42tokyo_tuning.Model.{Time}
use shark_42tokyo_tuning.Env.{Env}
use shark_42tokyo_tuning.Middleware.{Serve}
use shark_42tokyo_tuning.Server.{Handlers, Route, new_server}
use shark_42tokyo_tuning.Telemetry.{enabled}
use shark_42tokyo_tuning.Prelude.Processes.{Process, deferred}
use shark_42tokyo_tuning.Boot.{
  ServeEnd, no_error, server_closed, other_error, System, Effect, registers, opens_db, pings,
  limits_db, closes_db, removes, listens, chmods, serves, second, dsn_of, socket_path, registered,
  wrap_sql_driver, init_db_connection, opened, pinged, started, run, listening, served, main,
}

ServeEnd-cases : (x : ServeEnd) → (x ≡ other_error) ⊎ (x ≢ other_error)
ServeEnd-cases no_error = inr (λ p. cc)
ServeEnd-cases server_closed = inr (λ p. cc)
ServeEnd-cases other_error = inl refl

module _ {e : Env} where
  -- The effects of `WrapSQLDriver`: none, or the registration of a driver.
  pub data Wraps (l : List (Effect e)) : Type 0 where
    plain_driver : l ≡ [] → Wraps l
    traced_driver : l ≡ registers "mysql" ∷ [] → Wraps l

module _ (s : System) where
  abbrev pub dsn : String
  dsn = dsn_of (s.host.getenv "DATABASE_URL")

  abbrev pub path : String
  path = socket_path (s.host.getenv "APP_SOCKET_PATH")

  -- Every call that can fail has succeeded.
  pub record Answered (driver : String) : Type 0 where
    pub opened : s.open_error driver dsn ≡ none
    pub answered : s.ping_error ≡ none
    pub heard : s.listen_error path ≡ none

module _ {e : Env} (s : System) where
  abbrev asks : (driver : String) → List (Effect e) → List (Effect e)
  asks driver rest = opens_db driver (dsn s) ∷ pings (5 * second) ∷ rest

module _ {e : Env} (s : System) (routes : List (Route e)) where
  abbrev binds : List (Effect e) → List (Effect e)
  binds rest = limits_db 50 50 (5 * 60 * second) ∷ removes (path s) ∷ listens (path s) ∷ rest

  abbrev serving : List (Effect e) → List (Effect e)
  serving rest = chmods (path s) 438 ∷ serves (path s) routes ∷ rest

  pub data Course (m : Process (Effect e) (Unit {0})) : Type 0 where
    unopened :
        (driver : String) (l : List (Effect e)) (x : Error)
        → Wraps l
        → s.open_error driver (dsn s) ≡ some x
        → m ≡ (none, l ++ opens_db driver (dsn s) ∷ [])
        → Course m
    unanswered :
        (driver : String) (l : List (Effect e)) (x : Error)
        → Wraps l
        → s.ping_error ≡ some x
        → m ≡ (none, l ++ asks s driver (closes_db ∷ []))
        → Course m
    unheard :
        (driver : String) (l : List (Effect e)) (x : Error)
        → Wraps l
        → s.listen_error (path s) ≡ some x
        → m ≡ (none, l ++ asks s driver (binds []))
        → Course m
    broken :
        (driver : String) (l : List (Effect e))
        → Wraps l
        → Answered s driver
        → s.served ≡ other_error
        → m ≡ (none, l ++ asks s driver (binds (serving [])))
        → Course m
    stopped :
        (driver : String) (l : List (Effect e))
        → Wraps l
        → Answered s driver
        → s.served ≢ other_error
        → m ≡ (some tt, l ++ asks s driver (binds (serving (closes_db ∷ []))))
        → Course m

module _ {e : Env} (s : System) where
  -- The driver, and the effects of its choice.
  wrap_sql_driver_lem :
      (d : String) × (l : List (Effect e)) × Wraps l × (wrap_sql_driver e s "mysql" ≡ (some d, l))
  unfolding wrap_sql_driver
  wrap_sql_driver_lem = elim (Bool-cases (enabled s.host)) [
    | inl on ↦ (
      registered "mysql" (s.register "mysql"),
      registers "mysql" ∷ [],
      traced_driver refl,
      rw on refl,
    )
    | inr off ↦ ("mysql", [], plain_driver refl, rw off refl)
  ]

  served-returns : (x : ServeEnd) → x ≢ other_error → served e s x ≡ (some tt, [])
  unfolding served
  served-returns no_error ne = refl
  served-returns server_closed ne = refl
  served-returns other_error ne = absurd (ne refl)

  module _ (d : String) (l : List (Effect e)) (wraps : Wraps l)
      (chosen : wrap_sql_driver e s "mysql" ≡ (some d, l)) where
    init-unopened :
        (x : Error)
        → s.open_error d (dsn s) ≡ some x
        → init_db_connection e s ≡ (some (err x), l ++ opens_db d (dsn s) ∷ [])
    unfolding init_db_connection opened
    init-unopened x o = rw (chosen, o) refl

    init-unanswered :
        (x : Error)
        → s.open_error d (dsn s) ≡ none
        → s.ping_error ≡ some x
        → init_db_connection e s ≡ (some (err x), l ++ asks s d (closes_db ∷ []))
    unfolding init_db_connection opened pinged
    init-unanswered x o a = rw (chosen, o, a) refl

    init-answered :
        s.open_error d (dsn s) ≡ none
        → s.ping_error ≡ none
        → init_db_connection e s
          ≡ (some (ok tt), l ++ asks s d (limits_db 50 50 (5 * 60 * second) ∷ []))
    unfolding init_db_connection opened pinged
    init-answered o a = rw (chosen, o, a) refl

  module _ (routes : List (Route e)) where
    run-unheard :
        (x : Error)
        → s.listen_error (path s) ≡ some x
        → run e s routes ≡ (none, removes (path s) ∷ listens (path s) ∷ [])
    unfolding run listening
    run-unheard x u = rw u refl

    run-broken :
        s.listen_error (path s) ≡ none
        → s.served ≡ other_error
        → run e s routes ≡ (none, removes (path s) ∷ listens (path s) ∷ serving s routes [])
    unfolding run listening served
    run-broken u b = rw (u, b) refl

    run-stopped :
        s.listen_error (path s) ≡ none
        → s.served ≢ other_error
        → run e s routes ≡ (some tt, removes (path s) ∷ listens (path s) ∷ serving s routes [])
    unfolding run listening
    run-stopped u b = rw (u, served-returns s.served b) refl

    module _ (now : Time) (debug : Serve e) (h : Handlers e) where
      main-refused :
          (x : Error) (l m : List (Effect e))
          → init_db_connection e s ≡ (some (err x), l ++ m)
          → main e s now debug h ≡ (none, l ++ m)
      unfolding main started new_server
      main-refused x l m p =
          rw p (ap (λ n. (none, n)) (append_assoc l m [] ∙ ap (λ k. l ++ k) (append-nil m)))

      main-connected :
          (r : Option (Unit {0})) (l m n : List (Effect e))
          → new_server (ok tt) now (s.host.getenv "ROBOT_API_KEY") debug h ≡ ok routes
          → init_db_connection e s ≡ (some (ok tt), l ++ m)
          → deferred closes_db (run e s routes) ≡ (r, n)
          → main e s now debug h ≡ (r, l ++ (m ++ n))
      unfolding main started
      main-connected r l m n p q d =
          rw (q, p, d) (ap (λ (k : List (Effect e)). (r, k)) (append_assoc l m n))

      pub main-Course :
          new_server (ok tt) now (s.host.getenv "ROBOT_API_KEY") debug h ≡ ok routes
          → Course s routes (main e s now debug h)
      unfolding deferred
      main-Course p =
          let (d, l, wraps, chosen) = wrap_sql_driver_lem in
          elim (Option-cases (s.open_error d (dsn s))) [
            | inr (x, o) ↦
                unopened d l x wraps o (main-refused x l _ (init-unopened d l wraps chosen x o))
            | inl o ↦ elim (Option-cases s.ping_error) [
              | inr (x, a) ↦
                  unanswered d l x wraps a
                    (main-refused x l _ (init-unanswered d l wraps chosen x o a))
              | inl a ↦
                  let connected = λ (r : Option (Unit {0})) (n : List (Effect e)).
                    main-connected r l (asks s d (limits_db 50 50 (5 * 60 * second) ∷ [])) n p
                      (init-answered d l wraps chosen o a) in
                  elim (Option-cases (s.listen_error (path s))) [
                    | inr (x, u) ↦
                        unheard d l x wraps u (connected none _ (rw (run-unheard x u) refl))
                    | inl u ↦
                        let up : Answered s d = record { opened = o; answered = a; heard = u } in
                        elim (ServeEnd-cases s.served) [
                          | inl b ↦
                              broken d l wraps up b (connected none _ (rw (run-broken u b) refl))
                          | inr b ↦
                              stopped d l wraps up b
                                (connected (some tt) _ (rw (run-stopped u b) refl))
                        ]
                  ]
            ]
          ]

module _ {e : Env} (s : System) (now : Time) (debug : Serve e) (h : Handlers e) where
  pub new_server-starts :
      (routes : List (Route e)) × (new_server (ok tt) now (s.host.getenv "ROBOT_API_KEY") debug h
        ≡ ok routes)
  unfolding new_server
  new_server-starts = (_, refl)
