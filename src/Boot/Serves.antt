-- ===== src/Boot/Serves.antt =====
-- When the process serves requests, where, and by which routes.
use mathlib.Core.Path.{subst}
use shark_42tokyo_tuning.Prelude.{
  some_inj, ◌≡◌, refl, sym, ◌∙◌, String, Option, none, some, List, [], ◌∷◌, ◌++◌,
}
use shark_42tokyo_tuning.Prelude.Paths.Elements.{All}
use shark_42tokyo_tuning.Model.{Time}
use shark_42tokyo_tuning.Env.{Env}
use shark_42tokyo_tuning.Middleware.{Serve}
use shark_42tokyo_tuning.Server.{Handlers, Route}
use shark_42tokyo_tuning.Server.Open.{Covered, new_server-Covered}
use shark_42tokyo_tuning.Prelude.Processes.{Process}
use shark_42tokyo_tuning.Boot.{System, Effect, registers, serves, main}
use shark_42tokyo_tuning.Boot.Course.{
  Wraps, plain_driver, traced_driver, Answered, dsn, path, Course, unopened, unanswered, unheard,
  broken, stopped, new_server-starts, main-Course,
}

module _ {e : Env} where
  -- A request is served on the socket, by routes that ask for credentials.
  abbrev pub Safe : String → Effect e → Type 0
  Safe at (serves q routes) = (q ≡ at) × Covered routes
  Safe at x = Unit

  abbrev pub serving_at : List (Effect e) → Option String
  serving_at [] = none
  serving_at (serves q routes ∷ xs) = some q
  serving_at (x ∷ xs) = serving_at xs

  All-Wraps :
      (P : Effect e → Type 0) (l m : List (Effect e))
      → Wraps l
      → P (registers "mysql")
      → All P m
      → All P (l ++ m)
  All-Wraps P l m (plain_driver w) p all = rw w all
  All-Wraps P l m (traced_driver w) p all = rw w (p, all)

  serving_at-Wraps : (l m : List (Effect e)) → Wraps l → serving_at (l ++ m) ≡ serving_at m
  serving_at-Wraps l m (plain_driver w) = rw w refl
  serving_at-Wraps l m (traced_driver w) = rw w refl

  Course-Safe :
      (s : System) (routes : List (Route e)) (m : Process (Effect e) (Unit {0}))
      → Covered routes
      → Course s routes m
      → All (Safe (path s)) m.1
  Course-Safe s routes m cov (unopened d l x w o p) =
      rw p (All-Wraps (Safe (path s)) l _ w tt (tt, tt))
  Course-Safe s routes m cov (unanswered d l x w a p) =
      rw p (All-Wraps (Safe (path s)) l _ w tt (tt, (tt, (tt, tt))))
  Course-Safe s routes m cov (unheard d l x w u p) =
      rw p (All-Wraps (Safe (path s)) l _ w tt (tt, (tt, (tt, (tt, (tt, tt))))))
  Course-Safe s routes m cov (broken d l w up b p) =
      rw p
        (All-Wraps (Safe (path s)) l _ w tt (tt, (tt, (tt, (tt, (tt, (tt, ((refl, cov), tt))))))))
  Course-Safe s routes m cov (stopped d l w up b p) = rw p (
      All-Wraps (Safe (path s)) l _ w tt
        (tt, (tt, (tt, (tt, (tt, (tt, ((refl, cov), (tt, tt)))))))))

  -- Whatever the environment and the system answer: the process serves on the socket that the
  -- environment names, and by routes of which the login, the health check and the handler of pprotein
  -- alone serve a request with no session cookie and no key.
  pub main-Safe :
      (s : System) (now : Time) (debug : Serve e) (h : Handlers e)
      → All (Safe (path s)) (main e s now debug h).1
  main-Safe s now debug h =
      let (routes, p) = new_server-starts s now debug h in
      Course-Safe s routes (main e s now debug h)
        (new_server-Covered _ now (s.host.getenv "ROBOT_API_KEY") debug h routes p)
        (main-Course s routes now debug h p)

  -- The process serves if every call succeeds, and only then.
  pub record ServesWhen (s : System) (m : Process (Effect e) (Unit {0})) : Type 0 where
    pub serves_if :
        ((driver : String) → s.open_error driver (dsn s) ≡ none)
        → s.ping_error ≡ none
        → s.listen_error (path s) ≡ none
        → serving_at m.1 ≡ some (path s)
    pub only_if :
        (q : String) → serving_at m.1 ≡ some q → (s.ping_error ≡ none) × (s.listen_error q ≡ none)

  silent :
      (s : System) (m : Process (Effect e) (Unit {0})) (r : Option (Unit {0}))
      (l n : List (Effect e))
      → Wraps l
      → m ≡ (r, l ++ n)
      → serving_at n ≡ none
      → (((driver : String) → s.open_error driver (dsn s) ≡ none)
          → s.ping_error ≡ none
          → s.listen_error (path s) ≡ none
          → ⊥)
      → ServesWhen s m
  silent s m r l n w p none_at fails = rw p (record {
    serves_if = λ opens a u. absurd (fails opens a u);
    only_if = λ q h. cc (serving_at-Wraps l n w, none_at, h);
  })

  speaks :
      (s : System) (m : Process (Effect e) (Unit {0})) (r : Option (Unit {0})) (driver : String)
      (l n : List (Effect e))
      → Wraps l
      → m ≡ (r, l ++ n)
      → serving_at n ≡ some (path s)
      → Answered s driver
      → ServesWhen s m
  speaks s m r driver l n w p at up = rw p (record {
    serves_if = λ opens a u. serving_at-Wraps l n w ∙ at;
    only_if = λ q h.
        let same = some_inj (sym at ∙ (sym (serving_at-Wraps l n w) ∙ h)) in
        (up.answered, subst (λ x. s.listen_error x ≡ none) same up.heard);
  })

  Course-ServesWhen :
      (s : System) (routes : List (Route e)) (m : Process (Effect e) (Unit {0}))
      → Course s routes m
      → ServesWhen s m
  Course-ServesWhen s routes m (unopened d l x w o p) =
      silent s m none l _ w p refl (λ opens a u. cc (opens d, o))
  Course-ServesWhen s routes m (unanswered d l x w fault p) =
      silent s m none l _ w p refl (λ opens a u. cc (a, fault))
  Course-ServesWhen s routes m (unheard d l x w fault p) =
      silent s m none l _ w p refl (λ opens a u. cc (u, fault))
  Course-ServesWhen s routes m (broken d l w up b p) = speaks s m none d l _ w p refl up
  Course-ServesWhen s routes m (stopped d l w up b p) = speaks s m (some tt) d l _ w p refl up

  -- If the connection opens, the database answers and the socket is made, then the process serves on
  -- the socket that the environment names; and it serves on no socket that could not be made, nor
  -- with a database that has not answered.
  pub main-ServesWhen :
      (s : System) (now : Time) (debug : Serve e) (h : Handlers e)
      → ServesWhen s (main e s now debug h)
  main-ServesWhen s now debug h =
      let (routes, p) = new_server-starts s now debug h in
      Course-ServesWhen s routes (main e s now debug h) (main-Course s routes now debug h p)
