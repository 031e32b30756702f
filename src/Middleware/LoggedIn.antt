-- ===== src/Middleware/LoggedIn.antt =====
-- From a login to the requests that carry its cookie: handler/auth.go, service/auth.go and
-- middleware/auth.go of webapp/backend/internal together.
use shark_42tokyo_tuning.Prelude.{
  ◌+◌, ◌≤◌, ◌<◌, ◌≡◌, ap, ◌∙◌, String, Option, none, some, [], ◌∷◌, Result, Error, ok, err, panic,
  internal_server, arith,
}
use shark_42tokyo_tuning.Model.{Time, User, LoginRequest}
use shark_42tokyo_tuning.Env.{Env, text}
use shark_42tokyo_tuning.World.{World, >>=-eq-ok}
use shark_42tokyo_tuning.Repository.User.{user_query, find_by_user_name}
use shark_42tokyo_tuning.Repository.Session.{create}
use shark_42tokyo_tuning.Service.Timeout.{finishes, with_timeout}
use shark_42tokyo_tuning.Service.Auth.{
  lookup_failed, on_error, mapping_error, check_password, start_session, session_duration, admit,
  log_in, login,
}
use shark_42tokyo_tuning.Service.Auth.Password.{on_error-eq-ok}
use shark_42tokyo_tuning.Handler.Response.{Response, http_error, answer, answer_result}
use shark_42tokyo_tuning.Handler.Auth.{login_failed, login_succeeded, login_handler}
use shark_42tokyo_tuning.Middleware.{Request, Serve, user_auth_middleware}
use shark_42tokyo_tuning.Middleware.Sessions.{user_auth_middleware-create}

-- An error's answer sets no cookie.
cookie-login_failed : (x : Error) → (login_failed x).cookie ≡ none
unfolding login_failed
cookie-login_failed x = ground arith

cookie_of : Result Response → Option (String × Time)
cookie_of (ok r) = r.cookie
cookie_of (err x) = none
cookie_of panic = none

session_or_panic : Option (String × Time) → Result (String × Time)
session_or_panic none = panic
session_or_panic (some s) = ok s

module _ {e : Env} where
  mapped-eq-ok :
      {A : Type 0} (f : Error → Error) (p : Result A × World e) {a : A} {w' : World e}
      → ◌≡◌ {A = Result A × World e} (on_error f p.0, p.1) (ok a, w')
      → p ≡ (ok a, w')
  unfolding on_error
  mapped-eq-ok f (ok b, v) h = h
  mapped-eq-ok f (err x, v) h = cc (ap (λ q. q.0) h)
  mapped-eq-ok f (panic, v) h = cc (ap (λ q. q.0) h)

  -- An answer with a cookie is not that of an error, if those have none.
  answered-eq-ok :
      {A : Type 0} (f : A → Response) (g : Error → Response) (p : Result A × World e)
      {answered : Response} {w' : World e} {session : String × Time}
      → ((x : Error) → (g x).cookie ≡ none)
      → answer_result f g p.0 p.1 ≡ (ok answered, w')
      → answered.cookie ≡ some session
      → (a : A) × (p ≡ (ok a, w')) × ((f a).cookie ≡ some session)
  unfolding answer_result cookie_of
  answered-eq-ok f g (ok a, v) plain h cookie =
      (a, ap (λ q. (ok a, q.1)) h, ap (λ q. cookie_of q.0) h ∙ cookie)
  answered-eq-ok f g (err x, v) plain h cookie = cc (ap (λ q. cookie_of q.0) h, plain x, cookie)
  answered-eq-ok f g (panic, v) plain h cookie = cc (ap (λ q. q.0) h)

  -- What a login that succeeds has done: it has found its user and created a session for it.
  record Created (uuid : Result String) (now : Time) (user_name : String) (w w' : World e)
      (session : String × Time) : Type 0 where
    user : User
    known : e.get_user w.db user_query (text user_name ∷ []) ≡ ok user
    before : World e
    made : create uuid now user.user_id session_duration before ≡ (ok session, w')

  login-Created :
      (uuid : Result String) (now : Time) (user_name password : String) (w w' : World e)
      {session : String × Time}
      → login finishes uuid now user_name password w ≡ (ok session, w')
      → Created uuid now user_name w w' session
  unfolding login with_timeout log_in admit find_by_user_name start_session mapping_error
  login-Created uuid now user_name password w w' {session} h =
      let (user, found, rest) =
        >>=-eq-ok (mapping_error lookup_failed (find_by_user_name user_name))
          (admit uuid now password) w h in
      let (_, checked, started) =
        >>=-eq-ok (check_password user password) (λ _. start_session uuid now user) w rest in
      record {
        user = user;
        known = on_error-eq-ok lookup_failed _ found;
        before = (check_password user password w).1;
        made =
            mapped-eq-ok (λ _. internal_server)
              (create uuid now user.user_id session_duration (check_password user password w).1)
              started;
      }

  -- The cookie of an answer is that of a login that succeeded.
  login_handler-login :
      (uuid : Result String) (now : Time) (req : LoginRequest) (w w' : World e)
      {answered : Response} {session : String × Time}
      → login_handler finishes uuid now (some req) w ≡ (ok answered, w')
      → answered.cookie ≡ some session
      → login finishes uuid now req.user_name req.password w ≡ (ok session, w')
  unfolding login_handler answer login_succeeded session_or_panic
  login_handler-login uuid now req w w' h cookie =
      let (made, same, shown) =
        answered-eq-ok login_succeeded login_failed
          (login finishes uuid now req.user_name req.password w) cookie-login_failed h cookie in
      same ∙ ap (λ (o : Option (String × Time)). (session_or_panic o, w')) shown

  -- If a login in time is answered with a cookie, its user is known, and a request with the cookie,
  -- sent before anything else happens, reaches the handler as that user until 24 hours have passed
  -- since the login, and gets 401 from then on.
  pub user_auth_middleware-login_handler :
      (next : Serve e) (r : Request) (uuid : Result String) (created now : Time)
      (req : LoginRequest) (w w' : World e) {answered : Response} {id : String} {expires_at : Time}
      → login_handler finishes uuid created (some req) w ≡ (ok answered, w')
      → answered.cookie ≡ some (id, expires_at)
      → r.session_cookie ≡ some id
      → (user : User) × (e.get_user w.db user_query (text req.user_name ∷ []) ≡ ok user)
        × (now < created + session_duration
            → (w'' : World e) × (user_auth_middleware now next r w'
                ≡ next (record r { user = some user.user_id }) w''))
        × (created + session_duration ≤ now
            → (user_auth_middleware now next r w').0
              ≡ ok (http_error 401 "Unauthorized: Invalid session"))
  user_auth_middleware-login_handler next r uuid created now req w w' h cookie carries =
      let c =
        login-Created uuid created req.user_name req.password w w'
          (login_handler-login uuid created req w w' h cookie) in
      let (live, dead) =
        user_auth_middleware-create next r uuid created now c.user.user_id session_duration c.before
          w' c.made carries in
      (c.user, c.known, live, dead)
