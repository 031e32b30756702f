-- ===== src/Boot.antt =====
-- The start and the end of the process of the backend: `main` of webapp/backend/cmd/main.go, with
-- `InitDBConnection` of internal/db/db.go, `WrapSQLDriver` of internal/telemetry/sql.go, and
-- `NewServer` and `Run` of internal/server/server.go. What the process does to the system is
-- written down in order; the answers of the system are arguments. Logs are left out.
pub mod Serves
pub mod Course
pub mod Lifecycle
use shark_42tokyo_tuning.Prelude.{
  ℕ, ◌*◌, ◌^◌, String, concat, str_eq, if◌then◌else◌, Option, none, some, List, [], ◌∷◌, ◌++◌,
  Result, ok, err, panic, Error,
}
use shark_42tokyo_tuning.Prelude.Processes.{Process, ◌>>=◌, ◌>>◌, pure, exit, perform, deferred}
use shark_42tokyo_tuning.Model.{Time}
use shark_42tokyo_tuning.Env.{Env}
use shark_42tokyo_tuning.Middleware.{Serve}
use shark_42tokyo_tuning.Server.{Handlers, Route, new_server}
use shark_42tokyo_tuning.Telemetry.{Host, enabled}

-- What `Serve` of `http.Server` returns.
pub data ServeEnd : Type 0 where
  no_error server_closed other_error : ServeEnd

pub record System : Type 0 where
  -- The environment: a variable that is not set is empty.
  pub host : Host
  -- `otelsql.Register`: the name of the new driver, or an error.
  pub register : (base : String) → Option String
  -- The errors of `sqlx.Open`, `PingContext` and `net.Listen`, or none.
  pub open_error : (driver dsn : String) → Option Error
  pub ping_error : Option Error
  pub listen_error : (path : String) → Option Error
  pub served : ServeEnd

pub data Effect (e : Env) : Type 0 where
  registers : (base : String) → Effect e
  opens_db : (driver dsn : String) → Effect e
  pings : (timeout : Time) → Effect e
  limits_db : (max_open max_idle : ℕ) (max_lifetime : Time) → Effect e
  closes_db : Effect e
  removes : (path : String) → Effect e
  listens : (path : String) → Effect e
  chmods : (path : String) (mode : ℕ) → Effect e
  serves : (path : String) (routes : List (Route e)) → Effect e

abbrev pub second : Time
second = 10 ^ 9

-- The driver that is used where `Register` fails is the base.
unfoldable pub registered : (base : String) → Option String → String
registered base (some name) = name
registered base none = base

abbrev pub db_url : String → String
db_url url = if str_eq url "" then "user:password@tcp(db:4306)/42tokyo2508-db" else url

abbrev pub dsn_of : String → String
dsn_of url = concat (db_url url) "?charset=utf8mb4&parseTime=True&loc=Local&interpolateParams=true"

-- `socketPath` of `Run`
abbrev pub socket_path : String → String
socket_path path = if str_eq path "" then "/var/run/app/app.sock" else path

module _ (e : Env) (s : System) where
  -- `WrapSQLDriver`
  unfoldable pub wrap_sql_driver : (base_driver : String) → Process (Effect e) String
  wrap_sql_driver base_driver =
      if enabled s.host
      then (do
        perform (registers base_driver)
        pure (registered base_driver (s.register base_driver)))
      else pure base_driver

  unfoldable pub pinged : Option Error → Process (Effect e) (Result (Unit {0}))
  pinged none = do perform (limits_db 50 50 (5 * 60 * second)); pure (ok tt)
  pinged (some x) = do perform closes_db; pure (err x)

  unfoldable pub opened : Option Error → Process (Effect e) (Result (Unit {0}))
  opened none = do perform (pings (5 * second)); pinged s.ping_error
  opened (some x) = pure (err x)

  -- `InitDBConnection`
  unfoldable pub init_db_connection : Process (Effect e) (Result (Unit {0}))
  init_db_connection = do
    driver ← wrap_sql_driver "mysql"
    perform (opens_db driver (dsn_of (s.host.getenv "DATABASE_URL")))
    opened (s.open_error driver (dsn_of (s.host.getenv "DATABASE_URL")))

  unfoldable pub served : ServeEnd → Process (Effect e) (Unit {0})
  served no_error = pure tt
  served server_closed = pure tt
  served other_error = exit

  unfoldable pub listening :
      (path : String) → List (Route e) → Option Error → Process (Effect e) (Unit {0})
  listening path routes none = do
    perform (chmods path 438)
    perform (serves path routes)
    served s.served
  listening path routes (some x) = exit

  -- `Run`. The mode of the socket is 0666; an error of its removal or its mode has no effect.
  unfoldable pub run : List (Route e) → Process (Effect e) (Unit {0})
  run routes = do
    perform (removes (socket_path (s.host.getenv "APP_SOCKET_PATH")))
    perform (listens (socket_path (s.host.getenv "APP_SOCKET_PATH")))
    listening (socket_path (s.host.getenv "APP_SOCKET_PATH")) routes
        (s.listen_error (socket_path (s.host.getenv "APP_SOCKET_PATH")))

  unfoldable pub started : Result (List (Route e)) → Process (Effect e) (Unit {0})
  started (ok routes) = deferred closes_db (run routes)
  started (err x) = exit
  started panic = exit

  -- `main`, with the routes as they are for a request at `now`.
  unfoldable pub main :
      (now : Time) → (debug : Serve e) → Handlers e → Process (Effect e) (Unit {0})
  main now debug h = do
    connected ← init_db_connection
    started (new_server connected now (s.host.getenv "ROBOT_API_KEY") debug h)
