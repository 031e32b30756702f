-- ===== src/Lib.antt =====
-- Verification of the backend of the web shop: the delivery plans, the caches, the transactions,
-- the logins, the sessions and the start of the server; and of the worker that runs the load tests.
--
-- The program. webapp/backend/internal is a Go server. A request passes a middleware
-- (middleware/auth.go), a handler (handler/), a service (service/) and the repositories
-- (repository/), which share one database connection and a few caches. Users log in, list products
-- and orders, and order; robots ask for a delivery plan and report deliveries.
--
-- The files, each with the code that it is about:
--   Model: model/model.go, the structs as records.
--   Env: what the code calls and does not implement, as records of operations with their
--     documented laws: MySQL through sqlx, the LRU caches, samber/lo, bcrypt and SHA-256.
--   World: the fields that the methods share, as one record, and the monad of the methods: a
--     method is a function from the state to a result and a state. A result is a value, an error or
--     a panic. What was written before an error stays written.
--   Delivery: bestSelectOrdersForDelivery of service/robot.go. Chain, Round, Cells and Search hold
--     the loop invariants.
--   Repository/Store, Order, User, Session, Product: repository/*.go. Each method of a repository
--     runs in one piece; Order/Race takes GetShippingOrders and the writers of orders apart at their
--     lock, as a relation on what they share, and Order/Counts the count of ListOrders. Order/Listing
--     and Product/Served hold the queries that the lists stand for when nothing is cached.
--   Service/Robot, Product, Order, Auth, Timeout: service/*.go and service/utils/timeout.go.
--   Handler/Auth, Order, Product, Image, Robot, Paging, Response: handler/*.go; Image is GetImage, over
--     the path functions of Go in Prelude/Paths.
--   Middleware: middleware/auth.go. Tracing below it: jaeger.go and tracing.go, which nothing uses.
--   Server: NewServer and setupRoutes of server/server.go, the list of the registered routes; which
--     route a request takes is chosen by chi.
--   Api: the calls of the handlers as steps of one state, one call at a time. Moves and its children
--     say what a call may write; Gone and Once are about a plan, any calls after it, and another plan;
--     Planned is about two plans in a row.
--   Telemetry: Init of telemetry/telemetry.go.
--   Boot: the process of the server: webapp/backend/cmd/main.go, db/db.go, telemetry/sql.go, and Run of
--     server/server.go, as what they do to the system, in order. Course lists the courses that it can
--     take, Lifecycle and Serves are about its database connection, its socket and its routes.
--   Worker/Cloud, Lock, Queue, Poll, Score: benchmarker/worker/model.go, lock.go, queue.go with
--     worker.go and postScore.go, pollQueue of main.go, and score/calcScore.go. The worker takes
--     messages from a queue, keeps the state of each request in a table, runs the load test and posts
--     the score. Every call of the outside is written down, and each answer may depend on all calls
--     before it. Worker/Settings: initializeClients and parseInt32 of main.go. Worker/Runner: the
--     target and the files of cmd/runner/main.go; Main below it is its main, with WriteSummaryJSON and
--     the two tools that compute a score alone. Worker/Orders: the generator of random orders.
--     Worker/Unused: dlq.go, and deleteMessageSafe of queue.go.
--   Tests: runs on a small shop, and instances of the theorems.
-- A Go function fooBar is foo_bar here; a part of a function has a name of its own and a comment
-- that names the function. Paths without benchmarker are from webapp/backend/internal.
--
-- Bounds. A Go int is an integer with its sums and products wrapped to 64 bits (Prelude/Int). Every
-- loop is recursion on a list, or on the number of its rounds, so none needs fuel; the endless loop of
-- pollQueue is a function of the list of rounds that it has seen. `make` of the tables of
-- bestSelectOrdersForDelivery panics for a length that is negative or above 2^45, as on a 64-bit
-- machine; a memory that runs out before is left out. Times are natural numbers of nanoseconds.
--
-- Choices of the outside are arguments: the clock, the random UUID, the case that the select of
-- WithTimeout takes, and what the decoder makes of a body. A transaction works on the database that
-- it began on, a commit that returns an error is taken to have written nothing, and no other
-- connection writes meanwhile; so the theorems on the caches, but for those
-- of Order/Race and Order/Counts, are about methods that run one at a time, and assume of the database
-- the laws of `DbLaws`.
--
-- Not modelled: methods other than GetShippingOrders, the count of ListOrders and the writers of
-- orders, taken apart at their locks; spans and logs, which change no result; webapp/pprotein, which
-- is a copy of another project.
pub mod Prelude
pub mod Model
pub mod Delivery
pub mod Env
pub mod World
pub mod Repository
pub mod Service
pub mod Handler
pub mod Middleware
pub mod Server
pub mod Telemetry
pub mod Boot
pub mod Api
pub mod Worker
pub mod Tests
