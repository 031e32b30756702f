-- ===== src/Boot/Lifecycle.antt =====
-- The database connection and the socket of the process, from its first effect to its last.
use shark_42tokyo_tuning.Prelude.{
  ◌≡◌, ◌⊎◌, String, str_eq, if◌then◌else◌, Option, none, some, List, [], ◌∷◌,
}
use shark_42tokyo_tuning.Env.{Env}
use shark_42tokyo_tuning.Prelude.Processes.{Process}
use shark_42tokyo_tuning.Boot.{
  Effect, registers, opens_db, pings, limits_db, closes_db, removes, listens, chmods, serves,
}
use shark_42tokyo_tuning.Boot.Course.{Course}

-- A connection pool, and the file of a socket.
pub data Pool : Type 0 where
  unmade made asked ready closed : Pool

pub data Socket : Type 0 where
  unmade : Socket
  removed bound public : (at : String) → Socket

abbrev if_same : String → String → Socket → Option Socket
if_same p q next = if str_eq p q then some next else none

-- When the process returns, its pool is closed; when it ends in an error, it has left the
-- socket alone, or its pool is still open.
abbrev pub Ends : Option (Unit {0}) → Pool → Socket → String → Type 0
Ends (some _) pool socket at = (pool ≡ closed) × (socket ≡ public at)
Ends none pool socket at = (socket ≡ unmade) ⊎ (pool ≡ ready)

module _ {e : Env} where
  -- A pool is pinged before its limits are set, and it is closed once; a socket is made and served
  -- while it is ready.
  abbrev pub pool_step : Pool → Effect e → Option Pool
  pool_step unmade (registers base) = some unmade
  pool_step unmade (opens_db driver dsn) = some made
  pool_step made (pings timeout) = some asked
  pool_step asked closes_db = some closed
  pool_step asked (limits_db max_open max_idle lifetime) = some ready
  pool_step ready closes_db = some closed
  pool_step ready (serves at routes) = some ready
  pool_step ready (removes at) = some ready
  pool_step ready (listens at) = some ready
  pool_step ready (chmods at mode) = some ready
  pool_step p x = none

  -- A socket is made where an old file was removed, and is served when all may connect to it.
  abbrev pub socket_step : Socket → Effect e → Option Socket
  socket_step unmade (removes p) = some (removed p)
  socket_step (removed p) (listens q) = if_same p q (bound p)
  socket_step (bound p) (chmods q mode) = if_same p q (public p)
  socket_step (public p) (serves q routes) = if_same p q (public p)
  socket_step k (registers base) = some k
  socket_step k (opens_db driver dsn) = some k
  socket_step k (pings timeout) = some k
  socket_step k (limits_db max_open max_idle lifetime) = some k
  socket_step k closes_db = some k
  socket_step k x = none

  abbrev pub lives : {A : Type 0} → (A → Effect e → Option A) → A → List (Effect e) → Option A
  lives step a [] = some a
  lives step a (x ∷ xs) = elim (step a x) [ none ↦ none | some b ↦ lives step b xs ]

  pub record Lived (m : Process (Effect e) (Unit {0})) (at : String) : Type 0 where
    pub pool : Pool
    pub socket : Socket
    pub pool_lives : lives pool_step unmade m.1 ≡ some pool
    pub socket_lives : lives socket_step unmade m.1 ≡ some socket
    pub ends : Ends m.0 pool socket at
