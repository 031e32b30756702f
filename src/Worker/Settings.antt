-- ===== src/Worker/Settings.antt =====
-- `initializeClients` and `parseInt32` of benchmarker/worker/main.go. The environment, `time`, `fmt`
-- and the clients of Azure are arguments. A `log.Fatal` is an error.
pub mod Bounds
use shark_42tokyo_tuning.Prelude.{
  ◌+◌, ◌-◌, ◌%◌, ◌^◌, suc, ℕ, String, concat, str_eq, Bool, ◌&&◌, if◌then◌else◌, ltb, Result, ok,
  err, panic, Error, failure, ◌>>=◌,
}
use shark_42tokyo_tuning.Prelude.Int.{ℤ, pos, negsuc, ltb_ℤ, leb_ℤ}

-- The answer to the creation of a queue: an error of the service carries its code.
pub data Creation : Type 0 where
  created : Creation
  response_error : (error_code : String) → Creation
  other_error : Creation

pub record Host : Type 0 where
  -- A variable that is not set is empty.
  pub getenv : String → String
  -- `time.ParseDuration`, in nanoseconds, and `int32(d.Seconds())`.
  pub parse_duration : String → Result ℤ
  pub seconds32 : ℤ → ℤ
  -- `fmt.Sscanf` of "%d".
  pub scan_int : String → Result ℤ
  pub new_queue_client : (conn_str queue_name : String) → Result (Unit {0})
  pub create_queue : (queue_name : String) → Creation
  pub new_service_client : (conn_str : String) → Result (Unit {0})

-- The variables of the package that are set.
pub record Settings : Type 0 where
  pub base_url : String
  pub auth_token : String
  pub visibility_timeout_sec : ℤ
  pub dequeue_batch_size : ℤ

abbrev pub queue_name : String
queue_name = "fttokyo-loadtest-requests"

abbrev pub dlq_name : String
dlq_name = "fttokyo-loadtest-requests-dlq"

-- `int32(i)`
signed32 : ℕ → ℤ
signed32 u = if ltb u (2 ^ 31) then pos u else negsuc (2 ^ 32 - 1 - u)

unfoldable pub to_int32 : ℤ → ℤ
unfolding signed32
to_int32 (pos n) = signed32 (n % 2 ^ 32)
to_int32 (negsuc n) = signed32 (2 ^ 32 - 1 - n % 2 ^ 32)

-- An error of the queue that is there already is none.
unfoldable pub dlq_there : Creation → Result (Unit {0})
dlq_there created = ok tt
dlq_there (response_error code) =
    if str_eq code "QueueAlreadyExists" then ok tt else err (failure "dlq")
dlq_there other_error = err (failure "dlq")

-- What a variable holds, unless it is empty.
unfoldable pub required : (value : String) → Result String
required value = if str_eq value "" then err (failure "unset") else ok value

-- The seconds of a timeout that was read, or the 300 that stand there before.
unfoldable pub timeout_of : Result ℤ → (ℤ → ℤ) → ℤ
timeout_of (ok d) seconds32 = if ltb_ℤ (seconds32 d) (pos 30) then pos 30 else seconds32 d
timeout_of (err x) seconds32 = pos 300
timeout_of panic seconds32 = pos 300

unfoldable pub batch_of : Result ℤ → ℤ
batch_of (ok n) = if ltb_ℤ (pos 0) n && leb_ℤ n (pos 32) then n else pos 1
batch_of (err x) = pos 1
batch_of panic = pos 1

module _ (h : Host) where
  unfoldable pub seconds_or_number : Result ℤ → Result ℤ → Result ℤ
  unfolding to_int32
  seconds_or_number (ok d) scanned = ok (h.seconds32 d)
  seconds_or_number (err x) scanned = scanned >>= λ i. ok (to_int32 i)
  seconds_or_number panic scanned = panic

  -- `parseInt32`
  unfoldable pub parse_int32 : String → Result ℤ
  unfolding seconds_or_number
  parse_int32 s = seconds_or_number (h.parse_duration s) (h.scan_int s)

  unfoldable pub visibility_timeout : String → ℤ
  unfolding timeout_of
  visibility_timeout v =
      if str_eq v "" then pos 300 else timeout_of (h.parse_duration v) h.seconds32

  unfoldable pub batch_size : String → ℤ
  unfolding parse_int32 batch_of
  batch_size v = if str_eq v "" then pos 1 else batch_of (parse_int32 v)

  unfoldable pub make_clients : (conn_str : String) → Result (Unit {0})
  unfolding dlq_there
  make_clients conn_str = h.new_queue_client conn_str queue_name >>= λ _.
      h.new_queue_client conn_str dlq_name >>= λ _.
      dlq_there (h.create_queue dlq_name) >>= λ _. h.new_service_client conn_str

  abbrev pub settings : (base_url auth_token : String) → Settings
  settings base_url auth_token = record {
    base_url = base_url;
    auth_token = auth_token;
    visibility_timeout_sec = visibility_timeout (h.getenv "QUEUE_VISIBILITY_TIMEOUT");
    dequeue_batch_size = batch_size (h.getenv "DEQUEUE_BATCH_SIZE");
  }

  abbrev pub with_token : (conn_str base_url auth_token : String) → Result Settings
  with_token conn_str base_url auth_token =
      make_clients conn_str >>= λ _. ok (settings base_url auth_token)

  abbrev pub with_url : (conn_str base_url : String) → Result Settings
  with_url conn_str base_url =
      required (h.getenv "WORKER_AUTH_TOKEN") >>= with_token conn_str base_url

  abbrev pub with_connection : (conn_str : String) → Result Settings
  with_connection conn_str = required (h.getenv "INTERMEDIATE_BASE_URL") >>= with_url conn_str

  -- `initializeClients`
  unfoldable pub initialize_clients : Result Settings
  unfolding required visibility_timeout batch_size make_clients
  initialize_clients = required (h.getenv "AZURE_STORAGE_CONNECTION_STRING") >>= with_connection
