-- ===== src/Worker/Cloud.antt =====
-- benchmarker/worker/model.go, and what the worker calls: the table and the queues of Azure, the
-- clock, the load test and HTTP. Every call is written down, the latest first, and an answer may
-- depend on all calls before it.
use shark_42tokyo_tuning.Prelude.{
  ◌≡◌, refl, ℕ, String, Bool, Option, List, Result, Error, ok, err, panic,
}
use shark_42tokyo_tuning.Prelude.Int.{ℤ}
use shark_42tokyo_tuning.Model.{Time}

pub record QueueMessage : Type 0 where
  pub load_test_id : String
  pub team_id : String
  pub target_ip : String

-- With the two keys of `aztables.Entity`.
pub record RequestEntity : Type 0 where
  pub partition_key : String
  pub row_key : String
  pub status : String
  pub created_at : Time
  pub updated_at : Time

-- `azqueue.DequeuedMessage`; a nil pointer is none.
pub record DequeuedMessage : Type 0 where
  pub message_text : Option String
  pub message_id : Option String
  pub pop_receipt : Option String

pub data Call : Type 0 where
  -- A write of the table that succeeded, and one that did not.
  upsert_entity : RequestEntity → Call
  upsert_failed : RequestEntity → Call
  list_entities : (filter : String) → Call
  enqueue_dlq : (load_test_id team_id target_ip error : String) → Call
  delete_message : (id receipt : String) → Call
  make_dir : (path : String) → Call
  -- The script, with its argument and the variable `TARGET_IP`.
  load_test : (argument target_ip : String) → Call
  write_summary : (path : String) (score : ℤ) → Call
  -- A request for messages, whatever its answer is.
  dequeue : Call
  post : (url token load_test_id team_id : String) → ℤ → Call
  sleep : (duration : ℕ) → Call

pub record Cloud : Type 0 where
  pub now : List Call → Time
  pub rfc3339 : Time → String
  -- `json.Unmarshal` of a message text.
  pub unmarshal : String → Option QueueMessage
  pub upsert : List Call → RequestEntity → Result (Unit {0})
  -- The pages of a list, each an error or its entities: the row key, or none if an entity does
  -- not decode.
  pub pages : List Call → String → List (Result (List (Option String)))
  pub has_dlq : Bool
  -- The time as "20060102150405", and `filepath.Dir`.
  pub timestamp : List Call → String
  pub dir : String → String
  -- The directory of the scores, the script, what `ComputeFinalScoreFromK6` returns for a file, and
  -- the write of the summary.
  pub mkdir : List Call → (path : String) → Result (Unit {0})
  pub run_k6 : List Call → (argument target_ip : String) → Result (Unit {0})
  pub compute_score : List Call → (raw_path : String) → Result ℤ
  pub write_summary_json : List Call → (path : String) → ℤ → Result (Unit {0})
  -- The status code of the answer.
  pub http_post : List Call → Call → Result ℕ
  pub error_text : Error → String
  pub base_url : String
  pub auth_token : String

-- A function of the worker: from the calls so far to its result and the calls.
abbrev pub Job : Type 0 → Type 0
Job A = List Call → Result A × List Call

abbrev pub next : {A B : Type 0} → Result A → (A → Job B) → Job B
next (ok a) f calls = f a calls
next (err x) f calls = (err x, calls)
next panic f calls = (panic, calls)

infixl 5 ◌>>=◌
abbrev pub ◌>>=◌ : {A B : Type 0} → Job A → (A → Job B) → Job B
◌>>=◌ m f calls = let (r, calls') = m calls in next r f calls'

abbrev pub done : {A : Type 0} → A → Job A
done a calls = (ok a, calls)

-- What follows a call whose error is only logged.
abbrev pub despite : {A B : Type 0} → Result A → Job B → Job B
despite (ok a) f calls = f calls
despite (err x) f calls = f calls
despite panic f calls = (panic, calls)

-- A last value writes nothing down.
pub despite-done :
    {A : Type 0} (r : Result (Unit {0})) (a : A) (calls : List Call)
    → (despite r (done a) calls).1 ≡ calls
despite-done (ok u) a calls = refl
despite-done (err x) a calls = refl
despite-done panic a calls = refl

infixl 5 ◌&◌
abbrev pub ◌&◌ : {A B : Type 0} → Job A → Job B → Job B
◌&◌ m f calls = let (r, calls') = m calls in despite r f calls'
