-- ===== src/Worker/Lock.antt =====
-- benchmarker/worker/lock.go
pub mod Literal
use shark_42tokyo_tuning.Prelude.{
  ℕ, ◌-◌, ◌*◌, ◌^◌, String, concat, str_eq, Bool, true, false, Option, none, some, List, [], ◌∷◌,
  if◌then◌else◌, ◌==◌, Result, ok, err, panic,
}
use Prim.Native.Char.{code}
use shark_42tokyo_tuning.Model.{Time}
use shark_42tokyo_tuning.Worker.Cloud.{
  QueueMessage, RequestEntity, DequeuedMessage, Call, upsert_entity, upsert_failed, list_entities,
  enqueue_dlq, delete_message, Cloud, Job, ◌&◌, done,
}

-- Each quote is doubled.
pub escape_odata_string : String → String
escape_odata_string String.[] = String.[]
escape_odata_string (String.◌∷◌ c s) =
    let rest = escape_odata_string s in
    if code c == b'\'' then String.◌∷◌ c (String.◌∷◌ c rest) else String.◌∷◌ c rest

-- An hour, in nanoseconds.
abbrev pub hour : ℕ
hour = 3600 * 10 ^ 9

unfoldable pub filter_of : String → String → String
filter_of team since = concat "PartitionKey eq '" (
    concat team (
      concat "' and (Status eq 'waiting' or Status eq 'running') and UpdatedAt ge datetime'"
        (concat since "'")))

-- The inner loop of `isDuplicateOrSkip`: is there an entity of another request?
pub other_in : String → List (Option String) → Bool
other_in id [] = false
other_in id (none ∷ entities) = other_in id entities
other_in id (some row ∷ entities) = if str_eq row id then other_in id entities else true

-- The outer loop.
unfoldable pub other_on : String → List (Result (List (Option String))) → Result Bool
unfolding other_in
other_on id [] = ok false
other_on id (err x ∷ pages) = err x
other_on id (panic ∷ pages) = panic
other_on id (ok entities ∷ pages) =
    let rest = other_on id pages in if other_in id entities then ok true else rest

-- The entity that a status is written with; its creation time is the zero time.
abbrev pub entity_of : (team_id row_key status : String) → (now : Time) → RequestEntity
entity_of team_id row_key status now = record {
  partition_key = team_id;
  row_key = row_key;
  status = status;
  created_at = 0;
  updated_at = now;
}

-- How a write of the table is written down.
abbrev pub upserted : Result (Unit {0}) → RequestEntity → Call
upserted (ok a) entity = upsert_entity entity
upserted (err x) entity = upsert_failed entity
upserted panic entity = upsert_failed entity

module _ (c : Cloud) where
  unfoldable pub is_duplicate_or_skip : QueueMessage → Job Bool
  unfolding filter_of escape_odata_string other_on
  is_duplicate_or_skip data_ calls =
      let filter = filter_of (escape_odata_string data_.team_id) (c.rfc3339 (c.now calls - hour)) in
      (other_on data_.load_test_id (c.pages calls filter), list_entities filter ∷ calls)

  -- `updateRequestStatus`
  unfoldable pub update_request_status : (team_id row_key status : String) → Job (Unit {0})
  update_request_status team_id row_key status calls =
      let entity = entity_of team_id row_key status (c.now calls) in
      (c.upsert calls entity, upserted (c.upsert calls entity) entity ∷ calls)

  unfoldable pub acquire_lock : QueueMessage → Job (Unit {0})
  acquire_lock data_ = update_request_status data_.team_id data_.load_test_id "running"

  unfoldable pub release_lock : QueueMessage → Job (Unit {0})
  release_lock data_ = update_request_status data_.team_id data_.load_test_id "finished"

  unfoldable pub send_to_dlq : QueueMessage → String → Job (Unit {0})
  send_to_dlq m error calls =
      if c.has_dlq
      then (ok tt, enqueue_dlq m.load_test_id m.team_id m.target_ip error ∷ calls)
      else (ok tt, calls)

  -- The last part of `markFailedAndDrop`: with a nil pointer, nothing is deleted.
  unfoldable pub drop : Option String → Option String → Job (Unit {0})
  drop (some id) (some receipt) calls = (ok tt, delete_message id receipt ∷ calls)
  drop (some id) none calls = (ok tt, calls)
  drop none receipt calls = (ok tt, calls)

  unfoldable pub mark_failed : DequeuedMessage → QueueMessage → Job (Unit {0})
  unfolding drop update_request_status
  mark_failed msg m =
      update_request_status m.team_id m.load_test_id "failed" & drop msg.message_id msg.pop_receipt

  -- `markFailedAndDrop`
  unfoldable pub mark_failed_and_drop : DequeuedMessage → QueueMessage → String → Job (Unit {0})
  unfolding send_to_dlq mark_failed
  mark_failed_and_drop msg m error = send_to_dlq m error & mark_failed msg m
