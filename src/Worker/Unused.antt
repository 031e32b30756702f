-- ===== src/Worker/Unused.antt =====
-- Functions of benchmarker/worker that nothing calls: `enqueueToDLQ` of dlq.go and
-- `deleteMessageSafe` of queue.go. Their errors are only logged.
use shark_42tokyo_tuning.Prelude.{String, Bool, true, false, Option, none, some, List}
use shark_42tokyo_tuning.Prelude.Processes.{Process, pure, perform}

pub data Effect : Type 0 where
  -- A JSON object with the entries of a `map[string]string`.
  enqueues : (payload : List (String × String)) → Effect
  deletes : (message_id pop_receipt : String) → Effect

-- `has_client` says that `dlqClient` is not nil.
unfoldable pub enqueue_to_dlq :
    (has_client : Bool) → (dlq_payload : List (String × String)) → Process Effect (Unit {0})
enqueue_to_dlq true dlq_payload = perform (enqueues dlq_payload)
enqueue_to_dlq false dlq_payload = pure tt

unfoldable pub delete_message_safe :
    (message_id pop_receipt : Option String) → Process Effect (Unit {0})
delete_message_safe (some id) (some receipt) = perform (deletes id receipt)
delete_message_safe (some id) none = pure tt
delete_message_safe none receipt = pure tt
