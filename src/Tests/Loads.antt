-- ===== src/Tests/Loads.antt =====
-- A load test of the worker.
use shark_42tokyo_tuning.Prelude.{◌≡◌, refl, concat, true, false, none, some, List, [], ◌∷◌, ok}
use shark_42tokyo_tuning.Prelude.Int.{pos}
use shark_42tokyo_tuning.Worker.Cloud.{DequeuedMessage, Cloud}
use shark_42tokyo_tuning.Worker.Lock.{escape_odata_string}
use shark_42tokyo_tuning.Worker.Lock.Literal.{read_literal, read_literal-escape_odata_string}
use shark_42tokyo_tuning.Worker.Queue.{process_message}
use shark_42tokyo_tuning.Worker.Queue.Runs.{Processed, process_message-Processed}
use shark_42tokyo_tuning.Worker.Poll.{Round, failed, dequeued, second, poll_queue}
use shark_42tokyo_tuning.Worker.Poll.Fine.{Steady, IsWhole}
use shark_42tokyo_tuning.Worker.Poll.Survives.{Polled, poll_queue-Survives}

-- The table holds the request itself and an entity that does not decode.
abbrev calm : Cloud
calm = record {
  now = λ calls. 5;
  rfc3339 = λ t. "2025-09-01T00:00:00Z";
  unmarshal =
      λ text. some (record { load_test_id = text; team_id = "team'1"; target_ip = "10.0.0.1" });
  upsert = λ calls r. ok tt;
  pages = λ calls filter. ok (some "t1" ∷ none ∷ []) ∷ [];
  has_dlq = true;
  timestamp = λ calls. "20250901000000";
  dir = λ path. "/app/scores";
  mkdir = λ calls path. ok tt;
  run_k6 = λ calls argument target_ip. ok tt;
  compute_score = λ calls raw_path. ok (pos 42);
  write_summary_json = λ calls path score. ok tt;
  http_post = λ calls call. ok 200;
  error_text = λ x. "";
  base_url = "http://scores//";
  auth_token = "token";
}

abbrev asked : DequeuedMessage
asked = record { message_text = some "t1"; message_id = some "m1"; pop_receipt = some "p1" }

process_message-Processed_example : Processed calm asked [] (process_message calm asked [])
process_message-Processed_example = process_message-Processed calm asked []

read_literal-escape_odata_string_example :
    read_literal false (concat (escape_odata_string "a' or 'b") (concat "'" " and c"))
    ≡ some ("a' or 'b", " and c")
read_literal-escape_odata_string_example = read_literal-escape_odata_string "a' or 'b" " and c" refl

calm-Steady : Steady calm
calm-Steady = record {
  upserts = λ calls r. tt;
  lists = λ calls filter. (tt, tt);
  makes = λ calls path. tt;
  runs = λ calls argument target_ip. tt;
  scores = λ calls raw_path. tt;
  writes = λ calls path score. tt;
  posts = λ calls call. tt;
}

asked-IsWhole : IsWhole asked
asked-IsWhole = record {
  id = "m1";
  receipt = "p1";
  text = "t1";
  id_eq = refl;
  receipt_eq = refl;
  text_eq = refl;
}

-- Two failures, a message, and an empty answer.
abbrev four_rounds : List Round
four_rounds = failed ∷ failed ∷ dequeued (asked ∷ []) ∷ dequeued [] ∷ []

poll_queue-Survives_example :
    Polled calm four_rounds
      ((asked-IsWhole, tt), (tt, tt))
      []
      (poll_queue calm four_rounds second [])
poll_queue-Survives_example =
    poll_queue-Survives calm calm-Steady four_rounds ((asked-IsWhole, tt), (tt, tt))
