-- ===== src/Worker/Queue.antt =====
-- benchmarker/worker/queue.go, worker.go and postScore.go.
pub mod Runs
use Prim.Native.Char.{Char, code}
use shark_42tokyo_tuning.Prelude.{
  ℕ, String, concat, Bool, true, false, ◌&&◌, ◌||◌, Option, none, some, List, [], ◌∷◌,
  if◌then◌else◌, ◌==◌, ltb, leb, Error, failure, Result, ok, err, panic,
}
use shark_42tokyo_tuning.Prelude.Int.{ℤ, pos}
use shark_42tokyo_tuning.Prelude.Paths.{clean}
use shark_42tokyo_tuning.Worker.Cloud.{
  QueueMessage, RequestEntity, DequeuedMessage, Call, delete_message, make_dir, load_test,
  write_summary, post, Cloud, Job, next, ◌>>=◌, ◌&◌, done, despite,
}
use shark_42tokyo_tuning.Worker.Lock.{
  is_duplicate_or_skip, update_request_status, acquire_lock, release_lock, mark_failed_and_drop,
}

-- `strings.TrimRight(s, "/")`
trim_slashes : String → String
trim_slashes String.[] = String.[]
trim_slashes (String.◌∷◌ c s) = kept c (trim_slashes s)
  where
    kept : Char → String → String
    kept c String.[] = if code c == b'/' then String.[] else String.◌∷◌ c String.[]
    kept c (String.◌∷◌ d s) = String.◌∷◌ c (String.◌∷◌ d s)

unfoldable pub accepted : Result ℕ → Result (Unit {0})
accepted (ok status) =
    if ltb status 200 || leb 300 status then err (failure "unexpected status") else ok tt
accepted (err x) = err x
accepted panic = panic

-- `filepath.Join` of the directory of the scores and a file.
unfoldable pub score_path : (kind name : String) → String
score_path kind name = clean (concat "/app/scores/" (concat kind (concat name ".json")))

module _ (c : Cloud) where
  -- A message with a nil id or receipt panics here.
  unfoldable pub delete_unsafe : Option String → Option String → Job (Unit {0})
  delete_unsafe (some id) (some receipt) calls = (ok tt, delete_message id receipt ∷ calls)
  delete_unsafe (some id) none calls = (panic, calls)
  delete_unsafe none receipt calls = (panic, calls)

  unfoldable pub read_text : DequeuedMessage → Option QueueMessage → Job QueueMessage
  unfolding delete_unsafe
  read_text msg none =
      delete_unsafe msg.message_id msg.pop_receipt >>= λ _ calls. (err (failure "json"), calls)
  read_text msg (some m) = update_request_status c m.team_id m.load_test_id "running" & done m

  -- `parseQueueMessage`
  unfoldable pub parse_queue_message : DequeuedMessage → Option String → Job QueueMessage
  unfolding read_text
  parse_queue_message msg none calls = (panic, calls)
  parse_queue_message msg (some text) calls = read_text msg (c.unmarshal text) calls

  -- Behind the script: a score that cannot be read is 0, and another is written as well; an error
  -- of the write is only logged.
  unfoldable pub score_of : (summary_path : String) → Result ℤ → Job ℤ
  score_of summary_path (ok n) =
      (λ calls. (c.write_summary_json calls summary_path n, write_summary summary_path n ∷ calls))
      & done n
  score_of summary_path (err x) = done (pos 0)
  score_of summary_path panic = λ calls. (panic, calls)

  -- The files and the script of `name`, the target with the time.
  unfoldable pub test_named : (name target_ip : String) → Job ℤ
  unfolding score_of score_path
  test_named name target_ip =
      let raw_path = score_path "raw-data-" name in
      (λ calls. (c.mkdir calls (c.dir raw_path), make_dir (c.dir raw_path) ∷ calls)) >>= λ _.
      (λ calls. (c.run_k6 calls name target_ip, load_test name target_ip ∷ calls)) >>= λ _ calls.
      score_of (score_path "summary-" name) (c.compute_score calls raw_path) calls

  -- `runLoadTest`
  unfoldable pub run_load_test : String → Job ℤ
  unfolding test_named
  run_load_test target_ip calls = test_named (concat target_ip (c.timestamp calls)) target_ip calls

  -- `postScore`
  unfoldable pub post_score : String → String → ℤ → Job (Unit {0})
  unfolding trim_slashes accepted
  post_score load_test_id team_id score calls =
      let call =
        post (concat (trim_slashes c.base_url) "/internal/register-score") c.auth_token load_test_id
          team_id score in
      (accepted (c.http_post calls call), call ∷ calls)

  -- What an error of the load test or of the post leads to.
  unfoldable pub or_fail :
      {A : Type 0}
      → DequeuedMessage
      → QueueMessage
      → Result A
      → (A → Job (Unit {0}))
      → Job (Unit {0})
  or_fail msg m (ok a) f = f a
  or_fail msg m (err x) f = mark_failed_and_drop c msg m (c.error_text x)
  or_fail msg m panic f = λ calls. (panic, calls)

  unfoldable pub finish : DequeuedMessage → QueueMessage → Job (Unit {0})
  unfolding delete_unsafe
  finish msg m = release_lock c m & delete_unsafe msg.message_id msg.pop_receipt

  unfoldable pub report : DequeuedMessage → QueueMessage → ℤ → Job (Unit {0})
  unfolding post_score or_fail finish
  report msg m score calls =
      let (r, calls') = post_score m.load_test_id m.team_id score calls in
      or_fail msg m r (λ _. finish msg m) calls'

  unfoldable pub test_and_report : DequeuedMessage → QueueMessage → Job (Unit {0})
  unfolding run_load_test report or_fail
  test_and_report msg m calls =
      let (r, calls') = run_load_test m.target_ip calls in or_fail msg m r (report msg m) calls'

  unfoldable pub unless_skipped : DequeuedMessage → QueueMessage → Bool → Job (Unit {0})
  unfolding test_and_report
  unless_skipped msg m true = done tt
  unless_skipped msg m false = acquire_lock c m >>= λ _. test_and_report msg m

  -- `processMessage`, which returns nothing: an error stands for an early return.
  unfoldable pub process_message : DequeuedMessage → Job (Unit {0})
  unfolding parse_queue_message unless_skipped
  process_message msg = parse_queue_message msg msg.message_text >>= λ m.
      is_duplicate_or_skip c m >>= unless_skipped msg m
