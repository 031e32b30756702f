-- ===== src/Worker/Poll/Handled.antt =====
-- The functions of benchmarker/worker that handle a message, for `Fine`.
use mathlib.Core.Path.{subst}
use shark_42tokyo_tuning.Prelude.{
  sym, refl, concat, List, failure, inl, inr, String, Bool, true, false, Option, none, some, ◌∷◌,
  Result, ok, err, panic, Bool-cases,
}
use shark_42tokyo_tuning.Prelude.Int.{ℤ, pos}
use shark_42tokyo_tuning.Model.{Time}
use shark_42tokyo_tuning.Worker.Cloud.{
  QueueMessage, RequestEntity, DequeuedMessage, Call, make_dir, write_summary, load_test, Cloud,
  Job, ◌>>=◌, despite-done, done,
}
use shark_42tokyo_tuning.Worker.Lock.{
  upserted, entity_of, is_duplicate_or_skip, update_request_status, acquire_lock, release_lock,
  send_to_dlq, drop, mark_failed, mark_failed_and_drop,
}
use shark_42tokyo_tuning.Worker.Queue.{
  delete_unsafe, read_text, parse_queue_message, score_path, score_of, test_named, run_load_test,
  post_score, or_fail, finish, report, test_and_report, unless_skipped, process_message,
}
use shark_42tokyo_tuning.Worker.Poll.Fine.{
  Returned, Steady, Fine, Grows-refl, Grows-one, Grows-trans, AllShort, Marks, HandledAs,
  HandledAs-Grows, pure-Fine, call-Fine, next-Fine, >>=-Fine, &-Fine, other_on-Returned,
  accepted-Returned, IsWhole,
}

module _ (c : Cloud) (steady : Steady c) where
  upserted-Fine :
      (r : Result (Unit {0})) (entity : RequestEntity)
      → Returned r
      → Fine (λ calls. (r, upserted r entity ∷ calls))
  upserted-Fine (ok a) entity h calls short = (tt, (tt, short), Grows-one _ calls refl)
  upserted-Fine (err x) entity h calls short = (tt, (tt, short), Grows-one _ calls refl)
  upserted-Fine panic entity h calls short = absurd h

  update_request_status-Fine :
      (team id status : String) → Fine (update_request_status c team id status)
  unfolding update_request_status
  update_request_status-Fine team id status calls short =
      upserted-Fine (c.upsert calls _) _ (steady.upserts calls _) calls short

  is_duplicate_or_skip-Fine : (m : QueueMessage) → Fine (is_duplicate_or_skip c m)
  unfolding is_duplicate_or_skip
  is_duplicate_or_skip-Fine m calls short = (
    other_on-Returned m.load_test_id _ (steady.lists calls _),
    (tt, short),
    Grows-one _ calls refl,
  )

  score_of-Fine : (path : String) (r : Result ℤ) → Returned r → Fine (score_of c path r)
  unfolding score_of
  score_of-Fine path (ok n) h =
      &-Fine (λ calls. (c.write_summary_json calls path n, write_summary path n ∷ calls)) (done n)
        (call-Fine _ _ (λ calls. steady.writes calls path n) (λ calls. tt) (λ calls. refl))
        (pure-Fine (ok n) tt)
  score_of-Fine path (err x) h = pure-Fine (ok (pos 0)) tt
  score_of-Fine path panic h = absurd h

  run_load_test-Fine : (target_ip : String) → Fine (run_load_test c target_ip)
  unfolding run_load_test test_named
  run_load_test-Fine target_ip calls short =
      let name = concat target_ip (c.timestamp calls) in
      let raw = score_path "raw-data-" name in
      >>=-Fine (λ calls. (c.mkdir calls (c.dir raw), make_dir (c.dir raw) ∷ calls)) _
        (call-Fine _ _ (λ calls. steady.makes calls (c.dir raw)) (λ calls. tt) (λ calls. refl))
        (λ _.
          >>=-Fine (λ calls. (c.run_k6 calls name target_ip, load_test name target_ip ∷ calls)) _
            (call-Fine _ _ (λ calls. steady.runs calls name target_ip) (λ calls. tt)
              (λ calls. refl))
            (λ _ calls.
              score_of-Fine (score_path "summary-" name) (c.compute_score calls raw)
                (steady.scores calls raw) calls))
        calls short

  post_score-Fine :
      (load_test_id team_id : String) (score : ℤ) → Fine (post_score c load_test_id team_id score)
  unfolding post_score
  post_score-Fine load_test_id team_id score calls short =
      (accepted-Returned _ (steady.posts calls _), (tt, short), Grows-one _ calls refl)

  send_to_dlq-Fine : (m : QueueMessage) (error : String) → Fine (send_to_dlq c m error)
  unfolding send_to_dlq
  send_to_dlq-Fine m error calls short = elim (Bool-cases c.has_dlq) [
    | inl has ↦ rw has (tt, (tt, short), Grows-one _ calls refl)
    | inr without ↦ rw without (tt, short, Grows-refl calls)
  ]

  drop-Fine : (id receipt : Option String) → Fine (drop c id receipt)
  unfolding drop
  drop-Fine (some id) (some receipt) calls short = (tt, (tt, short), Grows-one _ calls refl)
  drop-Fine (some id) none calls short = (tt, short, Grows-refl calls)
  drop-Fine none receipt calls short = (tt, short, Grows-refl calls)

  mark_failed_and_drop-Fine :
      (msg : DequeuedMessage) (m : QueueMessage) (error : String)
      → Fine (mark_failed_and_drop c msg m error)
  unfolding mark_failed_and_drop mark_failed
  mark_failed_and_drop-Fine msg m error =
      &-Fine (send_to_dlq c m error) (mark_failed c msg m) (send_to_dlq-Fine m error) (
        &-Fine (update_request_status c m.team_id m.load_test_id "failed")
          (drop c msg.message_id msg.pop_receipt)
          (update_request_status-Fine m.team_id m.load_test_id "failed")
          (drop-Fine msg.message_id msg.pop_receipt))

  or_fail-Fine :
      {A : Type 0} (msg : DequeuedMessage) (m : QueueMessage) (r : Result A)
      (f : A → Job (Unit {0}))
      → Returned r
      → ((a : A) → Fine (f a))
      → Fine (or_fail c msg m r f)
  unfolding or_fail
  or_fail-Fine msg m (ok a) f h k calls short = k a calls short
  or_fail-Fine msg m (err x) f h k calls short =
      mark_failed_and_drop-Fine msg m (c.error_text x) calls short
  or_fail-Fine msg m panic f h k calls short = absurd h

  module _ (msg : DequeuedMessage) (whole : IsWhole msg) where
    delete_unsafe-Fine : Fine (delete_unsafe c msg.message_id msg.pop_receipt)
    unfolding delete_unsafe
    delete_unsafe-Fine calls short =
        rw (whole.id_eq, whole.receipt_eq) (tt, (tt, short), Grows-one _ calls refl)

    finish-Fine : (m : QueueMessage) → Fine (finish c msg m)
    unfolding finish release_lock
    finish-Fine m =
        &-Fine (release_lock c m) (delete_unsafe c msg.message_id msg.pop_receipt)
          (update_request_status-Fine m.team_id m.load_test_id "finished") delete_unsafe-Fine

    report-Fine : (m : QueueMessage) (score : ℤ) → Fine (report c msg m score)
    unfolding report
    report-Fine m score calls short =
        let (returned, short', grown) =
          post_score-Fine m.load_test_id m.team_id score calls short in
        let (returned', short'', grown') =
          or_fail-Fine msg m _ (λ _. finish c msg m) returned (λ _. finish-Fine m) _ short' in
        (returned', short'', Grows-trans grown grown')

    test_and_report-Fine : (m : QueueMessage) → Fine (test_and_report c msg m)
    unfolding test_and_report
    test_and_report-Fine m calls short =
        let (returned, short', grown) = run_load_test-Fine m.target_ip calls short in
        let (returned', short'', grown') =
          or_fail-Fine msg m _ (report c msg m) returned (report-Fine m) _ short' in
        (returned', short'', Grows-trans grown grown')

    unless_skipped-Fine : (m : QueueMessage) (b : Bool) → Fine (unless_skipped c msg m b)
    unfolding unless_skipped acquire_lock
    unless_skipped-Fine m true calls short = (tt, short, Grows-refl calls)
    unless_skipped-Fine m false calls short =
        >>=-Fine (acquire_lock c m) (λ _. test_and_report c msg m)
          (update_request_status-Fine m.team_id m.load_test_id "running")
          (λ _. test_and_report-Fine m) calls short

    read_text-Fine : (o : Option QueueMessage) → Fine (read_text c msg o)
    unfolding read_text
    read_text-Fine none calls short =
        >>=-Fine (delete_unsafe c msg.message_id msg.pop_receipt) _ delete_unsafe-Fine
          (λ _. pure-Fine {A = QueueMessage} (err (failure "json")) tt) calls short
    read_text-Fine (some m) calls short =
        &-Fine (update_request_status c m.team_id m.load_test_id "running") (done m)
          (update_request_status-Fine m.team_id m.load_test_id "running") (pure-Fine (ok m) tt)
          calls short

    parse_queue_message-Fine : Fine (parse_queue_message c msg msg.message_text)
    unfolding parse_queue_message
    parse_queue_message-Fine calls short =
        rw whole.text_eq (read_text-Fine (c.unmarshal whole.text) calls short)

    -- What is done with a message that has been read.
    abbrev go_on : QueueMessage → Job (Unit {0})
    go_on m = is_duplicate_or_skip c m >>= unless_skipped c msg m

    go_on-Fine : (m : QueueMessage) → Fine (go_on m)
    go_on-Fine m =
        >>=-Fine (is_duplicate_or_skip c m) (unless_skipped c msg m) (is_duplicate_or_skip-Fine m)
          (unless_skipped-Fine m)

    pub process_message-Fine : Fine (process_message c msg)
    unfolding process_message
    process_message-Fine =
        >>=-Fine (parse_queue_message c msg msg.message_text) _ parse_queue_message-Fine go_on-Fine

    Marks-upserted :
        (r : Result (Unit {0})) (m : QueueMessage) (now : Time)
        → Marks m (upserted r (entity_of m.team_id m.load_test_id "running" now))
    Marks-upserted (ok a) m now = (refl, refl, refl)
    Marks-upserted (err x) m now = (refl, refl, refl)
    Marks-upserted panic m now = (refl, refl, refl)

    read_text-HandledAs :
        (o : Option QueueMessage) (calls : List Call) → HandledAs msg o (read_text c msg o calls).1
    unfolding read_text delete_unsafe update_request_status
    read_text-HandledAs none calls = rw (whole.id_eq, whole.receipt_eq) (inl (refl, refl))
    read_text-HandledAs (some m) calls = rw (despite-done _ m _) (inl (Marks-upserted _ m _))

    parse_queue_message-HandledAs :
        (calls : List Call)
        → HandledAs msg
            (c.unmarshal whole.text)
            (parse_queue_message c msg msg.message_text calls).1
    unfolding parse_queue_message
    parse_queue_message-HandledAs calls =
        subst (λ t. HandledAs msg (c.unmarshal whole.text) (parse_queue_message c msg t calls).1)
          (sym whole.text_eq) (read_text-HandledAs (c.unmarshal whole.text) calls)

    pub process_message-HandledAs :
        (calls : List Call)
        → AllShort calls
        → HandledAs msg (c.unmarshal whole.text) (process_message c msg calls).1
    unfolding process_message
    process_message-HandledAs calls short =
        let (returned, short', _) = parse_queue_message-Fine calls short in
        let (_, _, grown) = next-Fine _ go_on returned go_on-Fine _ short' in
        HandledAs-Grows msg (c.unmarshal whole.text) grown (parse_queue_message-HandledAs calls)
