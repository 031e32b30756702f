-- ===== src/Worker/Queue/Runs.antt =====
-- What a message leaves behind in the table.
use shark_42tokyo_tuning.Prelude.{
  ◌≡◌, refl, ◌∙◌, ◌⊎◌, inl, inr, ℕ, suc, String, Bool, true, false, concat, Option, none, some,
  List, [], ◌∷◌, if◌then◌else◌, str_eq, eq_iff, failure, Result, ok, err, panic, Bool-cases,
}
use shark_42tokyo_tuning.Prelude.Int.{ℤ}
use shark_42tokyo_tuning.Model.{Time}
use shark_42tokyo_tuning.Worker.Cloud.{
  QueueMessage, RequestEntity, DequeuedMessage, Call, upsert_entity, upsert_failed, make_dir,
  load_test, Cloud, Job, next, ◌>>=◌, done, despite, despite-done,
}
use shark_42tokyo_tuning.Worker.Lock.{
  entity_of, upserted, send_to_dlq, drop, is_duplicate_or_skip, update_request_status, acquire_lock,
  release_lock, mark_failed, mark_failed_and_drop,
}
use shark_42tokyo_tuning.Worker.Queue.{
  delete_unsafe, score_path, score_of, test_named, run_load_test, post_score, read_text,
  parse_queue_message, or_fail, finish, report, test_and_report, unless_skipped, process_message,
}

-- The load tests among the calls.
abbrev pub runs : List Call → ℕ
runs [] = 0
runs (load_test argument ip ∷ calls) = suc (runs calls)
runs (_ ∷ calls) = runs calls

-- The latest status that was written for a request, and the latest that was to be written.
abbrev pub last_status : String → List Call → Option String
last_status id [] = none
last_status id (upsert_entity r ∷ calls) =
    let before = last_status id calls in if str_eq r.row_key id then some r.status else before
last_status id (_ ∷ calls) = last_status id calls

abbrev pub last_attempt : String → List Call → Option String
last_attempt id [] = none
last_attempt id (upsert_entity r ∷ calls) =
    let before = last_attempt id calls in if str_eq r.row_key id then some r.status else before
last_attempt id (upsert_failed r ∷ calls) =
    let before = last_attempt id calls in if str_eq r.row_key id then some r.status else before
last_attempt id (_ ∷ calls) = last_attempt id calls

abbrev pub IsEnd : Option String → Type 0
IsEnd status = (status ≡ some "finished") ⊎ (status ≡ some "failed")

-- The request has ended in the table; or the table has refused that, and it is left running.
abbrev pub Settled : String → List Call → Type 0
Settled id calls =
    IsEnd (last_status id calls)
    ⊎ ((last_status id calls ≡ some "running") × IsEnd (last_attempt id calls))

-- A panic, or the request is settled.
abbrev Ends : String → Result (Unit {0}) × List Call → Type 0
Ends id (r, calls) = (r ≡ panic) ⊎ Settled id calls

despite-Ends :
    (id : String) (r : Result (Unit {0})) (f : Job (Unit {0})) (calls : List Call)
    → Ends id (f calls)
    → Ends id (despite r f calls)
despite-Ends id (ok a) f calls h = h
despite-Ends id (err x) f calls h = h
despite-Ends id panic f calls h = inl refl

-- The status that has just been written is the latest.
upsert_status :
    (r : RequestEntity) (calls : List Call)
    → last_status r.row_key (upsert_entity r ∷ calls) ≡ some r.status
upsert_status r calls = rw ((eq_iff r.row_key r.row_key).1 refl) refl

refused_status :
    (r : RequestEntity) (calls : List Call)
    → last_attempt r.row_key (upsert_failed r ∷ calls) ≡ some r.status
refused_status r calls = rw ((eq_iff r.row_key r.row_key).1 refl) refl

-- A write of the end of a running request, that succeeds or not.
upserted-Settled :
    (w : Result (Unit {0})) (r : RequestEntity) (calls : List Call)
    → IsEnd (some r.status)
    → last_status r.row_key calls ≡ some "running"
    → Settled r.row_key (upserted w r ∷ calls)
upserted-Settled (ok a) r calls end locked = inl (rw (upsert_status r calls) end)
upserted-Settled (err x) r calls end locked = inr (locked, rw (refused_status r calls) end)
upserted-Settled panic r calls end locked = inr (locked, rw (refused_status r calls) end)

runs-upserted :
    (w : Result (Unit {0})) (r : RequestEntity) (calls : List Call)
    → runs (upserted w r ∷ calls) ≡ runs calls
runs-upserted (ok a) r calls = refl
runs-upserted (err x) r calls = refl
runs-upserted panic r calls = refl

-- What writes no status of a request.
abbrev Quiet : {A : Type 0} → String → Job A → Type 0
Quiet id m = (calls : List Call) → last_status id (m calls).1 ≡ last_status id calls

next-Quiet :
    {A B : Type 0} (id : String) (r : Result A) (f : A → Job B)
    → ((a : A) → Quiet id (f a))
    → Quiet id (next r f)
next-Quiet id (ok a) f h calls = h a calls
next-Quiet id (err x) f h calls = refl
next-Quiet id panic f h calls = refl

>>=-Quiet :
    {A B : Type 0} (id : String) (m : Job A) (f : A → Job B)
    → Quiet id m
    → ((a : A) → Quiet id (f a))
    → Quiet id (m >>= f)
>>=-Quiet id m f g h calls = next-Quiet id (m calls).0 f h (m calls).1 ∙ g calls

module _ (c : Cloud) where
  drop-Settled :
      (message_id receipt : Option String) (id : String) (calls : List Call)
      → Settled id calls
      → Settled id (drop c message_id receipt calls).1
  unfolding drop
  drop-Settled (some i) (some r) id calls h = h
  drop-Settled (some i) none id calls h = h
  drop-Settled none r id calls h = h

  abbrev Locked : QueueMessage → List Call → Type 0
  Locked m calls = last_status m.load_test_id calls ≡ some "running"

  mark_failed-Settled :
      (msg : DequeuedMessage) (m : QueueMessage) (calls : List Call)
      → Locked m calls
      → Ends m.load_test_id (mark_failed c msg m calls)
  unfolding mark_failed update_request_status
  mark_failed-Settled msg m calls locked =
      despite-Ends m.load_test_id _ (drop c msg.message_id msg.pop_receipt) _ (
        inr (
          drop-Settled msg.message_id msg.pop_receipt m.load_test_id _ (
            upserted-Settled _ (entity_of m.team_id m.load_test_id "failed" (c.now calls)) calls
              (inr refl) locked)))

  mark_failed_and_drop-Settled :
      (msg : DequeuedMessage) (m : QueueMessage) (error : String) (calls : List Call)
      → Locked m calls
      → Ends m.load_test_id (mark_failed_and_drop c msg m error calls)
  unfolding mark_failed_and_drop send_to_dlq
  mark_failed_and_drop-Settled msg m error calls locked = elim (Bool-cases c.has_dlq) [
    | inl some_dlq ↦ rw some_dlq (mark_failed-Settled msg m _ locked)
    | inr no_dlq ↦ rw no_dlq (mark_failed-Settled msg m calls locked)
  ]

  unsafe-Ends :
      (message_id receipt : Option String) (id : String) (calls : List Call)
      → Settled id calls
      → Ends id (delete_unsafe c message_id receipt calls)
  unfolding delete_unsafe
  unsafe-Ends (some i) (some r) id calls h = inr h
  unsafe-Ends (some i) none id calls h = inl refl
  unsafe-Ends none r id calls h = inl refl

  finish-Settled :
      (msg : DequeuedMessage) (m : QueueMessage) (calls : List Call)
      → Locked m calls
      → Ends m.load_test_id (finish c msg m calls)
  unfolding finish release_lock update_request_status
  finish-Settled msg m calls locked =
      despite-Ends m.load_test_id _ (delete_unsafe c msg.message_id msg.pop_receipt) _ (
        unsafe-Ends msg.message_id msg.pop_receipt m.load_test_id _ (
          upserted-Settled _ (entity_of m.team_id m.load_test_id "finished" (c.now calls)) calls
            (inl refl) locked))

  or_fail-Settled :
      {A : Type 0} (msg : DequeuedMessage) (m : QueueMessage) (r : Result A)
      (f : A → Job (Unit {0})) (calls : List Call)
      → Locked m calls
      → ((a : A) → Ends m.load_test_id (f a calls))
      → Ends m.load_test_id (or_fail c msg m r f calls)
  unfolding or_fail
  or_fail-Settled msg m (ok a) f calls locked h = h a
  or_fail-Settled msg m (err x) f calls locked h =
      mark_failed_and_drop-Settled msg m (c.error_text x) calls locked
  or_fail-Settled msg m panic f calls locked h = inl refl

  score_of_status :
      (id path : String) (r : Result ℤ) (calls : List Call)
      → last_status id (score_of c path r calls).1 ≡ last_status id calls
  unfolding score_of
  score_of_status id path (ok n) calls = rw (despite-done _ n _) refl
  score_of_status id path (err x) calls = refl
  score_of_status id path panic calls = refl

  run_load_test_status :
      (id target_ip : String) (calls : List Call)
      → last_status id (run_load_test c target_ip calls).1 ≡ last_status id calls
  unfolding run_load_test test_named
  run_load_test_status id target_ip calls =
      let name = concat target_ip (c.timestamp calls) in
      let raw = score_path "raw-data-" name in
      >>=-Quiet id (λ calls. (c.mkdir calls (c.dir raw), make_dir (c.dir raw) ∷ calls)) _
        (λ calls. refl)
        (λ _.
          >>=-Quiet id (λ calls. (c.run_k6 calls name target_ip, load_test name target_ip ∷ calls))
            _ (λ calls. refl)
            (λ _ calls.
              score_of_status id (score_path "summary-" name) (c.compute_score calls raw) calls))
        calls

  test_and_report-Settled :
      (msg : DequeuedMessage) (m : QueueMessage) (calls : List Call)
      → Locked m calls
      → Ends m.load_test_id (test_and_report c msg m calls)
  unfolding test_and_report report post_score
  test_and_report-Settled msg m calls locked =
      let tested = run_load_test_status m.load_test_id m.target_ip calls ∙ locked in
      or_fail-Settled msg m _ (report c msg m) _ tested λ score.
        or_fail-Settled msg m _ (λ _. finish c msg m) _ tested λ _. finish-Settled msg m _ tested

  -- A panic, or no load test was started, or this one was, past the check, and is settled.
  abbrev RanOnce : QueueMessage → Result Bool → List Call → Result (Unit {0}) × List Call → Type 0
  RanOnce m check before (r, calls) =
      (r ≡ panic) ⊎ (runs calls ≡ runs before) ⊎ ((check ≡ ok false) × Settled m.load_test_id calls)

  locked-RanOnce :
      (msg : DequeuedMessage) (m : QueueMessage) (r : Result (Unit {0})) (now : Time)
      (calls : List Call)
      → RanOnce m (ok false) calls (
          next r
            (λ _. test_and_report c msg m)
            (upserted r (entity_of m.team_id m.load_test_id "running" now) ∷ calls))
  locked-RanOnce msg m (ok a) now calls =
      elim (test_and_report-Settled msg m _
        (upsert_status (entity_of m.team_id m.load_test_id "running" now) calls)) [
          | inl panics ↦ inl panics
          | inr settled ↦ inr (inr (refl, settled))
        ]
  locked-RanOnce msg m (err x) now calls = inr (inl refl)
  locked-RanOnce msg m panic now calls = inl refl

  checked-RanOnce :
      (msg : DequeuedMessage) (m : QueueMessage) (check : Result Bool) (calls : List Call)
      → RanOnce m check calls (next check (unless_skipped c msg m) calls)
  unfolding unless_skipped acquire_lock update_request_status
  checked-RanOnce msg m (ok true) calls = inr (inl refl)
  checked-RanOnce msg m (ok false) calls =
      locked-RanOnce msg m (c.upsert calls _) (c.now calls) calls
  checked-RanOnce msg m (err x) calls = inr (inl refl)
  checked-RanOnce msg m panic calls = inl refl

  -- The calls when a message has been read and its request was marked "running".
  abbrev pub marked : QueueMessage → List Call → List Call
  marked m past =
      let entity = entity_of m.team_id m.load_test_id "running" (c.now past) in
      upserted (c.upsert past entity) entity ∷ past

  abbrev pub Processed : DequeuedMessage → List Call → Result (Unit {0}) × List Call → Type 0
  Processed msg past (r, calls) =
      (r ≡ panic)
      ⊎ (runs calls ≡ runs past)
      ⊎ ((text : String) × (m : QueueMessage) × (msg.message_text ≡ some text)
          × (c.unmarshal text ≡ some m)
          × ((is_duplicate_or_skip c m (marked m past)).0 ≡ ok false)
          × Settled m.load_test_id calls)

  marked-Processed :
      (msg : DequeuedMessage) (text : String) (m : QueueMessage) (past : List Call)
      → msg.message_text ≡ some text
      → c.unmarshal text ≡ some m
      → Processed msg past ((is_duplicate_or_skip c m >>= unless_skipped c msg m) (marked m past))
  unfolding is_duplicate_or_skip
  marked-Processed msg text m past p q = elim (checked-RanOnce msg m _ _) [
    | inl panics ↦ inl panics
    | inr (inl none_run) ↦ inr (inl (none_run ∙ runs-upserted _ _ past))
    | inr (inr (free, settled)) ↦ inr (inr (text, m, p, q, free, settled))
  ]

  -- What follows the read of a message that decodes.
  read-Processed :
      (msg : DequeuedMessage) (text : String) (m : QueueMessage) (r : Result (Unit {0}))
      (past : List Call)
      → msg.message_text ≡ some text
      → c.unmarshal text ≡ some m
      → Processed msg past (
          next
            (despite r (done m) (marked m past)).0
            (λ d. is_duplicate_or_skip c d >>= unless_skipped c msg d)
            (despite r (done m) (marked m past)).1)
  read-Processed msg text m (ok a) past p q = marked-Processed msg text m past p q
  read-Processed msg text m (err x) past p q = marked-Processed msg text m past p q
  read-Processed msg text m panic past p q = inl refl

  -- A message that does not decode is deleted.
  unread-Processed :
      (msg : DequeuedMessage) (message_id receipt : Option String) (past : List Call)
      (f : QueueMessage → Job (Unit {0}))
      → Processed msg past (
          (delete_unsafe c message_id receipt >>= (λ _ calls. (err (failure "json"), calls)) >>= f)
            past)
  unfolding delete_unsafe
  unread-Processed msg (some i) (some r) past f = inr (inl refl)
  unread-Processed msg (some i) none past f = inl refl
  unread-Processed msg none r past f = inl refl

  decoded-Processed :
      (msg : DequeuedMessage) (text : String) (decoded : Option QueueMessage) (past : List Call)
      → msg.message_text ≡ some text
      → c.unmarshal text ≡ decoded
      → Processed msg past (
          (read_text c msg decoded >>= λ d. is_duplicate_or_skip c d >>= unless_skipped c msg d)
            past)
  unfolding read_text update_request_status
  decoded-Processed msg text none past p q = unread-Processed msg _ _ past _
  decoded-Processed msg text (some m) past p q = read-Processed msg text m _ past p q

  text-Processed :
      (msg : DequeuedMessage) (text : Option String) (past : List Call)
      → msg.message_text ≡ text
      → Processed msg past (
          (parse_queue_message c msg text >>= λ d.
          is_duplicate_or_skip c d >>= unless_skipped c msg d)
            past)
  unfolding parse_queue_message
  text-Processed msg none past p = inl refl
  text-Processed msg (some text) past p = decoded-Processed msg text (c.unmarshal text) past p refl

  -- A message that is processed without a panic either starts no load test; or it decodes, the check
  -- behind its mark as "running" found no other request of its team, and then the latest status that
  -- the table took for its request is "finished" or "failed", or it is "running", because the table
  -- refused the latest one, "finished" or "failed".
  pub process_message-Processed :
      (msg : DequeuedMessage) (past : List Call) → Processed msg past (process_message c msg past)
  unfolding process_message
  process_message-Processed msg past = text-Processed msg msg.message_text past refl
