-- ===== src/Worker/Poll/Survives.antt =====
-- The rounds of the poll loop of benchmarker/worker/main.go, one after the other.
use mathlib.Core.List.{append_assoc}
use shark_42tokyo_tuning.Prelude.{
  ◌≡◌, refl, sym, ap, ◌∙◌, suc, ◌+◌, ◌++◌, inl, ◌⊎◌, ℕ, ◌*◌, ◌≤◌, List, [], ◌∷◌, Result, ok, err,
  panic, arith,
}
use shark_42tokyo_tuning.Worker.Cloud.{DequeuedMessage, Call, sleep, dequeue, Cloud, Job, despite}
use shark_42tokyo_tuning.Worker.Queue.{process_message}
use shark_42tokyo_tuning.Worker.Poll.{
  Round, shut_down, failed, dequeued, second, next_backoff, pause, process_all, handle, poll_queue,
}
use shark_42tokyo_tuning.Worker.Poll.Fine.{
  Returned, Steady, AllShort, Fine, &-Fine, dequeues, Grows, Grows-one, Grows-refl, Grows-dequeues,
  HandledAs, HandledAs-append, HandledAs-Grows, IsWhole,
}
use shark_42tokyo_tuning.Worker.Poll.Handled.{process_message-Fine, process_message-HandledAs}

abbrev pub AllWhole : List DequeuedMessage → Type 0
AllWhole [] = Unit
AllWhole (msg ∷ msgs) = IsWhole msg × AllWhole msgs

-- Each message that the rounds return has its id, its receipt and its text.
abbrev pub WholeRounds : List Round → Type 0
WholeRounds [] = Unit
WholeRounds (shut_down ∷ rounds) = WholeRounds rounds
WholeRounds (failed ∷ rounds) = WholeRounds rounds
WholeRounds (dequeued msgs ∷ rounds) = AllWhole msgs × WholeRounds rounds

-- The backoffs that the loop comes by.
abbrev IsBackoff : ℕ → Type 0
IsBackoff b =
    (b ≡ second) ⊎ (b ≡ 2 * second) ⊎ (b ≡ 4 * second) ⊎ (b ≡ 8 * second) ⊎ (b ≡ 16 * second)

IsBackoff-next_backoff : (b : ℕ) → IsBackoff b → IsBackoff (next_backoff b)
unfolding next_backoff
IsBackoff-next_backoff b h = ground arith

IsBackoff-short : (b : ℕ) → IsBackoff b → b ≤ 16 * second
IsBackoff-short b h = ground arith

-- The rounds before the context ends.
abbrev pub rounds_run : List Round → ℕ
rounds_run [] = 0
rounds_run (shut_down ∷ rounds) = 0
rounds_run (failed ∷ rounds) = suc (rounds_run rounds)
rounds_run (dequeued msgs ∷ rounds) = suc (rounds_run rounds)

module _ (c : Cloud) where
  -- What each message has come to.
  abbrev pub AllHandled : (msgs : List DequeuedMessage) → AllWhole msgs → List Call → Type 0
  AllHandled [] all calls = Unit
  AllHandled (msg ∷ msgs) all calls =
      HandledAs msg (c.unmarshal (all.0).text) calls × AllHandled msgs all.1 calls

  -- Each message of the rounds before the context ends.
  abbrev pub RoundsHandled : (rounds : List Round) → WholeRounds rounds → List Call → Type 0
  RoundsHandled [] whole calls = Unit
  RoundsHandled (shut_down ∷ rounds) whole calls = Unit
  RoundsHandled (failed ∷ rounds) whole calls = RoundsHandled rounds whole calls
  RoundsHandled (dequeued msgs ∷ rounds) whole calls =
      AllHandled msgs whole.0 calls × RoundsHandled rounds whole.1 calls

  -- The loop has ended, has asked for messages once in each round, has handled all that it got, and
  -- has slept for short times only.
  pub record Polled (rounds : List Round) (whole : WholeRounds rounds) (before : List Call)
      (result : Result (Unit {0}) × List Call) : Type 0 where
    pub returned : result.0 ≡ ok tt
    pub short : AllShort result.1
    pub asked : dequeues result.1 ≡ dequeues before + rounds_run rounds
    pub handled : RoundsHandled rounds whole result.1
    pub new : List Call
    pub after_eq : result.1 ≡ new ++ before

  AllHandled-append :
      (msgs : List DequeuedMessage) (all : AllWhole msgs) (new calls : List Call)
      → AllHandled msgs all calls
      → AllHandled msgs all (new ++ calls)
  AllHandled-append [] all new calls h = tt
  AllHandled-append (msg ∷ msgs) all new calls h =
      (HandledAs-append msg _ new calls h.0, AllHandled-append msgs all.1 new calls h.1)

  AllHandled-Grows :
      (msgs : List DequeuedMessage) (all : AllWhole msgs) {a b : List Call}
      → Grows a b
      → AllHandled msgs all a
      → AllHandled msgs all b
  AllHandled-Grows msgs all {a} g h = rw g.after_eq (AllHandled-append msgs all g.new a h)

-- A part that returned does not change how the rest ends.
despite-eq : {A B : Type 0} (r : Result A) (f : Job B) → Returned r → despite r f ≡ f
despite-eq (ok a) f h = refl
despite-eq (err x) f h = refl
despite-eq panic f h = absurd h

module _ (c : Cloud) (steady : Steady c) where
  pause-Fine : (d : ℕ) → d ≤ 16 * second → Fine (pause c d)
  pause-Fine d h calls short = (tt, (h, short), Grows-one _ calls refl)

  process_all-Fine : (msgs : List DequeuedMessage) → AllWhole msgs → Fine (process_all c msgs)
  unfolding process_all
  process_all-Fine [] all calls short = (tt, short, Grows-refl calls)
  process_all-Fine (msg ∷ msgs) all calls short =
      &-Fine (process_message c msg) (process_all c msgs) (process_message-Fine c steady msg all.0)
        (process_all-Fine msgs all.1) calls short

  process_all-AllHandled :
      (msgs : List DequeuedMessage) (all : AllWhole msgs) (calls : List Call)
      → AllShort calls
      → AllHandled c msgs all (process_all c msgs calls).1
  unfolding process_all
  process_all-AllHandled [] all calls short = tt
  process_all-AllHandled (msg ∷ msgs) all calls short =
      let (returned, short', _) = process_message-Fine c steady msg all.0 calls short in
      let first = process_message-HandledAs c steady msg all.0 calls short in
      let (_, _, grown) = process_all-Fine msgs all.1 (process_message c msg calls).1 short' in
      rw (despite-eq (process_message c msg calls).0 (process_all c msgs) returned) (
        HandledAs-Grows msg _ grown first,
        process_all-AllHandled msgs all.1 (process_message c msg calls).1 short',
      )

  handle-Fine : (msgs : List DequeuedMessage) → AllWhole msgs → Fine (handle c msgs)
  unfolding handle
  handle-Fine [] all = pause-Fine (2 * second) (omega arith)
  handle-Fine (msg ∷ msgs) all = process_all-Fine (msg ∷ msgs) all

  handle-AllHandled :
      (msgs : List DequeuedMessage) (all : AllWhole msgs) (calls : List Call)
      → AllShort calls
      → AllHandled c msgs all (handle c msgs calls).1
  unfolding handle
  handle-AllHandled [] all calls short = tt
  handle-AllHandled (msg ∷ msgs) all calls short =
      process_all-AllHandled (msg ∷ msgs) all calls short

  rounds-Polled :
      (rounds : List Round) (whole : WholeRounds rounds) (backoff : ℕ)
      → IsBackoff backoff
      → (calls : List Call) → AllShort calls
      → Polled c rounds whole calls (poll_queue c rounds backoff calls)
  unfolding poll_queue
  rounds-Polled [] whole backoff h calls short = record {
    returned = refl;
    short = short;
    asked = omega arith;
    handled = tt;
    new = [];
    after_eq = refl;
  }
  rounds-Polled (shut_down ∷ rounds) whole backoff h calls short = record {
    returned = refl;
    short = short;
    asked = omega arith;
    handled = tt;
    new = [];
    after_eq = refl;
  }
  rounds-Polled (failed ∷ rounds) whole backoff h calls short =
      let rest =
        rounds-Polled rounds whole (next_backoff backoff) (IsBackoff-next_backoff backoff h)
          (sleep backoff ∷ dequeue ∷ calls) (IsBackoff-short backoff h, (tt, short)) in
      record {
        returned = rest.returned;
        short = rest.short;
        asked = rest.asked ∙ omega arith;
        handled = rest.handled;
        new = rest.new ++ sleep backoff ∷ dequeue ∷ [];
        after_eq = rest.after_eq ∙ sym (append_assoc rest.new (sleep backoff ∷ dequeue ∷ []) calls);
      }
  rounds-Polled (dequeued msgs ∷ rounds) whole backoff h calls short =
      let (returned, short', grown) = handle-Fine msgs whole.0 (dequeue ∷ calls) (tt, short) in
      let mine = handle-AllHandled msgs whole.0 (dequeue ∷ calls) (tt, short) in
      let rest =
        rounds-Polled rounds whole.1 second (inl refl) (handle c msgs (dequeue ∷ calls)).1 short' in
      let count = Grows-dequeues grown in
      rw (despite-eq (handle c msgs (dequeue ∷ calls)).0 (poll_queue c rounds second) returned)
        (record {
          returned = rest.returned;
          short = rest.short;
          asked = rest.asked ∙ rw count (omega arith);
          handled =
              (rw rest.after_eq (AllHandled-append c msgs whole.0 rest.new _ mine), rest.handled);
          new = rest.new ++ (grown.new ++ dequeue ∷ []);
          after_eq =
              rest.after_eq
              ∙ (ap (λ l. rest.new ++ l)
                    (grown.after_eq ∙ sym (append_assoc grown.new (dequeue ∷ []) calls))
                  ∙ sym (append_assoc rest.new (grown.new ++ dequeue ∷ []) calls));
        })

  -- If every call of the outside returns a value or an error, and each message has its id, its
  -- receipt and its text: the poll loop ends without a panic; it has asked for messages once in each
  -- round before the context ended; of the messages that it got then, it has tried to mark the
  -- request of each that decodes as running, and asked to delete each other one; and none of its
  -- sleeps is longer than 16 seconds.
  pub poll_queue-Survives :
      (rounds : List Round) (whole : WholeRounds rounds)
      → Polled c rounds whole [] (poll_queue c rounds second [])
  poll_queue-Survives rounds whole = rounds-Polled rounds whole second (inl refl) [] tt
