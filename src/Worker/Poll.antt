-- ===== src/Worker/Poll.antt =====
-- `pollQueue` of benchmarker/worker/main.go. What each round of the loop sees is an argument.
pub mod Fine
mod Handled
pub mod Survives
use shark_42tokyo_tuning.Prelude.{ℕ, ◌*◌, ◌^◌, List, [], ◌∷◌, if◌then◌else◌, ltb, ok}
use shark_42tokyo_tuning.Worker.Cloud.{DequeuedMessage, sleep, dequeue, Cloud, Job, done, ◌&◌}
use shark_42tokyo_tuning.Worker.Queue.{process_message}

-- The context has ended, the dequeue fails, or it returns messages.
pub data Round : Type 0 where
  shut_down : Round
  failed : Round
  dequeued : List DequeuedMessage → Round

abbrev pub second : ℕ
second = 10 ^ 9

unfoldable pub next_backoff : ℕ → ℕ
next_backoff backoff = if ltb backoff (15 * second) then backoff * 2 else backoff

module _ (c : Cloud) where
  abbrev pause : ℕ → Job (Unit {0})
  pause duration calls = (ok tt, sleep duration ∷ calls)

  unfoldable pub process_all : List DequeuedMessage → Job (Unit {0})
  process_all [] = done tt
  process_all (msg ∷ msgs) = process_message c msg & process_all msgs

  unfoldable pub handle : List DequeuedMessage → Job (Unit {0})
  unfolding process_all
  handle [] = pause (2 * second)
  handle (msg ∷ msgs) = process_all (msg ∷ msgs)

  abbrev asks_messages : Job (Unit {0})
  asks_messages calls = (ok tt, dequeue ∷ calls)

  -- The rounds that are given, from a backoff.
  unfoldable pub poll_queue : List Round → (backoff : ℕ) → Job (Unit {0})
  unfolding next_backoff handle
  poll_queue [] backoff = done tt
  poll_queue (shut_down ∷ rounds) backoff = done tt
  poll_queue (failed ∷ rounds) backoff =
      asks_messages & (pause backoff & poll_queue rounds (next_backoff backoff))
  poll_queue (dequeued msgs ∷ rounds) backoff =
      asks_messages & (handle msgs & poll_queue rounds second)
