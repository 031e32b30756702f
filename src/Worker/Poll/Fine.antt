-- ===== src/Worker/Poll/Fine.antt =====
-- What it is for a function of the worker to return and to sleep briefly, and the parts that keep it.
use mathlib.Core.List.{append_assoc}
use shark_42tokyo_tuning.Prelude.{
  ◌≡◌, refl, sym, ap, ◌∙◌, suc, ◌+◌, ◌++◌, arith, ◌⊎◌, inl, inr, ℕ, ◌*◌, ◌≤◌, String, Option, none,
  some, List, [], ◌∷◌, Result, ok, err, panic, Bool-cases, ltb, leb, ◌||◌,
}
use shark_42tokyo_tuning.Prelude.Int.{ℤ}
use shark_42tokyo_tuning.Worker.Cloud.{
  QueueMessage, RequestEntity, DequeuedMessage, Call, upsert_entity, upsert_failed, make_dir,
  write_summary, dequeue, list_entities, enqueue_dlq, delete_message, load_test, post, sleep, Cloud,
  Job, next, ◌>>=◌, despite, ◌&◌,
}
use shark_42tokyo_tuning.Worker.Lock.{other_in, other_on}
use shark_42tokyo_tuning.Worker.Queue.{accepted}
use shark_42tokyo_tuning.Worker.Poll.{second}

abbrev pub Returned : {A : Type 0} → Result A → Type 0
Returned (ok a) = Unit
Returned (err x) = Unit
Returned panic = ⊥

abbrev pub AllReturned : {A : Type 0} → List (Result A) → Type 0
AllReturned [] = Unit
AllReturned (r ∷ rs) = Returned r × AllReturned rs

-- Each call of the outside returns a value or an error.
pub record Steady (c : Cloud) : Type 0 where
  pub upserts : (calls : List Call) (entity : RequestEntity) → Returned (c.upsert calls entity)
  pub lists : (calls : List Call) (filter : String) → AllReturned (c.pages calls filter)
  pub makes : (calls : List Call) (path : String) → Returned (c.mkdir calls path)
  pub runs :
      (calls : List Call) (argument target_ip : String)
      → Returned (c.run_k6 calls argument target_ip)
  pub scores : (calls : List Call) (raw_path : String) → Returned (c.compute_score calls raw_path)
  pub writes :
      (calls : List Call) (path : String) (score : ℤ)
      → Returned (c.write_summary_json calls path score)
  pub posts : (calls : List Call) (call : Call) → Returned (c.http_post calls call)

-- A sleep of at most 16 seconds, or another call.
abbrev pub IsShort : Call → Type 0
IsShort (sleep d) = d ≤ 16 * second
IsShort (upsert_entity x) = Unit
IsShort (upsert_failed x) = Unit
IsShort (list_entities f) = Unit
IsShort (enqueue_dlq l t i e) = Unit
IsShort (delete_message i r) = Unit
IsShort (make_dir p) = Unit
IsShort (load_test a t) = Unit
IsShort (write_summary p n) = Unit
IsShort dequeue = Unit
IsShort (post u t l m s) = Unit

abbrev pub AllShort : List Call → Type 0
AllShort [] = Unit
AllShort (c ∷ calls) = IsShort c × AllShort calls

-- The requests for messages among the calls.
abbrev pub dequeues : List Call → ℕ
dequeues [] = 0
dequeues (dequeue ∷ calls) = suc (dequeues calls)
dequeues (_ ∷ calls) = dequeues calls

dequeues-append : (new calls : List Call) → dequeues (new ++ calls) ≡ dequeues new + dequeues calls
dequeues-append [] calls = omega arith
dequeues-append (dequeue ∷ new) calls = let h = dequeues-append new calls in omega arith
dequeues-append (upsert_entity x ∷ new) calls = dequeues-append new calls
dequeues-append (upsert_failed x ∷ new) calls = dequeues-append new calls
dequeues-append (list_entities f ∷ new) calls = dequeues-append new calls
dequeues-append (enqueue_dlq l t i e ∷ new) calls = dequeues-append new calls
dequeues-append (delete_message i r ∷ new) calls = dequeues-append new calls
dequeues-append (make_dir p ∷ new) calls = dequeues-append new calls
dequeues-append (load_test a t ∷ new) calls = dequeues-append new calls
dequeues-append (write_summary p n ∷ new) calls = dequeues-append new calls
dequeues-append (post u t l m s ∷ new) calls = dequeues-append new calls
dequeues-append (sleep d ∷ new) calls = dequeues-append new calls

-- Calls were added, and no messages were asked for.
pub record Grows (before after : List Call) : Type 0 where
  pub new : List Call
  pub after_eq : after ≡ new ++ before
  pub none_asked : dequeues new ≡ 0

pub Grows-refl : (calls : List Call) → Grows calls calls
Grows-refl calls = record { new = []; after_eq = refl; none_asked = refl }

pub Grows-one : (x : Call) (calls : List Call) → dequeues (x ∷ []) ≡ 0 → Grows calls (x ∷ calls)
Grows-one x calls h = record { new = x ∷ []; after_eq = refl; none_asked = h }

pub Grows-trans : {a b d : List Call} → Grows a b → Grows b d → Grows a d
Grows-trans {a} g h = record {
  new = h.new ++ g.new;
  after_eq = h.after_eq ∙ (ap (λ l. h.new ++ l) g.after_eq ∙ sym (append_assoc h.new g.new a));
  none_asked = rw (dequeues-append h.new g.new, h.none_asked, g.none_asked) refl;
}

pub Grows-dequeues : {a b : List Call} → Grows a b → dequeues b ≡ dequeues a
Grows-dequeues {a} g =
    ap dequeues g.after_eq ∙ (dequeues-append g.new a ∙ rw g.none_asked (omega arith))

-- A job that returns, with short sleeps only, and asks for no messages.
abbrev pub Fine : {A : Type 0} → Job A → Type 0
Fine m =
    (calls : List Call)
    → AllShort calls
    → Returned (m calls).0 × AllShort (m calls).1 × Grows calls (m calls).1

pub pure-Fine : {A : Type 0} (r : Result A) → Returned r → Fine (λ calls. (r, calls))
pure-Fine r h calls short = (h, short, Grows-refl calls)

-- One call of the outside, and its answer.
pub call-Fine :
    {A : Type 0} (r : List Call → Result A) (x : List Call → Call)
    → ((calls : List Call) → Returned (r calls))
    → ((calls : List Call) → IsShort (x calls))
    → ((calls : List Call) → dequeues (x calls ∷ []) ≡ 0)
    → Fine (λ calls. (r calls, x calls ∷ calls))
call-Fine r x h k q calls short = (h calls, (k calls, short), Grows-one (x calls) calls (q calls))

pub next-Fine :
    {A B : Type 0} (r : Result A) (f : A → Job B)
    → Returned r
    → ((a : A) → Fine (f a))
    → Fine (next r f)
next-Fine (ok a) f h k calls short = k a calls short
next-Fine (err x) f h k calls short = (tt, short, Grows-refl calls)
next-Fine panic f h k calls short = absurd h

despite-Fine : {A B : Type 0} (r : Result A) (f : Job B) → Returned r → Fine f → Fine (despite r f)
despite-Fine (ok a) f h k = k
despite-Fine (err x) f h k = k
despite-Fine panic f h k = absurd h

pub >>=-Fine :
    {A B : Type 0} (m : Job A) (f : A → Job B) → Fine m → ((a : A) → Fine (f a)) → Fine (m >>= f)
>>=-Fine m f h k calls short =
    let (returned, short', grown) = h calls short in
    let (returned', short'', grown') = next-Fine (m calls).0 f returned k (m calls).1 short' in
    (returned', short'', Grows-trans grown grown')

pub &-Fine : {A B : Type 0} (m : Job A) (f : Job B) → Fine m → Fine f → Fine (m & f)
&-Fine m f h k calls short =
    let (returned, short', grown) = h calls short in
    let (returned', short'', grown') = despite-Fine (m calls).0 f returned k (m calls).1 short' in
    (returned', short'', Grows-trans grown grown')

pub other_on-Returned :
    (id : String) (pages : List (Result (List (Option String))))
    → AllReturned pages
    → Returned (other_on id pages)
unfolding other_on
other_on-Returned id [] all = tt
other_on-Returned id (err x ∷ pages) all = tt
other_on-Returned id (panic ∷ pages) all = absurd all.0
other_on-Returned id (ok entities ∷ pages) all = elim (Bool-cases (other_in id entities)) [
  | inl other ↦ rw other tt
  | inr alone ↦ rw alone (other_on-Returned id pages all.1)
]

pub accepted-Returned : (r : Result ℕ) → Returned r → Returned (accepted r)
unfolding accepted
accepted-Returned (ok status) h = elim (Bool-cases (ltb status 200 || leb 300 status)) [
  | inl bad ↦ rw bad tt
  | inr good ↦ rw good tt
]
accepted-Returned (err x) h = tt
accepted-Returned panic h = absurd h

-- A message with its id, its receipt and its text.
pub record IsWhole (msg : DequeuedMessage) : Type 0 where
  pub id : String
  pub receipt : String
  pub text : String
  pub id_eq : msg.message_id ≡ some id
  pub receipt_eq : msg.pop_receipt ≡ some receipt
  pub text_eq : msg.message_text ≡ some text

-- Some call is of a kind.
abbrev pub Has : (Call → Type 0) → List Call → Type 0
Has P [] = ⊥
Has P (x ∷ calls) = P x ⊎ Has P calls

Has-append : (P : Call → Type 0) (new calls : List Call) → Has P calls → Has P (new ++ calls)
Has-append P [] calls h = h
Has-append P (x ∷ new) calls h = inr (Has-append P new calls h)

-- An attempt to mark the request of a message as running.
abbrev IsMark : QueueMessage → RequestEntity → Type 0
IsMark m r = (r.partition_key ≡ m.team_id) × (r.row_key ≡ m.load_test_id) × (r.status ≡ "running")

abbrev pub Marks : QueueMessage → Call → Type 0
Marks m (upsert_entity r) = IsMark m r
Marks m (upsert_failed r) = IsMark m r
Marks m _ = ⊥

abbrev pub Deletes : DequeuedMessage → Call → Type 0
Deletes msg (delete_message i r) = (msg.message_id ≡ some i) × (msg.pop_receipt ≡ some r)
Deletes msg _ = ⊥

-- The request of a message that decodes was marked, and another message was deleted.
abbrev pub HandledAs : DequeuedMessage → Option QueueMessage → List Call → Type 0
HandledAs msg (some m) calls = Has (Marks m) calls
HandledAs msg none calls = Has (Deletes msg) calls

pub HandledAs-append :
    (msg : DequeuedMessage) (o : Option QueueMessage) (new calls : List Call)
    → HandledAs msg o calls
    → HandledAs msg o (new ++ calls)
HandledAs-append msg (some m) new calls h = Has-append (Marks m) new calls h
HandledAs-append msg none new calls h = Has-append (Deletes msg) new calls h

pub HandledAs-Grows :
    (msg : DequeuedMessage) (o : Option QueueMessage) {a b : List Call}
    → Grows a b
    → HandledAs msg o a
    → HandledAs msg o b
HandledAs-Grows msg o {a} g h = rw g.after_eq (HandledAs-append msg o g.new a h)
