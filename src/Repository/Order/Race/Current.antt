-- ===== src/Repository/Order/Race/Current.antt =====
-- The cache of the shipping orders against the database, for readers and updates on the pool.
use shark_42tokyo_tuning.Prelude.{
  ◌≡◌, refl, sym, ap, ◌∙◌, ◌⊎◌, inl, inr, ℕ, suc, ◌+◌, ◌≤◌, false, some, List, ◌==◌, arith,
  Bool-cases,
}
use shark_42tokyo_tuning.Prelude.Int.{ℤ, pos, pos_part, add64-pos, eqb_ℤ_iff}
use shark_42tokyo_tuning.Model.{Order}
use shark_42tokyo_tuning.Env.{Slice}
use shark_42tokyo_tuning.World.{OrderRepoState}
use shark_42tokyo_tuning.Repository.Order.{drop_shipping, store_shipping}
use shark_42tokyo_tuning.Repository.Order.Race.{
  Reader, idle, missed, fetched, returned, System, update, Counts, Step, hit, miss, fetch, store,
  again, write, drop, drop_in_tx, commit, Reach, here, next, start,
}

pos_inj : {a b : ℕ} → pos a ≡ pos b → a ≡ b
pos_inj p = ap pos_part p

-- What a reader knows: a version of the past, and, once it has read, the rows if the version is the
-- present one and no update is half done.
abbrev Sound : (count writing : ℕ) → Slice Order → Reader → Type 0
Sound count writing db idle = Unit
Sound count writing db (missed v) = (k : ℕ) × (v ≡ pos k) × (k ≤ count)
Sound count writing db (fetched v rows) =
    (k : ℕ) × (v ≡ pos k) × (k ≤ count) × (writing ≡ 0 → k ≡ count → db ≡ rows)
Sound count writing db (returned rows) = Unit

record Inv (s : System) : Type 0 where
  count : ℕ
  version_eq : s.order_state.shipping_orders_version ≡ pos count
  held :
      s.writing ≡ 0
      → (l : List Order) → s.order_state.shipping_orders_cache ≡ some l
      → s.db ≡ some l
  sound : (i : ℕ) → Sound count s.writing s.db (s.readers i)

Sound-update :
    (count writing : ℕ) (db : Slice Order) (f : ℕ → Reader) (i : ℕ) (r : Reader)
    → ((j : ℕ) → Sound count writing db (f j))
    → Sound count writing db r
    → (j : ℕ) → Sound count writing db (update f i r j)
Sound-update count writing db f i r all one j = elim (Bool-cases (i == j)) [
  | inl same ↦ rw same one
  | inr other ↦ rw other (all j)
]

-- A write hides the rows that were read before.
Sound-write :
    (count writing : ℕ) (db db' : Slice Order) (r : Reader)
    → Sound count writing db r
    → Sound count (suc writing) db' r
Sound-write count writing db db' idle h = tt
Sound-write count writing db db' (missed v) h = h
Sound-write count writing db db' (fetched v rows) (k, p, q, h) =
    (k, p, q, λ z. absurd (omega arith))
Sound-write count writing db db' (returned rows) h = tt

-- A drop leaves every version behind.
Sound-drop :
    (count writing writing' : ℕ) (db : Slice Order) (r : Reader)
    → Sound count writing db r
    → Sound (count + 1) writing' db r
Sound-drop count writing writing' db idle h = tt
Sound-drop count writing writing' db (missed v) (k, p, q) = (k, p, omega arith)
Sound-drop count writing writing' db (fetched v rows) (k, p, q, h) =
    (k, p, omega arith, λ z e. absurd (omega arith))
Sound-drop count writing writing' db (returned rows) h = tt

Inv-start : (db : Slice Order) → Inv (start db)
Inv-start db = record { count = 0; version_eq = refl; held = λ z l p. cc; sound = λ i. tt }

-- A section that moves one reader and leaves the rest.
moved :
    {s : System} (i : ℕ) (r : Reader) (inv : Inv s)
    → Sound inv.count s.writing s.db r
    → Inv (record s { readers = update s.readers i r })
moved {s} i r inv h = record {
  count = inv.count;
  version_eq = inv.version_eq;
  held = inv.held;
  sound = Sound-update inv.count s.writing s.db s.readers i r inv.sound h;
}

version-store_shipping :
    (v : ℤ) (rows : Slice Order) (s : OrderRepoState)
    → (store_shipping v rows s).shipping_orders_version ≡ s.shipping_orders_version
unfolding store_shipping
version-store_shipping v rows s = ground arith

-- The rows that are cached are those read at the present version.
cache-store_shipping :
    (v : ℤ) (rows : Slice Order) (s : OrderRepoState) (l : List Order)
    → (store_shipping v rows s).shipping_orders_cache ≡ some l
    → (s.shipping_orders_cache ≡ some l) ⊎ ((s.shipping_orders_version ≡ v) × (rows ≡ some l))
unfolding store_shipping
cache-store_shipping v rows s l p = ground (arith, eqb_ℤ_iff s.shipping_orders_version v)

stored :
    {s : System} (v : ℤ) (rows : Slice Order) (inv : Inv s)
    → Sound inv.count s.writing s.db (fetched v rows)
    → Inv (record s { order_state = store_shipping v rows s.order_state })
stored {s} v rows inv (k, at, le, current) = record {
  count = inv.count;
  version_eq = version-store_shipping v rows s.order_state ∙ inv.version_eq;
  held = λ z l p. elim (cache-store_shipping v rows s.order_state l p) [
    | inl before ↦ inv.held z l before
    | inr (same, new) ↦ current z (pos_inj (sym at ∙ sym same ∙ inv.version_eq)) ∙ new
  ];
  sound = inv.sound;
}

-- A write makes no promise until the drop behind it.
written :
    {s : System} (rows : Slice Order)
    → Inv s
    → Inv (record s { db = rows; writing = suc s.writing })
written {s} rows inv = record {
  count = inv.count;
  version_eq = inv.version_eq;
  held = λ z l p. absurd (omega arith);
  sound = λ i. Sound-write inv.count s.writing s.db rows (s.readers i) (inv.sound i);
}

dropped :
    {s : System} (n : ℕ)
    → Counts s.order_state
    → Inv s
    → Inv (record s { order_state = drop_shipping s.order_state; writing = n })
unfolding drop_shipping
dropped {s} n (m, at, small) inv = record {
  count = inv.count + 1;
  version_eq =
      let same : m ≡ inv.count = pos_inj (sym at ∙ inv.version_eq) in
      rw inv.version_eq (add64-pos inv.count 1 (omega arith));
  held = λ z l p. cc;
  sound = λ i. Sound-drop inv.count s.writing n s.db (s.readers i) (inv.sound i);
}

Step-Inv : {s t : System} → Step false s t → Inv s → Inv t
Step-Inv (hit i l p q) inv = moved i (returned (some l)) inv tt
Step-Inv {s} (miss i p q) inv =
    moved i (missed s.order_state.shipping_orders_version) inv
      (inv.count, inv.version_eq, omega arith)
Step-Inv {s} (fetch i v p) inv =
    let seen : Sound inv.count s.writing s.db (missed v) = rw p at (inv.sound i) in
    moved i (fetched v s.db) inv (seen.0, seen.1, seen.2, λ z e. refl)
Step-Inv {s} (store i v rows p) inv =
    moved i (returned rows) (stored v rows inv (rw p at (inv.sound i))) tt
Step-Inv (again i) inv = moved i idle inv tt
Step-Inv (write rows) inv = written rows inv
Step-Inv (drop n p c) inv = dropped n c inv
Step-Inv (drop_in_tx rows p c) inv = cc
Step-Inv (commit rows rest p q) inv = cc

Reach-Inv : {db : Slice Order} {s : System} → Reach false (start db) s → Inv s
Reach-Inv {db} here = Inv-start db
Reach-Inv (next r st) = Step-Inv st (Reach-Inv r)

-- In every state that readers and updates on the pool reach, in any interleaving of their sections, the
-- cached orders are those that the database has to ship, unless an update is between its statement
-- and its drop.
pub Reach-current :
    {db : Slice Order} {s : System} (l : List Order)
    → Reach false (start db) s
    → s.writing ≡ 0
    → s.order_state.shipping_orders_cache ≡ some l
    → s.db ≡ some l
Reach-current l r quiet cached = (Reach-Inv r).held quiet l cached
