-- ===== src/Delivery/Round.antt =====
-- What one order does to the table, cell by cell.
use mathlib.Core.Path.{ap₂}
use shark_42tokyo_tuning.Prelude.{
  ℕ, zero, suc, ◌+◌, ◌≤◌, ◌<◌, ◌≡◌, ◌≢◌, refl, ◌∙◌, [], ◌∷◌, arith, if◌then◌else◌, length, get_or,
  length-set, get_or-set_self, get_or-set_ne, ◌⊎◌, inr, ℕ_discrete,
}
use shark_42tokyo_tuning.Prelude.Int.{ℤ, pos, ltb_ℤ, add64}
use shark_42tokyo_tuning.Delivery.{Node, Table, relax_at, relax}

pub record Entry : Type 0 where
  pub best : ℤ
  pub node : Node

abbrev pub entry : Table → ℕ → Entry
entry t c = record { best = get_or t.dp c (pos 0); node = get_or t.choices c [] }

-- The better of a cell and of the cell `w` below it with order `i` of value `v` on top.
abbrev pub improved : (i : ℕ) (v : ℤ) → Entry → Entry → Entry
improved i v cur below =
    if ltb_ℤ cur.best (add64 below.best v)
    then record { best = add64 below.best v; node = i ∷ below.node }
    else cur

pub record HasSize (size : ℕ) (t : Table) : Type 0 where
  pub dp_size : length t.dp ≡ size
  pub choices_size : length t.choices ≡ size

module _ (i w : ℕ) (v : ℤ) (size : ℕ) where
  relax_at-HasSize : (k : ℕ) (t : Table) → HasSize size t → HasSize size (relax_at i w v k t)
  unfolding relax_at
  relax_at-HasSize k t h = ground (
    arith,
    length-set t.dp (w + k) (add64 (get_or t.dp k (pos 0)) v),
    length-set t.choices (w + k) (i ∷ get_or t.choices k []),
  )

  pub relax-HasSize : (r : ℕ) (t : Table) → HasSize size t → HasSize size (relax i w v r t)
  unfolding relax
  relax-HasSize zero t h = h
  relax-HasSize (suc k) t h = relax-HasSize k (relax_at i w v k t) (relax_at-HasSize k t h)

  relax_at_self :
      (k : ℕ) (t : Table)
      → HasSize size t
      → w + k < size
      → entry (relax_at i w v k t) (w + k) ≡ improved i v (entry t (w + k)) (entry t k)
  unfolding relax_at
  relax_at_self k t h lt = ground (
    arith,
    get_or-set_self t.dp (w + k) (add64 (get_or t.dp k (pos 0)) v) (pos 0),
    get_or-set_self t.choices (w + k) (i ∷ get_or t.choices k []) [],
  )

  relax_at_ne : (k : ℕ) (t : Table) (c : ℕ) → c ≢ w + k → entry (relax_at i w v k t) c ≡ entry t c
  unfolding relax_at
  relax_at_ne k t c ne = ground (
    arith,
    get_or-set_ne t.dp (w + k) c (add64 (get_or t.dp k (pos 0)) v) (pos 0),
    get_or-set_ne t.choices (w + k) c (i ∷ get_or t.choices k []) [],
  )

  -- Cells outside the range of the loop stay.
  pub relax_ne :
      (r : ℕ) (t : Table) (c : ℕ) → (c < w) ⊎ (w + r ≤ c) → entry (relax i w v r t) c ≡ entry t c
  unfolding relax
  relax_ne zero t c out = refl
  relax_ne (suc k) t c out =
      relax_ne k (relax_at i w v k t) c (ground arith) ∙ relax_at_ne k t c (ground arith)

  -- A cell in the range is compared with the cell `w` below it as both were before the loop: the
  -- loop runs downwards, so no order is taken twice.
  pub relax_self :
      (r : ℕ) (t : Table) (k : ℕ)
      → 0 < w
      → HasSize size t
      → w + r ≤ size
      → k < r
      → entry (relax i w v r t) (w + k) ≡ improved i v (entry t (w + k)) (entry t k)
  unfolding relax
  relax_self zero t k pw h fits lt = absurd (omega arith)
  relax_self (suc r) t k pw h fits lt = elim (ℕ_discrete k r) [
    | yes e ↦ rw e (
        relax_ne r (relax_at i w v r t) (w + r) (inr (omega arith))
        ∙ relax_at_self r t h (omega arith))
    | no ne ↦
        relax_self r (relax_at i w v r t) k pw (relax_at-HasSize r t h) (omega arith) (omega arith)
        ∙ ap₂ (improved i v) (relax_at_ne r t (w + k) (omega arith))
            (relax_at_ne r t k (omega arith))
  ]
