-- ===== src/Delivery/Cells.antt =====
-- The cells of the table against the best selections of the orders seen, and what a round does to them.
use mathlib.Core.Path.{ap₂, subst}
use native.Mathlib.Nat.{add_comm}
use native.Mathlib.Decide.{dec_le}
use shark_42tokyo_tuning.Prelude.{
  ℕ, suc, ◌+◌, ◌-◌, ◌^◌, ◌≤◌, ◌<◌, ◌≡◌, ap, ◌∙◌, inl, inr, true, false, List, ◌∷◌, arith, length,
  Bool-cases,
}
use shark_42tokyo_tuning.Prelude.Int.{ℤ, pos, pos_part, ltb_ℤ, add64, add64-pos}
use shark_42tokyo_tuning.Model.{Order}
use shark_42tokyo_tuning.Delivery.{Table, relax}
use shark_42tokyo_tuning.Delivery.Selection.{
  is_usable, weights, values, Selection, skip, take, values-le,
}
use shark_42tokyo_tuning.Delivery.Round.{
  Entry, entry, improved, HasSize, relax-HasSize, relax_ne, relax_self,
}
use shark_42tokyo_tuning.Delivery.Chain.{Chain, pass, link, Chain-Selection, usable_value}

-- Cell `e` holds a selection of `past` of the greatest value among those of weight `c` or less.
pub record IsBest (past : List Order) (c : ℕ) (e : Entry) : Type 0 where
  pub chosen : List Order
  pub chain : Chain past e.node chosen
  pub fits : weights chosen ≤ c
  pub worth : e.best ≡ pos (values chosen)
  pub most : (s : List Order) → Selection past s → weights s ≤ c → values s ≤ values chosen

le_of_ltb : (d e : ℤ) (m n : ℕ) → d ≡ pos m → e ≡ pos n → ltb_ℤ d e ≡ true → m ≤ n
le_of_ltb d e m n p q h = ground arith

le_of_not_ltb : (d e : ℤ) (m n : ℕ) → d ≡ pos m → e ≡ pos n → ltb_ℤ d e ≡ false → n ≤ m
le_of_not_ltb d e m n p q h = ground arith

pub usable_pos : (o : Order) → is_usable o ≡ true → 0 < pos_part o.weight
usable_pos o u = ground arith

-- An order that is not usable or too heavy changes nothing.
most_kept :
    (past : List Order) (c m : ℕ) (o : Order)
    → ((s : List Order) → Selection past s → weights s ≤ c → values s ≤ m)
    → (is_usable o ≡ true → c < pos_part o.weight)
    → (s : List Order) → Selection (o ∷ past) s
    → weights s ≤ c
    → values s ≤ m
most_kept past c m o most heavy s (skip p) le = most s p le
most_kept past c m o most heavy (o' ∷ s) (take u p) le = absurd (omega (arith, heavy u))

keep-IsBest :
    (past : List Order) (c : ℕ) (e : Entry) (o : Order)
    → (is_usable o ≡ true → c < pos_part o.weight)
    → IsBest past c e
    → IsBest (o ∷ past) c e
keep-IsBest past c e o heavy b = record {
  chosen = b.chosen;
  chain = pass b.chain;
  fits = b.fits;
  worth = b.worth;
  most = most_kept past c (values b.chosen) o b.most heavy;
}

module _ (past : List Order) (k : ℕ) (o : Order) where
  most_improved :
      (m n l : ℕ)
      → ((s : List Order) → Selection past s → weights s ≤ pos_part o.weight + k → values s ≤ m)
      → ((s : List Order) → Selection past s → weights s ≤ k → values s ≤ n)
      → m ≤ l
      → n + pos_part o.value ≤ l
      → (s : List Order) → Selection (o ∷ past) s
      → weights s ≤ pos_part o.weight + k
      → values s ≤ l
  most_improved m n l most below le le' s (skip p) fits = omega (arith, most s p fits)
  most_improved m n l most below le le' (o' ∷ s) (take u p) fits =
      omega (arith, below s p (omega arith))

  module _ (i : ℕ) (u : is_usable o ≡ true) (at : i ≡ length past) where
    with_order :
        (d : ℤ) (n : ℕ)
        → d ≡ pos n
        → n + pos_part o.value < 2 ^ 63
        → add64 d o.value ≡ pos (pos_part o.value + n)
    with_order d n e small =
        ap₂ add64 e (usable_value o u)
        ∙ add64-pos n (pos_part o.value) small
        ∙ ap pos (add_comm n (pos_part o.value))

    improved-IsBest :
        (cur below : Entry)
        → IsBest past (pos_part o.weight + k) cur
        → IsBest past k below
        → values past + pos_part o.value < 2 ^ 63
        → IsBest (o ∷ past) (pos_part o.weight + k) (improved i o.value cur below)
    improved-IsBest cur below b a small = elim (Bool-cases (ltb_ℤ cur.best alt)) [
      | inl better ↦ rw better (record {
        chosen = o ∷ a.chosen;
        chain = link u at a.chain;
        fits = omega (arith, a.fits);
        worth = alt_eq;
        most =
            most_improved (values b.chosen) (values a.chosen) _ b.most a.most
              (le_of_ltb _ _ _ _ b.worth alt_eq better) (omega arith);
      })
      | inr worse ↦ rw worse (record {
        chosen = b.chosen;
        chain = pass b.chain;
        fits = b.fits;
        worth = b.worth;
        most =
            most_improved (values b.chosen) (values a.chosen) _ b.most a.most (omega arith)
              (omega (arith, le_of_not_ltb _ _ _ _ b.worth alt_eq worse));
      })
    ]
      where
        alt : ℤ
        alt = add64 below.best o.value

        alt_eq : add64 below.best o.value ≡ pos (pos_part o.value + values a.chosen)
        alt_eq =
            with_order below.best (values a.chosen) a.worth
              (omega (arith, values-le (Chain-Selection a.chain)))

-- The table's cells are best among the orders `past`.
pub record IsFilled (capacity : ℕ) (past : List Order) (t : Table) : Type 0 where
  pub size : HasSize (suc capacity) t
  pub cells : (c : ℕ) → c ≤ capacity → IsBest past c (entry t c)

module _ (capacity : ℕ) (past : List Order) (o : Order) (t : Table)
    (f : IsFilled capacity past t) where
  pub keep-IsFilled :
      (is_usable o ≡ true → capacity < pos_part o.weight) → IsFilled capacity (o ∷ past) t
  keep-IsFilled heavy = record {
    size = f.size;
    cells = λ c le. keep-IsBest past c (entry t c) o (λ u. omega (arith, heavy u)) (f.cells c le);
  }

  module _ (i : ℕ) (u : is_usable o ≡ true) (at : i ≡ length past) where
    abbrev pub relaxed : Table
    relaxed = relax i (pos_part o.weight) o.value (suc (capacity - pos_part o.weight)) t

    relaxed_cell :
        pos_part o.weight ≤ capacity
        → values past + pos_part o.value < 2 ^ 63
        → (k : ℕ) → pos_part o.weight + k ≤ capacity
        → IsBest (o ∷ past) (pos_part o.weight + k) (entry relaxed (pos_part o.weight + k))
    relaxed_cell light small k le =
        rw
          (relax_self i (pos_part o.weight) o.value (suc capacity)
            (suc (capacity - pos_part o.weight)) t k (usable_pos o u) f.size (omega arith)
            (omega arith))
          (improved-IsBest past k o i u at (entry t (pos_part o.weight + k)) (entry t k)
            (f.cells (pos_part o.weight + k) le) (f.cells k (omega arith)) small)

    pub relax-IsFilled :
        pos_part o.weight ≤ capacity
        → values past + pos_part o.value < 2 ^ 63
        → IsFilled capacity (o ∷ past) relaxed
    relax-IsFilled light small = record {
      size =
          relax-HasSize i (pos_part o.weight) o.value (suc capacity)
            (suc (capacity - pos_part o.weight)) t f.size;
      cells = λ c le. elim (dec_le (pos_part o.weight) c) [
        | yes h ↦
            subst (λ d. IsBest (o ∷ past) d (entry relaxed d)) (omega arith)
              (relaxed_cell light small (c - pos_part o.weight) (omega arith))
        | no h ↦
            rw
              (relax_ne i (pos_part o.weight) o.value (suc capacity)
                (suc (capacity - pos_part o.weight)) t c (inl (omega arith)))
              (keep-IsBest past c (entry t c) o (λ _. omega arith) (f.cells c le))
      ];
    }
