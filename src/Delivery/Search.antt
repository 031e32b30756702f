-- ===== src/Delivery/Search.antt =====
-- The search for the best weight, the second loop of `bestSelectOrdersForDelivery`.
use shark_42tokyo_tuning.Prelude.{
  ℕ, zero, suc, ◌+◌, ◌≤◌, ◌<◌, ◌≡◌, inl, inr, true, false, List, arith, get_or, Bool-cases,
  ℕ_discrete,
}
use shark_42tokyo_tuning.Prelude.Int.{ℤ, pos, ◌≤ℤ◌, ltb_ℤ}
use shark_42tokyo_tuning.Delivery.{best_weight}

ltb→≤ℤ : (a b : ℤ) → ltb_ℤ a b ≡ true → a ≤ℤ b
ltb→≤ℤ a b h = ground arith

pub le_of_worth : {d e : ℤ} {m n : ℕ} → d ≡ pos m → e ≡ pos n → d ≤ℤ e → m ≤ n
le_of_worth p q h = ground arith

not_ltb→≤ℤ : (a b : ℤ) → ltb_ℤ a b ≡ false → b ≤ℤ a
not_ltb→≤ℤ a b h = ground arith

abbrev pub cell : List ℤ → ℕ → ℤ
cell dp w = get_or dp w (pos 0)

-- `x` is a cell below `stop` that neither `v` nor a cell from `w` on exceeds.
abbrev pub IsTop : (dp : List ℤ) (stop w : ℕ) (v : ℤ) (x : ℕ) → Type 0
IsTop dp stop w v x =
    (x < stop) × (v ≤ℤ cell dp x) × ((c : ℕ) → w ≤ c → c < stop → cell dp c ≤ℤ cell dp x)

IsTop-step :
    (dp : List ℤ) (stop w : ℕ) (v v' : ℤ) (x : ℕ)
    → v ≤ℤ v'
    → cell dp w ≤ℤ v'
    → IsTop dp stop (suc w) v' x
    → IsTop dp stop w v x
IsTop-step dp stop w v v' x le here (lt, top, rest) = (
  lt,
  omega arith,
  λ c lo hi. elim (ℕ_discrete c w) [ yes e ↦ rw e (omega arith) | no ne ↦ rest c (omega arith) hi ],
)

-- The search returns a weight within the table whose value none exceeds.
pub best_weight-IsTop :
    (dp : List ℤ) (stop n w best_w : ℕ) (best_v : ℤ)
    → w + n ≡ stop
    → best_w < stop
    → best_v ≤ℤ cell dp best_w
    → IsTop dp stop w best_v (best_weight dp n w best_w best_v)
unfolding best_weight
best_weight-IsTop dp stop zero w best_w best_v e lt le = (lt, le, λ c lo hi. absurd (omega arith))
best_weight-IsTop dp stop (suc n) w best_w best_v e lt le =
    elim (Bool-cases (ltb_ℤ best_v (cell dp w))) [
      | inl better ↦ rw better (
          IsTop-step dp stop w best_v (cell dp w) _ (ltb→≤ℤ best_v (cell dp w) better) (omega arith)
            (best_weight-IsTop dp stop n (suc w) w (cell dp w) (omega arith) (omega arith)
              (omega arith)))
      | inr worse ↦ rw worse (
          IsTop-step dp stop w best_v best_v _ (omega arith) (not_ltb→≤ℤ best_v (cell dp w) worse)
            (best_weight-IsTop dp stop n (suc w) best_w best_v (omega arith) lt le))
    ]
