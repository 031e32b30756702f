-- ===== src/Delivery.antt =====
-- `bestSelectOrdersForDelivery` of webapp/backend/internal/service/robot.go: the 0-1 knapsack that
-- picks the orders of a delivery plan. The chain of `knapChoice` nodes is never written after it is
-- made, so a node is the list of the order indices from it down to nil.
pub mod Selection
mod Round
mod Chain
mod Cells
mod Search
pub mod Optimal
pub mod Panics
use shark_42tokyo_tuning.Prelude.{
  ℕ, zero, suc, ◌+◌, ◌-◌, String, Bool, ◌||◌, Option, none, some, List, [], ◌∷◌, ◌++◌, ◌^◌, leb,
  ltb, ◌==◌, if◌then◌else◌, length, get_elem?, get_or, set, replicate, Result, ok, panic, ◌>>=◌,
}
use shark_42tokyo_tuning.Prelude.Int.{ℤ, pos, negsuc, pos_part, ltb_ℤ, leb_ℤ, add64}
use shark_42tokyo_tuning.Model.{Order, DeliveryPlan}

-- `*knapChoice`: the order index of the node and those of the nodes behind it.
abbrev pub Node : Type 0
Node = List ℕ

-- The arrays `dp` and `choices`. Both have a cell for each weight up to the capacity, and the loops
-- below stay within it.
pub record Table : Type 0 where
  pub dp : List ℤ
  pub choices : List Node

-- The body of the inner loop, at `cw` = `w` + `k`.
unfoldable pub relax_at : (i w : ℕ) (v : ℤ) (k : ℕ) → Table → Table
relax_at i w v k t =
    let alt = add64 (get_or t.dp k (pos 0)) v in
    if ltb_ℤ (get_or t.dp (w + k) (pos 0)) alt
    then record {
      dp = set t.dp (w + k) alt;
      choices = set t.choices (w + k) (i ∷ get_or t.choices k []);
    }
    else t

-- The inner loop: `cw` runs down to `w`, for the given number of rounds.
unfoldable pub relax : (i w : ℕ) (v : ℤ) (rounds : ℕ) → Table → Table
relax i w v zero t = t
relax i w v (suc k) t = relax i w v k (relax_at i w v k t)

-- The body of the outer loop: order `o`, at index `i`.
unfoldable pub consider : (capacity i : ℕ) → Order → Table → Table
consider capacity i o t =
    if leb_ℤ o.weight (pos 0) || ltb_ℤ o.value (pos 0)
    then t
    else if ltb_ℤ (pos capacity) o.weight
    then t
    else relax i (pos_part o.weight) o.value (suc (capacity - pos_part o.weight)) t

-- The outer loop, from index `i`.
unfoldable pub fill : (capacity i : ℕ) → List Order → Table → Table
fill capacity i [] t = t
fill capacity i (o ∷ os) t = fill capacity (suc i) os (consider capacity i o t)

-- The search for the best weight, from weight `w` on.
unfoldable pub best_weight : (dp : List ℤ) (rounds w best_w : ℕ) (best_v : ℤ) → ℕ
best_weight dp zero w best_w best_v = best_w
best_weight dp (suc n) w best_w best_v =
    let better = ltb_ℤ best_v (get_or dp w (pos 0)) in
    best_weight dp n (suc w) (if better then w else best_w)
      (if better then get_or dp w (pos 0) else best_v)

pub record Picked : Type 0 where
  pub orders : List Order
  pub total_weight : ℤ
  pub total_value : ℤ

abbrev pub picked_none : Picked
picked_none = record { orders = []; total_weight = pos 0; total_value = pos 0 }

abbrev pub pick : Picked → Order → Picked
pick p o = record {
  orders = p.orders ++ o ∷ [];
  total_weight = add64 p.total_weight o.weight;
  total_value = add64 p.total_value o.value;
}

-- The walk along the chain. An index outside `orders` panics.
unfoldable pub restore : List Order → Node → Picked → Result Picked
restore orders [] p = ok p
restore orders (i ∷ prev) p = elim (get_elem? orders i) [
  | none ↦ panic
  | some o ↦ restore orders prev (pick p o)
]

-- `make` panics for a slice of more than 2 ^ 48 bytes, the addresses of a process on 64-bit Linux;
-- an int and a pointer have 8 bytes.
abbrev pub max_len : ℕ
max_len = 2 ^ 45

-- `make([]int, W+1)` and `make([]*knapChoice, W+1)`: a negative length panics, and one that is out of
-- range.
unfoldable pub make_table : ℤ → Result Table
make_table (pos n) =
    if leb n max_len
    then ok (record { dp = replicate n (pos 0); choices = replicate n [] })
    else panic
make_table (negsuc n) = panic

abbrev pub empty_plan : String → DeliveryPlan
empty_plan robot_id = record {
  robot_id = robot_id;
  total_weight = pos 0;
  total_value = pos 0;
  orders = [];
}

abbrev pub plan_from : String → Picked → DeliveryPlan
plan_from robot_id p = record {
  robot_id = robot_id;
  total_weight = p.total_weight;
  total_value = p.total_value;
  orders = p.orders;
}

unfoldable pub best_select_orders_for_delivery : List Order → String → ℤ → Result DeliveryPlan
best_select_orders_for_delivery orders robot_id robot_capacity =
    if length orders == 0 || leb_ℤ robot_capacity (pos 0) then ok (empty_plan robot_id) else do
      let capacity = pos_part robot_capacity
      start ← make_table (add64 robot_capacity (pos 1))
      let t = fill capacity 0 orders start
      let best_w = best_weight t.dp (suc capacity) 0 0 (pos 0)
      p ← restore orders (get_or t.choices best_w []) picked_none
      ok (plan_from robot_id p)
