-- ===== src/Delivery/Panics.antt =====
-- Capacities for which no table can be made.
use shark_42tokyo_tuning.Prelude.{
  ℕ, suc, ◌==◌, ◌+◌, ◌≤◌, ◌<◌, leb, false, length, ◌-◌, ◌^◌, ◌≡◌, ◌⊎◌, inl, inr, refl, String, List,
  ◌∷◌, arith, panic,
}
use shark_42tokyo_tuning.Prelude.Int.{pos, leb_ℤ, add64, add64-pos}
use shark_42tokyo_tuning.Model.{Order}
use shark_42tokyo_tuning.Delivery.{max_len, make_table, best_select_orders_for_delivery}

test : (n : ℕ) → (suc n == 0) ≡ false
test n = ground arith

-- The greatest int: the length of the tables overflows.
overflow-panics :
    (o : Order) (os : List Order) (robot_id : String)
    → best_select_orders_for_delivery (o ∷ os) robot_id (pos (2 ^ 63 - 1)) ≡ panic
unfolding best_select_orders_for_delivery make_table add64
overflow-panics o os robot_id = rw (test (length os)) refl

long-panics :
    (o : Order) (os : List Order) (robot_id : String) (capacity : ℕ)
    → max_len ≤ capacity
    → capacity + 1 < 2 ^ 63
    → best_select_orders_for_delivery (o ∷ os) robot_id (pos capacity) ≡ panic
unfolding best_select_orders_for_delivery make_table
long-panics o os robot_id capacity long small =
    let some_capacity : leb_ℤ (pos capacity) (pos 0) ≡ false = ground arith in
    let too_long : leb (capacity + 1) max_len ≡ false = ground arith in
    rw (test (length os), some_capacity, add64-pos capacity 1 small, make_table, too_long) refl

last_cases : (n : ℕ) → n < 2 ^ 63 → (n + 1 < 2 ^ 63) ⊎ (n ≡ 2 ^ 63 - 1)
last_cases n h = ground arith

-- With an order to ship, a capacity that fits an int and is at least the length of the longest
-- table panics.
pub best_select-panics :
    (o : Order) (os : List Order) (robot_id : String) (capacity : ℕ)
    → max_len ≤ capacity
    → capacity < 2 ^ 63
    → best_select_orders_for_delivery (o ∷ os) robot_id (pos capacity) ≡ panic
best_select-panics o os robot_id capacity long small = elim (last_cases capacity small) [
  | inl below ↦ long-panics o os robot_id capacity long below
  | inr last ↦ rw last (overflow-panics o os robot_id)
]
