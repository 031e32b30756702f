-- ===== src/Delivery/Optimal.antt =====
-- The plan that `bestSelectOrdersForDelivery` restores, against all selections of the orders.
use mathlib.Core.List.{reverse_aux, append-nil, reverse-reverse}
use native.Mathlib.Nat.{zero-add}
use native.Mathlib.Numerals.{add-one}
use shark_42tokyo_tuning.Prelude.{
  leb, true, false, panic, inl, inr, ◌⊎◌, ◌<◌, ◌≤◌, ℕ, suc, ◌+◌, ◌^◌, ◌≤◌, ◌<◌, ◌≡◌, refl, sym, ap,
  ◌∙◌, ◌⊎◌, inl, inr, true, false, ◌||◌, String, List, [], ◌∷◌, ◌++◌, reverse, arith, length,
  get_or, get_or-replicate, replicate, length-replicate, Bool-cases, ok, ◌>>=◌, ◌==◌,
}
use shark_42tokyo_tuning.Prelude.Int.{pos, pos_part, ltb_ℤ, leb_ℤ, add64-pos}
use shark_42tokyo_tuning.Model.{Order, DeliveryPlan}
use shark_42tokyo_tuning.Delivery.{
  Table, consider, fill, best_weight, restore, max_len, make_table, empty_plan, picked_none,
  plan_from, best_select_orders_for_delivery,
}
use shark_42tokyo_tuning.Delivery.Selection.{
  weights, values, Selection, done, skip, take, values-le, Selection-reverse, weights-reverse,
  values-reverse,
}
use shark_42tokyo_tuning.Delivery.Round.{entry}
use shark_42tokyo_tuning.Delivery.Chain.{end, Chain-Selection, restore-Chain}
use shark_42tokyo_tuning.Delivery.Cells.{
  IsBest, IsFilled, keep-IsFilled, relax-IsFilled, usable_pos,
}
use shark_42tokyo_tuning.Delivery.Search.{IsTop, best_weight-IsTop, le_of_worth}

consider-IsFilled :
    (capacity i : ℕ) (past : List Order) (o : Order) (t : Table)
    → i ≡ length past
    → values past + pos_part o.value < 2 ^ 63
    → IsFilled capacity past t
    → IsFilled capacity (o ∷ past) (consider capacity i o t)
unfolding consider
consider-IsFilled capacity i past o t at small f =
    elim (Bool-cases (leb_ℤ o.weight (pos 0) || ltb_ℤ o.value (pos 0))) [
      | inl bad ↦ rw bad (keep-IsFilled capacity past o t f (ground arith))
      | inr good ↦ rw good (elim (Bool-cases (ltb_ℤ (pos capacity) o.weight)) [
        | inl heavy ↦ rw heavy (keep-IsFilled capacity past o t f (ground arith))
        | inr light ↦
            rw light (relax-IsFilled capacity past o t f i (ground arith) at (ground arith) small)
      ])
    ]

fill-IsFilled :
    (capacity i : ℕ) (past rest : List Order) (t : Table)
    → i ≡ length past
    → values past + values rest < 2 ^ 63
    → IsFilled capacity past t
    → IsFilled capacity (reverse_aux rest past) (fill capacity i rest t)
unfolding fill
fill-IsFilled capacity i past [] t at small f = f
fill-IsFilled capacity i past (o ∷ rest) t at small f =
    fill-IsFilled capacity (suc i) (o ∷ past) rest (consider capacity i o t) (ap suc at)
      (omega arith) (consider-IsFilled capacity i past o t at (omega arith) f)

none_best : (c : ℕ) (s : List Order) → Selection [] s → weights s ≤ c → values s ≤ 0
none_best c s done le = omega arith

abbrev start_table : ℕ → Table
start_table capacity = record {
  dp = replicate (suc capacity) (pos 0);
  choices = replicate (suc capacity) [];
}

start-IsFilled : (capacity : ℕ) → IsFilled capacity [] (start_table capacity)
start-IsFilled capacity = record {
  size = record {
    dp_size = length-replicate (suc capacity) (pos 0);
    choices_size = length-replicate (suc capacity) [];
  };
  cells = λ c le.
      rw
        (
          get_or-replicate (suc capacity) c (pos 0),
          get_or-replicate {A = List ℕ} (suc capacity) c [],
        )
        (record { chosen = []; chain = end; fits = omega arith; worth = refl; most = none_best c });
}

-- The plan is a best selection: usable orders, each at most once, the last one first; they fit
-- the capacity, the totals are theirs, and no selection that fits is worth more.
pub record IsOptimal (orders : List Order) (robot_id : String) (capacity : ℕ) (plan : DeliveryPlan)
    : Type 0 where
  pub robot : plan.robot_id ≡ robot_id
  pub selected : Selection (reverse orders) plan.orders
  pub fits : weights plan.orders ≤ capacity
  pub weight : plan.total_weight ≡ pos (weights plan.orders)
  pub value : plan.total_value ≡ pos (values plan.orders)
  pub most :
      (s : List Order) → Selection orders s → weights s ≤ capacity → values s ≤ values plan.orders

abbrev plan_of : String → List Order → DeliveryPlan
plan_of robot_id chosen = record {
  robot_id = robot_id;
  total_weight = pos (weights chosen);
  total_value = pos (values chosen);
  orders = chosen;
}

-- The best cell of the filled table is as good as the last one, which every selection that fits is
-- compared with.
module _ (orders : List Order) (robot_id : String) (capacity : ℕ) (t : Table)
    (f : IsFilled capacity (reverse orders) t) where
  abbrev chosen_w : ℕ
  chosen_w = best_weight t.dp (suc capacity) 0 0 (pos 0)

  chosen_w-IsTop : IsTop t.dp (suc capacity) 0 (pos 0) chosen_w
  chosen_w-IsTop =
      best_weight-IsTop t.dp (suc capacity) (suc capacity) 0 0 (pos 0) (omega arith) (omega arith)
        (rw ((f.cells 0 (omega arith)).worth) (omega arith))

  plan-IsOptimal :
      (b : IsBest (reverse orders) chosen_w (entry t chosen_w))
      → IsOptimal orders robot_id capacity (plan_of robot_id b.chosen)
  plan-IsOptimal b = record {
    robot = refl;
    selected = Chain-Selection b.chain;
    fits = omega (arith, b.fits, chosen_w-IsTop.0);
    weight = refl;
    value = refl;
    most = λ s sel le. omega (
      arith,
      values-reverse s,
      last.most (reverse s) (Selection-reverse sel) (omega (arith, weights-reverse s)),
      le_of_worth last.worth b.worth (chosen_w-IsTop.2 capacity (omega arith) (omega arith)),
    );
  }
    where
      last : IsBest (reverse orders) capacity (entry t capacity)
      last = f.cells capacity (omega arith)

  -- The walk from the best cell.
  restore-IsOptimal :
      capacity < 2 ^ 63
      → values orders < 2 ^ 63
      → (chosen : List Order) × (restore orders (get_or t.choices chosen_w []) picked_none
          ≡ ok (record {
            orders = chosen;
            total_weight = pos (weights chosen);
            total_value = pos (values chosen);
          }))
        × IsOptimal orders robot_id capacity (plan_of robot_id chosen)
  restore-IsOptimal small_w small_v =
      let b = f.cells chosen_w (omega (arith, chosen_w-IsTop.0)) in
      (
        b.chosen,
        restore-Chain orders b.chain [] [] 0 0 orders_twice
              (omega (arith, b.fits, chosen_w-IsTop.0))
              (omega (arith, values-le (Chain-Selection b.chain), values-reverse orders))
            ∙ cc (zero-add (weights b.chosen), zero-add (values b.chosen)),
        plan-IsOptimal b,
      )
    where
      orders_twice : orders ≡ reverse (reverse orders) ++ []
      orders_twice = sym (append-nil (reverse (reverse orders)) ∙ reverse-reverse orders)

nothing_selected : (os : List Order) → Selection os []
nothing_selected [] = done
nothing_selected (o ∷ os) = skip (nothing_selected os)

weightless : {os s : List Order} → Selection os s → weights s ≤ 0 → values s ≤ 0
weightless done le = omega arith
weightless (skip p) le = weightless p le
weightless (take {o} u p) le = absurd (omega (arith, usable_pos o u))

worthless :
    (os s : List Order) (capacity : ℕ)
    → Selection os s
    → weights s ≤ capacity
    → (length os ≡ 0) ⊎ (capacity ≡ 0)
    → values s ≤ 0
worthless [] s capacity p le e = omega (arith, values-le p)
worthless (o ∷ os) s capacity p le e = weightless p (omega arith)

empty-IsOptimal :
    (orders : List Order) (robot_id : String) (capacity : ℕ)
    → (length orders == 0 || leb_ℤ (pos capacity) (pos 0)) ≡ true
    → IsOptimal orders robot_id capacity (empty_plan robot_id)
empty-IsOptimal orders robot_id capacity h = record {
  robot = refl;
  selected = nothing_selected (reverse orders);
  fits = omega arith;
  weight = refl;
  value = refl;
  most = λ s sel le. worthless orders s capacity sel le (ground arith);
}

-- The call past its first test.
best_select_lem :
    (orders : List Order) (robot_id : String) (capacity : ℕ)
    → capacity + 1 < 2 ^ 63
    → leb (capacity + 1) max_len ≡ true
    → (length orders == 0 || leb_ℤ (pos capacity) (pos 0)) ≡ false
    → let t = fill capacity 0 orders (start_table capacity) in
      best_select_orders_for_delivery orders robot_id (pos capacity) ≡ (
        restore orders
          (get_or t.choices (best_weight t.dp (suc capacity) 0 0 (pos 0)) [])
          picked_none
        >>= λ p. ok (plan_from robot_id p))
unfolding best_select_orders_for_delivery make_table
best_select_lem orders robot_id capacity small fits h =
    rw (h, add64-pos capacity 1 small, make_table, fits, add-one)

too_long-panics :
    (orders : List Order) (robot_id : String) (capacity : ℕ)
    → capacity + 1 < 2 ^ 63
    → leb (capacity + 1) max_len ≡ false
    → (length orders == 0 || leb_ℤ (pos capacity) (pos 0)) ≡ false
    → best_select_orders_for_delivery orders robot_id (pos capacity) ≡ panic
unfolding best_select_orders_for_delivery make_table
too_long-panics orders robot_id capacity small long h =
    rw (h, add64-pos capacity 1 small, make_table, long) refl

-- For a capacity and values whose sums fit an int, the call returns an optimal plan, or it panics and
-- the table is too long.
pub best_select_cases :
    (orders : List Order) (robot_id : String) (capacity : ℕ)
    → capacity + 1 < 2 ^ 63
    → values orders < 2 ^ 63
    → ((plan : DeliveryPlan) × (best_select_orders_for_delivery orders robot_id (pos capacity)
          ≡ ok plan)
        × IsOptimal orders robot_id capacity plan)
      ⊎ ((max_len < capacity + 1)
          × (best_select_orders_for_delivery orders robot_id (pos capacity) ≡ panic))
unfolding best_select_orders_for_delivery
best_select_cases orders robot_id capacity small_w small_v =
    elim (Bool-cases (length orders == 0 || leb_ℤ (pos capacity) (pos 0))) [
      | inl trivial ↦
          inl
            (empty_plan robot_id, rw trivial refl, empty-IsOptimal orders robot_id capacity trivial)
      | inr rest ↦ elim (Bool-cases (leb (capacity + 1) max_len)) [
        | inl fits ↦
            let filled =
              fill-IsFilled capacity 0 [] orders _ refl (omega arith) (start-IsFilled capacity) in
            let (chosen, restored, optimal) =
              restore-IsOptimal orders robot_id capacity _ filled (omega arith) small_v in
            inl (
              plan_of robot_id chosen,
              best_select_lem orders robot_id capacity small_w fits rest
                  ∙ ap (λ r. r >>= λ p. ok (plan_from robot_id p)) restored,
              optimal,
            )
        | inr long ↦
            inr
              (long_table capacity long, too_long-panics orders robot_id capacity small_w long rest)
      ]
    ]
  where
    long_table : (n : ℕ) → leb (n + 1) max_len ≡ false → max_len < n + 1
    long_table n h = ground arith

-- For a capacity whose table is no longer than Go can make, and values whose sum fits an int, the
-- call returns a plan, and it is optimal.
pub best_select-IsOptimal :
    (orders : List Order) (robot_id : String) (capacity : ℕ)
    → capacity + 1 ≤ max_len
    → values orders < 2 ^ 63
    → (plan : DeliveryPlan) × (best_select_orders_for_delivery orders robot_id (pos capacity)
        ≡ ok plan)
      × IsOptimal orders robot_id capacity plan
best_select-IsOptimal orders robot_id capacity small_w small_v =
    elim (best_select_cases orders robot_id capacity (omega arith) small_v) [
      | inl optimal ↦ optimal
      | inr (long, _) ↦ absurd (omega arith)
    ]
