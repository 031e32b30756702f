-- ===== src/Delivery/Selection.antt =====
-- The 0-1 knapsack problem, stated without the program's tables.
use shark_42tokyo_tuning.Prelude.{
  ℕ, ◌+◌, ◌≤◌, ◌≡◌, refl, Bool, true, ◌&&◌, List, [], ◌∷◌, ◌++◌, reverse, arith,
}
use mathlib.Core.List.{reverse-cons, append-nil}
use shark_42tokyo_tuning.Prelude.Int.{pos, pos_part, ltb_ℤ, leb_ℤ}
use shark_42tokyo_tuning.Model.{Order}

-- An order that may be delivered: it weighs something, and its value is no loss.
abbrev pub is_usable : Order → Bool
is_usable o = ltb_ℤ (pos 0) o.weight && leb_ℤ (pos 0) o.value

-- The sums of the weights and of the values, negative ones counted as 0.
abbrev pub weights : List Order → ℕ
weights [] = 0
weights (o ∷ os) = pos_part o.weight + weights os

abbrev pub values : List Order → ℕ
values [] = 0
values (o ∷ os) = pos_part o.value + values os

-- Some usable orders of a list, each position at most once and in the list's order.
pub data Selection : List Order → List Order → Type 0 where
  done : Selection [] []
  skip : {o : Order} {os chosen : List Order} → Selection os chosen → Selection (o ∷ os) chosen
  take :
      {o : Order} {os chosen : List Order}
      → is_usable o ≡ true
      → Selection os chosen
      → Selection (o ∷ os) (o ∷ chosen)

pub values-le : {os chosen : List Order} → Selection os chosen → values chosen ≤ values os
values-le done = omega arith
values-le (skip s) = omega (arith, values-le s)
values-le (take u s) = omega (arith, values-le s)

pub weights-append : (xs ys : List Order) → weights (xs ++ ys) ≡ weights xs + weights ys
weights-append [] ys = omega arith
weights-append (x ∷ xs) ys = omega (arith, weights-append xs ys)

pub values-append : (xs ys : List Order) → values (xs ++ ys) ≡ values xs + values ys
values-append [] ys = omega arith
values-append (x ∷ xs) ys = omega (arith, values-append xs ys)

pub Selection-append :
    {xs ys a b : List Order} → Selection xs a → Selection ys b → Selection (xs ++ ys) (a ++ b)
Selection-append done t = t
Selection-append (skip s) t = skip (Selection-append s t)
Selection-append (take u s) t = take u (Selection-append s t)

-- A selection of a list, read backwards, is one of the list read backwards.
pub Selection-reverse :
    {os chosen : List Order} → Selection os chosen → Selection (reverse os) (reverse chosen)
Selection-reverse done = done
Selection-reverse (skip {o} {os} {chosen} s) =
    rw (reverse-cons o os, ← append-nil (reverse chosen))
      (Selection-append (Selection-reverse s) (skip done))
Selection-reverse (take {o} {os} {chosen} u s) =
    rw (reverse-cons o os, reverse-cons o chosen)
      (Selection-append (Selection-reverse s) (take u done))

pub weights-reverse : (xs : List Order) → weights (reverse xs) ≡ weights xs
weights-reverse [] = refl
weights-reverse (x ∷ xs) =
    rw (reverse-cons x xs, weights-append (reverse xs) (x ∷ [])) (omega (arith, weights-reverse xs))

pub values-reverse : (xs : List Order) → values (reverse xs) ≡ values xs
values-reverse [] = refl
values-reverse (x ∷ xs) =
    rw (reverse-cons x xs, values-append (reverse xs) (x ∷ [])) (omega (arith, values-reverse xs))
