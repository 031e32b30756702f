-- ===== src/Delivery/Chain.antt =====
-- What a chain of nodes stands for, and the walk that restores it.
use mathlib.Core.List.{reverse-cons, append-nil, append_assoc}
use native.Mathlib.Nat.{add-zero, add_assoc}
use shark_42tokyo_tuning.Prelude.{
  ℕ, ◌+◌, ◌^◌, ◌<◌, ◌≡◌, refl, ◌∙◌, ap, true, some, List, [], ◌∷◌, ◌++◌, reverse, arith, length,
  get_elem?, length-append, get_elem?-append_middle, ok,
}
use shark_42tokyo_tuning.Prelude.Int.{pos, pos_part, add64-pos}
use shark_42tokyo_tuning.Model.{Order}
use shark_42tokyo_tuning.Delivery.{Node, Picked, pick, restore}
use shark_42tokyo_tuning.Delivery.Selection.{
  is_usable, weights, values, Selection, done, skip, take,
}

-- `past` is the list of orders seen, the last one first; the node names the `chosen` ones.
pub data Chain : List Order → Node → List Order → Type 0 where
  end : Chain [] [] []
  pass :
      {o : Order} {past chosen : List Order} {node : Node}
      → Chain past node chosen
      → Chain (o ∷ past) node chosen
  link :
      {o : Order} {past chosen : List Order} {node : Node} {i : ℕ}
      → is_usable o ≡ true
      → i ≡ length past
      → Chain past node chosen
      → Chain (o ∷ past) (i ∷ node) (o ∷ chosen)

pub Chain-Selection :
    {past chosen : List Order} {node : Node} → Chain past node chosen → Selection past chosen
Chain-Selection end = done
Chain-Selection (pass c) = skip (Chain-Selection c)
Chain-Selection (link u e c) = take u (Chain-Selection c)

length-reverse : (xs : List Order) → length (reverse xs) ≡ length xs
length-reverse [] = refl
length-reverse (x ∷ xs) =
    ap length (reverse-cons x xs)
    ∙ length-append (reverse xs) (x ∷ [])
    ∙ omega (arith, length-reverse xs)

reverse-append_cons :
    (o : Order) (past rest : List Order) → reverse (o ∷ past) ++ rest ≡ reverse past ++ o ∷ rest
reverse-append_cons o past rest = simp (reverse-cons, append_assoc)

get_elem?-past :
    (orders : List Order) (o : Order) (past rest : List Order) (i : ℕ)
    → orders ≡ reverse (o ∷ past) ++ rest
    → i ≡ length past
    → get_elem? orders i ≡ some o
get_elem?-past orders o past rest i eo ei =
    rw (eo ∙ reverse-append_cons o past rest, ei, ← length-reverse past)
      (get_elem?-append_middle (reverse past) o rest)

pub usable_weight : (o : Order) → is_usable o ≡ true → o.weight ≡ pos (pos_part o.weight)
usable_weight o u = ground arith

pub usable_value : (o : Order) → is_usable o ≡ true → o.value ≡ pos (pos_part o.value)
usable_value o u = ground arith

abbrev picked : List Order → ℕ → ℕ → Picked
picked os a b = record { orders = os; total_weight = pos a; total_value = pos b }

pick_usable :
    (o : Order) (os : List Order) (a b : ℕ)
    → is_usable o ≡ true
    → a + pos_part o.weight < 2 ^ 63
    → b + pos_part o.value < 2 ^ 63
    → pick (picked os a b) o ≡ picked (os ++ o ∷ []) (a + pos_part o.weight) (b + pos_part o.value)
pick_usable o os a b u lw lv = cc (
  usable_weight o u,
  usable_value o u,
  add64-pos a (pos_part o.weight) lw,
  add64-pos b (pos_part o.value) lv,
)

-- The walk returns the chosen orders with their sums, and never leaves `orders`.
pub restore-Chain :
    (orders : List Order) {past chosen : List Order} {node : Node} (c : Chain past node chosen)
    (rest os : List Order) (a b : ℕ)
    → orders ≡ reverse past ++ rest
    → a + weights chosen < 2 ^ 63
    → b + values chosen < 2 ^ 63
    → restore orders node (picked os a b)
      ≡ ok (picked (os ++ chosen) (a + weights chosen) (b + values chosen))
unfolding restore
restore-Chain orders end rest os a b eo lw lv = cc (append-nil os, add-zero a, add-zero b)
restore-Chain orders (pass {o} {past} c) rest os a b eo lw lv =
    restore-Chain orders c (o ∷ rest) os a b (eo ∙ reverse-append_cons o past rest) lw lv
restore-Chain orders (link {o} {past} {chosen} {node} {i} u e c) rest os a b eo lw lv =
    rw (get_elem?-past orders o past rest i eo e, restore)
      (ap (restore orders node) (pick_usable o os a b u (omega arith) (omega arith))
        ∙ restore-Chain orders c (o ∷ rest) (os ++ o ∷ []) (a + pos_part o.weight)
            (b + pos_part o.value) (eo ∙ reverse-append_cons o past rest) (omega arith)
            (omega arith)
        ∙ cc (
          append_assoc os (o ∷ []) chosen,
          add_assoc a (pos_part o.weight) (weights chosen),
          add_assoc b (pos_part o.value) (values chosen),
        ))
