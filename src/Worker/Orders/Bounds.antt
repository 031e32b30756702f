-- ===== src/Worker/Orders/Bounds.antt =====
-- The sizes of random orders.
use shark_42tokyo_tuning.Prelude.{◌≡◌, refl, ap, ℕ, zero, suc, ◌+◌, ◌-◌, ◌≤◌, arith, length}
use shark_42tokyo_tuning.Prelude.Paths.Elements.{All}
use shark_42tokyo_tuning.Worker.Orders.{
  Rand, Item, Order, total_orders, between, random_item, random_items, random_orders, main2,
}

abbrev pub Within : (min max n : ℕ) → Type 0
Within min max n = (min ≤ n) × (n ≤ max)

-- What a request may order.
abbrev pub IsRequest : Order → Type 0
IsRequest o =
    Within 1 5 (length o.items)
    × All (λ (i : Item). Within 1 1000 i.product_id × Within 1 10 i.quantity) o.items

module _ (r : Rand) where
  between-Within : (s : r.State) (min max : ℕ) → min ≤ max → Within min max (between r s min max).0
  unfolding between
  between-Within s min max h =
      let drawn = r.intn_lt s (max - min + 1) (omega arith) in (omega arith, omega arith)

  abbrev IsItem : Item → Type 0
  IsItem i = Within 1 1000 i.product_id × Within 1 10 i.quantity

  random_items-All : (n : ℕ) (s : r.State) → All IsItem (random_items r n s).0
  unfolding random_items random_item
  random_items-All zero s = tt
  random_items-All (suc n) s = (
    (between-Within s 1 1000 (omega arith), between-Within _ 1 10 (omega arith)),
    random_items-All n _,
  )

  length-random_items : (n : ℕ) (s : r.State) → length (random_items r n s).0 ≡ n
  unfolding random_items
  length-random_items zero s = refl
  length-random_items (suc n) s = ap suc (length-random_items n _)

  random_orders-All :
      (n : ℕ) (s : r.State)
      → (length (random_orders r n s).0 ≡ n) × All IsRequest (random_orders r n s).0
  unfolding random_orders
  random_orders-All zero s = (refl, tt)
  random_orders-All (suc n) s =
      let (count, all) = random_orders-All n _ in
      (
        ap suc count,
        (
          (rw (length-random_items _ _) (between-Within s 1 5 (omega arith)), random_items-All _ _),
          all,
        ),
      )

  -- Whatever the generator draws, 100 orders are printed; each has from 1 to 5 items, of a product
  -- from 1 to 1000 and a quantity from 1 to 10.
  pub main2-All :
      (seeded : r.State) → (length (main2 r seeded) ≡ 100) × All IsRequest (main2 r seeded)
  unfolding main2
  main2-All seeded = random_orders-All total_orders seeded
