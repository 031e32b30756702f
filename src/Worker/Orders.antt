-- ===== src/Worker/Orders.antt =====
-- `main2` of benchmarker/worker/test_sample_requests_push_generator.go: random orders for requests.
-- `rand.Intn` is an argument; the program ends with the list as JSON on its output.
pub mod Bounds
use shark_42tokyo_tuning.Prelude.{ℕ, zero, suc, ◌+◌, ◌-◌, ◌<◌, List, [], ◌∷◌}

-- `math/rand`: the generator, and a number below `n`.
pub record Rand : Type 1 where
  pub State : Type 0
  pub intn : State → (n : ℕ) → ℕ × State
  pub intn_lt : (s : State) (n : ℕ) → 0 < n → (intn s n).0 < n

pub record Item : Type 0 where
  pub product_id : ℕ
  pub quantity : ℕ

pub record Order : Type 0 where
  pub items : List Item

abbrev pub total_orders : ℕ
total_orders = 100

abbrev pub min_items_per_order : ℕ
min_items_per_order = 1

abbrev pub max_items_per_order : ℕ
max_items_per_order = 5

abbrev pub min_product_id : ℕ
min_product_id = 1

abbrev pub max_product_id : ℕ
max_product_id = 1000

abbrev pub min_quantity : ℕ
min_quantity = 1

abbrev pub max_quantity : ℕ
max_quantity = 10

module _ (r : Rand) where
  -- A number from `min` to `max`.
  unfoldable pub between : r.State → (min max : ℕ) → ℕ × r.State
  between s min max = let (n, s') = r.intn s (max - min + 1) in (n + min, s')

  unfoldable pub random_item : r.State → Item × r.State
  unfolding between
  random_item s =
      let (product_id, s') = between s min_product_id max_product_id in
      let (quantity, s'') = between s' min_quantity max_quantity in
      (record { product_id = product_id; quantity = quantity }, s'')

  unfoldable pub random_items : (num_items : ℕ) → r.State → List Item × r.State
  unfolding random_item
  random_items zero s = ([], s)
  random_items (suc n) s =
      let (item, s') = random_item s in let (items, s'') = random_items n s' in (item ∷ items, s'')

  unfoldable pub random_orders : (count : ℕ) → r.State → List Order × r.State
  unfolding between random_items
  random_orders zero s = ([], s)
  random_orders (suc n) s =
      let (num_items, s') = between s min_items_per_order max_items_per_order in
      let (items, s'') = random_items num_items s' in
      let (orders, s''') = random_orders n s'' in (record { items = items } ∷ orders, s''')

  -- `main2`, from a seeded generator: the list that it prints.
  unfoldable pub main2 : r.State → List Order
  unfolding random_orders
  main2 seeded = (random_orders total_orders seeded).0
