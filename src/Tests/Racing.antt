-- ===== src/Tests/Racing.antt =====
-- Interleavings of readers and updates of the shipping orders.
use shark_42tokyo_tuning.Prelude.{◌≡◌, refl, true, false, ℕ, suc, some, [], ◌∷◌, List, arith}
use shark_42tokyo_tuning.Prelude.Int.{ℤ, pos, add64, lookup}
use shark_42tokyo_tuning.Model.{Order}
use shark_42tokyo_tuning.Repository.Order.{drop_shipping, store_shipping}
use shark_42tokyo_tuning.Repository.Order.Race.{
  System, miss, fetch, store, write, drop, Reach, here, next, start,
}
use shark_42tokyo_tuning.Repository.Order.Race.Current.{Reach-current}
use shark_42tokyo_tuning.Repository.Order.Race.Stale.{Reach-stale}
use shark_42tokyo_tuning.Repository.Order.Counts
use shark_42tokyo_tuning.Repository.Order.Counts.Short.{Reach-short}
use shark_42tokyo_tuning.Tests.Shop.{plain_lo, order_of, three_orders}

abbrev two_left : List Order
two_left = order_of 1 2 30 ∷ order_of 2 3 30 ∷ []

-- The first reader missed before an update, and its rows are not cached; those of the second are.
late_reader :
    (s : System) × Reach false (start (some three_orders)) s
    × (s.writing ≡ 0)
    × (s.db ≡ some two_left)
    × (s.order_state.shipping_orders_cache ≡ some two_left)
unfolding drop_shipping store_shipping add64
late_reader = (
  _,
  next
      (next
        (next
          (next
            (next
              (next (next (next here (miss 0 refl refl)) (fetch 0 (pos 0) refl))
                (write (some two_left)))
              (drop 0 refl (0, refl, omega arith)))
            (store 0 (pos 0) (some three_orders) refl))
          (miss 1 refl refl))
        (fetch 1 (pos 1) refl))
      (store 1 (pos 1) (some two_left) refl),
  refl,
  refl,
  refl,
)

Reach-current_example : late_reader.0.db ≡ some two_left
Reach-current_example = Reach-current two_left late_reader.1 late_reader.2 late_reader.4

Reach-stale_example :
    (s : System) × Reach true (start (some three_orders)) s
    × (s.writing ≡ 0)
    × (s.uncommitted ≡ [])
    × (s.db ≡ some two_left)
    × (s.order_state.shipping_orders_cache ≡ some three_orders)
Reach-stale_example = Reach-stale three_orders two_left

-- A list counts 3 orders of a user while an order of the user is committed.
abbrev three_each : ℤ → ℕ
three_each u = 3

short_list :
    (s : Counts.System) × Counts.Reach plain_lo (Counts.start three_each) s
    × (s.uncommitted ≡ [])
    × (s.db (pos 1) ≡ suc (three_each (pos 1)))
    × (lookup (pos 1) s.order_state.count_by_user ≡ some (pos (three_each (pos 1))))
short_list = Reach-short plain_lo three_each (pos 1)

Reach-short_example :
    (s : Counts.System) × Counts.Reach plain_lo (Counts.start three_each) s
    × (s.uncommitted ≡ [])
    × (s.db (pos 1) ≡ suc (three_each (pos 1)))
    × (lookup (pos 1) s.order_state.count_by_user ≡ some (pos (three_each (pos 1))))
Reach-short_example = Reach-short plain_lo three_each (pos 1)
