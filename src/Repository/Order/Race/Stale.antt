-- ===== src/Repository/Order/Race/Stale.antt =====
-- The cache of the shipping orders when a reader comes between the drop of a transaction and its commit.
use shark_42tokyo_tuning.Prelude.{◌≡◌, refl, true, some, List, [], arith}
use shark_42tokyo_tuning.Prelude.Int.{pos, add64}
use shark_42tokyo_tuning.Model.{Order}
use shark_42tokyo_tuning.Repository.Order.{drop_shipping, store_shipping}
use shark_42tokyo_tuning.Repository.Order.Race.{
  System, miss, fetch, store, drop_in_tx, commit, Reach, here, next, start,
}

-- For any two lists of orders to ship: from a database with the first, a transaction that leaves the
-- second and one reader reach a state where all is over, the database has the second list, and the
-- cache holds the first, from which every later call returns it.
pub Reach-stale :
    (old new : List Order)
    → (s : System) × Reach true (start (some old)) s
      × (s.writing ≡ 0)
      × (s.uncommitted ≡ [])
      × (s.db ≡ some new)
      × (s.order_state.shipping_orders_cache ≡ some old)
unfolding drop_shipping store_shipping add64
Reach-stale old new = (
  _,
  next
      (next
        (next
          (next (next here (drop_in_tx (some new) refl (0, refl, omega arith))) (miss 0 refl refl))
          (fetch 0 (pos 1) refl))
        (store 0 (pos 1) (some old) refl))
      (commit (some new) [] refl refl),
  refl,
  refl,
  refl,
  refl,
)
