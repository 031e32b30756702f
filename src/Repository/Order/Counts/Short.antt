-- ===== src/Repository/Order/Counts/Short.antt =====
-- A cached count when a list comes between the drop of a transaction and its commit.
use shark_42tokyo_tuning.Prelude.{◌≡◌, refl, arith, ℕ, suc, some, [], ◌∷◌}
use shark_42tokyo_tuning.Prelude.Int.{ℤ, pos, eqb_ℤ_iff, lookup, lookup-insert}
use shark_42tokyo_tuning.Env.{Lo}
use shark_42tokyo_tuning.Repository.Order.Counts.{
  System, orders_of, miss, count, store, drop_in_tx, commit, Reach, here, next, start,
}

-- For any user and any counts: one order of the user and one list reach a state where all is over,
-- the database has one order more, and the cache holds the old count, from which every later list
-- without a search takes its total, until another order of the user.
pub Reach-short :
    (lo : Lo) (db : ℤ → ℕ) (u : ℤ)
    → (s : System) × Reach lo (start db) s
      × (s.uncommitted ≡ [])
      × (s.db u ≡ suc (db u))
      × (lookup u s.order_state.count_by_user ≡ some (pos (db u)))
unfolding lookup orders_of
Reach-short lo db u =
    let same = (eqb_ℤ_iff u u).1 refl in
    (
      _,
      next
          (next (next (next (next here (miss 0 u refl refl)) (count 0 u refl)) (drop_in_tx u []))
            (store 0 u (pos (db u)) refl))
          (commit [] (u ∷ []) [] refl),
      refl,
      rw (orders_of, same) (omega arith),
      rw (lookup-insert u u (pos (db u)) _, same) refl,
    )
