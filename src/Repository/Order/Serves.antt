-- ===== src/Repository/Order/Serves.antt =====
-- The writing methods of the order repository, and its caches against the database.
use shark_42tokyo_tuning.Prelude.{refl, inl, inr, String, List, [], ◌∷◌, map}
use shark_42tokyo_tuning.Prelude.Int.{ℤ}
use shark_42tokyo_tuning.Model.{Order}
use shark_42tokyo_tuning.Env.{Env}
use shark_42tokyo_tuning.World.{World}
use shark_42tokyo_tuning.Repository.Order.{update_statuses, batch_create}
use shark_42tokyo_tuning.Repository.Order.Coherent.{
  DbLaws, Serves, Serves-drop_shipping, Serves-counts_dropped,
}
use shark_42tokyo_tuning.Repository.Order.Methods.{update_statuses_cases, batch_create_cases}

module _ {e : Env} (laws : DbLaws e) where
  -- An update of statuses serves both what it wrote and any database with the old counts.
  pub update_statuses-Serves :
      (ids : List ℤ) (status : String) (w : World e) (base : e.Db)
      → Serves e base w.order_state
      → Serves e w.db w.order_state
      → let w' = (update_statuses ids status w).1 in
        Serves e base w'.order_state × Serves e w'.db w'.order_state
  unfolding update_statuses
  update_statuses-Serves [] status w base hb hw = (hb, hw)
  update_statuses-Serves (i ∷ is) status w base hb hw = elim (update_statuses_cases i is status w) [
    | inl (same, _) ↦ rw same (hb, hw)
    | inr (u, _) ↦ rw u.left (
      Serves-drop_shipping (λ k. refl) hb,
      Serves-drop_shipping
          (λ k. laws.update_counts w.db u.db' status (i ∷ is) u.sql u.args k u.built u.written) hw,
    )
  ]

  -- The counts of an insert are dropped before it is committed, so the caches serve the old rows
  -- as well.
  pub batch_create-Serves :
      (os : List Order) (w : World e) (base : e.Db)
      → Serves e base w.order_state
      → Serves e w.db w.order_state
      → let w' = (batch_create os w).1 in
        Serves e base w'.order_state × Serves e w'.db w'.order_state
  batch_create-Serves os w base hb hw = elim (batch_create_cases os w) [
    | inl same ↦ rw same (hb, hw)
    | inr i ↦ rw i.left (
      Serves-counts_dropped (map (λ o. o.user_id) os) (λ u c. refl) hb,
      Serves-counts_dropped (map (λ o. o.user_id) os)
          (λ u c. laws.insert_counts w.db i.db' i.result os u i.written c) hw,
    )
  ]
