-- ===== src/Service/Robot/Returns.antt =====
-- When `GenerateDeliveryPlan` of service/robot.go returns.
use shark_42tokyo_tuning.Prelude.{◌≡◌, String, List, ok}
use shark_42tokyo_tuning.Prelude.Int.{ℤ}
use shark_42tokyo_tuning.Model.{Order}
use shark_42tokyo_tuning.Env.{Env, Arg, Slice}
use shark_42tokyo_tuning.World.{World, Action}
use shark_42tokyo_tuning.Repository.Order.{update_query}
use shark_42tokyo_tuning.Repository.Order.Coherent.{shipping}

module _ (e : Env) where
  -- The database answers what a delivery plan asks of it.
  pub record Answers : Type 0 where
    pub begins : (d : e.Db) → (v : e.Db) × (e.begin d ≡ ok v)
    pub commits : (d v : e.Db) → (d' : e.Db) × (e.commit d v ≡ ok d')
    pub ships : (d : e.Db) → (orders : Slice Order) × (shipping e d ≡ ok orders)
    pub builds :
        (ids : List ℤ)
        → (sql : String) × (args : List Arg) × (e.sqlx_in update_query "delivering" ids
            ≡ ok (sql, args))
    pub executes :
        (d : e.Db) (sql : String) (args : List Arg) → (d' : e.Db) × (e.exec d sql args ≡ ok d')

module _ {e : Env} where
  abbrev Returns : {A : Type 0} → Action e A → World e → Type 0
  Returns {A} m w = (a : A) × ((m w).0 ≡ ok a)
