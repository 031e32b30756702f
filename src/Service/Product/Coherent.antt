-- ===== src/Service/Product/Coherent.antt =====
-- The caches after `CreateOrders` of webapp/backend/internal/service/product.go.
use shark_42tokyo_tuning.Prelude.{◌≡◌, List, [], ◌∷◌, Result, ok, err, panic}
use shark_42tokyo_tuning.Prelude.Int.{ℤ}
use shark_42tokyo_tuning.Model.{Order, RequestItem}
use shark_42tokyo_tuning.Env.{Env}
use shark_42tokyo_tuning.World.{pool, World, continue}
use shark_42tokyo_tuning.Repository.Store.Transaction.{exec_tx-Serves}
use shark_42tokyo_tuning.Repository.Order.Coherent.{DbLaws, Serves, Serves-reads}
use shark_42tokyo_tuning.Repository.Order.Serves.{batch_create-Serves}
use shark_42tokyo_tuning.Service.Product.{orders_to_create, insert_all, create_orders}

module _ {e : Env} (laws : DbLaws e) where
  insert_all-Serves :
      (r : Result (List Order)) (w : World e) (base : e.Db)
      → Serves e base w.order_state
      → Serves e w.db w.order_state
      → let w' = (continue r insert_all w).1 in
        Serves e base w'.order_state × Serves e w'.db w'.order_state
  unfolding insert_all
  insert_all-Serves (ok []) w base hb hw = (hb, hw)
  insert_all-Serves (ok (o ∷ os)) w base hb hw = batch_create-Serves laws (o ∷ os) w base hb hw
  insert_all-Serves (err x) w base hb hw = (hb, hw)
  insert_all-Serves panic w base hb hw = (hb, hw)

  -- Whatever `CreateOrders` returns from the pool, caches that served the database still do, if the
  -- database has the laws `DbLaws`.
  pub create_orders-Serves :
      (user_id : ℤ) (items : List RequestItem) (w : World e)
      → w.conn ≡ pool
      → Serves e w.db w.order_state
      → let w' = (create_orders user_id items w).1 in Serves e w'.db w'.order_state
  unfolding create_orders
  create_orders-Serves user_id items w h serves =
      exec_tx-Serves laws _ w
        (λ v base same s.
          insert_all-Serves (orders_to_create e.lo user_id items) v base s (Serves-reads same s))
        h serves
