-- ===== src/Service/Product.antt =====
-- webapp/backend/internal/service/product.go
pub mod Coherent
pub mod Wanted
use shark_42tokyo_tuning.Prelude.{String, List, [], ◌∷◌, none, Result}
use shark_42tokyo_tuning.Prelude.Int.{ℤ, pos}
use shark_42tokyo_tuning.Model.{Order, Product, RequestItem, ListRequest}
use shark_42tokyo_tuning.Env.{Env, Lo, Slice}
use shark_42tokyo_tuning.World.{World, Action, continue, ◌>>=◌, pure, lift}
use shark_42tokyo_tuning.Repository.Store.{exec_tx}
use shark_42tokyo_tuning.Repository.Order.{batch_create}
use shark_42tokyo_tuning.Repository.Product.{list_products}

-- `&model.Order{UserID: userID, ProductID: item.ProductID}`
abbrev pub new_order : ℤ → ℤ → Order
new_order user_id product_id = record {
  order_id = pos 0;
  user_id = user_id;
  product_id = product_id;
  product_name = "";
  shipped_status = "";
  weight = pos 0;
  value = pos 0;
  created_at = 0;
  arrived_at = none;
}

-- `ordersToCreate`
unfoldable pub orders_to_create : Lo → ℤ → List RequestItem → Result (List Order)
orders_to_create lo user_id items =
    lo.flat_map items (λ item. lo.repeat_by item.quantity (new_order user_id item.product_id))

module _ {e : Env} where
  unfoldable pub insert_all : List Order → Action e (List ℤ)
  insert_all [] = pure []
  insert_all (o ∷ os) = batch_create (o ∷ os)

  unfoldable pub create_orders : ℤ → List RequestItem → Action e (List ℤ)
  unfolding orders_to_create insert_all
  create_orders user_id items =
      exec_tx (do orders ← lift (orders_to_create e.lo user_id items); insert_all orders)

  -- `FetchProducts`
  unfoldable pub fetch_products : ListRequest → Action e (Slice Product × ℤ)
  fetch_products req = list_products req
