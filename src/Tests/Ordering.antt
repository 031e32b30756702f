-- ===== src/Tests/Ordering.antt =====
-- Orders that users of the small shop make and list.
use shark_42tokyo_tuning.Prelude.{◌≡◌, ◌≢◌, refl, ◌⊎◌, List, [], ◌∷◌, ok}
use shark_42tokyo_tuning.Prelude.Int.{ℤ, pos, negsuc, add64}
use shark_42tokyo_tuning.Model.{RequestItem, ListRequest}
use shark_42tokyo_tuning.World.{World}
use shark_42tokyo_tuning.Repository.Store.{exec_tx}
use shark_42tokyo_tuning.Repository.Order.{batch_create, inserted_ids, rows_of}
use shark_42tokyo_tuning.Repository.Order.Coherent.{Serves}
use shark_42tokyo_tuning.Service.Product.{create_orders}
use shark_42tokyo_tuning.Service.Product.Coherent.{create_orders-Serves}
use shark_42tokyo_tuning.Service.Product.Wanted.{items_of, wanted, Ordered, create_orders-Ordered}
use shark_42tokyo_tuning.Handler.Paging.{order_defaults}
use shark_42tokyo_tuning.Handler.Paging.Laws.{IsPage, order_defaults-IsPage}
use shark_42tokyo_tuning.Tests.Shop.{shop, shop_world, warm_world}
use shark_42tokyo_tuning.Tests.Laws.{shop_laws, Serves-warm}

abbrev bought : List RequestItem
bought = items_of ((pos 7, 2) ∷ (pos 8, 1) ∷ [])

-- Two of one product and one of another are three orders.
abbrev new_ids : List ℤ
new_ids = pos 1 ∷ pos 2 ∷ pos 3 ∷ []

abbrev bought_world : World shop
bought_world = (create_orders (pos 1) bought shop_world).1

bought_ids : create_orders (pos 1) bought shop_world ≡ (ok new_ids, bought_world)
unfolding create_orders exec_tx batch_create inserted_ids rows_of add64
bought_ids = refl

create_orders-Ordered_example :
    (begun left : shop.Db) × (shop.begin shop_world.db ≡ ok begun)
    × Ordered shop (wanted (pos 1) ((pos 7, 2) ∷ (pos 8, 1) ∷ [])) new_ids begun left
    × (shop.commit shop_world.db left ≡ ok bought_world.db)
create_orders-Ordered_example =
    create_orders-Ordered (pos 1) ((pos 7, 2) ∷ (pos 8, 1) ∷ []) shop_world bought_world new_ids
      refl bought_ids

create_orders-Serves_example :
    let w' : World shop = (create_orders (pos 1) bought warm_world).1 in
    Serves shop w'.db w'.order_state
create_orders-Serves_example =
    create_orders-Serves shop_laws (pos 1) bought warm_world refl Serves-warm

abbrev second_page : ListRequest
second_page = record {
  search = "";
  match_type = "regexp";
  page = pos 2;
  page_size = negsuc 4;
  sort_field = "";
  sort_order = "asc";
  offset = pos 0;
}

order_defaults-IsPage_example :
    IsPage (order_defaults second_page)
    × ((order_defaults second_page).sort_field ≢ "")
    × ((order_defaults second_page).sort_order ≢ "")
    × (((order_defaults second_page).match_type ≡ "")
        ⊎ ((order_defaults second_page).match_type ≡ "partial")
        ⊎ ((order_defaults second_page).match_type ≡ "prefix"))
    × ((order_defaults second_page).search ≡ second_page.search)
order_defaults-IsPage_example = order_defaults-IsPage second_page
