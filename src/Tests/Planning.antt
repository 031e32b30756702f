-- ===== src/Tests/Planning.antt =====
-- Two robots of the small shop, one after the other.
use mathlib.Core.Path.{subst}
use shark_42tokyo_tuning.Prelude.{
  ◌≡◌, refl, ap, inl, inr, ◌^◌, ◌<◌, String, str_eq, ◌||◌, some, List, [], ◌∷◌, map, Result, ok,
  err, panic, Bool-cases,
}
use shark_42tokyo_tuning.Prelude.Int.{ℤ, pos, add64, contains, eqb_ℤ}
use shark_42tokyo_tuning.Prelude.Paths.Elements.{All}
use shark_42tokyo_tuning.Model.{Order, DeliveryPlan}
use shark_42tokyo_tuning.Env.{Arg, int, Slice, elems}
use shark_42tokyo_tuning.World.{World}
use shark_42tokyo_tuning.Delivery.{
  make_table, relax_at, relax, consider, fill, best_weight, restore,
  best_select_orders_for_delivery,
}
use shark_42tokyo_tuning.Delivery.Selection.{values}
use shark_42tokyo_tuning.Repository.Order.{
  update_query, drop_shipping, update_statuses, get_shipping_orders,
}
use shark_42tokyo_tuning.Repository.Store.{exec_tx}
use shark_42tokyo_tuning.Service.Auth.{holds}
use shark_42tokyo_tuning.Service.Timeout.{finishes, with_timeout}
use shark_42tokyo_tuning.Service.Robot.{generate_delivery_plan}
use shark_42tokyo_tuning.Api.Good.{IsGood}
use shark_42tokyo_tuning.Api.Planned.{IsOther, MarkedLeave}
use shark_42tokyo_tuning.Tests.Shop.{
  shipping_rows, among, ids_of, set_statuses, updated_rows, shop, order_of, shop_world,
  empty_caches,
}
use shark_42tokyo_tuning.Tests.Laws.{ok_inj, Serves-cold}

pub contains-among : (x : ℤ) (ids : List ℤ) → contains x ids ≡ among x ids
unfolding contains
contains-among x [] = refl
contains-among x (y ∷ ids) = ap (λ b. eqb_ℤ y x || b) (contains-among x ids)

pub ids_of-map : (ids : List ℤ) → ids_of (map int ids) ≡ ids
ids_of-map [] = refl
ids_of-map (i ∷ ids) = ap (λ l. i ∷ l) (ids_of-map ids)

others_shipped :
    (ids : List ℤ) (d : List Order)
    → All (IsOther ids) (shipping_rows (set_statuses "delivering" ids d))
others_shipped ids [] = tt
others_shipped ids (o ∷ os) = elim (Bool-cases (among o.order_id ids)) [
  | inl set ↦ rw set (others_shipped ids os)
  | inr other ↦ rw other (elim (Bool-cases (str_eq o.shipped_status "shipping")) [
    | inl ships ↦ rw ships (rw (contains-among o.order_id ids) other, others_shipped ids os)
    | inr waits ↦ rw waits (others_shipped ids os)
  ])
]

-- What is left to ship once the statement that `sqlx.In` has built is executed.
abbrev Left : List Order → List ℤ → Result (String × List Arg) → Type 0
Left d ids (ok (sql, args)) = All (IsOther ids) (shipping_rows (updated_rows sql args d))
Left d ids (err x) = Unit
Left d ids panic = Unit

Left-ids : (d : List Order) (ids : List ℤ) → Left d ids (shop.sqlx_in update_query "delivering" ids)
Left-ids d ids = rw (ids_of-map ids) (others_shipped ids d)

abbrev pub rows_of : Result (Slice Order) → List Order
rows_of (ok orders) = elems orders
rows_of (err x) = []
rows_of panic = []

pub shop-MarkedLeave : MarkedLeave shop
shop-MarkedLeave d d' ids sql args orders built written read =
    subst (All (IsOther ids)) (ap rows_of read) (
      subst (λ v. All (IsOther ids) (shipping_rows v)) (ok_inj written)
        (subst (Left d ids) built (Left-ids d ids)))

pub shop-IsGood : IsGood shop_world
unfolding holds
shop-IsGood = record { pooled = refl; serves = Serves-cold; vouched = λ key h. cc }

abbrev pub first_plan : DeliveryPlan
first_plan = record {
  robot_id = "r1";
  total_weight = pos 5;
  total_value = pos 60;
  orders = order_of 2 3 30 ∷ order_of 1 2 30 ∷ [];
}

abbrev pub second_plan : DeliveryPlan
second_plan = record {
  robot_id = "r2";
  total_weight = pos 5;
  total_value = pos 50;
  orders = order_of 3 5 50 ∷ [];
}

abbrev pub after_first : World shop
after_first = record shop_world {
  db =
      record (order_of 1 2 30) { shipped_status = "delivering" }
      ∷ record (order_of 2 3 30) { shipped_status = "delivering" }
      ∷ order_of 3 5 50
      ∷ [];
  order_state = record empty_caches { shipping_orders_version = pos 1 };
}

abbrev pub after_second : World shop
after_second = (generate_delivery_plan {e = shop} finishes "r2" (pos 5) after_first).1

pub plans_first :
    generate_delivery_plan finishes "r1" (pos 5) shop_world ≡ (ok first_plan, after_first)
unfolding generate_delivery_plan with_timeout exec_tx get_shipping_orders
    best_select_orders_for_delivery make_table add64 restore fill consider relax relax_at
    best_weight update_statuses drop_shipping
plans_first = refl

pub plans_second :
    generate_delivery_plan finishes "r2" (pos 5) after_first ≡ (ok second_plan, after_second)
unfolding generate_delivery_plan with_timeout exec_tx get_shipping_orders
    best_select_orders_for_delivery make_table add64 restore fill consider relax relax_at
    best_weight update_statuses drop_shipping
plans_second = refl

pub small_values :
    (d : List Order)
    → values (shipping_rows d) < 2 ^ 63
    → (orders : Slice Order) → ok (some (shipping_rows d)) ≡ ok orders
    → values (elems orders) < 2 ^ 63
small_values d small orders p = subst (λ r. values (rows_of r) < 2 ^ 63) p small
