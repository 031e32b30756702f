-- ===== src/Repository/Order.antt =====
-- webapp/backend/internal/repository/order.go. The methods run one at a time here; Race takes them
-- apart. White space in a query is written as one space.
pub mod Coherent
pub mod Counts
pub mod Listing
pub mod Methods
pub mod Race
pub mod Serves
use shark_42tokyo_tuning.Prelude.{
  ℕ, zero, suc, ◌+◌, ◌≡◌, String, Bool, true, false, not, Option, none, some, List, [], ◌∷◌, ◌++◌,
  map, if◌then◌else◌, length, str_eq, concat, Result, ok, err, panic, Error, not_in_transaction,
}
use shark_42tokyo_tuning.Prelude.Int.{ℤ, pos, add64, eqb_ℤ, ltb_ℤ, lookup, insert, delete}
use shark_42tokyo_tuning.Prelude.Texts.{trim_space, lower_is, upper_is}
use shark_42tokyo_tuning.Model.{Order, ListRequest}
use shark_42tokyo_tuning.Env.{Env, Arg, int, text, Slice, elems, OrderRow, SqlResult}
use shark_42tokyo_tuning.World.{
  Conn, pool, tx, OrderRepoState, World, Action, continue, ◌>>=◌, ◌>>◌, pure, throw, lift, gets,
  modify, query, write_db,
}

abbrev pub shipped_status_enum_shipping : ℤ
shipped_status_enum_shipping = pos 2

abbrev pub insert_query : String
insert_query =
    "INSERT INTO orders (user_id, product_id, shipped_status, created_at) VALUES (:user_id, :product_id, 'shipping', NOW())"

abbrev pub update_query : String
update_query = "UPDATE orders SET shipped_status = ? WHERE order_id IN (?)"

abbrev pub shipping_query : String
shipping_query =
    "SELECT o.order_id, p.weight, p.value FROM orders o JOIN products p ON o.product_id = p.product_id WHERE o.shipped_status_code = ?"

abbrev pub count_query : String
count_query = "SELECT COUNT(*) FROM orders o WHERE o.user_id = ?"

-- `strings.Join(conds, " AND ")`.
unfoldable pub join_and : List String → String
join_and [] = ""
join_and (c ∷ []) = c
join_and (c ∷ d ∷ cs) = concat c (concat " AND " (join_and (d ∷ cs)))

unfoldable pub order_direction : String → String
order_direction order = if upper_is order "DESC" then "DESC" else "ASC"

unfoldable pub build_order_by : String → String → String
unfolding order_direction
build_order_by field order =
    let dir = order_direction order in
    if str_eq field "product_name"
    then concat "ORDER BY p.name " dir
    else if str_eq field "created_at"
    then concat "ORDER BY o.created_at " dir
    else if str_eq field "shipped_status"
    then concat "ORDER BY o.shipped_status_code " dir
    else if str_eq field "arrived_at"
    then (if str_eq dir "DESC"
        then "ORDER BY (o.arrived_at IS NULL) ASC, o.arrived_at DESC"
        else "ORDER BY (o.arrived_at IS NULL) DESC, o.arrived_at ASC")
    else concat "ORDER BY o.order_id " dir

-- The pattern of a search that is not empty.
unfoldable pub search_pattern : String → String → String
search_pattern search match_type =
    if lower_is match_type "prefix" then concat search "%" else concat "%" (concat search "%")

unfoldable pub search_count_query : String → String
search_count_query conds =
    concat "SELECT COUNT(*) FROM orders o JOIN products p ON p.product_id = o.product_id WHERE "
      conds

unfoldable pub list_query : String → String → String
list_query conds order_by =
    concat
      "SELECT o.order_id, o.product_id, p.name AS product_name, o.shipped_status, o.created_at, o.arrived_at FROM orders o JOIN products p ON p.product_id = o.product_id WHERE "
      (concat conds (concat " " (concat order_by " LIMIT ? OFFSET ?")))

-- `sql.NullTime.Time` is the zero time where the column is NULL.
unfoldable pub order_of_row : OrderRow → Order
order_of_row r = record {
  order_id = r.order_id;
  user_id = pos 0;
  product_id = r.product_id;
  product_name = r.product_name;
  shipped_status = r.shipped_status;
  weight = pos 0;
  value = pos 0;
  created_at = elim (r.created_at) [ none ↦ 0 | some t ↦ t ];
  arrived_at = r.arrived_at;
}

-- `fmt.Sprintf("%d", lastID+i)` for `i` from `i` on; an id is kept as the number.
unfoldable pub inserted_ids : (last_id : ℤ) (rows i : ℕ) → List ℤ
inserted_ids last_id zero i = []
inserted_ids last_id (suc n) i = add64 last_id (pos i) ∷ inserted_ids last_id n (suc i)

unfoldable pub rows_of : ℤ → ℕ
rows_of n = elim n [ pos k ↦ k | _ ↦ 0 ]

-- The state after `onUpdateShippingOnly`, and after `onUpdateOrders` for a list of users.
unfoldable pub drop_shipping : OrderRepoState → OrderRepoState
drop_shipping s = record s {
  shipping_orders_version = add64 s.shipping_orders_version (pos 1);
  shipping_orders_cache = none;
}

unfoldable pub delete_all : List ℤ → List (ℤ × ℤ) → List (ℤ × ℤ)
delete_all [] m = m
delete_all (u ∷ us) m = delete_all us (delete u m)

-- `uniq` is `lo.Uniq`.
unfoldable pub counts_dropped : (List ℤ → List ℤ) → List ℤ → OrderRepoState → OrderRepoState
unfolding drop_shipping
counts_dropped uniq [] s = record (drop_shipping s) { count_by_user = [] }
counts_dropped uniq (u ∷ us) s = record (drop_shipping s) {
  count_by_user = delete_all (uniq (u ∷ us)) s.count_by_user;
}

-- The locked part of `GetShippingOrders` behind its query.
unfoldable pub store_shipping : ℤ → Slice Order → OrderRepoState → OrderRepoState
store_shipping local_ver orders s = elim (s.shipping_orders_cache) [
  | some _ ↦ s
  | none ↦
      if eqb_ℤ s.shipping_orders_version local_ver
      then record s { shipping_orders_cache = orders }
      else s
]

abbrev pub Page : Type 0
Page = List Order × ℤ

module _ {e : Env} where
  abbrev set_orders : (OrderRepoState → OrderRepoState) → Action e (Unit {0})
  set_orders f = modify (λ w. record w { order_state = f w.order_state })

  unfoldable pub get_shipping_orders_version : Action e ℤ
  get_shipping_orders_version = gets (λ w. w.order_state.shipping_orders_version)

  unfoldable pub on_update_shipping_only : Action e (Unit {0})
  on_update_shipping_only = set_orders drop_shipping

  unfoldable pub on_update_orders : List ℤ → Action e (Unit {0})
  unfolding counts_dropped
  on_update_orders user_ids = set_orders (counts_dropped (e.lo).uniq user_ids)

  unfoldable pub insert_orders : Conn → List Order → Action e (List ℤ)
  unfolding on_update_orders
  insert_orders pool orders = throw not_in_transaction
  insert_orders tx orders = do
    result ← λ w. write_db (e.named_exec w.db insert_query orders) w
    on_update_orders (map (λ o. o.user_id) orders)
    last_id ← lift (result.last_insert_id)
    rows ← lift (result.rows_affected)
    pure (inserted_ids last_id (rows_of rows) 0)

  -- `BatchCreate`
  unfoldable pub batch_create : List Order → Action e (List ℤ)
  unfolding insert_orders
  batch_create [] = pure []
  batch_create (o ∷ os) = do conn ← gets (λ w. w.conn); insert_orders conn (o ∷ os)

  unfoldable pub write_statuses : String × List Arg → Action e (Unit {0})
  write_statuses (q, args) =
      (λ w. continue (e.exec w.db (e.rebind q) args) (λ d v. (ok tt, record v { db = d })) w)

  -- `UpdateStatuses`
  unfoldable pub update_statuses : List ℤ → String → Action e (Unit {0})
  unfolding write_statuses on_update_shipping_only
  update_statuses [] new_status = pure tt
  update_statuses (i ∷ is) new_status = do
    q ← lift (e.sqlx_in update_query new_status (i ∷ is))
    write_statuses q
    on_update_shipping_only

  unfoldable pub read_shipping : Slice Order → ℤ → Action e (Slice Order)
  unfolding store_shipping
  read_shipping (some cached) local_ver = pure (some cached)
  read_shipping none local_ver = do
    orders ← query (λ d. e.select_orders d shipping_query (int shipped_status_enum_shipping ∷ []))
    set_orders (store_shipping local_ver orders)
    pure orders

  -- `GetShippingOrders`
  unfoldable pub get_shipping_orders : Action e (Slice Order)
  unfolding read_shipping
  get_shipping_orders = do
    s ← gets (λ w. w.order_state)
    read_shipping s.shipping_orders_cache s.shipping_orders_version

  unfoldable pub count_from : Option ℤ → ℤ → Action e ℤ
  count_from (some cached) user_id = pure cached
  count_from none user_id = do
    total ← query (λ d. e.get_int d count_query (int user_id ∷ []))
    set_orders (λ s. record s { count_by_user = insert user_id total s.count_by_user })
    pure total

  -- The total of a list without a search.
  unfoldable pub cached_count : ℤ → Action e ℤ
  unfolding count_from
  cached_count user_id = do
    cached ← gets (λ w. lookup user_id w.order_state.count_by_user)
    count_from cached user_id

  unfoldable pub fetch_page : ℤ → (conds : String) → List Arg → ListRequest → Action e Page
  unfolding list_query order_of_row build_order_by
  fetch_page total conds args req = if eqb_ℤ total (pos 0) then pure ([], pos 0) else do
    rows ← query (λ d.
        e.select_rows d (list_query conds (build_order_by req.sort_field req.sort_order))
          (args ++ int req.page_size ∷ int req.offset ∷ []))
    pure (map order_of_row (elems rows), total)

  unfoldable pub list_searched : ℤ → String → ListRequest → Action e Page
  unfolding fetch_page join_and search_pattern search_count_query
  list_searched user_id s req = do
    let pattern = search_pattern s req.match_type
    let conds = join_and ("o.user_id = ?" ∷ "p.name LIKE ?" ∷ [])
    let args = int user_id ∷ text pattern ∷ []
    total ← query (λ d. e.get_int d (search_count_query conds) args)
    fetch_page total conds args req

  unfoldable pub list_all : ℤ → ListRequest → Action e Page
  unfolding fetch_page join_and cached_count
  list_all user_id req = do
    total ← cached_count user_id
    fetch_page total (join_and ("o.user_id = ?" ∷ [])) (int user_id ∷ []) req

  -- `ListOrders`
  unfoldable pub list_orders : ℤ → ListRequest → Action e Page
  unfolding list_searched list_all
  list_orders user_id req =
      let s = trim_space req.search in
      if str_eq s "" then list_all user_id req else list_searched user_id s req
