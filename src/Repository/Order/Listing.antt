-- ===== src/Repository/Order/Listing.antt =====
-- `ListOrders` against the queries that it stands for, and the texts that it can sort by.
use shark_42tokyo_tuning.Prelude.{
  ◌≡◌, refl, inl, inr, String, str_eq, Bool, true, false, List, [], ◌∷◌, ◌++◌, map, Result, ok, err,
  panic, ◌>>=◌, Bool-cases, if◌then◌else◌, concat,
}
use shark_42tokyo_tuning.Prelude.Int.{ℤ, pos, eqb_ℤ}
use shark_42tokyo_tuning.Prelude.Texts.{trim_space, upper_is}
use shark_42tokyo_tuning.Model.{ListRequest}
use shark_42tokyo_tuning.Env.{Env, Arg, int, text, elems}
use shark_42tokyo_tuning.World.{World, continue, pure}
use shark_42tokyo_tuning.Repository.Order.{
  Page, join_and, order_direction, build_order_by, search_pattern, search_count_query, list_query,
  order_of_row, fetch_page, list_searched, list_all, list_orders,
}
use shark_42tokyo_tuning.Repository.Order.Coherent.{count_of, Serves}
use shark_42tokyo_tuning.Repository.Order.Methods.{ReadsThrough, cached_count-ReadsThrough}

abbrev pub order_texts : List String
order_texts =
    "ORDER BY p.name ASC" ∷ "ORDER BY p.name DESC" ∷ "ORDER BY o.created_at ASC"
    ∷ "ORDER BY o.created_at DESC" ∷ "ORDER BY o.shipped_status_code ASC"
    ∷ "ORDER BY o.shipped_status_code DESC"
    ∷ "ORDER BY (o.arrived_at IS NULL) DESC, o.arrived_at ASC"
    ∷ "ORDER BY (o.arrived_at IS NULL) ASC, o.arrived_at DESC" ∷ "ORDER BY o.order_id ASC"
    ∷ "ORDER BY o.order_id DESC" ∷ []

unfoldable pub is_listed : String → List String → Bool
is_listed s [] = false
is_listed s (t ∷ ts) = if str_eq s t then true else is_listed s ts

by_direction :
    (f : String → String) (order : String)
    → is_listed (f "DESC") order_texts ≡ true
    → is_listed (f "ASC") order_texts ≡ true
    → is_listed (f (order_direction order)) order_texts ≡ true
unfolding order_direction
by_direction f order down up = elim (Bool-cases (upper_is order "DESC")) [
  | inl desc ↦ rw desc down
  | inr asc ↦ rw asc up
]

arrived_text : String → String
arrived_text dir =
    if str_eq dir "DESC"
    then "ORDER BY (o.arrived_at IS NULL) ASC, o.arrived_at DESC"
    else "ORDER BY (o.arrived_at IS NULL) DESC, o.arrived_at ASC"

-- Whatever sort field and order a request names, the text that orders are sorted by is one of ten
-- fixed texts, so no part of the request stands in the query.
pub build_order_by-listed :
    (field order : String) → is_listed (build_order_by field order) order_texts ≡ true
unfolding build_order_by is_listed arrived_text
build_order_by-listed field order = elim (Bool-cases (str_eq field "product_name")) [
  | inl f1 ↦ rw f1 (by_direction (concat "ORDER BY p.name ") order refl refl)
  | inr f1 ↦ elim (Bool-cases (str_eq field "created_at")) [
    | inl f2 ↦ rw (f1, f2) (by_direction (concat "ORDER BY o.created_at ") order refl refl)
    | inr f2 ↦ elim (Bool-cases (str_eq field "shipped_status")) [
      | inl f3 ↦
          rw (f1, f2, f3) (by_direction (concat "ORDER BY o.shipped_status_code ") order refl refl)
      | inr f3 ↦ elim (Bool-cases (str_eq field "arrived_at")) [
        | inl f4 ↦ rw (f1, f2, f3, f4) (by_direction arrived_text order refl refl)
        | inr f4 ↦
            rw (f1, f2, f3, f4) (by_direction (concat "ORDER BY o.order_id ") order refl refl)
      ]
    ]
  ]
]

abbrev pub searched_conds : String
searched_conds = "o.user_id = ? AND p.name LIKE ?"

module _ (e : Env) where
  -- The rows of a page, by the total of their query.
  abbrev pub rows_of_page : String → List Arg → ListRequest → ℤ → e.Db → Result Page
  rows_of_page conds args req n d =
      if eqb_ℤ n (pos 0)
      then ok ([], pos 0)
      else (e.select_rows d (list_query conds (build_order_by req.sort_field req.sort_order))
            (args ++ int req.page_size ∷ int req.offset ∷ [])
          >>= λ rows. ok (map order_of_row (elems rows), n))

  abbrev pub counted_page : Result ℤ → String → List Arg → ListRequest → e.Db → Result Page
  counted_page total conds args req d = total >>= λ n. rows_of_page conds args req n d

  -- What a list of orders reads when nothing is cached.
  abbrev pub searched_page : ℤ → String → ListRequest → e.Db → Result Page
  searched_page u s req d =
      let args = int u ∷ text (search_pattern s req.match_type) ∷ [] in
      counted_page (e.get_int d (search_count_query searched_conds) args) searched_conds args req d

  abbrev pub page_of : ℤ → ListRequest → e.Db → Result Page
  page_of u req d =
      let s = trim_space req.search in
      if str_eq s ""
      then counted_page (count_of e u d) "o.user_id = ?" (int u ∷ []) req d
      else searched_page u s req d

module _ {e : Env} where
  continue-pure :
      {A B : Type 0} (r : Result A) (f : A → B) (w : World e)
      → continue r (λ a. pure (f a)) w ≡ ((r >>= λ a. ok (f a)), w)
  continue-pure (ok a) f w = refl
  continue-pure (err x) f w = refl
  continue-pure panic f w = refl

  fetch_page_lem :
      (n : ℤ) (conds : String) (args : List Arg) (req : ListRequest) (w : World e)
      → fetch_page n conds args req w ≡ (rows_of_page e conds args req n w.db, w)
  unfolding fetch_page
  fetch_page_lem n conds args req w = elim (Bool-cases (eqb_ℤ n (pos 0))) [
    | inl z ↦ rw z refl
    | inr nz ↦ rw nz (continue-pure _ _ w)
  ]

  -- A total that is read through the caches, and the page of its rows.
  counted_page_lem :
      (total : Result ℤ) (conds : String) (args : List Arg) (req : ListRequest) (w : World e)
      → continue total (λ n. fetch_page n conds args req) w
        ≡ (counted_page e total conds args req w.db, w)
  counted_page_lem (ok n) conds args req w = fetch_page_lem n conds args req w
  counted_page_lem (err x) conds args req w = refl
  counted_page_lem panic conds args req w = refl

  list_all_lem :
      (u : ℤ) (req : ListRequest) (w : World e)
      → Serves e w.db w.order_state
      → ReadsThrough
          (list_all u req)
          (λ d. counted_page e (count_of e u d) "o.user_id = ?" (int u ∷ []) req d)
          w
  unfolding list_all join_and
  list_all_lem u req w h =
      let (total, (s, left, served)) = cached_count-ReadsThrough u w h in
      rw
        (
          total,
          left,
          counted_page_lem (count_of e u w.db) "o.user_id = ?" (int u ∷ []) req
              (record w { order_state = s }),
        )
        (refl, (s, refl, served))

  list_searched_lem :
      (u : ℤ) (s : String) (req : ListRequest) (w : World e)
      → list_searched u s req w ≡ (searched_page e u s req w.db, w)
  unfolding list_searched join_and
  list_searched_lem u s req w =
      let args = int u ∷ text (search_pattern s req.match_type) ∷ [] in
      counted_page_lem (e.get_int w.db (search_count_query searched_conds) args) searched_conds args
        req w

  -- With caches that serve the database, a list of orders returns the page that the database reads
  -- for its user, search, order and offset, whether its total is cached or not: the empty page where
  -- the total is 0, and the first error of the two queries. Only the caches change, and they serve
  -- the database after it.
  pub list_orders-ReadsThrough :
      (u : ℤ) (req : ListRequest) (w : World e)
      → Serves e w.db w.order_state
      → ReadsThrough (list_orders u req) (page_of e u req) w
  unfolding list_orders
  list_orders-ReadsThrough u req w h = elim (Bool-cases (str_eq (trim_space req.search) "")) [
    | inl none_asked ↦ rw none_asked (list_all_lem u req w h)
    | inr asked ↦
        rw (asked, list_searched_lem u (trim_space req.search) req w)
          (refl, (w.order_state, refl, h))
  ]
