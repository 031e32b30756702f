-- ===== src/Repository/Product.antt =====
-- webapp/backend/internal/repository/product.go. White space in a query is written as one space.
pub mod Served
use shark_42tokyo_tuning.Prelude.{
  String, Option, none, some, List, [], ◌∷◌, ◌++◌, if◌then◌else◌, str_eq, concat,
}
use shark_42tokyo_tuning.Prelude.Int.{ℤ}
use shark_42tokyo_tuning.Prelude.Texts.{trim_space}
use shark_42tokyo_tuning.Model.{Product, ListRequest}
use shark_42tokyo_tuning.Env.{Env, Arg, int, text, Slice}
use shark_42tokyo_tuning.World.{Action, ◌>>=◌, ◌>>◌, pure, modify, query}

unfoldable pub where_clause : String → String
where_clause s = if str_eq s "" then "" else "WHERE name LIKE ? OR description LIKE ?"

unfoldable pub pattern_args : String → List Arg
pattern_args s =
    if str_eq s ""
    then []
    else text (concat "%" (concat s "%")) ∷ text (concat "%" (concat s "%")) ∷ []

-- The sort field and order of the request stand in the query as they are.
unfoldable pub products_query : String → ListRequest → String
products_query filter req =
    concat "SELECT product_id, name, value, weight, image, description FROM products " (
      concat filter (
        concat " ORDER BY " (
          concat req.sort_field
            (concat " " (concat req.sort_order ", product_id ASC LIMIT ? OFFSET ?")))))

module _ {e : Env} where
  unfoldable pub total_from : String → String → List Arg → Option ℤ → Action e ℤ
  total_from search filter args (some v) = pure v
  total_from search filter args none = do
    total ← query (λ d. e.get_int d (concat "SELECT COUNT(1) FROM products " filter) args)
    modify (λ w. record w { list_count_cache = (e.count_lru).add w.list_count_cache search total })
    pure total

  -- The total, from the cache by the search text as it was sent.
  unfoldable pub list_total : String → Action e ℤ
  unfolding total_from where_clause pattern_args
  list_total search w =
      let (v, cache) = (e.count_lru).get w.list_count_cache search in
      let s = trim_space search in
      total_from search (where_clause s) (pattern_args s) v (record w { list_count_cache = cache })

  -- `ListProducts`
  unfoldable pub list_products : ListRequest → Action e (Slice Product × ℤ)
  unfolding list_total products_query
  list_products req = do
    total ← list_total req.search
    products ← query (λ d.
        e.select_products d (products_query (where_clause (trim_space req.search)) req)
          (pattern_args (trim_space req.search) ++ int req.page_size ∷ int req.offset ∷ []))
    pure (products, total)
