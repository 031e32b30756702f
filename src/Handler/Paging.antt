-- ===== src/Handler/Paging.antt =====
-- The defaults that the list handlers give a request: webapp/backend/internal/handler/order.go and
-- product.go.
pub mod Laws
use shark_42tokyo_tuning.Prelude.{
  ◌≡◌, ◌≢◌, refl, ◌⊎◌, inl, inr, ℕ, suc, ◌+◌, ◌*◌, ◌-◌, ◌<◌, ◌≤◌, ◌^◌, String, Bool, true, false,
  not, ◌&&◌, if◌then◌else◌, str_eq, eq_iff, arith, Bool-cases,
}
use shark_42tokyo_tuning.Prelude.Int.{ℤ, pos, negsuc, pos_part, leb_ℤ, ltb_ℤ, sub64, mul64}
use shark_42tokyo_tuning.Model.{ListRequest}

abbrev product_page_default : ℤ
product_page_default = pos 1

abbrev product_page_size_default : ℤ
product_page_size_default = pos 20

abbrev product_sort_field_default : String
product_sort_field_default = "product_id"

abbrev product_sort_order_default : String
product_sort_order_default = "asc"

-- An int that is not positive, and a text that is empty, are replaced.
pub positive_or : ℤ → ℤ → ℤ
positive_or n default = if leb_ℤ n (pos 0) then default else n

pub text_or : String → String → String
text_or s default = if str_eq s "" then default else s

pub offset_of : ℤ → ℤ → ℤ
offset_of page page_size = mul64 (sub64 page (pos 1)) page_size

match_type_or : String → String
match_type_or t =
    if not (str_eq t "") && not (str_eq t "partial") && not (str_eq t "prefix")
    then "partial"
    else t

-- In `OrderHandler.List`.
pub order_defaults : ListRequest → ListRequest
unfolding positive_or text_or match_type_or offset_of
order_defaults req =
    let page = positive_or req.page (pos 1) in
    let page_size = positive_or req.page_size (pos 20) in
    record req {
      page = page;
      page_size = page_size;
      sort_field = text_or req.sort_field "order_id";
      sort_order = text_or req.sort_order "desc";
      match_type = match_type_or req.match_type;
      offset = offset_of page page_size;
    }

-- In `ProductHandler.List`.
unfoldable pub product_defaults : ListRequest → ListRequest
unfolding positive_or text_or offset_of
product_defaults req =
    let page = positive_or req.page product_page_default in
    let page_size = positive_or req.page_size product_page_size_default in
    record req {
      page = page;
      page_size = page_size;
      sort_field = text_or req.sort_field product_sort_field_default;
      sort_order = text_or req.sort_order product_sort_order_default;
      offset = offset_of page page_size;
    }
