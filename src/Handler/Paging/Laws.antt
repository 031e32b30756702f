-- ===== src/Handler/Paging/Laws.antt =====
-- What the defaults guarantee to the repositories.
use shark_42tokyo_tuning.Prelude.{
  ◌≡◌, ◌≢◌, refl, ◌⊎◌, ◌*◌, ◌-◌, ◌<◌, ◌^◌, String, true, eq_iff, arith,
}
use shark_42tokyo_tuning.Prelude.Int.{ℤ, pos, negsuc, pos_part, ltb_ℤ, sub64-pos, mul64-pos}
use shark_42tokyo_tuning.Model.{ListRequest}
use shark_42tokyo_tuning.Handler.Paging.{
  positive_or, text_or, offset_of, match_type_or, order_defaults,
}

abbrev pub IsPositive : ℤ → Type 0
IsPositive n = ltb_ℤ (pos 0) n ≡ true

positive_or-IsPositive : (n d : ℤ) → IsPositive d → IsPositive (positive_or n d)
unfolding positive_or
positive_or-IsPositive n d h = ground arith

text_or-ne : (s d : String) → d ≢ "" → text_or s d ≢ ""
unfolding text_or
text_or-ne s d h p = ground (arith, eq_iff s "", h)

match_type_or_cases :
    (t : String)
    → (match_type_or t ≡ "") ⊎ (match_type_or t ≡ "partial") ⊎ (match_type_or t ≡ "prefix")
unfolding match_type_or
match_type_or_cases t = ground (arith, eq_iff t "", eq_iff t "partial", eq_iff t "prefix")

-- A page and a size that are positive, and the rows that stand on the pages before.
pub record IsPage (req : ListRequest) : Type 0 where
  pub page_pos : IsPositive req.page
  pub size_pos : IsPositive req.page_size
  pub rows_before :
      (pos_part req.page - 1) * pos_part req.page_size < 2 ^ 63
      → pos_part req.page < 2 ^ 63
      → req.offset ≡ pos ((pos_part req.page - 1) * pos_part req.page_size)

offset_of-eq :
    (page size : ℤ)
    → IsPositive page
    → IsPositive size
    → (pos_part page - 1) * pos_part size < 2 ^ 63
    → pos_part page < 2 ^ 63
    → offset_of page size ≡ pos ((pos_part page - 1) * pos_part size)
unfolding offset_of
offset_of-eq (pos p) (pos s) hp hs small small_p =
    rw (sub64-pos p 1 (ground arith) small_p, mul64-pos (p - 1) s small) refl
offset_of-eq (pos p) (negsuc s) hp hs small small_p = cc
offset_of-eq (negsuc p) s hp hs small small_p = cc

-- The order list gets a positive page and size, the offset of that page while it fits an int, sort
-- keys that are not empty, a match type that is empty or known, and the search as it was sent.
pub order_defaults-IsPage :
    (req : ListRequest)
    → IsPage (order_defaults req)
      × ((order_defaults req).sort_field ≢ "")
      × ((order_defaults req).sort_order ≢ "")
      × (((order_defaults req).match_type ≡ "")
          ⊎ ((order_defaults req).match_type ≡ "partial")
          ⊎ ((order_defaults req).match_type ≡ "prefix"))
      × ((order_defaults req).search ≡ req.search)
unfolding order_defaults
order_defaults-IsPage req = (
  record { page_pos = page; size_pos = size; rows_before = offset_of-eq _ _ page size },
  text_or-ne req.sort_field "order_id" (λ p. cc ((eq_iff "order_id" "").1 p)),
  text_or-ne req.sort_order "desc" (λ p. cc ((eq_iff "desc" "").1 p)),
  match_type_or_cases req.match_type,
  refl,
)
  where
    page : IsPositive (positive_or req.page (pos 1))
    page = positive_or-IsPositive req.page (pos 1) refl

    size : IsPositive (positive_or req.page_size (pos 20))
    size = positive_or-IsPositive req.page_size (pos 20) refl
