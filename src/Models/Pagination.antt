-- ===== src/Models/Pagination.antt =====
-- app/models/pagination.go. An int is an integer of 64 bits; the number of pages is computed with
-- float64.
pub mod Laws
pub mod Request
use wordotron_api.Prelude.{ℕ, ◌+◌, ◌-◌, ◌*◌, ◌/◌, ◌^◌, Bool, ◌||◌, not, if◌then◌else◌, ltb}
use wordotron_api.Prelude.Float.{float64, ceil_quotient}
use wordotron_api.Prelude.Int.{ℤ, pos, ◌-ℤ◌, ◌*ℤ◌, ltz, wrap, pos_part}
use wordotron_api.Text.{GoString, codes, eqs, is_empty}

abbrev pub sort_asc : GoString
sort_asc = codes "asc"

abbrev pub sort_desc : GoString
sort_desc = codes "desc"

unfoldable pub order_valid : GoString → Bool
unfolding eqs
order_valid o = eqs o sort_asc || eqs o sort_desc

abbrev pub default_page : ℕ
default_page = 1

abbrev pub default_limit : ℕ
default_limit = 20

abbrev pub max_limit : ℕ
max_limit = 100

pub record PageParams : Type 0 where
  pub page : ℤ
  pub limit : ℤ
  pub sort : GoString
  pub order : GoString
  pub search : GoString

-- The two tests on the limit in `normalize`, in turn.
unfoldable pub clamp_limit : ℤ → ℤ
clamp_limit limit =
    let positive = (if ltz limit (pos 1) then pos default_limit else limit) in
    if ltz (pos max_limit) positive then pos max_limit else positive

unfoldable pub normalize : PageParams → GoString → PageParams
unfolding clamp_limit order_valid
normalize p default_sort = record {
  page = if ltz p.page (pos 1) then pos default_page else p.page;
  limit = clamp_limit p.limit;
  sort = if is_empty p.sort then default_sort else p.sort;
  order = if order_valid p.order then p.order else sort_desc;
  search = p.search;
}

-- The product wraps as an int does.
unfoldable pub offset : PageParams → ℤ
offset p = if ltz p.page (pos 1) then pos 0 else wrap (2 ^ 64) ((p.page -ℤ pos 1) *ℤ p.limit)

-- `int32(page.Offset())`, the OFFSET that the repositories send.
unfoldable pub page_offset : PageParams → ℤ
unfolding offset
page_offset p = wrap (2 ^ 32) (offset p)

pub record PageMeta : Type 0 where
  pub page : ℤ
  pub limit : ℤ
  pub total : ℕ
  pub total_pages : ℕ
  pub has_next : Bool
  pub has_prev : Bool

-- Ceiling of the quotient of float64, and at least one page. An int holds it but for totals next to
-- 2 ^ 63, where the conversion is left open by Go and not modelled.
unfoldable pub count_pages : ℕ → ℕ → ℕ
unfolding float64 ceil_quotient
count_pages total limit =
    let pages = ceil_quotient (float64 total) (float64 limit) in if ltb pages 1 then 1 else pages

-- `if limit < 1 { limit = DefaultLimit }`
unfoldable pub meta_limit : ℤ → ℤ
meta_limit limit = if ltz limit (pos 1) then pos default_limit else limit

unfoldable pub new_page_meta : PageParams → ℕ → PageMeta
unfolding meta_limit
new_page_meta p total =
    let limit = meta_limit p.limit in
    let pages = count_pages total (pos_part limit) in
    record {
      page = p.page;
      limit = limit;
      total = total;
      total_pages = pages;
      has_next = ltz p.page (pos pages);
      has_prev = ltz (pos 1) p.page;
    }
