-- ===== src/Tests/Values.antt =====
-- The theorems on values at concrete ones.
use wordotron_api.Prelude.{
  ◌+◌, ◌*◌, ◌-◌, ◌^◌, ◌≤◌, ◌<◌, ◌≡◌, ◌↔◌, refl, true, false, some, [], map, arith,
}
use wordotron_api.Prelude.Int.{pos, negsuc, pos_part, neg_part}
use wordotron_api.Text.{codes}
use wordotron_api.Text.Decimal.{format_int, parse_int}
use wordotron_api.Text.Decimal.RoundTrip.{parse_int-format_int}
use wordotron_api.Errors.{translate, plain, wrap}
use wordotron_api.Errors.Laws.{IsShownAs, visible, translate-hides}
use wordotron_api.Models.Pagination.{PageParams, normalize, order_valid, new_page_meta, page_offset}
use wordotron_api.Models.Pagination.Laws.{
  Between, normalize_bounds, new_page_meta-has_next, page_offset_exact, page_offset_wraps,
}
use wordotron_api.Repository.Users.{escape_like}
use wordotron_api.Db.Query.{read_pattern, literal}
use wordotron_api.Repository.Users.Search.{read_pattern-escape_like}

abbrev wild : PageParams
wild = record { page = negsuc 4; limit = pos 1000; sort = []; order = codes "up"; search = [] }

abbrev third : PageParams
third = record { page = pos 3; limit = pos 10; sort = []; order = []; search = [] }

abbrev lone : PageParams
lone = record { page = pos (2 ^ 53); limit = pos 1; sort = []; order = []; search = [] }

abbrev far : PageParams
far = record { page = pos 30_000_001; limit = pos 100; sort = []; order = []; search = [] }

parse_int-format_int_example : parse_int (format_int 1_700_000_000) ≡ some (pos 1_700_000_000)
parse_int-format_int_example = parse_int-format_int 1_700_000_000 (omega arith)

translate-hides_example :
    (visible (translate (wrap "create user" (plain "dial tcp 10.0.0.1:5432")))
      ≡ visible (translate (wrap "" (plain ""))))
    × IsShownAs
        (wrap "create user" (plain "dial tcp 10.0.0.1:5432"))
        (visible (translate (wrap "create user" (plain "dial tcp 10.0.0.1:5432"))))
translate-hides_example = translate-hides (wrap "create user" (plain "dial tcp 10.0.0.1:5432"))

normalize_bounds_example :
    Between 1 (normalize wild (codes "term")).limit 100
    × ((neg_part (normalize wild (codes "term")).page ≡ 0)
        × (1 ≤ pos_part (normalize wild (codes "term")).page))
    × (order_valid (normalize wild (codes "term")).order ≡ true)
normalize_bounds_example = normalize_bounds wild (codes "term")

new_page_meta-has_next_example :
    (((new_page_meta third 31).has_next ≡ true) ↔ ((2 + 1) * 10 < 31))
    × (((new_page_meta third 31).has_prev ≡ true) ↔ (0 < 2 * 10))
new_page_meta-has_next_example =
    new_page_meta-has_next third 2 10 31 refl refl (omega arith) (omega arith) (omega arith)

-- A limit of 1 and 2 ^ 53 + 1 rows: the pages are as many as the float64 next to that, 2 ^ 53.
pages_are_float64 : new_page_meta lone (2 ^ 53 + 1) ≡ record {
  page = pos (2 ^ 53);
  limit = pos 1;
  total = 2 ^ 53 + 1;
  total_pages = 2 ^ 53;
  has_next = false;
  has_prev = true;
}
unfolding new_page_meta wordotron_api.Models.Pagination.count_pages
    wordotron_api.Models.Pagination.meta_limit
pages_are_float64 = refl

page_offset_exact_example : page_offset third ≡ pos (2 * 10)
page_offset_exact_example = page_offset_exact third 2 10 refl refl (omega arith)

far_page_wraps : page_offset far ≡ negsuc (2 ^ 32 - 30_000_000 * 100 - 1)
far_page_wraps = page_offset_wraps far 30_000_000 100 refl refl (omega arith) (omega arith)

read_pattern-escape_like_example :
    read_pattern false (escape_like (codes "a%_\\")) ≡ some (map literal (codes "a%_\\"))
read_pattern-escape_like_example = read_pattern-escape_like (codes "a%_\\")
