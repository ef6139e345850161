-- ===== src/Models/Pagination/Laws.antt =====
-- Bounds of the pagination parameters, and what the metadata says of the rows.
use wordotron_api.Prelude.{
  ℕ, refl, ltb, if◌then◌else◌, ◌+◌, ◌-◌, ◌*◌, ◌/◌, ◌^◌, ◌≤◌, ◌<◌, ◌≡◌, ◌↔◌, true, false, arith,
}
use wordotron_api.Prelude.Int.{
  ℤ, pos, negsuc, ltz, sub-pos, mul-pos, wrap_lower, wrap_upper, pos_part, neg_part,
}
use wordotron_api.Prelude.Float.Laws.{float64-eq, ceil_quotient-eq}
use wordotron_api.Text.{GoString}
use wordotron_api.Models.Pagination.{
  PageParams, normalize, clamp_limit, order_valid, offset, page_offset, new_page_meta, count_pages,
  meta_limit,
}

-- `z` is a natural number from `lo` to `hi`.
abbrev pub Between : ℕ → ℤ → ℕ → Type 0
Between lo z hi = (neg_part z ≡ 0) × (lo ≤ pos_part z) × (pos_part z ≤ hi)

clamp_limit_bounds : (l : ℤ) → Between 1 (clamp_limit l) 100
unfolding clamp_limit
clamp_limit_bounds (pos n) = ground arith
clamp_limit_bounds (negsuc n) = ground arith

clamp_page_bounds : (z : ℤ) → ltz z (pos 1) ≡ false → (neg_part z ≡ 0) × (1 ≤ pos_part z)
clamp_page_bounds (pos n) h = ground arith
clamp_page_bounds (negsuc n) h = ground arith

-- Whatever the client sent, the normalised limit is from 1 to 100, the page is at least 1, and the
-- order is one of the two directions.
pub normalize_bounds :
    (p : PageParams) (d : GoString)
    → Between 1 (normalize p d).limit 100
      × ((neg_part (normalize p d).page ≡ 0) × (1 ≤ pos_part (normalize p d).page))
      × (order_valid (normalize p d).order ≡ true)
unfolding normalize
normalize_bounds p d =
    (clamp_limit_bounds p.limit, ground (arith, clamp_page_bounds p.page), ground arith)

ltz_sound : (a b : ℕ) → ltz (pos a) (pos b) ≡ true → a < b
ltz_sound a b h = ground arith

ltz_complete : (a b : ℕ) → a < b → ltz (pos a) (pos b) ≡ true
ltz_complete a b h = ground arith

ltz_pos : (q : ℕ) → ltz (pos (q + 1)) (pos 1) ≡ false
ltz_pos q = ground arith

add_one_sub : (q : ℕ) → q + 1 - 1 ≡ q
add_one_sub q = omega arith

meta_limit_pos : (l : ℕ) → 1 ≤ l → meta_limit (pos l) ≡ pos l
unfolding meta_limit
meta_limit_pos l h = ground arith

-- The OFFSET of an int page q + 1, before the conversion to int32.
offset_pos :
    (p : PageParams) (q l : ℕ)
    → p.page ≡ pos (q + 1)
    → p.limit ≡ pos l
    → q * l < 2 ^ 63
    → offset p ≡ pos (q * l)
unfolding offset
offset_pos p q l hp hl h =
    rw (hp, hl, ltz_pos q, sub-pos (q + 1) 1 (omega arith), mul-pos (q + 1 - 1) l)
      (rw (add_one_sub q) (wrap_lower (2 ^ 64) (q * l) (omega arith)))

lt-div : (k n l : ℕ) → 1 ≤ l → k * l < n → k < (n + l - 1) / l
lt-div k n l h p = grind arith

div-lt : (k n l : ℕ) → 1 ≤ l → k < (n + l - 1) / l → k * l < n
div-lt k n l h p = grind arith

-- With float64 operands that are exact, the pages are those that the rows fill.
count_pages-eq :
    (n l : ℕ)
    → n < 2 ^ 53
    → 1 ≤ l
    → l < 2 ^ 53
    → count_pages n l ≡ (if ltb ((n + l - 1) / l) 1 then 1 else (n + l - 1) / l)
unfolding count_pages
count_pages-eq n l small h fits =
    rw (float64-eq l fits, float64-eq n small, ceil_quotient-eq n l small h fits) refl

lt-count_pages :
    (q n l : ℕ) → n < 2 ^ 53 → 1 ≤ l → l < 2 ^ 53 → (q + 1 < count_pages n l) ↔ ((q + 1) * l < n)
lt-count_pages q n l small h fits =
    let pages = count_pages-eq n l small h fits in
    (
      λ p. div-lt (q + 1) n l h (ground (arith, pages)),
      λ p. ground (arith, pages, lt-div (q + 1) n l h p),
    )

-- From page q + 1 with a limit of at least 1, there is a next page exactly when rows are left behind
-- the last row of this page, and a previous page exactly when rows stand before it. The limit and the
-- number of rows are below 2 ^ 53, from where on a float64 does not hold every integer.
pub new_page_meta-has_next :
    (p : PageParams) (q l total : ℕ)
    → p.page ≡ pos (q + 1)
    → p.limit ≡ pos l
    → 1 ≤ l
    → l < 2 ^ 53
    → total < 2 ^ 53
    → (((new_page_meta p total).has_next ≡ true) ↔ ((q + 1) * l < total))
      × (((new_page_meta p total).has_prev ≡ true) ↔ (0 < q * l))
unfolding new_page_meta
new_page_meta-has_next p q l total hp hl h fits small =
    rw (hp, hl, meta_limit_pos l h)
      (
        (
          λ e. (lt-count_pages q total l small h fits).0 (ltz_sound _ _ e),
          λ e. ltz_complete _ _ ((lt-count_pages q total l small h fits).1 e),
        ),
        (λ e. grind (arith, ltz_sound 1 (q + 1) e), λ e. ltz_complete 1 (q + 1) (grind arith)),
      )

-- The OFFSET of page q + 1 is the number of rows before it, as long as that fits in 31 bits.
pub page_offset_exact :
    (p : PageParams) (q l : ℕ)
    → p.page ≡ pos (q + 1)
    → p.limit ≡ pos l
    → q * l < 2 ^ 31
    → page_offset p ≡ pos (q * l)
unfolding page_offset
page_offset_exact p q l hp hl h =
    rw (offset_pos p q l hp hl (omega arith)) (wrap_lower (2 ^ 32) (q * l) (omega arith))

-- The conversion to int32 wraps: where from 2 ^ 31 up to 2 ^ 32 rows stand before page q + 1, the
-- OFFSET is negative.
pub page_offset_wraps :
    (p : PageParams) (q l : ℕ)
    → p.page ≡ pos (q + 1)
    → p.limit ≡ pos l
    → 2 ^ 31 ≤ q * l
    → q * l < 2 ^ 32
    → page_offset p ≡ negsuc (2 ^ 32 - q * l - 1)
unfolding page_offset
page_offset_wraps p q l hp hl h k =
    rw (offset_pos p q l hp hl (omega arith)) (wrap_upper (2 ^ 32) (q * l) (omega arith) k)
