-- ===== src/Db/Query.antt =====
-- What the SQL texts share: the pattern of ILIKE, the length of a text, filters that NULL turns off,
-- ORDER BY, and LIMIT with OFFSET.
pub mod Laws
pub mod Distinct
pub mod Order
use wordotron_api.Prelude.{
  ℕ, ◌+◌, ◌^◌, Bool, true, false, not, ◌&&◌, ◌||◌, Option, none, some, List, [], ◌∷◌, ◌++◌, ◌==◌,
  ltb, leb, any, drop, take, if◌then◌else◌,
}
use wordotron_api.Prelude.Int.{ℤ, pos, negsuc}
use wordotron_api.Prelude.Exec.{Result, ok, err}
use wordotron_api.Text.{GoString, lower, eqs, is_empty}
use wordotron_api.Errors.{GoError, pg, pg_other}

-- The items of a LIKE pattern: `%`, `_`, and a character that stands for itself.
pub data Item : Type 0 where
  many one : Item
  literal : ℕ → Item

abbrev pub cons_item : Item → Option (List Item) → Option (List Item)
cons_item i none = none
cons_item i (some is) = some (i ∷ is)

abbrev pub item : ℕ → Item
item c = if c == b'%' then many else if c == b'_' then one else literal c

-- The pattern behind a backslash, and elsewhere; a backslash at the end is an error.
abbrev pub read_pattern : Bool → GoString → Option (List Item)
read_pattern true [] = none
read_pattern false [] = some []
read_pattern true (c ∷ s) = cons_item (literal c) (read_pattern false s)
read_pattern false (c ∷ s) =
    let escaped = read_pattern true s in
    let plain = read_pattern false s in if c == b'\\' then escaped else cons_item (item c) plain

-- A byte that continues a character of UTF-8.
abbrev continues : ℕ → Bool
continues c = leb 128 c && ltb c 192

abbrev skip_continuation : GoString → GoString
skip_continuation [] = []
skip_continuation (c ∷ s) = if continues c then skip_continuation s else c ∷ s

-- length(text), in characters
unfoldable pub char_length : GoString → ℕ
char_length [] = 0
char_length (c ∷ s) = (if continues c then 0 else 1) + char_length s

abbrev suffixes : GoString → List GoString
suffixes [] = [] ∷ []
suffixes (c ∷ s) = (c ∷ s) ∷ suffixes s

-- Whether a pattern matches a text, whatever the case of the letters.
unfoldable pub matches : List Item → GoString → Bool
matches [] s = is_empty s
matches (many ∷ is) s = any (matches is) (suffixes s)
matches (one ∷ is) [] = false
matches (one ∷ is) (c ∷ s) = matches is (skip_continuation s)
matches (literal d ∷ is) [] = false
matches (literal d ∷ is) (c ∷ s) = lower c == lower d && matches is s

abbrev read_matches : Option (List Item) → GoString → Bool
read_matches none s = false
read_matches (some is) s = matches is s

-- text ILIKE '%' || search || '%', whose pattern never ends behind a backslash
unfoldable pub ilike_around : GoString → GoString → Bool
unfolding matches
ilike_around search text = read_matches (read_pattern false (b'%' ∷ search ++ b'%' ∷ [])) text

-- $n IS NULL OR test
abbrev pub unless_null {ℓ} : {A : Type ℓ} → Option A → (A → Bool) → Bool
unless_null none test = true
unless_null (some a) test = test a

-- column @> array; a NULL column contains nothing.
abbrev contains_all : List GoString → List GoString → Bool
contains_all column [] = true
contains_all column (x ∷ xs) = any (eqs x) column && contains_all column xs

abbrev pub has_tags : Option (List GoString) → List GoString → Bool
has_tags none tags = false
has_tags (some column) tags = contains_all column tags

-- The order by a first key, then by the rest: `le` and `ge` compare the keys.
abbrev pub then_by : Bool → Bool → Bool → Bool
then_by le ge rest = le && (not ge || rest)

module _ {A : Type 0} where
  unfoldable pub insert_by : (A → A → Bool) → A → List A → List A
  insert_by le x [] = x ∷ []
  insert_by le x (y ∷ ys) = if le x y then x ∷ y ∷ ys else y ∷ insert_by le x ys

  -- ORDER BY, for the comparison of two rows. Rows that compare as equal stay as they stood.
  unfoldable pub order_by : (A → A → Bool) → List A → List A
  unfolding insert_by
  order_by le [] = []
  order_by le (x ∷ xs) = insert_by le x (order_by le xs)

  -- LIMIT and OFFSET, which must not be negative.
  unfoldable pub limit_offset : ℤ → ℤ → List A → Result GoError (List A)
  limit_offset (pos limit) (pos offset) rows = ok (take limit (drop offset rows))
  limit_offset (negsuc n) offset rows = err (pg pg_other)
  limit_offset (pos limit) (negsuc n) rows = err (pg pg_other)

-- An INTEGER column holds it.
unfoldable pub fits_integer : ℕ → Bool
fits_integer n = ltb n (2 ^ 31)
