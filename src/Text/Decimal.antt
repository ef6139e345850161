-- ===== src/Text/Decimal.antt =====
-- strconv.FormatInt(n, 10) of a number that is not negative, and strconv.ParseInt(s, 10, 64).
pub mod RoundTrip
use wordotron_api.Prelude.{
  ℕ, zero, suc, ◌+◌, ◌-◌, ◌*◌, ◌/◌, ◌%◌, ◌^◌, Bool, true, false, ◌&&◌, Option, none, some, [], ◌∷◌,
  ◌++◌, ltb, leb, ◌==◌, if◌then◌else◌,
}
use wordotron_api.Prelude.Int.{ℤ, pos, negsuc}
use wordotron_api.Text.{GoString}

-- The digits of `n`, for a fuel above it.
unfoldable pub digits : ℕ → ℕ → GoString
digits zero n = []
digits (suc fuel) n =
    let front = digits fuel (n / 10) in
    if ltb n 10 then (48 + n) ∷ [] else front ++ (48 + n % 10) ∷ []

unfoldable pub format_int : ℕ → GoString
unfolding digits
format_int n = digits (suc n) n

abbrev pub is_digit : ℕ → Bool
is_digit c = leb 48 c && leb c 57

-- Reads decimal digits behind a number read before.
unfoldable pub read_digits : ℕ → GoString → Option ℕ
read_digits acc [] = some acc
read_digits acc (c ∷ s) = if is_digit c then read_digits (acc * 10 + (c - 48)) s else none

-- The numbers of 64 bits, with their sign.
abbrev pub to_int64 : Bool → Option ℕ → Option ℤ
to_int64 negative none = none
to_int64 false (some n) = if ltb n (2 ^ 63) then some (pos n) else none
to_int64 true (some zero) = some (pos 0)
to_int64 true (some (suc n)) = if ltb n (2 ^ 63) then some (negsuc n) else none

abbrev pub read_number : GoString → Option ℕ
read_number [] = none
read_number (c ∷ s) = read_digits 0 (c ∷ s)

unfoldable pub parse_int : GoString → Option ℤ
unfolding read_digits
parse_int [] = none
parse_int (c ∷ s) =
    if c == b'-'
    then to_int64 true (read_number s)
    else if c == b'+'
    then to_int64 false (read_number s)
    else to_int64 false (read_number (c ∷ s))
