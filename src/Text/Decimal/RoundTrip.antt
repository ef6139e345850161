-- ===== src/Text/Decimal/RoundTrip.antt =====
-- Numbers that are printed read back.
use wordotron_api.Prelude.{
  ℕ, zero, suc, ◌+◌, ◌-◌, ◌*◌, ◌/◌, ◌%◌, ◌^◌, ◌<◌, ◌≡◌, true, some, [], ◌∷◌, ◌++◌, arith, ltb,
  Bool-cases, inl, inr,
}
use wordotron_api.Prelude.Int.{pos}
use wordotron_api.Text.{GoString}
use wordotron_api.Text.Decimal.{digits, format_int, is_digit, read_digits, parse_int}

read_digits-append :
    (acc n c : ℕ) (s : GoString)
    → read_digits acc s ≡ some n
    → is_digit c ≡ true
    → read_digits acc (s ++ c ∷ []) ≡ some (n * 10 + (c - 48))
unfolding read_digits
read_digits-append acc n c [] h d = ground arith
read_digits-append acc n c (b ∷ s) h d =
    ground (arith, read_digits-append (acc * 10 + (b - 48)) n c s)

read_digits-digits : (fuel n : ℕ) → n < fuel → read_digits 0 (digits fuel n) ≡ some n
unfolding digits
read_digits-digits zero n h = absurd (omega arith)
read_digits-digits (suc fuel) n h = elim (Bool-cases (ltb n 10)) [
  | inl small ↦ rw small (unfold read_digits in ground arith)
  | inr large ↦ rw large (
      rw
        (read_digits-append 0 (n / 10) (48 + n % 10) (digits fuel (n / 10))
          (read_digits-digits fuel (n / 10) (ground arith)) (ground arith))
        (let e : n / 10 * 10 + (48 + n % 10 - 48) ≡ n = omega arith in rw e))
]

-- The first byte of a printed number is a digit.
abbrev StartsWithDigit : GoString → Type 0
StartsWithDigit [] = ⊥
StartsWithDigit (c ∷ s) = is_digit c ≡ true

StartsWithDigit-append : (s t : GoString) → StartsWithDigit s → StartsWithDigit (s ++ t)
StartsWithDigit-append [] t h = absurd h
StartsWithDigit-append (c ∷ s) t h = h

digits-StartsWithDigit : (fuel n : ℕ) → n < fuel → StartsWithDigit (digits fuel n)
unfolding digits
digits-StartsWithDigit zero n h = absurd (omega arith)
digits-StartsWithDigit (suc fuel) n h = elim (Bool-cases (ltb n 10)) [
  | inl small ↦ rw small (ground arith)
  | inr large ↦
      rw large (StartsWithDigit-append _ _ (digits-StartsWithDigit fuel (n / 10) (ground arith)))
]

parse_int_unsigned :
    (s : GoString) (n : ℕ)
    → StartsWithDigit s
    → read_digits 0 s ≡ some n
    → n < 2 ^ 63
    → parse_int s ≡ some (pos n)
unfolding parse_int
parse_int_unsigned [] n d h k = absurd d
parse_int_unsigned (c ∷ s) n d h k = ground arith

-- A printed number of 63 bits reads back.
pub parse_int-format_int : (n : ℕ) → n < 2 ^ 63 → parse_int (format_int n) ≡ some (pos n)
unfolding format_int
parse_int-format_int n h =
    parse_int_unsigned (digits (suc n) n) n (digits-StartsWithDigit (suc n) n (omega arith))
      (read_digits-digits (suc n) n (omega arith)) h
