-- ===== src/Prelude/Int.antt =====
-- Integers over the native numbers: `negsuc n` is -(n + 1). Go's int and int64 are these, with the
-- wrap-around of a w-bit two's complement word written out by `wrap`.
use Prim.Native.Nat.{ℕ, suc, ◌+◌, ◌-◌, ◌*◌, ◌%◌, ◌≤◌, ◌<◌}
use mathlib.Core.Path.{◌≡◌}
use mathlib.Core.Bool.{Bool}
use native.Mathlib.Omega.{arith}
use native.Mathlib.Nat.{mod-eq_of_lt}
use wordotron_api.Prelude.Tests.{ltb, leb, if◌then◌else◌}

pub data ℤ : Type 0 where
  pos : ℕ → ℤ
  negsuc : ℕ → ℤ

abbrev pub pos_part : ℤ → ℕ
pos_part (pos n) = n
pos_part (negsuc n) = 0

abbrev pub neg_part : ℤ → ℕ
neg_part (pos n) = 0
neg_part (negsuc n) = suc n

-- a - b, as an integer.
abbrev pub sub_ℕ : ℕ → ℕ → ℤ
sub_ℕ a b = if leb b a then pos (a - b) else negsuc (b - a - 1)

infixl 65 ◌-ℤ◌
infixl 70 ◌*ℤ◌
unfoldable pub ◌-ℤ◌ : ℤ → ℤ → ℤ
a -ℤ b = sub_ℕ (pos_part a + neg_part b) (neg_part a + pos_part b)

unfoldable pub ◌*ℤ◌ : ℤ → ℤ → ℤ
a *ℤ b =
    sub_ℕ (pos_part a * pos_part b + neg_part a * neg_part b)
      (pos_part a * neg_part b + neg_part a * pos_part b)

-- a < b
abbrev pub ltz : ℤ → ℤ → Bool
ltz a b = ltb (pos_part a + neg_part b) (pos_part b + neg_part a)

-- a <= b
abbrev pub lez : ℤ → ℤ → Bool
lez a b = leb (pos_part a + neg_part b) (pos_part b + neg_part a)

-- The least number congruent to `a` modulo `m`.
abbrev pub residue : ℕ → ℤ → ℕ
residue m (pos n) = n % m
residue m (negsuc n) = m - 1 - n % m

-- The word of modulus `m` with the residue `r`, read as a signed number.
abbrev signed : ℕ → ℕ → ℤ
signed m r = if ltb (r + r) m then pos r else negsuc (m - r - 1)

-- Conversion to a signed integer type with `m` values.
unfoldable pub wrap : ℕ → ℤ → ℤ
wrap m a = signed m (residue m a)

pub sub-pos : (a b : ℕ) → b ≤ a → pos a -ℤ pos b ≡ pos (a - b)
unfolding ◌-ℤ◌
sub-pos a b h = ground arith

pub mul-pos : (a b : ℕ) → pos a *ℤ pos b ≡ pos (a * b)
unfolding ◌*ℤ◌
mul-pos a b = ground arith

half_lt : (m n : ℕ) → n + n < m → n < m
half_lt m n h = omega arith

-- The lower half of a word stands for itself, the upper half for negative numbers.
pub wrap_lower : (m n : ℕ) → n + n < m → wrap m (pos n) ≡ pos n
unfolding wrap
wrap_lower m n h = rw (mod-eq_of_lt (half_lt m n h)) (ground arith)

pub wrap_upper : (m n : ℕ) → m ≤ n + n → n < m → wrap m (pos n) ≡ negsuc (m - n - 1)
unfolding wrap
wrap_upper m n h k = rw (mod-eq_of_lt k) (ground arith)
