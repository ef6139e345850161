-- ===== src/Text.antt =====
-- Go strings as byte lists, and the functions of package strings that the program calls: TrimSpace,
-- ToLower, EqualFold, HasPrefix, TrimPrefix, TrimLeft, TrimRight, Contains, SplitN, ReplaceAll. Case
-- and space are those of ASCII; other bytes are letters without case.
pub mod Laws
pub mod Decimal
pub mod Utf8
use Prim.Native.Char.{code}
use wordotron_api.Prelude.{
  ℕ, zero, suc, ◌+◌, String, Bool, true, false, ◌&&◌, ◌||◌, List, [], ◌∷◌, ◌++◌, leb, ◌==◌,
  if◌then◌else◌,
}

abbrev pub GoString : Type 0
GoString = List ℕ

abbrev pub codes : String → GoString
codes String.[] = []
codes (String.◌∷◌ c s) = code c ∷ codes s

-- s == t
unfoldable pub eqs : GoString → GoString → Bool
eqs [] [] = true
eqs [] (d ∷ t) = false
eqs (c ∷ s) [] = false
eqs (c ∷ s) (d ∷ t) = c == d && eqs s t

abbrev pub is_empty : GoString → Bool
is_empty [] = true
is_empty (c ∷ s) = false

abbrev pub is_space : ℕ → Bool
is_space c = c == 32 || (leb 9 c && leb c 13)

abbrev pub lower : ℕ → ℕ
lower c = if leb b'A' c && leb c b'Z' then c + 32 else c

abbrev pub trim_left_func : (ℕ → Bool) → GoString → GoString
trim_left_func p [] = []
trim_left_func p (c ∷ s) = if p c then trim_left_func p s else c ∷ s

abbrev pub cons_unless : Bool → ℕ → GoString → GoString
cons_unless drops c [] = if drops then [] else c ∷ []
cons_unless drops c (d ∷ r) = c ∷ d ∷ r

abbrev pub trim_right_func : (ℕ → Bool) → GoString → GoString
trim_right_func p [] = []
trim_right_func p (c ∷ s) = cons_unless (p c) c (trim_right_func p s)

unfoldable pub trim_space : GoString → GoString
trim_space s = trim_right_func is_space (trim_left_func is_space s)

unfoldable pub to_lower : GoString → GoString
to_lower [] = []
to_lower (c ∷ s) = lower c ∷ to_lower s

unfoldable pub equal_fold : GoString → GoString → Bool
unfolding eqs to_lower
equal_fold s t = eqs (to_lower s) (to_lower t)

unfoldable pub has_prefix : GoString → GoString → Bool
has_prefix s [] = true
has_prefix [] (d ∷ p) = false
has_prefix (c ∷ s) (d ∷ p) = c == d && has_prefix s p

-- The rest of `s` behind `p`, for an `s` that begins with `p`.
unfoldable pub strip : GoString → GoString → GoString
strip s [] = s
strip [] (d ∷ p) = []
strip (c ∷ s) (d ∷ p) = strip s p

unfoldable pub trim_prefix : GoString → GoString → GoString
unfolding has_prefix strip
trim_prefix s p = if has_prefix s p then strip s p else s

-- TrimLeft and TrimRight with a cutset of one byte.
unfoldable pub trim_left : ℕ → GoString → GoString
trim_left b s = trim_left_func (λ c. c == b) s

unfoldable pub trim_right : ℕ → GoString → GoString
trim_right b s = trim_right_func (λ c. c == b) s

unfoldable pub contains : GoString → GoString → Bool
unfolding has_prefix
contains [] t = has_prefix [] t
contains (c ∷ s) t = has_prefix (c ∷ s) t || contains s t

-- SplitN(s, sep, 2)[0], for a separator of one byte.
unfoldable pub before_byte : ℕ → GoString → GoString
before_byte b [] = []
before_byte b (c ∷ s) = if c == b then [] else c ∷ before_byte b s

-- ReplaceAll(s, old, new), for an `old` of one byte.
unfoldable pub replace_all : ℕ → GoString → GoString → GoString
replace_all old new [] = []
replace_all old new (c ∷ s) = (if c == old then new else c ∷ []) ++ replace_all old new s
