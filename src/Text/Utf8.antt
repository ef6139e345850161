-- ===== src/Text/Utf8.antt =====
-- utf8.ValidString of the package unicode/utf8: which byte lists a JSON string can hold as they are.
use wordotron_api.Prelude.{
  ℕ, Bool, true, false, ◌&&◌, Option, none, some, List, [], ◌∷◌, leb, ◌==◌, if◌then◌else◌,
}
use wordotron_api.Text.{GoString}

abbrev between : ℕ → ℕ → ℕ → Bool
between lo hi c = leb lo c && leb c hi

-- The ranges of the bytes that follow a first byte, if it is one.
abbrev tails : ℕ → Option (List (ℕ × ℕ))
tails c =
    if leb c 127
    then some []
    else if between 194 223 c
    then some ((128, 191) ∷ [])
    else if c == 224
    then some ((160, 191) ∷ (128, 191) ∷ [])
    else if c == 237
    then some ((128, 159) ∷ (128, 191) ∷ [])
    else if between 225 239 c
    then some ((128, 191) ∷ (128, 191) ∷ [])
    else if c == 240
    then some ((144, 191) ∷ (128, 191) ∷ (128, 191) ∷ [])
    else if between 241 243 c
    then some ((128, 191) ∷ (128, 191) ∷ (128, 191) ∷ [])
    else if c == 244
    then some ((128, 143) ∷ (128, 191) ∷ (128, 191) ∷ [])
    else none

-- The rest of a string, behind the bytes that still follow.
abbrev rest_valid : List (ℕ × ℕ) → GoString → Bool
rest_valid [] [] = true
rest_valid (r ∷ rs) [] = false
rest_valid [] (c ∷ s) = elim (tails c) [ none ↦ false | some rs ↦ rest_valid rs s ]
rest_valid ((lo, hi) ∷ rs) (c ∷ s) = between lo hi c && rest_valid rs s

unfoldable pub valid_utf8 : GoString → Bool
valid_utf8 s = rest_valid [] s
