-- ===== src/Text/Laws.antt =====
-- Laws of the string functions.
use wordotron_api.Prelude.{
  ℕ, ◌≡◌, refl, ap, ◌↔◌, Bool, true, false, ◌++◌, [], ◌∷◌, arith, Bool-cases, inl, inr,
}
use wordotron_api.Text.{
  GoString, eqs, is_space, lower, trim_left_func, trim_right_func, cons_unless, trim_space,
  to_lower, has_prefix, strip,
}

eqs_sound : (s t : GoString) → eqs s t ≡ true → s ≡ t
unfolding eqs
eqs_sound [] [] h = refl
eqs_sound [] (d ∷ t) h = cc
eqs_sound (c ∷ s) [] h = cc
eqs_sound (c ∷ s) (d ∷ t) h = ground (arith, eqs_sound s t)

pub eqs_refl : (s : GoString) → eqs s s ≡ true
unfolding eqs
eqs_refl [] = refl
eqs_refl (c ∷ s) = ground (arith, eqs_refl s)

-- The test for equal strings decides equality.
pub eqs_iff : (s t : GoString) → (eqs s t ≡ true) ↔ (s ≡ t)
eqs_iff s t = (eqs_sound s t, λ p. rw p (eqs_refl t))

-- What has the prefix is the prefix and the rest.
pub strip-append : (p s : GoString) → strip (p ++ s) p ≡ s
unfolding strip
strip-append [] s = refl
strip-append (c ∷ p) s = strip-append p s

pub has_prefix-append : (p s : GoString) → has_prefix (p ++ s) p ≡ true
unfolding has_prefix
has_prefix-append [] s = refl
has_prefix-append (c ∷ p) s = ground (arith, has_prefix-append p s)

pub has_prefix_sound : (s p : GoString) → has_prefix s p ≡ true → s ≡ p ++ strip s p
unfolding has_prefix strip
has_prefix_sound s [] h = refl
has_prefix_sound [] (d ∷ p) h = cc
has_prefix_sound (c ∷ s) (d ∷ p) h = ground (arith, has_prefix_sound s p)

pub lower_idem : (c : ℕ) → lower (lower c) ≡ lower c
lower_idem c = ground arith

pub to_lower_idem : (s : GoString) → to_lower (to_lower s) ≡ to_lower s
unfolding to_lower
to_lower_idem [] = refl
to_lower_idem (c ∷ s) = cc (lower_idem c, to_lower_idem s)

is_space-lower : (c : ℕ) → is_space (lower c) ≡ is_space c
is_space-lower c = ground arith

to_lower-trim_left :
    (s : GoString) → to_lower (trim_left_func is_space s) ≡ trim_left_func is_space (to_lower s)
unfolding to_lower
to_lower-trim_left [] = refl
to_lower-trim_left (c ∷ s) = rw is_space-lower (elim (Bool-cases (is_space c)) [
  | inl yes' ↦ rw yes' (to_lower-trim_left s)
  | inr no' ↦ rw no' refl
])

to_lower-cons_unless :
    (b : Bool) (c : ℕ) (r : GoString)
    → to_lower (cons_unless b c r) ≡ cons_unless b (lower c) (to_lower r)
unfolding to_lower
to_lower-cons_unless true c [] = refl
to_lower-cons_unless false c [] = refl
to_lower-cons_unless b c (d ∷ r) = refl

to_lower-trim_right :
    (s : GoString) → to_lower (trim_right_func is_space s) ≡ trim_right_func is_space (to_lower s)
unfolding to_lower
to_lower-trim_right [] = refl
to_lower-trim_right (c ∷ s) =
    rw (to_lower-cons_unless (is_space c) c (trim_right_func is_space s), is_space-lower)
      (ap (cons_unless (is_space c) (lower c)) (to_lower-trim_right s))

-- Lowering case and trimming commute.
pub to_lower-trim_space : (s : GoString) → to_lower (trim_space s) ≡ trim_space (to_lower s)
unfolding trim_space
to_lower-trim_space s = rw (to_lower-trim_right, to_lower-trim_left)
