-- ===== src/Db/Query/Distinct.antt =====
-- What a unique index holds: no two rows of a table are the same by a test. Rows are added at the end,
-- changed in place and dropped.
use wordotron_api.Prelude.{
  ◌≡◌, refl, ◌∙◌, Bool, true, false, List, [], ◌∷◌, ◌++◌, arith, any, keep_if, map_if,
  if◌then◌else◌, sym, some, find?, All,
}
use mathlib.Core.Path.{subst}

module _ {A : Type 0} where
  pub any-snoc :
      (p : A → Bool) (xs : List A) (x : A)
      → any p xs ≡ false
      → p x ≡ false
      → any p (xs ++ x ∷ []) ≡ false
  any-snoc p [] x h k = ground arith
  any-snoc p (y ∷ xs) x h k = ground (arith, any-snoc p xs x)

  pub any-map_if :
      (q p : A → Bool) (f : A → A) (xs : List A)
      → ((x : A) → q (f x) ≡ q x)
      → any q (map_if p f xs) ≡ any q xs
  any-map_if q p f [] h = refl
  any-map_if q p f (x ∷ xs) h = ground (arith, h x, any-map_if q p f xs h)

  pub any-keep_if : (q p : A → Bool) (xs : List A) → any q xs ≡ false → any q (keep_if p xs) ≡ false
  any-keep_if q p [] h = h
  any-keep_if q p (x ∷ xs) h = ground (arith, any-keep_if q p xs)

  any-same : (q r : A → Bool) (xs : List A) → ((x : A) → q x ≡ r x) → any q xs ≡ any r xs
  any-same q r [] h = refl
  any-same q r (x ∷ xs) h = ground (arith, h x, any-same q r xs h)

module _ {A : Type 0} (same : A → A → Bool) where
  -- No row is the same as a later one.
  abbrev pub IsDistinct : List A → Type 0
  IsDistinct [] = Unit
  IsDistinct (x ∷ xs) = (any (same x) xs ≡ false) × IsDistinct xs

  pub IsDistinct-snoc :
      (xs : List A) (x : A)
      → any (same x) xs ≡ false
      → ((y : A) → same x y ≡ false → same y x ≡ false)
      → IsDistinct xs
      → IsDistinct (xs ++ x ∷ [])
  IsDistinct-snoc [] x h flip k = (refl, tt)
  IsDistinct-snoc (y ∷ xs) x h flip (first, rest) = (
    any-snoc (same y) xs x first (flip y (ground arith)),
    IsDistinct-snoc xs x (ground arith) flip rest,
  )

  -- A change of rows that leaves what is compared.
  pub IsDistinct-map_if :
      (p : A → Bool) (f : A → A) (xs : List A)
      → ((x y : A) → same (f x) y ≡ same x y)
      → ((x y : A) → same x (f y) ≡ same x y)
      → IsDistinct xs
      → IsDistinct (map_if p f xs)
  IsDistinct-map_if p f [] h k d = tt
  IsDistinct-map_if p f (x ∷ xs) h k (first, rest) =
      (head_same (p x), IsDistinct-map_if p f xs h k rest)
    where
      head_same : (b : Bool) → any (same (if b then f x else x)) (map_if p f xs) ≡ false
      head_same true =
          any-map_if (same (f x)) p f xs (λ y. k (f x) y)
          ∙ any-same (same (f x)) (same x) xs (h x)
          ∙ first
      head_same false = any-map_if (same x) p f xs (λ y. k x y) ∙ first

  pub IsDistinct-keep_if : (p : A → Bool) (xs : List A) → IsDistinct xs → IsDistinct (keep_if p xs)
  IsDistinct-keep_if p [] d = tt
  IsDistinct-keep_if p (x ∷ xs) (first, rest) = kept (p x) (IsDistinct-keep_if p xs rest)
    where
      kept :
          (b : Bool)
          → IsDistinct (keep_if p xs)
          → IsDistinct (if b then x ∷ keep_if p xs else keep_if p xs)
      kept true d = (any-keep_if (same x) p xs first, d)
      kept false d = d

module _ {A : Type 0} where
  pub map_if-none : (p : A → Bool) (f : A → A) (xs : List A) → any p xs ≡ false → map_if p f xs ≡ xs
  map_if-none p f [] h = refl
  map_if-none p f (x ∷ xs) h = ground (arith, map_if-none p f xs)

  -- A change of the row with a key, where no other row has it.
  pub All-map_found :
      (P : A → Type 0) (same : A → A → Bool) (p : A → Bool) (f : A → A) (xs : List A) (row : A)
      → ((x y : A) → p x ≡ true → same x y ≡ p y)
      → IsDistinct same xs
      → find? p xs ≡ some row
      → P (f row)
      → All P xs
      → All P (map_if p f xs)
  All-map_found P same p f [] row reads d found new h = tt
  All-map_found P same p f (x ∷ xs) row reads (first, rest) found new (head, tail) =
      changed (p x) refl (λ later. All-map_found P same p f xs row reads rest later new tail)
    where
      others : p x ≡ true → any p xs ≡ false
      others e = sym (any-same (same x) p xs (λ y. reads x y e)) ∙ first

      changed :
          (b : Bool)
          → p x ≡ b
          → (find? p xs ≡ some row → All P (map_if p f xs))
          → All P ((if b then f x else x) ∷ map_if p f xs)
      changed true e go =
          let same_row : row ≡ x = cc (rw e at found) in
          (subst (λ r. P (f r)) same_row new, rw (map_if-none p f xs (others e)) tail)
      changed false e go = (head, go (rw e at found))
