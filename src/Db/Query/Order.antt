-- ===== src/Db/Query/Order.antt =====
-- ORDER BY, LIMIT and OFFSET: what an ordered list and a page of it hold.
use wordotron_api.Prelude.{
  ℕ, zero, suc, ◌≤◌, ◌≡◌, refl, Bool, true, false, List, [], ◌∷◌, arith, length, take, drop,
  keep_if, All, if◌then◌else◌, Bool-cases, inl, inr,
}
use mathlib.Core.List.{Perm}
use mathlib.Core.List.Perm
use wordotron_api.Db.Query.{insert_by, order_by}

module _ {A : Type 0} where
  module _ (P : A → Type 0) where
    All-insert_by :
        (le : A → A → Bool) (x : A) (ys : List A) → P x → All P ys → All P (insert_by le x ys)
    unfolding insert_by
    All-insert_by le x [] h k = (h, tt)
    All-insert_by le x (y ∷ ys) h (first, rest) = elim (Bool-cases (le x y)) [
      | inl p ↦ rw p (h, (first, rest))
      | inr p ↦ rw p (first, All-insert_by le x ys h rest)
    ]

    pub All-order_by : (le : A → A → Bool) (xs : List A) → All P xs → All P (order_by le xs)
    unfolding order_by
    All-order_by le [] h = tt
    All-order_by le (x ∷ xs) (first, rest) =
        All-insert_by le x (order_by le xs) first (All-order_by le xs rest)

    pub All-take : (n : ℕ) (xs : List A) → All P xs → All P (take n xs)
    All-take zero xs h = tt
    All-take (suc n) [] h = tt
    All-take (suc n) (x ∷ xs) (first, rest) = (first, All-take n xs rest)

    pub All-drop : (n : ℕ) (xs : List A) → All P xs → All P (drop n xs)
    All-drop zero xs h = h
    All-drop (suc n) [] h = tt
    All-drop (suc n) (x ∷ xs) (first, rest) = All-drop n xs rest

  pub All-keep_if_self : (p : A → Bool) (xs : List A) → All (λ x. p x ≡ true) (keep_if p xs)
  All-keep_if_self p [] = tt
  All-keep_if_self p (x ∷ xs) = elim (Bool-cases (p x)) [
    | inl e ↦ rw e (e, All-keep_if_self p xs)
    | inr e ↦ rw e (All-keep_if_self p xs)
  ]

  pub length-take : (n : ℕ) (xs : List A) → length (take n xs) ≤ n
  length-take zero xs = omega arith
  length-take (suc n) [] = omega arith
  length-take (suc n) (x ∷ xs) = omega (arith, length-take n xs)

  -- Each element stands in the order before the next.
  abbrev pub IsOrdered : (A → A → Bool) → List A → Type 0
  IsOrdered le [] = Unit
  IsOrdered le (x ∷ []) = Unit
  IsOrdered le (x ∷ y ∷ ys) = (le x y ≡ true) × IsOrdered le (y ∷ ys)

  module _ (le : A → A → Bool) (total : (x y : A) → le x y ≡ false → le y x ≡ true) where
    insert_by-IsOrdered : (x : A) (ys : List A) → IsOrdered le ys → IsOrdered le (insert_by le x ys)
    unfolding insert_by
    insert_by-IsOrdered x [] h = tt
    insert_by-IsOrdered x (y ∷ []) h = elim (Bool-cases (le x y)) [
      | inl p ↦ rw p (p, tt)
      | inr p ↦ rw p (total x y p, tt)
    ]
    insert_by-IsOrdered x (y ∷ z ∷ ys) (first, rest) = elim (Bool-cases (le x y)) [
      | inl p ↦ rw p (p, (first, rest))
      | inr p ↦ rw p (behind (le x z) refl (insert_by-IsOrdered x (z ∷ ys) rest) p)
    ]
      where
        behind :
            (b : Bool)
            → le x z ≡ b
            → IsOrdered le (if le x z then x ∷ z ∷ ys else z ∷ insert_by le x ys)
            → le x y ≡ false
            → IsOrdered le (y ∷ (if le x z then x ∷ z ∷ ys else z ∷ insert_by le x ys))
        behind true e sorted p = rw e (total x y p, rw e at sorted)
        behind false e sorted p = rw e (first, rw e at sorted)

    -- A result in order, where of two rows that do not stand in order the second stands before the first.
    pub order_by-IsOrdered : (xs : List A) → IsOrdered le (order_by le xs)
    unfolding order_by
    order_by-IsOrdered [] = tt
    order_by-IsOrdered (x ∷ xs) = insert_by-IsOrdered x (order_by le xs) (order_by-IsOrdered xs)

module _ {A : Type 0} where
  insert_by-Perm : (le : A → A → Bool) (x : A) (ys : List A) → Perm (insert_by le x ys) (x ∷ ys)
  unfolding insert_by
  insert_by-Perm le x [] = Perm.rfl
  insert_by-Perm le x (y ∷ ys) = elim (Bool-cases (le x y)) [
    | inl p ↦ rw p Perm.rfl
    | inr p ↦ rw p (Perm.trans (Perm.cons y (insert_by-Perm le x ys)) (Perm.swap x y ys))
  ]

  pub order_by-Perm : (le : A → A → Bool) (xs : List A) → Perm (order_by le xs) xs
  unfolding order_by
  order_by-Perm le [] = Perm.rfl
  order_by-Perm le (x ∷ xs) =
      Perm.trans (insert_by-Perm le x (order_by le xs)) (Perm.cons x (order_by-Perm le xs))
