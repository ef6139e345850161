-- ===== src/Prelude/Exec.antt =====
-- Results of calls that can fail, and actions that change a state and can fail. What was written
-- before an error stays written, so the state comes back beside the error too.
use mathlib.Core.Path.{◌≡◌, refl}
use mathlib.Core.Logic.{◌⊎◌, inl, inr}

-- `(value, err)` of a Go call: the value counts only where err is nil.
pub data Result (E A : Type 0) : Type 0 where
  ok : A → Result E A
  err : E → Result E A

abbrev pub Exec : Type 0 → Type 0 → Type 0 → Type 0
Exec E S A = S → Result E A × S

module _ {E S A : Type 0} where
  abbrev pub pure : A → Exec E S A
  pure a s = (ok a, s)

  abbrev pub raise : E → Exec E S A
  raise e s = (err e, s)

  abbrev pub lift : Result E A → Exec E S A
  lift r s = (r, s)

  abbrev pub gets : (S → A) → Exec E S A
  gets f s = (ok (f s), s)

module _ {E S A B : Type 0} where
  abbrev pub proceed : Result E A → (A → Exec E S B) → Exec E S B
  proceed (ok a) f s = f a s
  proceed (err e) f s = (err e, s)

  -- Runs the rest with the result itself, as Go code does that inspects `err`.
  abbrev pub inspect : Exec E S A → (Result E A → Exec E S B) → Exec E S B
  inspect m f s = f (m s).0 (m s).1

  infixl 5 ◌>>=◌ ◌>>◌
  abbrev pub ◌>>=◌ : Exec E S A → (A → Exec E S B) → Exec E S B
  ◌>>=◌ m f s = proceed (m s).0 f (m s).1

  abbrev pub ◌>>◌ : Exec E S A → Exec E S B → Exec E S B
  m >> n = m >>= λ _. n

  proceed-eq-ok :
      (r : Result E A) (f : A → Exec E S B) (s : S) {b : B}
      → (proceed r f s).0 ≡ ok b
      → (a : A) × (r ≡ ok a) × ((f a s).0 ≡ ok b) × (proceed r f s ≡ f a s)
  proceed-eq-ok (ok a) f s h = (a, refl, h, refl)
  proceed-eq-ok (err e) f s h = absurd (cc)

  -- A chain whose last step only makes a value.
  pub proceed-pure : (r : Result E A) (g : A → B) (s : S) → (proceed r (λ a. pure (g a)) s).1 ≡ s
  proceed-pure (ok a) g s = refl
  proceed-pure (err e) g s = refl

  -- A chain that ends well: its first part ends well, and the rest runs from the state it left.
  pub >>=-eq-ok :
      (m : Exec E S A) (f : A → Exec E S B) (s : S) {b : B}
      → ((m >>= f) s).0 ≡ ok b
      → (a : A) × ((m s).0 ≡ ok a) × ((f a (m s).1).0 ≡ ok b) × ((m >>= f) s ≡ f a (m s).1)
  >>=-eq-ok m f s h = proceed-eq-ok (m s).0 f (m s).1 h

  pub >>=-ok :
      (m : Exec E S A) (f : A → Exec E S B) (s : S) {a : A}
      → (m s).0 ≡ ok a
      → (m >>= f) s ≡ f a (m s).1
  >>=-ok m f s h = rw h

  pub >>=-err :
      (m : Exec E S A) (f : A → Exec E S B) (s : S) {e : E}
      → (m s).0 ≡ err e
      → (m >>= f) s ≡ (err e, (m s).1)
  >>=-err m f s h = rw h

module _ {E A : Type 0} where
  pub Result-cases : (r : Result E A) → ((a : A) × (r ≡ ok a)) ⊎ ((e : E) × (r ≡ err e))
  Result-cases (ok a) = inl (a, refl)
  Result-cases (err e) = inr (e, refl)

module _ {E A : Type 0} where
  abbrev pub on_result : (E → E) → Result E A → Result E A
  on_result f (ok a) = ok a
  on_result f (err e) = err (f e)

  pub on_result-eq-ok : (f : E → E) (r : Result E A) {a : A} → on_result f r ≡ ok a → r ≡ ok a
  on_result-eq-ok f (ok b) h = h
  on_result-eq-ok f (err e) h = absurd (cc)

module _ {E S A : Type 0} where
  -- `if err != nil { return f(err) }`
  abbrev pub map_error : (E → E) → Exec E S A → Exec E S A
  map_error f m s = (on_result f (m s).0, (m s).1)

-- One call, a check of what it returned, and a rename of the error.
module _ {E S A B : Type 0} where
  pub checked_call-eq-ok :
      (f : E → E) (m : Exec E S A) (g : A → Result E B) (s : S) {b : B}
      → (map_error f (m >>= λ a. lift (g a)) s).0 ≡ ok b
      → (a : A) × ((m s).0 ≡ ok a)
        × (g a ≡ ok b)
        × ((map_error f (m >>= λ a. lift (g a)) s).1 ≡ (m s).1)
  checked_call-eq-ok f m g s h = elim (Result-cases (m s).0) [
    | inl (a, e) ↦ (a, e, on_result-eq-ok f (g a) (rw e at h), rw e)
    | inr (x, e) ↦ absurd (cc (on_result-eq-ok f (err x) (rw e at h)))
  ]
