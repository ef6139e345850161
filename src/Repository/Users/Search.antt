-- ===== src/Repository/Users/Search.antt =====
-- The pattern of a search by name: what PostgreSQL reads an escaped text as.
use wordotron_api.Prelude.{
  ℕ, ◌≡◌, refl, sym, false, ◌||◌, some, [], ◌∷◌, ◌++◌, map, ◌==◌, if◌then◌else◌, arith, inl, inr,
  Bool-cases,
}
use mathlib.Core.List.{append_assoc}
use wordotron_api.Text.{GoString, codes, replace_all}
use wordotron_api.Db.Query.{literal, read_pattern}
use wordotron_api.Repository.Users.{escape_like}

replace_all-++ :
    (b : ℕ) (new s t : GoString)
    → replace_all b new (s ++ t) ≡ replace_all b new s ++ replace_all b new t
unfolding replace_all
replace_all-++ b new [] t = refl
replace_all-++ b new (c ∷ s) t = elim (Bool-cases (c == b)) [
  | inl p ↦
      rw (p, replace_all-++ b new s t)
        (sym (append_assoc new (replace_all b new s) (replace_all b new t)))
  | inr p ↦ rw (p, replace_all-++ b new s t) refl
]

-- The escape of one character.
abbrev escaped : ℕ → GoString
escaped c = if c == b'\\' || (c == b'%' || c == b'_') then b'\\' ∷ c ∷ [] else c ∷ []

escape_like-cons : (c : ℕ) (s : GoString) → escape_like (c ∷ s) ≡ escaped c ++ escape_like s
unfolding escape_like replace_all
escape_like-cons c s =
    let escaped_slashes = replace_all b'\\' (codes "\\\\") s in
    rw
      (
        replace_all-++ b'%' (codes "\\%") (if c == b'\\' then codes "\\\\" else c ∷ [])
            escaped_slashes,
        replace_all-++ b'_' (codes "\\_")
            (replace_all b'%' (codes "\\%") (if c == b'\\' then codes "\\\\" else c ∷ []))
            (replace_all b'%' (codes "\\%") escaped_slashes),
      )
      (ground arith)

-- However a search text is spelled, its escaped form is the pattern in which each of its characters
-- stands for itself: no text of a caller is read as a wildcard, nor as a broken pattern.
pub read_pattern-escape_like :
    (s : GoString) → read_pattern false (escape_like s) ≡ some (map literal s)
unfolding escape_like replace_all
read_pattern-escape_like [] = refl
read_pattern-escape_like (c ∷ s) =
    rw (escape_like-cons c s) (ground (arith, read_pattern-escape_like s))
