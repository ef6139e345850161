-- ===== src/Db/Tokens/Laws.antt =====
-- Statements on the tables of tokens, and that a token is used once.
use wordotron_api.Prelude.{
  ◌≡◌, refl, Bool, true, false, some, List, [], ◌∷◌, arith, inl, inr, find?, keep_if, map_if,
  if◌then◌else◌, Option-cases, is_none,
}
use wordotron_api.Prelude.Exec.{Result, ok}
use wordotron_api.Text.{GoString}
use wordotron_api.Errors.{GoError}
use wordotron_api.Models.{Uuid, Time, Token}
use wordotron_api.Db.{Db, Tables, Statement, statement, now, query}
use wordotron_api.Db.Tokens.{
  Kind, password_reset, email_verification, rows, set_rows, has_hash, use_at, is_fresh, use_rows,
}

module _ {A : Type 0} where
  pub keep_if-map_if :
      (p : A → Bool) (f : A → A) (xs : List A)
      → ((x : A) → p (f x) ≡ false)
      → keep_if p (map_if p f xs) ≡ []
  keep_if-map_if p f [] h = refl
  keep_if-map_if p f (x ∷ xs) h = ground (arith, keep_if-map_if p f xs h, h x)

  -- The first match after a change that keeps what is matched.
  pub find?-map_if :
      (q p : A → Bool) (f : A → A) (xs : List A)
      → ((x : A) → q (f x) ≡ q x)
      → {a : A} → find? q xs ≡ some a
      → find? q (map_if p f xs) ≡ some (if p a then f a else a)
  find?-map_if q p f [] h e = absurd (cc)
  find?-map_if q p f (x ∷ xs) h {a = a} e = ground (arith, h x, find?-map_if q p f xs h {a = a})

  pub find?-holds : (p : A → Bool) (xs : List A) {a : A} → find? p xs ≡ some a → p a ≡ true
  find?-holds p [] e = absurd (cc)
  find?-holds p (x ∷ xs) {a = a} e = ground (arith, find?-holds p xs {a = a})

  -- A statement that ends well ran, and left the tables that it says.
  pub statement-eq-ok :
      (f : Statement A) (db : Db) {a : A}
      → (statement f db).0 ≡ ok a
      → ((f (db.ids db.step) (now db) db.tables).0 ≡ ok a)
        × ((statement f db).1.tables ≡ (f (db.ids db.step) (now db) db.tables).1)
  unfolding statement
  statement-eq-ok f db h = elim (Option-cases (db.fault db.step)) [
    | inl p ↦ (rw (p, statement) at h, rw (p, statement) refl)
    | inr (d, p) ↦ absurd (cc (rw (p, statement) at h))
  ]

  -- A statement that only reads leaves the tables alone, also where it fails.
  pub tables-query :
      (f : Tables → Result GoError A) (db : Db) → (statement (query f) db).1.tables ≡ db.tables
  unfolding statement
  tables-query f db = elim (Option-cases (db.fault db.step)) [
    | inl p ↦ rw (p, statement) refl
    | inr (d, p) ↦ rw (p, statement) refl
  ]

pub rows-set_rows : (k : Kind) (xs : List Token) (t : Tables) → rows k (set_rows k xs t) ≡ xs
rows-set_rows password_reset xs t = refl
rows-set_rows email_verification xs t = refl

pub users-set_rows : (k : Kind) (xs : List Token) (t : Tables) → (set_rows k xs t).users ≡ t.users
users-set_rows password_reset xs t = refl
users-set_rows email_verification xs t = refl

use_at-fresh : (id : Uuid) (at : Time) (x : Token) → is_fresh id (use_at at x) ≡ false
use_at-fresh id at x = ground arith

-- The first row with the hash is a used one, so that its link is spent.
abbrev pub IsSpent : Kind → GoString → Tables → Type 0
IsSpent k hash t =
    (row : Token) × (find? (has_hash hash) (rows k t) ≡ some row) × (is_none row.used_at ≡ false)

-- Rows that a statement marked are not marked again.
pub fresh_after-use_rows :
    (k : Kind) (id at_id : Uuid) (at : Time) (t : Tables)
    → keep_if (is_fresh id) (rows k (use_rows k (is_fresh id) at_id at t).1) ≡ []
unfolding use_rows
fresh_after-use_rows k id at_id at t =
    rw rows-set_rows (keep_if-map_if (is_fresh id) (use_at at) (rows k t) (use_at-fresh id at))

-- Marking a row that can be used spends its hash.
pub use_rows-IsSpent :
    (k : Kind) (hash : GoString) (at_id : Uuid) (at : Time) (t : Tables) (row : Token)
    → find? (has_hash hash) (rows k t) ≡ some row
    → is_none row.used_at ≡ true
    → IsSpent k hash (use_rows k (is_fresh row.id) at_id at t).1
unfolding use_rows
use_rows-IsSpent k hash at_id at t row found unused = (
  use_at at row,
  rw rows-set_rows (
      rw (find?-map_if (has_hash hash) (is_fresh row.id) (use_at at) (rows k t) (λ x. refl) found)
        (ground arith)),
  refl,
)
