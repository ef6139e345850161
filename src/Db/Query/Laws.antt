-- ===== src/Db/Query/Laws.antt =====
-- Statements: what a run keeps of the tables, and a run that the driver lets through. Lists of rows: what
-- holds of every row, and the order of a result.
use wordotron_api.Prelude.{
  ◌≡◌, refl, sym, ◌∙◌, suc, Bool, true, false, none, some, List, [], ◌∷◌, ◌++◌, keep_if, map_if,
  All, if◌then◌else◌, Option-cases, inl, inr,
}
use mathlib.Core.Path.{subst}
use wordotron_api.Errors.{GoError}
use wordotron_api.Prelude.Exec.{Exec, ◌>>=◌, >>=-ok, >>=-err, Result-cases}
use wordotron_api.Db.{Db, Tables, Statement, statement, now, DriverFault}
use wordotron_api.Models.{Uuid, Time}

-- A property of the tables that a statement keeps is kept by its run, also where the driver fails.
pub statement-keeps :
    {A : Type 0} (P : Tables → Type 0) (f : Statement A) (db : Db)
    → ((id : Uuid) (at : Time) (t : Tables) → P t → P (f id at t).1)
    → P db.tables
    → P (statement f db).1.tables
unfolding statement now
statement-keeps P f db keeps h = elim (Option-cases (db.fault db.step)) [
  | inl p ↦ subst P (sym (ran p)) (keeps (db.ids db.step) (now db) db.tables h)
  | inr (d, p) ↦ subst P (sym (failed p)) h
]
  where
    ran :
        db.fault db.step ≡ none
        → (statement f db).1.tables ≡ (f (db.ids db.step) (now db) db.tables).1
    ran p = rw (p, statement) refl

    failed : {d : DriverFault} → db.fault db.step ≡ some d → (statement f db).1.tables ≡ db.tables
    failed p = rw (p, statement) refl

-- The run of a statement that the driver lets through.
pub statement-runs :
    {A : Type 0} (f : Statement A) (db : Db)
    → db.fault db.step ≡ none
    → statement f db ≡ (
      (f (db.ids db.step) (now db) db.tables).0,
      record db { tables = (f (db.ids db.step) (now db) db.tables).1; step = suc db.step },
    )
unfolding statement
statement-runs f db h = rw (h, statement) refl

module _ {A : Type 0} (P : A → Type 0) where
  pub All-snoc : (xs : List A) (x : A) → All P xs → P x → All P (xs ++ x ∷ [])
  All-snoc [] x h k = (k, tt)
  All-snoc (y ∷ xs) x (first, rest) k = (first, All-snoc xs x rest k)

  pub All-keep_if : (p : A → Bool) (xs : List A) → All P xs → All P (keep_if p xs)
  All-keep_if p [] h = tt
  All-keep_if p (x ∷ xs) (first, rest) = kept (p x) (All-keep_if p xs rest)
    where
      kept :
          (b : Bool) → All P (keep_if p xs) → All P (if b then x ∷ keep_if p xs else keep_if p xs)
      kept true h = (first, h)
      kept false h = h

  pub All-map_if :
      (p : A → Bool) (f : A → A) (xs : List A)
      → ((x : A) → p x ≡ true → P x → P (f x))
      → All P xs
      → All P (map_if p f xs)
  All-map_if p f [] keeps h = tt
  All-map_if p f (x ∷ xs) keeps (first, rest) = (changed (p x) refl, All-map_if p f xs keeps rest)
    where
      changed : (b : Bool) → p x ≡ b → P (if b then f x else x)
      changed true e = keeps x e first
      changed false e = first

-- An action that changes no table.
abbrev pub IsReading : {A : Type 0} → Exec GoError Db A → Type 0
IsReading m = (db : Db) → (m db).1.tables ≡ db.tables

module _ {A B : Type 0} where
  pub IsReading->>= :
      (m : Exec GoError Db A) (f : A → Exec GoError Db B)
      → IsReading m
      → ((a : A) → IsReading (f a))
      → IsReading (m >>= f)
  IsReading->>= m f first rest db = elim (Result-cases (m db).0) [
    | inl (a, p) ↦ rw (>>=-ok m f db p) (rest a (m db).1 ∙ first db)
    | inr (e, p) ↦ rw (>>=-err m f db p) (first db)
  ]
