-- ===== src/Db/Tx/Laws.antt =====
-- What a transaction leaves behind.
use wordotron_api.Prelude.{◌≡◌, refl, ◌⊎◌, inl, inr, none, some, Bool-cases, Option-cases}
use wordotron_api.Prelude.Exec.{Result, ok, err, Exec}
use wordotron_api.Errors.{GoError, plain, wrap}
use wordotron_api.Db.{Db, Tables, DriverFault, advance, driver_error}
use wordotron_api.Db.Tx.{commit, finish, in_tx, with_tx}

-- The database as the body of a transaction finds it.
abbrev pub begun : Db → Db
begun db = record (advance db) { tx_start = some (db.clock db.step) }

-- The answer is that the commit failed in the driver.
abbrev pub IsLost : {A : Type 0} → Result GoError A → Type 0
IsLost r = (d : DriverFault) × (r ≡ err (wrap "commit transaction" (driver_error d)))

-- A transaction on the tables `before`, whose body ended in `body` with the tables `changed`, answers
-- `r` and leaves the tables `after`: an error and no change, or all of the change, and then the answer
-- is the value of the body unless that of the commit was lost.
abbrev pub IsAtomic :
    {A : Type 0} → Tables → Result GoError A → Tables → Result GoError A → Tables → Type 0
IsAtomic {A = A} before body changed r after =
    ((e : GoError) × (r ≡ err e) × (after ≡ before))
    ⊎ ((a : A) × (body ≡ ok a) × (after ≡ changed) × ((r ≡ ok a) ⊎ IsLost r))

module _ {A : Type 0} where
  commit-outcome :
      (before after : Db) (a : A)
      → IsAtomic before.tables
          (ok a)
          after.tables
          (commit before a after).0
          (commit before a after).1.tables
  unfolding commit
  commit-outcome before after a = elim (Option-cases (after.fault after.step)) [
    | inl p ↦ inr (a, refl, rw (p, commit) refl, inl (rw (p, commit) refl))
    | inr (d, p) ↦ elim (Bool-cases (after.committed after.step)) [
      | inl q ↦ inr (a, refl, rw (p, commit, q) refl, inr (d, rw (p, commit) refl))
      | inr q ↦
          inl (
            wrap "commit transaction" (driver_error d),
            rw (p, commit) refl,
            rw (p, commit, q) refl,
          )
    ]
  ]

  finish-outcome :
      (before after : Db) (r : Result GoError A)
      → IsAtomic before.tables r after.tables
          (finish before r after).0
          (finish before r after).1.tables
  unfolding finish
  finish-outcome before after (err e) = inl (e, refl, refl)
  finish-outcome before after (ok a) = commit-outcome before after a

  in_tx-outcome :
      (fn : Exec GoError Db A) (db : Db)
      → IsAtomic db.tables
          (fn (begun db)).0
          (fn (begun db)).1.tables
          (in_tx fn db).0
          (in_tx fn db).1.tables
  unfolding in_tx
  in_tx-outcome fn db = elim (Option-cases (db.fault db.step)) [
    | inr (d, q) ↦
        inl (wrap "begin transaction" (driver_error d), rw (q, in_tx) refl, rw (q, in_tx) refl)
    | inl q ↦ rw (q, in_tx) (finish-outcome db (fn (begun db)).1 (fn (begun db)).0)
  ]

  outside_tx : (fn : Exec GoError Db A) (db : Db) → db.tx_start ≡ none → with_tx fn db ≡ in_tx fn db
  unfolding with_tx
  outside_tx fn db p = rw p refl

  -- A transaction is all or nothing, whatever its body does and wherever the driver fails: it ends in an
  -- error and the tables are as before, or its body ended well and the tables are those that the body
  -- left; then it ends with the value of the body, unless the answer to the commit was an error of the
  -- driver.
  pub with_tx-outcome :
      (fn : Exec GoError Db A) (db : Db)
      → IsAtomic db.tables
          (fn (begun db)).0
          (fn (begun db)).1.tables
          (with_tx fn db).0
          (with_tx fn db).1.tables
  unfolding with_tx
  with_tx-outcome fn db = elim (Option-cases db.tx_start) [
    | inr (t, p) ↦ inl (
      plain "repository: nested transactions are not supported",
      rw (p, with_tx) refl,
      rw (p, with_tx) refl,
    )
    | inl p ↦ rw (outside_tx fn db p) (in_tx-outcome fn db)
  ]

  -- A transaction that ends well.
  pub with_tx-eq-ok :
      (fn : Exec GoError Db A) (db : Db) {a : A}
      → (with_tx fn db).0 ≡ ok a
      → ((fn (begun db)).0 ≡ ok a) × ((with_tx fn db).1.tables ≡ (fn (begun db)).1.tables)
  with_tx-eq-ok fn db h = elim (with_tx-outcome fn db) [
    | inl (e, failed, _) ↦ absurd (cc)
    | inr (b, body, after, inl done) ↦ (cc, after)
    | inr (b, body, after, inr (d, lost)) ↦ absurd (cc)
  ]
