-- ===== src/Db/Tx.antt =====
-- `InTx` of app/lib/wordotronDb.go and `WithTx` of app/repository/store.go. Begin and commit can fail
-- in the driver as a statement does. Of a commit that fails it is not known whether it took effect, as
-- where the connection is lost before the answer. A rollback that fails ends with its connection, which
-- rolls back on the server.
pub mod Laws
use wordotron_api.Prelude.{none, some, if◌then◌else◌}
use wordotron_api.Prelude.Exec.{Result, ok, err, Exec}
use wordotron_api.Errors.{GoError, plain, wrap}
use wordotron_api.Db.{Db, advance, driver_error}

-- ROLLBACK: the tables of `before`, at the step of `after`.
abbrev pub rollback : Db → Db → Db
rollback before after = record before { step = after.step }

-- The end of the transaction: COMMIT, and where the connection stands afterwards.
unfoldable pub commit : {A : Type 0} → Db → A → Db → Result GoError A × Db
commit before a after = elim (after.fault after.step) [
  | some d ↦ (
    err (wrap "commit transaction" (driver_error d)),
    if after.committed after.step
        then record (advance after) { tx_start = none }
        else rollback before (advance after),
  )
  | none ↦ (ok a, record (advance after) { tx_start = none })
]

unfoldable pub finish : {A : Type 0} → Db → Result GoError A → Db → Result GoError A × Db
unfolding commit
finish before (ok a) after = commit before a after
finish before (err e) after = (err e, rollback before after)

unfoldable pub in_tx : {A : Type 0} → Exec GoError Db A → Exec GoError Db A
unfolding finish
in_tx fn db = elim (db.fault db.step) [
  | some d ↦ (err (wrap "begin transaction" (driver_error d)), advance db)
  | none ↦
      (let (r, after) = fn (record (advance db) { tx_start = some (db.clock db.step) }) in
        finish db r after)
]

-- A store bound to a transaction has no pool, and refuses another one.
unfoldable pub with_tx : {A : Type 0} → Exec GoError Db A → Exec GoError Db A
unfolding in_tx
with_tx fn db = elim db.tx_start [
  | some t ↦ (err (plain "repository: nested transactions are not supported"), db)
  | none ↦ in_tx fn db
]
