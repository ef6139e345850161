-- ===== src/Repository/Tokens/Laws.antt =====
-- What the calls of the token repositories do to the tables.
use wordotron_api.Prelude.{ℕ, ◌≡◌, ◌≢◌, [], arith, keep_if}
use wordotron_api.Prelude.Exec.{ok, >>=-eq-ok, map_error, on_result-eq-ok}
use wordotron_api.Errors.{GoError}
use wordotron_api.Models.{Uuid}
use wordotron_api.Db.{Db, now, statement}
use wordotron_api.Db.Tokens.{Kind, rows, is_fresh, use_rows, mark_token_used}
use wordotron_api.Db.Tokens.Laws.{statement-eq-ok}
use wordotron_api.Repository.Users.{refuse_zero}
use wordotron_api.Repository.Tokens.{mark_used}

refuse_zero-eq-ok :
    (e : GoError) (n : ℕ) (db : Db)
    → (refuse_zero e n db).0 ≡ ok tt
    → (n ≢ 0) × ((refuse_zero e n db).1 ≡ db)
refuse_zero-eq-ok e n db h = (ground arith, ground arith)

-- A token that was marked had an unused row, and the rows were marked at the time of the statement.
pub mark_used-eq-ok :
    (k : Kind) (id : Uuid) (db : Db)
    → (mark_used k id db).0 ≡ ok tt
    → (keep_if (is_fresh id) (rows k db.tables) ≢ [])
      × ((mark_used k id db).1.tables
          ≡ (use_rows k (is_fresh id) (db.ids db.step) (now db) db.tables).1)
unfolding mark_used mark_token_used use_rows
mark_used-eq-ok k id db h =
    let (n, ran, refused, same) = >>=-eq-ok (map_error _ (mark_token_used k id)) _ db h in
    let (answer, after) =
      statement-eq-ok (use_rows k (is_fresh id)) db
        (on_result-eq-ok _ (statement (use_rows k (is_fresh id)) db).0 ran) in
    let (some_rows, kept) = refuse_zero-eq-ok _ n _ refused in
    (λ none_left. some_rows (counted none_left answer), rw (same, kept) after)
  where
    counted :
        {n : ℕ}
        → keep_if (is_fresh id) (rows k db.tables) ≡ []
        → (use_rows k (is_fresh id) (db.ids db.step) (now db) db.tables).0 ≡ ok n
        → n ≡ 0
    counted e p = cc
