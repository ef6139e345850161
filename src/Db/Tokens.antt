-- ===== src/Db/Tokens.antt =====
-- app/repository/db/password_reset_tokens.sql.go and email_verification_tokens.sql.go. The two tables
-- and their statements differ in the name of the table alone: a statement takes the table as a
-- `Column`, a way to read and to write it.
pub mod Laws
use wordotron_api.Prelude.{
  ℕ, Bool, ◌||◌, ◌&&◌, none, some, List, [], ◌∷◌, ◌++◌, ◌==◌, ltb, not, if◌then◌else◌, find?, any,
  keep_if, map_if, length, is_none,
}
use wordotron_api.Prelude.Exec.{ok, err, Exec}
use wordotron_api.Text.{GoString, eqs}
use wordotron_api.Errors.{GoError, pg, pg_unique_violation, pg_other}
use wordotron_api.Models.{Uuid, Time, Token}
use wordotron_api.Db.{Db, Tables, Statement, statement, query, one_row}
use wordotron_api.Db.Users.{has_id}

pub data Kind : Type 0 where
  password_reset email_verification : Kind

abbrev pub rows : Kind → Tables → List Token
rows password_reset t = t.password_resets
rows email_verification t = t.email_verifications

abbrev pub set_rows : Kind → List Token → Tables → Tables
set_rows password_reset xs t = record t { password_resets = xs }
set_rows email_verification xs t = record t { email_verifications = xs }

abbrev pub has_hash : GoString → Token → Bool
has_hash hash row = eqs row.token_hash hash

abbrev pub has_token_id : Uuid → Token → Bool
has_token_id id row = row.id == id

abbrev pub new_token : Uuid → GoString → Time → Uuid → Time → Token
new_token user_id hash expires_at id at = record {
  id = id;
  user_id = user_id;
  token_hash = hash;
  expires_at = expires_at;
  used_at = none;
  created_at = at;
}

-- INSERT: the hash is unique, the identifier the primary key, and the user must exist.
unfoldable pub insert_token : Kind → Uuid → GoString → Time → Statement Token
insert_token k user_id hash expires_at id at t =
    if any (has_hash hash) (rows k t) || any (has_token_id id) (rows k t)
    then (err (pg pg_unique_violation), t)
    else if any (has_id user_id) t.users
    then (
      ok (new_token user_id hash expires_at id at),
      set_rows k (rows k t ++ new_token user_id hash expires_at id at ∷ []) t,
    )
    else (err (pg pg_other), t)

unfoldable pub create_token : Kind → Uuid → GoString → Time → Exec GoError Db Token
create_token k user_id hash expires_at = statement (insert_token k user_id hash expires_at)

unfoldable pub get_token : Kind → GoString → Exec GoError Db Token
get_token k hash = statement (query (λ t. one_row (find? (has_hash hash) (rows k t))))

-- SET used_at = NOW()
abbrev pub use_at : Time → Token → Token
use_at at row = record row { used_at = some at }

-- WHERE id = $1 AND used_at IS NULL
abbrev pub is_fresh : Uuid → Token → Bool
is_fresh id row = row.id == id && is_none row.used_at

-- WHERE user_id = $1 AND used_at IS NULL
abbrev pub is_pending : Uuid → Token → Bool
is_pending user_id row = row.user_id == user_id && is_none row.used_at

-- UPDATE ... SET used_at = NOW() WHERE ..., and the number of rows that it changed.
unfoldable pub use_rows : Kind → (Token → Bool) → Statement ℕ
use_rows k p id at t =
    (ok (length (keep_if p (rows k t))), set_rows k (map_if p (use_at at) (rows k t)) t)

unfoldable pub mark_token_used : Kind → Uuid → Exec GoError Db ℕ
mark_token_used k id = statement (use_rows k (is_fresh id))

unfoldable pub invalidate_user_tokens : Kind → Uuid → Exec GoError Db ℕ
invalidate_user_tokens k user_id = statement (use_rows k (is_pending user_id))

-- DELETE ... WHERE expires_at < NOW()
unfoldable pub drop_expired : Kind → Statement ℕ
drop_expired k id at t = (
  ok (length (keep_if (λ r. ltb r.expires_at at) (rows k t))),
  set_rows k (keep_if (λ r. not (ltb r.expires_at at)) (rows k t)) t,
)

unfoldable pub delete_expired_tokens : Kind → Exec GoError Db ℕ
delete_expired_tokens k = statement (drop_expired k)
