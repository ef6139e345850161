-- ===== src/Db/Users.antt =====
-- app/repository/db/users.sql.go: the statements on the table users, by their SQL text. `users.id` is
-- the primary key, `users.email` is of type citext and unique, `users.role` is checked, and a trigger
-- sets `updated_at` on every update.
pub mod Invariant
pub mod Listing
use wordotron_api.Prelude.{
  ℕ, Bool, true, false, ◌||◌, Option, none, some, [], ◌∷◌, ◌++◌, ◌==◌, if◌then◌else◌, find?, any,
  keep_if, map_if, or_else, length, map, not,
}
use wordotron_api.Prelude.Exec.{ok, err, Exec}
use wordotron_api.Text.{GoString, equal_fold}
use wordotron_api.Errors.{GoError, pg, pg_unique_violation, pg_check_violation}
use wordotron_api.Models.{Uuid, Time, role_valid}
use wordotron_api.Db.{Db, Tables, UserRow, WordRow, Statement, statement, query, one_row}

abbrev pub is_creator : Uuid → WordRow → Bool
is_creator id row = elim row.created_by [ none ↦ false | some u ↦ u == id ]

-- ON DELETE SET NULL on words.created_by, an update as any other for the trigger of the table.
abbrev pub forget_creator : Time → WordRow → WordRow
forget_creator at row = record row { created_by = none; updated_at = at }

-- CreateUserParams
pub record CreateUserParams : Type 0 where
  pub email : GoString
  pub password_hash : Option GoString
  pub full_name : GoString
  pub role : GoString

-- UpdateUserParams; a NULL leaves its column.
pub record UpdateUserParams : Type 0 where
  pub id : Uuid
  pub full_name : Option GoString
  pub avatar_url : Option GoString
  pub role : Option GoString
  pub is_active : Option Bool

abbrev pub has_id : Uuid → UserRow → Bool
has_id id row = row.id == id

abbrev pub has_email : GoString → UserRow → Bool
has_email email row = equal_fold row.email email

-- The row that the INSERT adds, with the defaults of the table.
abbrev pub new_user_row : CreateUserParams → Uuid → Time → UserRow
new_user_row arg id at = record {
  id = id;
  email = arg.email;
  password_hash = arg.password_hash;
  full_name = arg.full_name;
  role = arg.role;
  avatar_url = none;
  is_active = true;
  email_verified_at = none;
  last_login_at = none;
  created_at = at;
  updated_at = at;
}

-- A row with the same email or identifier is in the table.
abbrev pub is_taken : CreateUserParams → Uuid → Tables → Bool
is_taken arg id t = any (has_email arg.email) t.users || any (has_id id) t.users

unfoldable pub insert_user : CreateUserParams → Statement UserRow
unfolding role_valid
insert_user arg id at t =
    if role_valid arg.role
    then (if is_taken arg id t then (err (pg pg_unique_violation), t) else (
      ok (new_user_row arg id at),
      record t { users = t.users ++ new_user_row arg id at ∷ [] },
    ))
    else (err (pg pg_check_violation), t)

unfoldable pub create_user : CreateUserParams → Exec GoError Db UserRow
create_user arg = statement (insert_user arg)

unfoldable pub email_exists : GoString → Exec GoError Db Bool
email_exists email = statement (query (λ t. ok (any (has_email email) t.users)))

unfoldable pub get_user_by_email : GoString → Exec GoError Db UserRow
get_user_by_email email = statement (query (λ t. one_row (find? (has_email email) t.users)))

unfoldable pub get_user_by_id : Uuid → Exec GoError Db UserRow
get_user_by_id id = statement (query (λ t. one_row (find? (has_id id) t.users)))

-- COALESCE(value, column)
abbrev pub coalesce : {A : Type 0} → Option A → A → A
coalesce = or_else

abbrev pub coalesce_null : {A : Type 0} → Option A → Option A → Option A
coalesce_null none column = column
coalesce_null (some value) column = some value

-- An UPDATE of the row with the identifier, and its trigger.
abbrev pub set_user : Uuid → (UserRow → UserRow) → Time → Tables → Tables
set_user id f at t = record t {
  users = map_if (has_id id) (λ row. record (f row) { updated_at = at }) t.users;
}

abbrev pub update_row : UpdateUserParams → UserRow → UserRow
update_row arg row = record row {
  full_name = coalesce arg.full_name row.full_name;
  avatar_url = coalesce_null arg.avatar_url row.avatar_url;
  role = coalesce arg.role row.role;
  is_active = coalesce arg.is_active row.is_active;
}

-- The check on the role of the updated row, if there is one.
abbrev pub row_allowed : Option UserRow → Bool
row_allowed none = true
row_allowed (some row) = role_valid row.role

unfoldable pub change_user : UpdateUserParams → Statement UserRow
unfolding role_valid
change_user arg id at t =
    let after = set_user arg.id (update_row arg) at t in
    let row = find? (has_id arg.id) after.users in
    if row_allowed row then (one_row row, after) else (err (pg pg_check_violation), t)

unfoldable pub update_user : UpdateUserParams → Exec GoError Db UserRow
update_user arg = statement (change_user arg)

unfoldable pub update_user_password : Uuid → Option GoString → Exec GoError Db (Unit {0})
update_user_password id hash =
    statement (λ _ at t. (ok tt, set_user id (λ row. record row { password_hash = hash }) at t))

unfoldable pub update_last_login : Uuid → Exec GoError Db (Unit {0})
update_last_login id =
    statement (λ _ at t. (ok tt, set_user id (λ row. record row { last_login_at = some at }) at t))

unfoldable pub mark_user_email_verified : Uuid → Exec GoError Db (Unit {0})
mark_user_email_verified id =
    statement
      (λ _ at t. (ok tt, set_user id (λ row. record row { email_verified_at = some at }) at t))

-- The rows that a DELETE leaves, with what the foreign keys of the other tables ask for.
abbrev pub without_user : Uuid → Time → Tables → Tables
without_user id at t = record t {
  users = keep_if (λ row. not (has_id id row)) t.users;
  password_resets = keep_if (λ r. not (r.user_id == id)) t.password_resets;
  email_verifications = keep_if (λ r. not (r.user_id == id)) t.email_verifications;
  words = map_if (is_creator id) (forget_creator at) t.words;
  user_words = keep_if (λ r. not (r.user_id == id)) t.user_words;
  oauth_accounts = keep_if (λ r. not (r.user_id == id)) t.oauth_accounts;
}

unfoldable pub delete_user : Uuid → Exec GoError Db ℕ
delete_user id =
    statement (λ _ at t. (ok (length (keep_if (has_id id) t.users)), without_user id at t))
