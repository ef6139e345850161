-- ===== src/Repository/Users.antt =====
-- app/repository/user_repository.go
pub mod Laws
pub mod Search
pub mod Listing
use wordotron_api.Prelude.{ℕ, String, [], Bool, some, if◌then◌else◌, or_else, ◌==◌}
use wordotron_api.Prelude.Exec.{Exec, ◌>>=◌, pure, raise, map_error}
use wordotron_api.Text.{GoString, codes, replace_all}
use wordotron_api.Errors.{
  GoError, app, fail, wrap, internal_error, not_found_error, conflict_error, bad_request_error,
  is_pg_error, is_no_rows, pg_unique_violation, pg_check_violation,
}
use wordotron_api.Models.{Uuid, User, CreateUserInput, UpdateUserInput}
use wordotron_api.Db.{Db, UserRow}
use wordotron_api.Db.Users.{
  create_user, get_user_by_id, get_user_by_email, update_user, update_user_password,
  update_last_login, mark_user_email_verified, delete_user, email_exists,
}

-- An account with no password has the empty hash.
unfoldable pub to_domain_user : UserRow → User
to_domain_user row = record {
  id = row.id;
  email = row.email;
  full_name = row.full_name;
  role = row.role;
  avatar_url = row.avatar_url;
  is_active = row.is_active;
  email_verified_at = row.email_verified_at;
  last_login_at = row.last_login_at;
  created_at = row.created_at;
  updated_at = row.updated_at;
  password_hash = or_else row.password_hash [];
}

unfoldable pub creation_error : GoError → GoError
unfolding is_pg_error internal_error conflict_error
creation_error e =
    if is_pg_error e pg_unique_violation
    then app (conflict_error "An account with this email already exists") e
    else internal_error (wrap "create user" e)

-- An error of a query for one row: none is a 404 for the resource.
unfoldable pub lookup_error : String → String → GoError → GoError
unfolding is_no_rows internal_error not_found_error
lookup_error resource what e =
    if is_no_rows e then app (not_found_error resource) e else internal_error (wrap what e)

unfoldable pub update_error : GoError → GoError
unfolding is_no_rows is_pg_error internal_error not_found_error bad_request_error
update_error e =
    if is_no_rows e
    then app (not_found_error "User") e
    else if is_pg_error e pg_check_violation
    then app (bad_request_error "Invalid role") e
    else internal_error (wrap "update user" e)

abbrev pub internal_wrap : String → GoError → GoError
internal_wrap what e = internal_error (wrap what e)

unfoldable pub create : CreateUserInput → Exec GoError Db User
unfolding create_user creation_error to_domain_user
create input = do
  row ← map_error creation_error (
      create_user (record {
        email = input.email;
        password_hash = some input.password_hash;
        full_name = input.full_name;
        role = input.role;
      }))
  pure (to_domain_user row)

unfoldable pub get_by_id : Uuid → Exec GoError Db User
unfolding get_user_by_id lookup_error to_domain_user
get_by_id id = do
  row ← map_error (lookup_error "User" "get user by id") (get_user_by_id id)
  pure (to_domain_user row)

unfoldable pub get_by_email : GoString → Exec GoError Db User
unfolding get_user_by_email lookup_error to_domain_user
get_by_email email = do
  row ← map_error (lookup_error "User" "get user by email") (get_user_by_email email)
  pure (to_domain_user row)

unfoldable pub update : Uuid → UpdateUserInput → Exec GoError Db User
unfolding update_user update_error to_domain_user
update id input = do
  row ← map_error update_error (
      update_user (record {
        id = id;
        full_name = input.full_name;
        avatar_url = input.avatar_url;
        role = input.role;
        is_active = input.is_active;
      }))
  pure (to_domain_user row)

unfoldable pub update_password : Uuid → GoString → Exec GoError Db (Unit {0})
unfolding update_user_password internal_error
update_password id hash =
    map_error (internal_wrap "update password") (update_user_password id (some hash))

unfoldable pub touch_last_login : Uuid → Exec GoError Db (Unit {0})
unfolding update_last_login internal_error
touch_last_login id = map_error (internal_wrap "update last login") (update_last_login id)

unfoldable pub mark_email_verified : Uuid → Exec GoError Db (Unit {0})
unfolding mark_user_email_verified internal_error
mark_email_verified id =
    map_error (internal_wrap "mark email verified") (mark_user_email_verified id)

-- `affected == 0` is an error of the caller's resource.
abbrev pub refuse_zero : GoError → ℕ → Exec GoError Db (Unit {0})
refuse_zero e affected = if affected == 0 then raise e else pure tt

unfoldable pub delete : Uuid → Exec GoError Db (Unit {0})
unfolding delete_user internal_error not_found_error
delete id = do
  affected ← map_error (internal_wrap "delete user") (delete_user id)
  refuse_zero (fail (not_found_error "User")) affected

unfoldable pub email_taken : GoString → Exec GoError Db Bool
unfolding email_exists internal_error
email_taken email = map_error (internal_wrap "check email") (email_exists email)

-- `escapeLike`: three passes of ReplaceAll.
unfoldable pub escape_like : GoString → GoString
unfolding replace_all
escape_like input =
    let out = replace_all b'\\' (codes "\\\\") input in
    let out' = replace_all b'%' (codes "\\%") out in replace_all b'_' (codes "\\_") out'
