-- ===== src/Db/OauthAccounts.antt =====
-- app/repository/db/oauth_accounts.sql.go: the statements on the table oauth_accounts, and those on users
-- that a sign-in through a provider needs. An external identity belongs to one account, and an account
-- has a provider at most once.
use wordotron_api.Prelude.{
  ℕ, Bool, true, not, ◌&&◌, ◌||◌, Option, none, some, List, [], ◌∷◌, ◌++◌, ◌==◌, leb, find?, any,
  keep_if, map_if, length, or_else, if◌then◌else◌,
}
use wordotron_api.Prelude.Exec.{ok, err, Exec}
use wordotron_api.Text.{GoString, eqs}
use wordotron_api.Errors.{GoError, pg, pg_unique_violation, pg_check_violation, pg_other}
use wordotron_api.Models.{Uuid, Time, role_user}
use wordotron_api.Auth.Google.{provider_valid}
use wordotron_api.Db.{Db, UserRow, OauthAccountRow, Statement, statement, query, one_row}
use wordotron_api.Db.Query.{order_by}
use wordotron_api.Db.Users.{has_id, has_email, set_user}

pub record CreateOauthUserParams : Type 0 where
  pub email : GoString
  pub full_name : GoString
  pub avatar_url : Option GoString

-- An account with no password, of a verified address.
abbrev pub new_oauth_user : CreateOauthUserParams → Uuid → Time → UserRow
new_oauth_user arg id at = record {
  id = id;
  email = arg.email;
  password_hash = none;
  full_name = arg.full_name;
  role = role_user;
  avatar_url = arg.avatar_url;
  is_active = true;
  email_verified_at = some at;
  last_login_at = none;
  created_at = at;
  updated_at = at;
}

unfoldable pub insert_oauth_user : CreateOauthUserParams → Statement UserRow
insert_oauth_user arg id at t =
    if any (has_email arg.email) t.users || any (has_id id) t.users
    then (err (pg pg_unique_violation), t)
    else (
      ok (new_oauth_user arg id at),
      record t { users = t.users ++ new_oauth_user arg id at ∷ [] },
    )

unfoldable pub create_oauth_user : CreateOauthUserParams → Exec GoError Db UserRow
create_oauth_user arg = statement (insert_oauth_user arg)

abbrev pub is_identity : GoString → GoString → OauthAccountRow → Bool
is_identity provider account_id row =
    eqs row.provider provider && eqs row.provider_account_id account_id

abbrev pub is_link : Uuid → GoString → OauthAccountRow → Bool
is_link user_id provider row = row.user_id == user_id && eqs row.provider provider

unfoldable pub get_oauth_account : GoString → GoString → Exec GoError Db OauthAccountRow
get_oauth_account provider account_id =
    statement (query (λ t. one_row (find? (is_identity provider account_id) t.oauth_accounts)))

unfoldable pub get_oauth_accounts_by_user : Uuid → Exec GoError Db (List OauthAccountRow)
unfolding order_by
get_oauth_accounts_by_user user_id = statement (
    query (λ t. ok (
      order_by (λ x y. leb x.created_at y.created_at)
        (keep_if (λ r. r.user_id == user_id) t.oauth_accounts))))

pub record LinkOauthAccountParams : Type 0 where
  pub user_id : Uuid
  pub provider : GoString
  pub provider_account_id : GoString
  pub email : Option GoString

abbrev pub new_link : LinkOauthAccountParams → Uuid → Time → OauthAccountRow
new_link arg id at = record {
  id = id;
  user_id = arg.user_id;
  provider = arg.provider;
  provider_account_id = arg.provider_account_id;
  email = arg.email;
  created_at = at;
  updated_at = at;
}

-- The unique indexes: another row has the identifier, the identity, or the provider for the account.
abbrev pub clashes : OauthAccountRow → OauthAccountRow → Bool
clashes row other =
    other.id == row.id
    || is_identity row.provider row.provider_account_id other
    || is_link row.user_id row.provider other

unfoldable pub insert_link : LinkOauthAccountParams → Statement OauthAccountRow
unfolding provider_valid eqs
insert_link arg id at t =
    if not (provider_valid arg.provider)
    then (err (pg pg_check_violation), t)
    else if any (clashes (new_link arg id at)) t.oauth_accounts
    then (err (pg pg_unique_violation), t)
    else if any (has_id arg.user_id) t.users
    then (
      ok (new_link arg id at),
      record t { oauth_accounts = t.oauth_accounts ++ new_link arg id at ∷ [] },
    )
    else (err (pg pg_other), t)

unfoldable pub link_oauth_account : LinkOauthAccountParams → Exec GoError Db OauthAccountRow
link_oauth_account arg = statement (insert_link arg)

-- An UPDATE of a user, and its row.
abbrev updating : Uuid → (Time → UserRow → UserRow) → Statement UserRow
updating id f _ at t =
    let after = set_user id (f at) at t in (one_row (find? (has_id id) after.users), after)

unfoldable pub mark_email_verified : Uuid → Exec GoError Db UserRow
mark_email_verified id = statement (
    updating id
      (λ at row. record row { email_verified_at = some (or_else row.email_verified_at at) }))

abbrev pub first_of : Option GoString → Option GoString → Option GoString
first_of none b = b
first_of (some a) b = some a

unfoldable pub set_user_avatar_if_empty : Uuid → Option GoString → Exec GoError Db UserRow
set_user_avatar_if_empty id avatar_url =
    statement
      (updating id (λ at row. record row { avatar_url = first_of row.avatar_url avatar_url }))

unfoldable pub unlink_oauth_account : Uuid → GoString → Exec GoError Db ℕ
unlink_oauth_account user_id provider = statement (λ _ _ t. (
  ok (length (keep_if (is_link user_id provider) t.oauth_accounts)),
  record t { oauth_accounts = keep_if (λ r. not (is_link user_id provider r)) t.oauth_accounts },
))

abbrev pub set_email : Option GoString → Time → OauthAccountRow → OauthAccountRow
set_email email at row = record row { email = email; updated_at = at }

unfoldable pub update_oauth_account_email :
    GoString → GoString → Option GoString → Exec GoError Db OauthAccountRow
update_oauth_account_email provider account_id email = statement (λ _ at t.
    (let after = map_if (is_identity provider account_id) (set_email email at) t.oauth_accounts in
      (
        one_row (find? (is_identity provider account_id) after),
        record t { oauth_accounts = after },
      )))
