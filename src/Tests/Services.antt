-- ===== src/Tests/Services.antt =====
-- The theorems on the services at the small world.
use wordotron_api.Prelude.{
  ◌≡◌, if◌then◌else◌, ◌==◌, ◌*◌, ◌≢◌, refl, true, not, none, some, [], ◌∷◌, inl, inr, find?,
  keep_if, map,
}
use wordotron_api.Prelude.Exec.{ok, err}
use wordotron_api.Text.{GoString, codes}
use wordotron_api.Errors.{GoError, sentinel, bcrypt_mismatch, fail, unauthorized_error}
use wordotron_api.Models.{
  Role, Time, Token, User, Uuid, second, hour, role_user, role_admin, role_valid,
}
use wordotron_api.Redis.{Keyspace}
use wordotron_api.Db.{Db, UserRow, DriverFault, broken}
use wordotron_api.Db.Users.{has_email, has_id}
use wordotron_api.Db.Tokens.{is_pending, new_token}
use wordotron_api.Repository.Users.{to_domain_user, update_password}
use wordotron_api.Db.Tx.{with_tx}
use wordotron_api.Db.Tx.Laws.{begun, IsAtomic, with_tx-outcome}
use wordotron_api.Auth.Token.{Claims, minted, refresh_type}
use wordotron_api.Services.World.{World}
use wordotron_api.Services.Auth.{
  AuthResult, LoginInput, normalize_email, invalid_credentials, is_active_session, revoke_all,
}
use wordotron_api.Services.Auth.Sessions.{login, refresh}
use wordotron_api.Services.Auth.Sessions.Login.{login-eq-ok, login_refusal, IsAdmitted}
use wordotron_api.Services.Auth.Sessions.Rotation.{refresh_once, refresh_replay, IsOut}
use wordotron_api.Services.Auth.Links.{
  reset_password, verify_email, forgot_password, consume_reset, replace_token,
}
use wordotron_api.Services.Auth.Links.SingleUse.{
  reset_password_once, verify_email_once, consume_reset_once,
}
use wordotron_api.Services.Auth.Links.Request.{replace_token-leaves_one, forgot_password_silent}
use wordotron_api.Services.User.{Actor, UpdateUserInput, is_admin, update}
use wordotron_api.Services.User.Access.{update_own, privileges}
use wordotron_api.Tests.Instances.{jwt, uuids}
use wordotron_api.Tests.Worlds.{manager, wiring, world, db, link, alice, empty, value_or, nobody}

abbrev credentials : LoginInput
credentials = record { email = codes " A@b"; password = codes "pw" }

abbrev guess : LoginInput
guess = record { email = codes "a@b"; password = codes "no" }

abbrev signed_in : World Keyspace
signed_in = (login wiring credentials world).1

abbrev session : AuthResult
session = value_or nobody (login wiring credentials world).0

abbrev raw : GoString
raw = session.tokens.refresh_token

abbrev claims : Claims
claims = minted jwt uuids manager (100 * second) (168 * hour) 71 1 role_user refresh_type

abbrev refreshed : AuthResult
refreshed = value_or nobody (refresh wiring raw signed_in).0

abbrev wiped : World Keyspace
wiped = record signed_in { sessions = empty }

abbrev self : Actor
self = record { id = 1; role = role_user }

abbrev new_name : UpdateUserInput
new_name = record { full_name = some (codes " B "); role = none; is_active = none }

abbrev renamed : User
renamed = value_or nobody.user (update wiring self 1 new_name world).0

login-eq-ok_example :
    (row : UserRow) × (find? (has_email (normalize_email credentials.email)) world.db.tables.users
      ≡ some row)
    × IsAdmitted wiring credentials world
        (login wiring credentials world).1
        session
        (to_domain_user row)
unfolding login wordotron_api.Repository.Users.get_by_email wordotron_api.Db.statement
    wordotron_api.Text.equal_fold normalize_email wordotron_api.Auth.Password.verify
    wordotron_api.Services.Auth.issue_session wordotron_api.Auth.Token.generate_token_pair
    wordotron_api.Auth.Token.sign_claims wordotron_api.Auth.Session.store_refresh_token
    wordotron_api.Redis.eval_all
login-eq-ok_example = login-eq-ok wiring credentials world refl

login_refusal_example :
    ((login wiring guess world).0 ≡ err invalid_credentials)
    × ((login wiring guess world).1.db.tables ≡ world.db.tables)
    × ((login wiring guess world).1.sessions ≡ world.sessions)
    × ((login wiring guess world).1.links ≡ world.links)
unfolding wordotron_api.Text.equal_fold normalize_email wordotron_api.Errors.is
login_refusal_example =
    login_refusal wiring guess world refl
      (inr (alice, refl, (sentinel bcrypt_mismatch, refl, refl)))

refresh_once_example : (refresh wiring raw (refresh wiring raw signed_in).1).0 ≢ ok refreshed
unfolding wordotron_api.Auth.Token.parse_refresh_token wordotron_api.Auth.Token.parse_token login
    wordotron_api.Repository.Users.get_by_email wordotron_api.Db.statement
    wordotron_api.Text.equal_fold normalize_email wordotron_api.Auth.Password.verify
    wordotron_api.Services.Auth.issue_session wordotron_api.Auth.Token.generate_token_pair
    wordotron_api.Auth.Token.sign_claims wordotron_api.Auth.Session.store_refresh_token
    wordotron_api.Redis.eval_all wordotron_api.Auth.Token.check_claims
    wordotron_api.Auth.Token.user_id_of role_valid
    wordotron_api.Auth.Session.is_refresh_token_active
    wordotron_api.Auth.Session.revoke_refresh_token wordotron_api.Text.Decimal.format_int
    wordotron_api.Text.Decimal.parse_int wordotron_api.Text.eqs refresh
    wordotron_api.Repository.Users.get_by_id wordotron_api.Repository.Users.touch_last_login
refresh_once_example =
    refresh_once wiring raw signed_in (refresh wiring raw signed_in).1 claims 1 refreshed refreshed
      refl refl refl refl refl

refresh_replay_example :
    ((refresh wiring raw wiped).0
      ≡ err (fail (unauthorized_error "Session expired, please sign in again")))
    × ((refresh wiring raw wiped).1.db ≡ wiped.db)
    × IsOut wiring 1 (codes "j") (refresh wiring raw wiped).1
unfolding wordotron_api.Auth.Token.parse_refresh_token wordotron_api.Auth.Token.parse_token login
    wordotron_api.Repository.Users.get_by_email wordotron_api.Db.statement
    wordotron_api.Text.equal_fold normalize_email wordotron_api.Auth.Password.verify
    wordotron_api.Services.Auth.issue_session wordotron_api.Auth.Token.generate_token_pair
    wordotron_api.Auth.Token.sign_claims wordotron_api.Auth.Session.store_refresh_token
    wordotron_api.Redis.eval_all wordotron_api.Auth.Token.check_claims
    wordotron_api.Auth.Token.user_id_of role_valid
    wordotron_api.Auth.Session.is_refresh_token_active
    wordotron_api.Auth.Session.revoke_refresh_token wordotron_api.Text.Decimal.format_int
    wordotron_api.Text.Decimal.parse_int wordotron_api.Text.eqs
    wordotron_api.Repository.Users.touch_last_login wordotron_api.Auth.Session.revoke_all_sessions
refresh_replay_example = refresh_replay wiring raw (codes "j") wiped claims 1 refl refl refl refl

reset_password_once_example :
    (reset_password wiring
      (codes "t")
      (codes "new2")
      (reset_password wiring (codes "t") (codes "new") world).1).0
    ≢ ok tt
unfolding reset_password wordotron_api.Services.Auth.Links.usable_token
    wordotron_api.Repository.Tokens.get_by_token_hash wordotron_api.Db.statement
    wordotron_api.Text.eqs wordotron_api.Services.Auth.hash_token wordotron_api.Models.is_usable
    wordotron_api.Auth.Password.hash consume_reset with_tx wordotron_api.Repository.Tokens.mark_used
    wordotron_api.Db.Tokens.use_rows update_password
reset_password_once_example =
    reset_password_once wiring (codes "t") (codes "new") (codes "new2") world
      (reset_password wiring (codes "t") (codes "new") world).1 refl refl

verify_email_once_example :
    (verify_email wiring (codes "t") (verify_email wiring (codes "t") world).1).0 ≢ ok tt
unfolding verify_email wordotron_api.Services.Auth.Links.usable_token
    wordotron_api.Repository.Tokens.get_by_token_hash wordotron_api.Db.statement
    wordotron_api.Text.eqs wordotron_api.Services.Auth.hash_token wordotron_api.Models.is_usable
    wordotron_api.Services.Auth.Links.consume_verification with_tx
    wordotron_api.Repository.Tokens.mark_used wordotron_api.Db.Tokens.use_rows
    wordotron_api.Repository.Users.mark_email_verified
verify_email_once_example =
    verify_email_once wiring (codes "t") world (verify_email wiring (codes "t") world).1 refl refl

consume_reset_once_example :
    (consume_reset link (codes "two") (consume_reset link (codes "one") db).1).0 ≢ ok tt
unfolding consume_reset with_tx wordotron_api.Repository.Tokens.mark_used wordotron_api.Db.statement
    wordotron_api.Db.Tokens.use_rows update_password
consume_reset_once_example =
    consume_reset_once link (codes "one") (codes "two") db (consume_reset link (codes "one") db).1
      refl refl

replace_token-leaves_one_example :
    (id : Uuid) × (at : Time) × (keep_if
        (is_pending 1)
        (replace_token 1 (codes "x") 7 db).1.tables.password_resets
      ≡ new_token 1 (codes "x") 7 id at ∷ [])
unfolding replace_token with_tx wordotron_api.Repository.Tokens.invalidate_for_user
    wordotron_api.Db.statement wordotron_api.Db.Tokens.use_rows
    wordotron_api.Repository.Tokens.create wordotron_api.Db.Tokens.insert_token
    wordotron_api.Text.eqs
replace_token-leaves_one_example = replace_token-leaves_one 1 (codes "x") 7 db refl

forgot_password_silent_example :
    ((forgot_password wiring (codes "c@d") world).0 ≡ ok tt)
    × ((forgot_password wiring (codes "c@d") world).1.links ≡ world.links)
    × ((forgot_password wiring (codes "c@d") world).1.db.tables ≡ world.db.tables)
    × ((forgot_password wiring (codes "c@d") world).1.sessions ≡ world.sessions)
unfolding wordotron_api.Text.equal_fold normalize_email
forgot_password_silent_example = forgot_password_silent wiring (codes "c@d") world refl (inl refl)

-- A database whose commit at the third step loses its answer.
abbrev flaky : Db
flaky = record db { fault = λ n. if n == 2 then some broken else none; committed = λ n. true }

with_tx-outcome_example :
    IsAtomic db.tables
      (update_password 1 (codes "h") (begun flaky)).0
      (update_password 1 (codes "h") (begun flaky)).1.tables
      (with_tx (update_password 1 (codes "h")) flaky).0
      (with_tx (update_password 1 (codes "h")) flaky).1.tables
with_tx-outcome_example = with_tx-outcome (update_password 1 (codes "h")) flaky

update_own_example :
    (self.id ≡ 1)
    × (map privileges (update wiring self 1 new_name world).1.db.tables.users
        ≡ map privileges world.db.tables.users)
    × (keep_if (λ row. not (has_id 1 row)) (update wiring self 1 new_name world).1.db.tables.users
        ≡ keep_if (λ row. not (has_id 1 row)) world.db.tables.users)
unfolding is_admin wordotron_api.Text.eqs update wordotron_api.Repository.Users.update
    wordotron_api.Db.statement wordotron_api.Db.Users.change_user
update_own_example = update_own wiring self 1 new_name world renamed refl refl
