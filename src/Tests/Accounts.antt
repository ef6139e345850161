-- ===== src/Tests/Accounts.antt =====
-- The theorems on accounts and passwords at the small world.
use wordotron_api.Prelude.{◌≡◌, refl, find?, some, none}
use wordotron_api.Text.{GoString, codes}
use wordotron_api.Models.{role_user}
use wordotron_api.Db.{UserRow}
use wordotron_api.Db.Users.{CreateUserParams, has_id, create_user}
use wordotron_api.Db.Users.Invariant.{
  HasDistinctEmails, here, then_write, created, Reaches-distinct,
}
use wordotron_api.Repository.Users.{to_domain_user}
use wordotron_api.Services.Auth.{AuthResult}
use wordotron_api.Services.Auth.Sessions.{change_password}
use wordotron_api.Services.Auth.Sessions.Rotation.{IsOut}
use wordotron_api.Services.Auth.Sessions.Change.{IsEntitled, change_password-eq-ok}
use wordotron_api.Tests.Worlds.{wiring, world, db, value_or, nobody}

abbrev bob : CreateUserParams
bob = record { email = codes "c@d"; password_hash = none; full_name = codes "B"; role = role_user }

abbrev changed : AuthResult
changed = value_or nobody (change_password wiring 1 (codes "pw") (codes "pw2") world).0

Reaches-distinct_example : HasDistinctEmails (create_user bob db).1.tables
Reaches-distinct_example =
    Reaches-distinct db (create_user bob db).1 (refl, tt)
      (then_write db (create_user bob db).1 here (created bob db))

change_password-eq-ok_example :
    ((row : UserRow) × (find? (has_id 1) world.db.tables.users ≡ some row)
      × IsEntitled wiring (codes "pw") (codes "pw2") (to_domain_user row))
    × IsOut wiring 1 (codes "j") (change_password wiring 1 (codes "pw") (codes "pw2") world).1
unfolding change_password wordotron_api.Repository.Users.get_by_id wordotron_api.Db.statement
    wordotron_api.Auth.Password.verify wordotron_api.Text.eqs wordotron_api.Auth.Password.hash
    wordotron_api.Repository.Users.update_password wordotron_api.Auth.Session.revoke_all_sessions
    wordotron_api.Redis.eval_all wordotron_api.Services.Auth.issue_session
    wordotron_api.Auth.Token.generate_token_pair wordotron_api.Auth.Token.sign_claims
    wordotron_api.Auth.Session.store_refresh_token
change_password-eq-ok_example =
    change_password-eq-ok wiring 1 (codes "pw") (codes "pw2") (codes "j") world changed refl refl
