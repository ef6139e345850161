-- ===== src/Tests/Guards.antt =====
-- The theorem on the guards of a request at the small world.
use wordotron_api.Prelude.{◌≡◌, ◌*◌, refl, true, [], ◌∷◌, ◌++◌}
use wordotron_api.Text.{GoString, codes}
use wordotron_api.Models.{second, role_user}
use wordotron_api.Redis.{Keyspace}
use wordotron_api.Auth.Token.{Claims, minted, access_type}
use wordotron_api.Services.World.{World}
use wordotron_api.Services.Auth.{LoginInput}
use wordotron_api.Services.Auth.Sessions.{login}
use wordotron_api.Middleware.{guarded, is_permitted}
use wordotron_api.Middleware.Laws.{IsSignedIn, guarded-eq-ok}
use wordotron_api.Tests.Instances.{jwt, uuids}
use wordotron_api.Tests.Worlds.{manager, wiring, world, value_or, nobody}

abbrev alice_login : LoginInput
alice_login = record { email = codes "a@b"; password = codes "pw" }

abbrev after_login : World Keyspace
after_login = (login wiring alice_login world).1

abbrev bearer : GoString
bearer = codes "bearer " ++ (value_or nobody (login wiring alice_login world).0).tokens.access_token

abbrev seen : Claims
seen = minted jwt uuids manager (100 * second) (900 * second) 70 1 role_user access_type

guarded-eq-ok_example :
    IsSignedIn wiring bearer after_login seen × (is_permitted (role_user ∷ []) seen ≡ true)
unfolding wordotron_api.Middleware.authenticate wordotron_api.Middleware.bearer_token
    wordotron_api.Middleware.require_roles login wordotron_api.Repository.Users.get_by_email
    wordotron_api.Db.statement wordotron_api.Text.equal_fold
    wordotron_api.Services.Auth.normalize_email wordotron_api.Auth.Password.verify
    wordotron_api.Services.Auth.issue_session wordotron_api.Auth.Token.generate_token_pair
    wordotron_api.Auth.Token.sign_claims wordotron_api.Auth.Session.store_refresh_token
    wordotron_api.Redis.eval_all wordotron_api.Auth.Token.parse_access_token
    wordotron_api.Auth.Token.parse_token wordotron_api.Auth.Token.check_claims
    wordotron_api.Auth.Token.user_id_of wordotron_api.Auth.Session.is_access_token_valid
    wordotron_api.Models.role_valid wordotron_api.Repository.Users.touch_last_login
    wordotron_api.Text.eqs wordotron_api.Text.trim_space
guarded-eq-ok_example = guarded-eq-ok wiring (role_user ∷ []) bearer after_login seen refl
