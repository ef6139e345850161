-- ===== src/Tests/Endpoints.antt =====
-- Endpoints in the small world.
use wordotron_api.Prelude.{
  ◌≡◌, ◌*◌, Bool, refl, true, false, not, none, some, List, [], ◌∷◌, map, keep_if,
}
use wordotron_api.Prelude.Int.{pos}
use wordotron_api.Prelude.Exec.{ok, err}
use wordotron_api.Text.{GoString, codes, eqs}
use wordotron_api.Config.{Auth}
use wordotron_api.Redis.{Keyspace}
use wordotron_api.Services.World.{World}
use wordotron_api.Serializers.{LoginRequest, RefreshRequest}
use wordotron_api.Handlers.{Request, Body, Cookie, Exchange}
use wordotron_api.Handlers.Auth.{login, refresh, missing_token}
use wordotron_api.Models.{Uuid, second, role_user}
use wordotron_api.Auth.Token.{Claims, minted, access_type, user_id_of}
use wordotron_api.Db.Users.{has_id}
use wordotron_api.Services.User.Access.{privileges}
use wordotron_api.Serializers.{UpdateUserRequest}
use wordotron_api.Handlers.Users.{update_me}
use wordotron_api.Handlers.Users.Laws.{update_me-own}
use wordotron_api.Tests.Instances.{jwt, uuids}
use wordotron_api.Tests.Files.{file_wiring, site}
use wordotron_api.Tests.Worlds.{manager, wiring, world}

abbrev cookies_on : Auth
cookies_on = record {
  jwt_secret = [];
  jwt_expiry = pos 1;
  refresh_secret = [];
  refresh_expiry = pos 2;
  issuer = [];
  bcrypt_cost = pos 10;
  password_reset_expiry = pos 1;
  email_verification_expiry = pos 1;
  refresh_cookie = true;
  cookie_domain = codes "w";
  cookie_secure = true;
  cookie_same_site = codes "Lax";
}

abbrev arrived : Exchange (World Keyspace)
arrived = record { world = world; cookies = [] }

abbrev credentials : Body LoginRequest
credentials = record {
  value = record { email = codes "A@b"; password = codes "pw" };
  decoding = none;
  validation = none;
}

abbrev no_body : Body RefreshRequest
no_body = record { value = record { refresh_token = [] }; decoding = none; validation = none }

abbrev request : Request
request = record { claims = none; id = []; refresh_cookie = []; query = λ k. [] }

abbrev deletions : Exchange (World Keyspace) → List Bool
deletions x = map (λ (c : Cookie). c.deleted) x.cookies

-- A login sets the cookie; a refresh with a token that does not parse clears it; one without a token
-- is refused and sets none.
login-cookies : deletions (login wiring cookies_on credentials arrived).1 ≡ false ∷ []
unfolding login eqs wordotron_api.Repository.Users.get_by_email wordotron_api.Db.statement
    wordotron_api.Text.equal_fold wordotron_api.Services.Auth.normalize_email
    wordotron_api.Auth.Password.verify wordotron_api.Services.Auth.issue_session
    wordotron_api.Auth.Token.generate_token_pair wordotron_api.Auth.Token.sign_claims
    wordotron_api.Auth.Session.store_refresh_token wordotron_api.Redis.eval_all
login-cookies = refl

refresh-clears :
    deletions
      (refresh wiring cookies_on (record request { refresh_cookie = codes "x" }) no_body arrived).1
    ≡ true ∷ []
unfolding refresh eqs wordotron_api.Auth.Token.parse_refresh_token
    wordotron_api.Auth.Token.parse_token
refresh-clears = refl

refresh_without_token : (refresh wiring cookies_on request no_body arrived).0 ≡ err missing_token
unfolding refresh eqs
refresh_without_token = refl

abbrev signed_in : Claims
signed_in = minted jwt uuids manager (100 * second) (900 * second) 70 1 role_user access_type

abbrev own_request : Request
own_request = record request { claims = some signed_in }

abbrev new_profile : Body UpdateUserRequest
new_profile = record {
  value = record { full_name = some (codes "B"); role = none; is_active = none };
  decoding = none;
  validation = none;
}

update_me-own_example :
    (u : Uuid) × (user_id_of uuids signed_in ≡ ok u)
    × (map privileges
          (update_me wiring file_wiring own_request new_profile site).1.world.db.tables.users
        ≡ map privileges site.world.db.tables.users)
    × (keep_if
          (λ row. not (has_id u row))
          (update_me wiring file_wiring own_request new_profile site).1.world.db.tables.users
        ≡ keep_if (λ row. not (has_id u row)) site.world.db.tables.users)
    × ((update_me wiring file_wiring own_request new_profile site).1.files ≡ site.files)
unfolding update_me eqs wordotron_api.Repository.Users.update wordotron_api.Db.statement
    wordotron_api.Db.Users.change_user
update_me-own_example =
    update_me-own wiring file_wiring own_request new_profile site {claims = signed_in} refl refl
      refl
