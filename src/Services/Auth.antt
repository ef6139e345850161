-- ===== src/Services/Auth.antt =====
-- app/services/auth.go. The packages sha256, hex, base64 and net/url are an interface; log lines are
-- left out, except for the two that hand out a link.
pub mod Sessions
pub mod Accounts
pub mod Links
use wordotron_api.Prelude.{ℕ, ◌+◌, Bool, not, Option, [], ◌∷◌, ◌++◌, ◌==◌, if◌then◌else◌, is_none}
use wordotron_api.Prelude.Int.{sub_ℕ}
use wordotron_api.Prelude.Exec.{
  Result, ok, err, Exec, ◌>>=◌, ◌>>◌, pure, raise, lift, inspect, map_error,
}
use wordotron_api.Text.{GoString, codes, eqs, is_empty, to_lower, trim_space, trim_left, trim_right}
use wordotron_api.Errors.{
  GoError, FieldError, app, fail, wrap, is, has_code, not_found, internal_error, with_fields,
  unauthorized_error, forbidden_error, conflict_error, bad_request_error, err_password_mismatch,
}
use wordotron_api.Models.{Uuid, Time, User, Token, role_user, is_usable}
use wordotron_api.Db.{Db}
use wordotron_api.Db.Tokens.{Kind, password_reset, email_verification}
use wordotron_api.Db.Tx.{with_tx}
use wordotron_api.Repository.Users
use wordotron_api.Repository.Tokens
use wordotron_api.Redis.{Redis}
use wordotron_api.Auth.Session.{
  Uuids, store_refresh_token, revoke_refresh_token, is_refresh_token_active, revoke_all_sessions,
  blacklist_access_token,
}
use wordotron_api.Auth.Token.{
  Jwt, JwtManager, TokenPair, Claims, user_id_of, generate_token_pair, parse_refresh_token,
}
use wordotron_api.Auth.Password.{Bcrypt, hash, verify}
use wordotron_api.Services.World.{
  World, on_db, on_sessions, read_clock, draw_uuid, read_random, draw_salt, send_link, refuse_if,
}

pub record AuthResult : Type 0 where
  pub user : User
  pub tokens : TokenPair

pub record RegisterInput : Type 0 where
  pub email : GoString
  pub password : GoString
  pub full_name : GoString

pub record LoginInput : Type 0 where
  pub email : GoString
  pub password : GoString

pub record LogoutInput : Type 0 where
  pub user_id : Uuid
  pub access_jti : GoString
  pub access_expires_at : Time
  pub refresh_token : GoString

-- hex.EncodeToString(sha256.Sum256(...)), base64.RawURLEncoding and url.QueryEscape
pub record Codecs : Type 0 where
  pub sha256_hex : GoString → GoString
  pub base64_url : GoString → GoString
  pub query_escape : GoString → GoString

-- The configuration that the service reads.
pub record AuthConfig : Type 0 where
  pub refresh_ttl : Time
  pub bcrypt_cost : ℕ
  pub password_reset_expiry : Time
  pub email_verification_expiry : Time
  pub frontend_url : GoString
  pub reset_password_path : GoString
  pub verify_email_path : GoString

-- What the service is wired with.
pub record Wiring (S : Type 0) : Type 0 where
  pub redis : Redis S
  pub uuids : Uuids
  pub jwt : Jwt
  pub manager : JwtManager
  pub bcrypt : Bcrypt
  pub codecs : Codecs
  pub cfg : AuthConfig

unfoldable pub normalize_email : GoString → GoString
unfolding to_lower trim_space
normalize_email email = to_lower (trim_space email)

abbrev pub invalid_credentials : GoError
invalid_credentials = fail (unauthorized_error "Invalid email or password")

abbrev pub wrong_password : GoError
wrong_password = fail (
    with_fields (record { field = "current_password"; message = "Incorrect password" } ∷ [])
      (unauthorized_error "Current password is incorrect"))

abbrev pub same_password : GoError
same_password = fail (
    with_fields
      (record { field = "new_password"; message = "Must differ from the current password" } ∷ [])
      (bad_request_error "New password must differ from the current one"))

abbrev pub invalid_reset_link : GoError
invalid_reset_link = fail (bad_request_error "This reset link is invalid or has expired")

abbrev pub invalid_verification_link : GoError
invalid_verification_link =
    fail (bad_request_error "This verification link is invalid or has expired")

module _ {S : Type 0} (wiring : Wiring S) where
  abbrev pub Service : Type 0 → Type 0
  Service A = Exec GoError (World S) A

  unfoldable pub hash_token : GoString → GoString
  hash_token token = wiring.codecs.sha256_hex token

  -- A token and its hash.
  unfoldable pub generate_token : Service (GoString × GoString)
  unfolding hash_token
  generate_token = do
    raw ← map_error (wrap "generate token") read_random
    pure (wiring.codecs.base64_url raw, hash_token (wiring.codecs.base64_url raw))

  abbrev pub link_to : GoString → GoString → GoString
  link_to path token =
      trim_right b'/' wiring.cfg.frontend_url
      ++ codes "/"
      ++ trim_left b'/' path
      ++ codes "?token="
      ++ wiring.codecs.query_escape token

  unfoldable pub build_reset_url : GoString → GoString
  build_reset_url token = link_to wiring.cfg.reset_password_path token

  unfoldable pub build_verify_url : GoString → GoString
  build_verify_url token = link_to wiring.cfg.verify_email_path token

  abbrev pub hash_password : GoString → Service GoString
  hash_password password =
      map_error internal_error
        do salt ← draw_salt; lift (hash wiring.bcrypt wiring.cfg.bcrypt_cost salt password)

  abbrev pub verify_password : GoString → GoString → Result GoError (Unit {0})
  verify_password hashed password = verify wiring.bcrypt wiring.cfg.bcrypt_cost hashed password

  abbrev pub mint : User → Service TokenPair
  mint user = do
    access_jti ← draw_uuid
    refresh_jti ← draw_uuid
    now ← read_clock
    lift (
        generate_token_pair wiring.jwt wiring.uuids wiring.manager now access_jti refresh_jti
          user.id user.role)

  abbrev pub store_refresh : Uuid → GoString → Time → Service (Unit {0})
  store_refresh u jti expires_at = on_sessions (λ now.
      store_refresh_token wiring.redis wiring.uuids wiring.cfg.refresh_ttl now u jti expires_at)

  abbrev pub revoke_refresh : Uuid → GoString → Service (Unit {0})
  revoke_refresh u jti =
      on_sessions
        (λ now. revoke_refresh_token wiring.redis wiring.uuids wiring.cfg.refresh_ttl now u jti)

  abbrev pub revoke_all : Uuid → Service (Unit {0})
  revoke_all u =
      on_sessions
        (λ now. revoke_all_sessions wiring.redis wiring.uuids wiring.cfg.refresh_ttl now u)

  abbrev pub is_active_session : Uuid → GoString → Service Bool
  is_active_session u jti =
      on_sessions
        (λ now. is_refresh_token_active wiring.redis wiring.uuids wiring.cfg.refresh_ttl now u jti)

  unfoldable pub issue_session : User → Service AuthResult
  issue_session user = do
    pair ← map_error internal_error (mint user)
    map_error internal_error (store_refresh user.id pair.refresh_jti pair.refresh_expires_at)
    pure (record { user = user; tokens = pair })
