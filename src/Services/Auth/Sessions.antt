-- ===== src/Services/Auth/Sessions.antt =====
-- The operations of app/services/auth.go on sessions: `Login`, `Refresh`, `Logout`, `LogoutAll` and
-- `ChangePassword`.
pub mod Login
pub mod Rotation
pub mod Change
use wordotron_api.Prelude.{Bool, true, false, not, ◌==◌, if◌then◌else◌, is_none}
use wordotron_api.Prelude.Int.{sub_ℕ, ℤ}
use wordotron_api.Prelude.Exec.{Result, ok, err, ◌>>=◌, ◌>>◌, pure, raise, lift, inspect, map_error}
use wordotron_api.Text.{GoString, eqs, is_empty}
use wordotron_api.Errors.{
  GoError, app, fail, is, has_code, not_found, internal_error, unauthorized_error, forbidden_error,
  err_password_mismatch,
}
use wordotron_api.Models.{Uuid, Time, User}
use wordotron_api.Repository.Users.{get_by_email, get_by_id, touch_last_login, update_password}
use wordotron_api.Auth.Session.{blacklist_access_token}
use wordotron_api.Auth.Token.{Claims, user_id_of, parse_refresh_token}
use wordotron_api.Services.World.{on_db, on_sessions, read_clock, refuse_if}
use wordotron_api.Services.Auth.{
  Wiring, Service, AuthResult, LoginInput, LogoutInput, normalize_email, invalid_credentials,
  wrong_password, same_password, hash_password, verify_password, issue_session, revoke_refresh,
  revoke_all, is_active_session,
}

module _ {S : Type 0} (wiring : Wiring S) where
  -- Behind the check of the password.
  abbrev pub admit : User → Service wiring AuthResult
  admit user =
      if not user.is_active
      then raise (fail (forbidden_error "This account has been deactivated"))
      else if is_none user.email_verified_at
      then raise (fail (forbidden_error "Please verify your email before signing in"))
      else inspect (on_db (touch_last_login user.id)) (λ _. issue_session wiring user)

  abbrev pub judge_password : User → Result GoError (Unit {0}) → Service wiring AuthResult
  judge_password user (ok done) = admit user
  judge_password user (err e) =
      if is err_password_mismatch e then raise invalid_credentials else raise (internal_error e)

  abbrev pub judge_login : GoString → Result GoError User → Service wiring AuthResult
  judge_login password (ok user) =
      judge_password user (verify_password wiring user.password_hash password)
  judge_login password (err e) = if has_code not_found e then raise invalid_credentials else raise e

  unfoldable pub login : LoginInput → Service wiring AuthResult
  login input =
      inspect (on_db (get_by_email (normalize_email input.email))) (judge_login input.password)

  -- The token is not registered any more: all sessions of the user are dropped.
  abbrev pub drop_sessions : Uuid → Service wiring AuthResult
  drop_sessions u =
      inspect (revoke_all wiring u)
        (λ _. raise (fail (unauthorized_error "Session expired, please sign in again")))

  abbrev pub rotate : User → Uuid → GoString → Service wiring AuthResult
  rotate user u jti =
      if not user.is_active
      then inspect (revoke_all wiring u)
          (λ _. raise (fail (forbidden_error "This account has been deactivated")))
      else (do map_error internal_error (revoke_refresh wiring u jti); issue_session wiring user)

  abbrev pub continue : Uuid → GoString → Bool → Service wiring AuthResult
  continue u jti false = drop_sessions u
  continue u jti true = do user ← on_db (get_by_id u); rotate user u jti

  unfoldable pub refresh : GoString → Service wiring AuthResult
  refresh refresh_token = do
    now ← read_clock
    claims ←
        map_error (app (unauthorized_error "Invalid or expired refresh token"))
          (lift (parse_refresh_token wiring.jwt wiring.uuids wiring.manager now refresh_token))
    u ←
        map_error (app (unauthorized_error "Invalid refresh token"))
          (lift (user_id_of wiring.uuids claims))
    active ← map_error internal_error (is_active_session wiring u claims.id)
    continue u claims.id active

  -- The refresh token of the caller, if it is one of theirs.
  abbrev pub revoke_own : Uuid → GoString → Result GoError Uuid → Service wiring (Unit {0})
  revoke_own caller jti (err e) = pure tt
  revoke_own caller jti (ok u) =
      if u == caller then map_error internal_error (revoke_refresh wiring caller jti) else pure tt

  abbrev pub revoke_claimed : Uuid → Result GoError Claims → Service wiring (Unit {0})
  revoke_claimed caller (err e) = pure tt
  revoke_claimed caller (ok claims) = revoke_own caller claims.id (user_id_of wiring.uuids claims)

  abbrev pub revoke_presented : Uuid → GoString → Service wiring (Unit {0})
  revoke_presented caller refresh_token = if is_empty refresh_token then pure tt else (do
    now ← read_clock
    revoke_claimed caller
        (parse_refresh_token wiring.jwt wiring.uuids wiring.manager now refresh_token))

  abbrev pub blacklist : GoString → ℤ → Service wiring (Unit {0})
  blacklist jti ttl =
      on_sessions
        (λ now. blacklist_access_token wiring.redis wiring.uuids wiring.cfg.refresh_ttl now jti ttl)

  abbrev pub blacklist_presented : GoString → Time → Service wiring (Unit {0})
  blacklist_presented jti expires_at =
      if is_empty jti
      then pure tt
      else (do now ← read_clock; map_error internal_error (blacklist jti (sub_ℕ expires_at now)))

  unfoldable pub logout : LogoutInput → Service wiring (Unit {0})
  logout input = do
    revoke_presented input.user_id input.refresh_token
    blacklist_presented input.access_jti input.access_expires_at

  unfoldable pub logout_all : Uuid → Service wiring (Unit {0})
  logout_all u = map_error internal_error (revoke_all wiring u)

  abbrev pub current_error : GoError → GoError
  current_error e = if is err_password_mismatch e then wrong_password else internal_error e

  unfoldable pub change_password : Uuid → GoString → GoString → Service wiring AuthResult
  change_password u current_password new_password = do
    user ← on_db (get_by_id u)
    map_error current_error (lift (verify_password wiring user.password_hash current_password))
    refuse_if (eqs current_password new_password) same_password
    hashed ← hash_password wiring new_password
    on_db (update_password user.id hashed)
    map_error internal_error (revoke_all wiring user.id)
    issue_session wiring user
