-- ===== src/Services/Auth/Links.antt =====
-- The operations of app/services/auth.go on single-use links: `ForgotPassword`, `ResetPassword` and
-- `VerifyEmail`.
pub mod SingleUse
pub mod Request
use wordotron_api.Prelude.{◌+◌, not, if◌then◌else◌}
use wordotron_api.Prelude.Exec.{Result, ok, err, Exec, ◌>>=◌, ◌>>◌, pure, raise, inspect, map_error}
use wordotron_api.Text.{GoString}
use wordotron_api.Errors.{GoError, has_code, not_found, internal_error}
use wordotron_api.Models.{Uuid, Time, User, Token, is_usable}
use wordotron_api.Db.{Db}
use wordotron_api.Db.Tokens.{Kind, password_reset, email_verification}
use wordotron_api.Db.Tx.{with_tx}
use wordotron_api.Repository.Users.{get_by_email, update_password, mark_email_verified}
use wordotron_api.Repository.Tokens.{create, get_by_token_hash, mark_used, invalidate_for_user}
use wordotron_api.Services.World.{on_db, read_clock, send_link, refuse_if}
use wordotron_api.Services.Auth.{
  Wiring, Service, normalize_email, invalid_reset_link, invalid_verification_link, hash_password,
  hash_token, generate_token, build_reset_url, revoke_all,
}

-- The transaction of `ForgotPassword`.
unfoldable pub replace_token : Uuid → GoString → Time → Exec GoError Db (Unit {0})
replace_token u hashed expires_at =
    with_tx
      do invalidate_for_user password_reset u; create password_reset u hashed expires_at; pure tt

-- The transaction of `ResetPassword`.
unfoldable pub consume_reset : Token → GoString → Exec GoError Db (Unit {0})
consume_reset token hashed =
    with_tx do mark_used password_reset token.id; update_password token.user_id hashed

-- The transaction of `VerifyEmail`.
unfoldable pub consume_verification : Token → Exec GoError Db (Unit {0})
consume_verification token =
    with_tx do mark_used email_verification token.id; mark_email_verified token.user_id

-- A token that is not there is an invalid link.
abbrev pub link_error : GoError → GoError → GoError
link_error invalid e = if has_code not_found e then invalid else e

module _ {S : Type 0} (wiring : Wiring S) where
  abbrev pub check_usable : GoError → Token → Service wiring Token
  check_usable invalid found = do
    now ← read_clock
    refuse_if (not (is_usable found now)) invalid
    pure found

  -- The token of a link, if it can still be used.
  unfoldable pub usable_token : Kind → GoError → GoString → Service wiring Token
  usable_token k invalid token = do
    found ← map_error (link_error invalid) (on_db (get_by_token_hash k (hash_token wiring token)))
    check_usable invalid found

  abbrev pub send_reset_link : User → Service wiring (Unit {0})
  send_reset_link user = if not user.is_active then pure tt else (do
    (token, hashed) ← map_error internal_error (generate_token wiring)
    now ← read_clock
    on_db (replace_token user.id hashed (now + wiring.cfg.password_reset_expiry))
    send_link (build_reset_url wiring token))

  abbrev pub judge_request : Result GoError User → Service wiring (Unit {0})
  judge_request (ok user) = send_reset_link user
  judge_request (err e) = if has_code not_found e then pure tt else raise e

  unfoldable pub forgot_password : GoString → Service wiring (Unit {0})
  forgot_password email = inspect (on_db (get_by_email (normalize_email email))) judge_request

  unfoldable pub reset_password : GoString → GoString → Service wiring (Unit {0})
  reset_password token new_password = do
    found ← usable_token password_reset invalid_reset_link token
    hashed ← hash_password wiring new_password
    on_db (consume_reset found hashed)
    inspect (revoke_all wiring found.user_id) (λ _. pure tt)

  unfoldable pub verify_email : GoString → Service wiring (Unit {0})
  verify_email token = do
    found ← usable_token email_verification invalid_verification_link token
    on_db (consume_verification found)
