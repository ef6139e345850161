-- ===== src/Repository/Tokens.antt =====
-- app/repository/password_reset_repository.go and email_verification_repository.go, which differ in
-- the table and in the texts of their errors.
pub mod Laws
use wordotron_api.Prelude.{ℕ, String}
use wordotron_api.Prelude.Exec.{Exec, ◌>>=◌, ◌>>◌, pure, map_error}
use wordotron_api.Text.{GoString}
use wordotron_api.Errors.{GoError, fail, conflict_error, internal_error}
use wordotron_api.Models.{Uuid, Time, Token}
use wordotron_api.Db.{Db}
use wordotron_api.Db.Tokens.{
  Kind, password_reset, email_verification, create_token, get_token, mark_token_used,
  invalidate_user_tokens, delete_expired_tokens,
}
use wordotron_api.Repository.Users.{lookup_error, internal_wrap, refuse_zero}

abbrev resource : Kind → String
resource password_reset = "Reset token"
resource email_verification = "Verification token"

abbrev already_used : Kind → String
already_used password_reset = "This reset link has already been used"
already_used email_verification = "This verification link has already been used"

abbrev create_text : Kind → String
create_text password_reset = "create password reset token"
create_text email_verification = "create email verification token"

abbrev get_text : Kind → String
get_text password_reset = "get password reset token"
get_text email_verification = "get email verification token"

abbrev mark_text : Kind → String
mark_text password_reset = "mark reset token used"
mark_text email_verification = "mark verification token used"

abbrev invalidate_text : Kind → String
invalidate_text password_reset = "invalidate reset tokens"
invalidate_text email_verification = "invalidate verification tokens"

abbrev delete_text : Kind → String
delete_text password_reset = "delete expired reset tokens"
delete_text email_verification = "delete expired verification tokens"

unfoldable pub create : Kind → Uuid → GoString → Time → Exec GoError Db Token
unfolding create_token internal_error
create k user_id hash expires_at =
    map_error (internal_wrap (create_text k)) (create_token k user_id hash expires_at)

unfoldable pub get_by_token_hash : Kind → GoString → Exec GoError Db Token
unfolding get_token lookup_error
get_by_token_hash k hash = map_error (lookup_error (resource k) (get_text k)) (get_token k hash)

-- `MarkUsed`: no changed row means that the token was used before.
unfoldable pub mark_used : Kind → Uuid → Exec GoError Db (Unit {0})
unfolding mark_token_used internal_error conflict_error
mark_used k id = do
  affected ← map_error (internal_wrap (mark_text k)) (mark_token_used k id)
  refuse_zero (fail (conflict_error (already_used k))) affected

unfoldable pub invalidate_for_user : Kind → Uuid → Exec GoError Db (Unit {0})
unfolding invalidate_user_tokens internal_error
invalidate_for_user k user_id = do
  map_error (internal_wrap (invalidate_text k)) (invalidate_user_tokens k user_id)
  pure tt

unfoldable pub delete_expired : Kind → Exec GoError Db ℕ
unfolding delete_expired_tokens internal_error
delete_expired k = map_error (internal_wrap (delete_text k)) (delete_expired_tokens k)
