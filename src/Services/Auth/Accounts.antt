-- ===== src/Services/Auth/Accounts.antt =====
-- `Register` of app/services/auth.go.
use wordotron_api.Prelude.{◌+◌}
use wordotron_api.Prelude.Exec.{◌>>=◌, ◌>>◌, pure, map_error}
use wordotron_api.Text.{trim_space}
use wordotron_api.Errors.{fail, conflict_error, internal_error}
use wordotron_api.Models.{User, role_user}
use wordotron_api.Db.Tokens.{email_verification}
use wordotron_api.Repository.Users.{create, email_taken}
use wordotron_api.Repository.Tokens.{create as create_token}
use wordotron_api.Services.World.{on_db, read_clock, send_link, refuse_if}
use wordotron_api.Services.Auth.{
  Wiring, Service, RegisterInput, normalize_email, hash_password, generate_token, build_verify_url,
}

module _ {S : Type 0} (wiring : Wiring S) where
  unfoldable pub register : RegisterInput → Service wiring User
  register input = do
    exists ← on_db (email_taken (normalize_email input.email))
    refuse_if exists (fail (conflict_error "An account with this email already exists"))
    hashed ← hash_password wiring input.password
    user ← on_db (
        create (record {
          email = normalize_email input.email;
          password_hash = hashed;
          full_name = trim_space input.full_name;
          role = role_user;
        }))
    (token, token_hash) ← map_error internal_error (generate_token wiring)
    now ← read_clock
    on_db (
        create_token email_verification user.id token_hash
          (now + wiring.cfg.email_verification_expiry))
    send_link (build_verify_url wiring token)
    pure user
