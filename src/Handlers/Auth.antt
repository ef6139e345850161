-- ===== src/Handlers/Auth.antt =====
-- app/handlers/auth.go: the endpoints of the accounts' sessions, with the refresh token in the body or in
-- a cookie.
use wordotron_api.Prelude.{ℕ, ◌*◌, true, false, Option, none, some, [], ◌∷◌, if◌then◌else◌}
use wordotron_api.Prelude.Exec.{
  Result, ok, err, Exec, ◌>>=◌, ◌>>◌, pure, raise, lift, inspect, map_error,
}
use wordotron_api.Text.{GoString, is_empty}
use wordotron_api.Errors.{GoError, app, fail, with_fields, unauthorized_error}
use wordotron_api.Models.{Time, second}
use wordotron_api.Auth.Token.{user_id_of}
use wordotron_api.Config.{Auth}
use wordotron_api.Services.World.{World}
use wordotron_api.Services.Auth.{Wiring, AuthResult}
use wordotron_api.Services.Auth.Accounts.{register as register_account}
use wordotron_api.Services.Auth.Sessions.{
  login as start_session, refresh as rotate_session, logout as end_session,
  logout_all as end_sessions, change_password as replace_password,
}
use wordotron_api.Services.Auth.Links.{
  forgot_password as request_link, reset_password as use_reset_link,
  verify_email as use_verification_link,
}
use wordotron_api.Serializers.{
  RegisterRequest, LoginRequest, RefreshRequest, ChangePasswordRequest, ForgotPasswordRequest,
  ResetPasswordRequest, VerifyEmailRequest, UserResponse, AuthResponse, to_user_response,
  to_auth_response,
}
use wordotron_api.Handlers.{
  Request, Body, Exchange, Answer, on_service, set_cookie, bind, claims_from, user_id,
}

abbrev pub missing_token : GoError
missing_token = fail (
    with_fields (record { field = "refresh_token"; message = "This field is required" } ∷ [])
      (unauthorized_error "Refresh token is missing"))

-- The token of the body, else that of the cookie.
unfoldable pub presented_token : Request → GoString → GoString
presented_token request token = if is_empty token then request.refresh_cookie else token

-- In nanoseconds since 1970; without the claim the zero time, which lies before all of them, as 0.
abbrev pub expiry_of : Option ℕ → Time
expiry_of none = 0
expiry_of (some seconds) = seconds * second

module _ {S : Type 0} (wiring : Wiring S) (cfg : Auth) where
  abbrev pub Handler : Type 0 → Type 0
  Handler A = Exec GoError (Exchange (World S)) A

  unfoldable pub set_refresh_cookie : AuthResult → Handler (Unit {0})
  set_refresh_cookie result =
      if cfg.refresh_cookie
      then set_cookie (record {
        value = result.tokens.refresh_token;
        domain = cfg.cookie_domain;
        expires = result.tokens.refresh_expires_at;
        deleted = false;
        secure = cfg.cookie_secure;
        same_site = cfg.cookie_same_site;
      })
      else pure tt

  unfoldable pub clear_refresh_cookie : Handler (Unit {0})
  clear_refresh_cookie =
      if cfg.refresh_cookie
      then set_cookie (record {
        value = [];
        domain = cfg.cookie_domain;
        expires = 0;
        deleted = true;
        secure = cfg.cookie_secure;
        same_site = cfg.cookie_same_site;
      })
      else pure tt

  -- A session that was started goes out in the body and in the cookie.
  abbrev pub answer_session : AuthResult → Handler (Answer AuthResponse)
  answer_session result = do set_refresh_cookie result; pure (200, to_auth_response result)

  unfoldable pub register : Body RegisterRequest → Handler (Answer UserResponse)
  unfolding bind register_account to_user_response
  register body = do
    req ← lift (bind body)
    user ← on_service (
        register_account wiring
          (record { email = req.email; password = req.password; full_name = req.full_name }))
    pure (201, to_user_response user)

  unfoldable pub login : Body LoginRequest → Handler (Answer AuthResponse)
  unfolding bind start_session set_refresh_cookie to_auth_response
  login body = do
    req ← lift (bind body)
    result ←
        on_service (start_session wiring (record { email = req.email; password = req.password }))
    answer_session result

  abbrev pub answer_refresh : Result GoError AuthResult → Handler (Answer AuthResponse)
  answer_refresh (ok result) = answer_session result
  answer_refresh (err e) = clear_refresh_cookie >> raise e

  -- A body that does not decode is not an error here.
  unfoldable pub refresh : Request → Body RefreshRequest → Handler (Answer AuthResponse)
  unfolding presented_token rotate_session set_refresh_cookie clear_refresh_cookie to_auth_response
      unauthorized_error
  refresh request body =
      let token = presented_token request body.value.refresh_token in
      if is_empty token
      then raise missing_token
      else inspect (on_service (rotate_session wiring token)) answer_refresh

  unfoldable pub logout : Request → Body RefreshRequest → Handler (Answer (Unit {0}))
  unfolding claims_from user_id_of presented_token end_session clear_refresh_cookie
      unauthorized_error
  logout request body = do
    claims ← lift (claims_from request)
    caller ← map_error (app (unauthorized_error "")) (lift (user_id_of wiring.uuids claims))
    on_service (
        end_session wiring (record {
          user_id = caller;
          access_jti = claims.id;
          access_expires_at = expiry_of claims.expires_at;
          refresh_token = presented_token request body.value.refresh_token;
        }))
    clear_refresh_cookie
    pure (200, tt)

  unfoldable pub logout_all : Request → Handler (Answer (Unit {0}))
  unfolding user_id end_sessions clear_refresh_cookie
  logout_all request = do
    caller ← lift (user_id wiring.uuids request)
    on_service (end_sessions wiring caller)
    clear_refresh_cookie
    pure (200, tt)

  unfoldable pub change_password :
      Request → Body ChangePasswordRequest → Handler (Answer AuthResponse)
  unfolding user_id bind replace_password set_refresh_cookie to_auth_response
  change_password request body = do
    caller ← lift (user_id wiring.uuids request)
    req ← lift (bind body)
    result ← on_service (replace_password wiring caller req.current_password req.new_password)
    answer_session result

  unfoldable pub forgot_password : Body ForgotPasswordRequest → Handler (Answer (Unit {0}))
  unfolding bind request_link
  forgot_password body = do
    req ← lift (bind body)
    on_service (request_link wiring req.email)
    pure (200, tt)

  unfoldable pub reset_password : Body ResetPasswordRequest → Handler (Answer (Unit {0}))
  unfolding bind use_reset_link clear_refresh_cookie
  reset_password body = do
    req ← lift (bind body)
    on_service (use_reset_link wiring req.token req.new_password)
    clear_refresh_cookie
    pure (200, tt)

  unfoldable pub verify_email : Body VerifyEmailRequest → Handler (Answer (Unit {0}))
  unfolding bind use_verification_link
  verify_email body = do
    req ← lift (bind body)
    on_service (use_verification_link wiring req.token)
    pure (200, tt)
