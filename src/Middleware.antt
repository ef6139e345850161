-- ===== src/Middleware.antt =====
-- app/middleware/auth.go: what stands before a handler that needs a signed-in caller. The claims that
-- `Authenticate` puts into the request are its value, with which the chain goes on.
pub mod Laws
pub mod RateLimit
pub mod RequestId
use wordotron_api.Prelude.{
  ℕ, Bool, not, ◌||◌, Option, none, some, List, [], ◌∷◌, any, take, drop, length, leb,
  if◌then◌else◌,
}
use wordotron_api.Prelude.Int.{ℤ, pos, negsuc}
use wordotron_api.Prelude.Exec.{Result, ok, err, ◌>>=◌, ◌>>◌, pure, lift, map_error}
use wordotron_api.Text.{GoString, codes, eqs, equal_fold, is_empty, trim_space}
use wordotron_api.Errors.{
  GoError, app, fail, is, internal_error, unauthorized_error, forbidden_error, err_expired_token,
}
use wordotron_api.Models.{Uuid, Role}
use wordotron_api.Auth.Session.{is_access_token_valid}
use wordotron_api.Auth.Token.{Claims, user_id_of, parse_access_token}
use wordotron_api.Services.World.{on_sessions, read_clock, refuse_if}
use wordotron_api.Services.Auth.{Wiring, Service}

abbrev pub bearer_prefix : GoString
bearer_prefix = codes "Bearer "

-- The header carries no token behind the prefix, in any case of its letters.
abbrev pub is_no_bearer : GoString → Bool
is_no_bearer header =
    leb (length header) (length bearer_prefix)
    || not (equal_fold (take (length bearer_prefix) header) bearer_prefix)

-- `bearerToken`, on the Authorization header.
unfoldable pub bearer_token : GoString → Result GoError GoString
bearer_token header =
    if is_empty header
    then err (fail (unauthorized_error "Authorization header is missing"))
    else if is_no_bearer header
    then err (fail (unauthorized_error "Authorization header must use the Bearer scheme"))
    else if is_empty (trim_space (drop (length bearer_prefix) header))
    then err (fail (unauthorized_error "Bearer token is empty"))
    else ok (trim_space (drop (length bearer_prefix) header))

-- `IssuedAtTime` of app/lib/auth/jwt.go in seconds: without the claim, those of the zero time.
abbrev pub issued_at_time : Option ℕ → ℤ
issued_at_time none = negsuc 62_135_596_799
issued_at_time (some seconds) = pos seconds

abbrev pub access_error : GoError → GoError
access_error e =
    if is err_expired_token e
    then app (unauthorized_error "Access token has expired") e
    else app (unauthorized_error "Invalid access token") e

-- `_, permitted := allowed[claims.Role]`
abbrev pub is_permitted : List Role → Claims → Bool
is_permitted roles claims = any (eqs claims.role) roles

module _ {S : Type 0} (wiring : Wiring S) where
  abbrev pub is_valid_access : Uuid → Claims → Service wiring Bool
  is_valid_access u claims = on_sessions (λ now.
      is_access_token_valid wiring.redis wiring.uuids wiring.cfg.refresh_ttl now u claims.id
        (issued_at_time claims.issued_at))

  abbrev pub check_session : Uuid → Claims → Service wiring Claims
  check_session u claims = do
    valid ← map_error internal_error (is_valid_access u claims)
    refuse_if (not valid)
        (fail (unauthorized_error "Session is no longer valid, please sign in again"))
    pure claims

  -- The user of the claims, and their session.
  abbrev pub identify : Claims → Service wiring Claims
  identify claims = do
    u ←
        map_error (app (unauthorized_error "Invalid access token"))
          (lift (user_id_of wiring.uuids claims))
    check_session u claims

  unfoldable pub authenticate : GoString → Service wiring Claims
  authenticate header = do
    raw ← lift (bearer_token header)
    now ← read_clock
    claims ←
        map_error access_error
          (lift (parse_access_token wiring.jwt wiring.uuids wiring.manager now raw))
    identify claims

  unfoldable pub require_roles : List Role → Claims → Service wiring Claims
  require_roles roles claims = do
    refuse_if (not (is_permitted roles claims)) (fail (forbidden_error ""))
    pure claims

  -- A route behind both.
  abbrev pub guarded : List Role → GoString → Service wiring Claims
  guarded roles header = authenticate header >>= require_roles roles
