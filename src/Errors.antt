-- ===== src/Errors.antt =====
-- app/lib/errors.go: the error type that travels to the HTTP boundary, and the Go error chains that
-- it stands in; the tests on database errors of app/lib/wordotronDb.go.
pub mod Laws
use Prim.Native.String
use wordotron_api.Prelude.{
  ℕ, String, Bool, true, false, ◌||◌, Option, none, some, List, [], ◌∷◌, ◌==◌, if◌then◌else◌,
}
use text.Mathlib.Text.{◌==◌ as str_eq}

pub data Code : Type 0 where
  bad_request validation unauthorized forbidden not_found conflict too_many_requests : Code
  payload_too_large unsupported_type internal unavailable : Code

pub record FieldError : Type 0 where
  pub field : String
  pub message : String

-- `Error` without its cause, which is the next link of the chain.
pub record AppError : Type 0 where
  pub code : Code
  pub status : ℕ
  pub message : String
  pub fields : List FieldError

-- The package-level error values that the program compares with errors.Is.
pub data Sentinel : Type 0 where
  err_invalid_token err_expired_token err_wrong_type err_password_mismatch : Sentinel
  err_state_not_found err_object_not_found jwt_token_expired redis_nil pgx_no_rows : Sentinel
  bcrypt_mismatch context_canceled context_deadline_exceeded : Sentinel
  err_exchange_failed err_identity_unusable : Sentinel

-- SQLSTATE of a `pgconn.PgError`: the two that the repositories test for, and the others.
pub data PgCode : Type 0 where
  pg_unique_violation pg_check_violation pg_other : PgCode

-- A value of Go's `error` by its chain of Unwrap: `no_error` ends the chain of an application error
-- with no cause, `wrap` is fmt.Errorf with %w, `plain` an error that wraps nothing.
pub data GoError : Type 0 where
  no_error : GoError
  app : AppError → GoError → GoError
  sentinel : Sentinel → GoError
  pg : PgCode → GoError
  fiber : ℕ → String → GoError
  plain : String → GoError
  wrap : String → GoError → GoError

unfoldable pub same_sentinel : Sentinel → Sentinel → Bool
same_sentinel err_invalid_token err_invalid_token = true
same_sentinel err_expired_token err_expired_token = true
same_sentinel err_wrong_type err_wrong_type = true
same_sentinel err_password_mismatch err_password_mismatch = true
same_sentinel err_state_not_found err_state_not_found = true
same_sentinel err_object_not_found err_object_not_found = true
same_sentinel jwt_token_expired jwt_token_expired = true
same_sentinel redis_nil redis_nil = true
same_sentinel pgx_no_rows pgx_no_rows = true
same_sentinel bcrypt_mismatch bcrypt_mismatch = true
same_sentinel context_canceled context_canceled = true
same_sentinel context_deadline_exceeded context_deadline_exceeded = true
same_sentinel err_exchange_failed err_exchange_failed = true
same_sentinel err_identity_unusable err_identity_unusable = true
same_sentinel _ _ = false

-- errors.Is(e, s)
unfoldable pub is : Sentinel → GoError → Bool
unfolding same_sentinel
is s no_error = false
is s (app a cause) = is s cause
is s (sentinel t) = same_sentinel s t
is s (pg c) = false
is s (fiber c m) = false
is s (plain m) = false
is s (wrap m e) = is s e

-- The first `*Error` of the chain, with its cause.
unfoldable pub as_app : GoError → Option (AppError × GoError)
as_app no_error = none
as_app (app a cause) = some (a, cause)
as_app (sentinel t) = none
as_app (pg c) = none
as_app (fiber c m) = none
as_app (plain m) = none
as_app (wrap m e) = as_app e

-- The first `*pgconn.PgError` of the chain.
unfoldable pub as_pg : GoError → Option PgCode
as_pg no_error = none
as_pg (app a cause) = as_pg cause
as_pg (sentinel t) = none
as_pg (pg c) = some c
as_pg (fiber c m) = none
as_pg (plain m) = none
as_pg (wrap m e) = as_pg e

abbrev same_pg : PgCode → PgCode → Bool
same_pg pg_unique_violation pg_unique_violation = true
same_pg pg_check_violation pg_check_violation = true
same_pg pg_other pg_other = true
same_pg _ _ = false

abbrev found_pg : Option PgCode → PgCode → Bool
found_pg none code = false
found_pg (some c) code = same_pg c code

unfoldable pub is_pg_error : GoError → PgCode → Bool
unfolding as_pg
is_pg_error e code = found_pg (as_pg e) code

unfoldable pub is_no_rows : GoError → Bool
unfolding is
is_no_rows e = is pgx_no_rows e

-- `Wrap`, `WithFields` and `WithMessage` on an error value: an `*Error` alone carries a cause.
unfoldable pub wrap_cause : AppError → GoError → GoError
wrap_cause a cause = app a cause

unfoldable pub with_fields : List FieldError → AppError → AppError
with_fields fields a = record a { fields = fields }

unfoldable pub with_message : String → AppError → AppError
with_message msg a = record a { message = msg }

unfoldable pub new_error : Code → ℕ → String → AppError
new_error code status message = record {
  code = code;
  status = status;
  message = message;
  fields = [];
}

abbrev or_default : String → String → String
or_default message default = if str_eq message "" then default else message

unfoldable pub bad_request_error : String → AppError
unfolding new_error
bad_request_error message = new_error bad_request 400 message

unfoldable pub validation_error : List FieldError → AppError
validation_error fields = record {
  code = validation;
  status = 422;
  message = "The request contains invalid fields";
  fields = fields;
}

unfoldable pub unauthorized_error : String → AppError
unfolding new_error
unauthorized_error message =
    new_error unauthorized 401 (or_default message "Authentication is required")

unfoldable pub forbidden_error : String → AppError
unfolding new_error
forbidden_error message =
    new_error forbidden 403 (or_default message "You do not have permission to perform this action")

unfoldable pub not_found_error : String → AppError
unfolding new_error
not_found_error resource =
    new_error not_found 404 (String.◌++◌ (or_default resource "Resource") " not found")

unfoldable pub conflict_error : String → AppError
unfolding new_error
conflict_error message = new_error conflict 409 message

unfoldable pub too_many_requests_error : String → AppError
unfolding new_error
too_many_requests_error message =
    new_error too_many_requests 429 (or_default message "Too many requests, please slow down")

unfoldable pub payload_too_large_error : String → AppError
unfolding new_error
payload_too_large_error message =
    new_error payload_too_large 413 (or_default message "Request body is too large")

unfoldable pub unsupported_media_type_error : String → AppError
unfolding new_error
unsupported_media_type_error message =
    new_error unsupported_type 415 (or_default message "Unsupported media type")

unfoldable pub internal_error : GoError → GoError
unfolding new_error wrap_cause
internal_error cause = wrap_cause (new_error internal 500 "An unexpected error occurred") cause

unfoldable pub unavailable_error : String → GoError → GoError
unfolding new_error wrap_cause
unavailable_error message cause =
    wrap_cause (new_error unavailable 503 (or_default message "Service temporarily unavailable"))
      cause

-- `From`: any error as an `*Error`.
unfoldable pub from : GoError → GoError
unfolding as_app internal_error
from no_error = no_error
from e = elim (as_app e) [ some (a, cause) ↦ app a cause | none ↦ internal_error e ]

-- An application error with no cause, as a value of `error`.
abbrev pub fail : AppError → GoError
fail a = app a no_error

unfoldable pub same_code : Code → Code → Bool
same_code bad_request bad_request = true
same_code validation validation = true
same_code unauthorized unauthorized = true
same_code forbidden forbidden = true
same_code not_found not_found = true
same_code conflict conflict = true
same_code too_many_requests too_many_requests = true
same_code payload_too_large payload_too_large = true
same_code unsupported_type unsupported_type = true
same_code internal internal = true
same_code unavailable unavailable = true
same_code _ _ = false

abbrev code_is : Code → Option (AppError × GoError) → Bool
code_is c none = false
code_is c (some (a, cause)) = same_code a.code c

-- `appErr, ok := lib.As(err); ok && appErr.Code == c`
unfoldable pub has_code : Code → GoError → Bool
unfolding as_app same_code
has_code c e = code_is c (as_app e)

-- The first `*fiber.Error` of the chain.
unfoldable pub as_fiber : GoError → Option (ℕ × String)
as_fiber no_error = none
as_fiber (app a cause) = as_fiber cause
as_fiber (sentinel t) = none
as_fiber (pg c) = none
as_fiber (fiber c m) = some (c, m)
as_fiber (plain m) = none
as_fiber (wrap m e) = as_fiber e

-- The switch on a fiber status in `translate`, in app/middleware/error.go.
unfoldable pub translate_fiber : ℕ → String → GoError → GoError
unfolding new_error wrap_cause payload_too_large_error bad_request_error
translate_fiber status message e =
    if status == 404
    then fail (new_error not_found 404 "The requested endpoint does not exist")
    else if status == 405
    then fail (new_error bad_request 405 "Method not allowed for this endpoint")
    else if status == 413
    then fail (payload_too_large_error "")
    else if status == 422 || status == 400
    then fail (bad_request_error "The request body could not be parsed")
    else wrap_cause (new_error internal status message) e

-- The tests of `translate` behind those for `*Error` and `*fiber.Error`.
unfoldable pub translate_context : GoError → GoError
unfolding new_error wrap_cause internal_error is
translate_context e =
    if is context_canceled e
    then wrap_cause (new_error bad_request 499 "Client closed the request") e
    else if is context_deadline_exceeded e
    then wrap_cause (new_error unavailable 504 "The request timed out") e
    else internal_error e

-- `translate` of app/middleware/error.go: every error as an `*Error`.
unfoldable pub translate : GoError → GoError
unfolding as_app as_fiber translate_fiber translate_context
translate e = elim (as_app e) [
  | some (a, cause) ↦ app a cause
  | none ↦ elim (as_fiber e) [
    | some (status, message) ↦ translate_fiber status message e
    | none ↦ translate_context e
  ]
]
