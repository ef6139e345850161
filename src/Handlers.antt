-- ===== src/Handlers.antt =====
-- app/handlers/handler.go and the accessors of app/middleware/auth.go: what the handlers share. The body
-- as fiber decodes it and the validator are parameters; a response is its status, its data and the
-- cookies that are set, also where it ends in an error.
pub mod Auth
pub mod Users
pub mod Words
use wordotron_api.Prelude.{ℕ, Bool, Option, none, some, List, [], ◌∷◌, ◌++◌}
use wordotron_api.Prelude.Int.{ℤ}
use wordotron_api.Prelude.Exec.{Result, ok, err, Exec}
use wordotron_api.Text.{GoString}
use wordotron_api.Errors.{
  GoError, FieldError, app, fail, with_fields, bad_request_error, unauthorized_error,
}
use wordotron_api.Models.{Uuid, Time}
use wordotron_api.Auth.Session.{Uuids}
use wordotron_api.Auth.Token.{Claims, user_id_of}
use wordotron_api.Services.User.{Actor}

-- What a handler reads of a request but its body: the claims of `Authenticate`, if it ran, the route
-- parameter `id`, the refresh cookie and the query string.
pub record Request : Type 0 where
  pub claims : Option Claims
  pub id : GoString
  pub refresh_cookie : GoString
  pub query : GoString → GoString

-- A decoded body: its value as the decoder left it, and the error, if there was one.
pub record Body (R : Type 0) : Type 0 where
  pub value : R
  pub decoding : Option GoError
  -- `Validator.Struct`
  pub validation : Option GoError

-- The refresh cookie; its name, its path and HTTPOnly are the same wherever one is set.
pub record Cookie : Type 0 where
  pub value : GoString
  pub domain : GoString
  pub expires : Time
  pub deleted : Bool
  pub secure : Bool
  pub same_site : GoString

-- The state behind a handler, and the cookies that it has set.
pub record Exchange (W : Type 0) : Type 0 where
  pub world : W
  pub cookies : List Cookie

-- A success: the status and the payload, which is empty where it is only a message.
abbrev pub Answer : Type 0 → Type 0
Answer A = ℕ × A

module _ {W : Type 0} where
  abbrev pub on_service : {A : Type 0} → Exec GoError W A → Exec GoError (Exchange W) A
  on_service m x = ((m x.world).0, record x { world = (m x.world).1 })

  abbrev pub set_cookie : Cookie → Exec GoError (Exchange W) (Unit {0})
  set_cookie cookie x = (ok tt, record x { cookies = x.cookies ++ cookie ∷ [] })

abbrev pub validated : {R : Type 0} → Body R → Option GoError → Result GoError R
validated body none = ok body.value
validated body (some e) = err e

-- `bind`
unfoldable pub bind : {R : Type 0} → Body R → Result GoError R
unfolding bad_request_error
bind body = elim body.decoding [
  | none ↦ validated body body.validation
  | some e ↦ err (app (bad_request_error "The request body is not valid JSON") e)
]

-- `uuidParam`, for the parameter `id`.
unfoldable pub uuid_param : Uuids → Request → Result GoError Uuid
unfolding bad_request_error
uuid_param uuids request = elim (uuids.parse request.id) [
  | ok id ↦ ok id
  | err e ↦ err (
      app
        (with_fields (record { field = "id"; message = "Must be a valid UUID" } ∷ [])
          (bad_request_error "Invalid identifier"))
        e)
]

-- `ClaimsFrom`
unfoldable pub claims_from : Request → Result GoError Claims
unfolding unauthorized_error
claims_from request = elim request.claims [
  | none ↦ err (fail (unauthorized_error ""))
  | some claims ↦ ok claims
]

-- `UserID`
unfoldable pub user_id : Uuids → Request → Result GoError Uuid
unfolding claims_from user_id_of
user_id uuids request = elim (claims_from request) [
  | err e ↦ err e
  | ok claims ↦ user_id_of uuids claims
]

abbrev pub actor_of : Claims → Result GoError Uuid → Result GoError Actor
actor_of claims (ok id) = ok (record { id = id; role = claims.role })
actor_of claims (err e) = err (app (unauthorized_error "") e)

-- `actorFrom`
unfoldable pub actor_from : Uuids → Request → Result GoError Actor
unfolding claims_from user_id_of unauthorized_error
actor_from uuids request = elim (claims_from request) [
  | err e ↦ err e
  | ok claims ↦ actor_of claims (user_id_of uuids claims)
]
