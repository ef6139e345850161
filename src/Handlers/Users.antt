-- ===== src/Handlers/Users.antt =====
-- app/handlers/user.go: the endpoints of the accounts.
pub mod Laws
use wordotron_api.Prelude.{Bool, true, false, Option, none, some, List, [], ◌∷◌, if◌then◌else◌}
use wordotron_api.Prelude.Int.{ℤ, ltz}
use wordotron_api.Prelude.Exec.{Result, ok, err, Exec, ◌>>=◌, ◌>>◌, pure, lift}
use wordotron_api.Text.{GoString, codes, eqs, is_empty}
use wordotron_api.Errors.{
  GoError, app, fail, with_fields, bad_request_error, payload_too_large_error, validation_error,
}
use wordotron_api.Models.{Uuid, Role, role_valid}
use wordotron_api.Models.Pagination.{PageMeta}
use wordotron_api.Models.Pagination.Request.{QueryReader, SortWhitelist, parse_page_params}
use wordotron_api.Services.World.{refuse_if}
use wordotron_api.Services.Auth.{Wiring}
use wordotron_api.Services.User.{
  Actor, get as get_user, list as list_accounts, create_user, update as update_user,
}
use wordotron_api.Services.User.Files.{
  Site, on_world, FileWiring, delete as delete_user, upload_avatar as store_avatar,
}
use wordotron_api.Serializers.{
  CreateUserRequest, UpdateUserRequest, UserResponse, to_user_response, to_user_responses,
}
use wordotron_api.Handlers.{Request, Body, Answer, bind, uuid_param, actor_from}

-- A file of a multipart form; `contents` is what opening it gives.
pub record FormFile : Type 0 where
  pub filename : GoString
  pub content_type : GoString
  pub size : ℤ
  pub contents : Result GoError GoString

abbrev pub user_sort_whitelist : SortWhitelist
user_sort_whitelist = record {
  allowed = codes "created_at" ∷ codes "updated_at" ∷ codes "email" ∷ codes "full_name" ∷ [];
  default = codes "created_at";
  message = "must be one of: created_at, updated_at, email, full_name";
}

abbrev pub missing_avatar : GoError → GoError
missing_avatar e =
    app
      (with_fields (record { field = "avatar"; message = "This field is required" } ∷ [])
        (bad_request_error "An avatar file is required"))
      e

-- The query parameter `role`; an empty one is none.
unfoldable pub role_filter : GoString → Result GoError (Option Role)
unfolding role_valid validation_error
role_filter raw =
    if is_empty raw
    then ok none
    else if role_valid raw
    then ok (some raw)
    else err (
        fail (
          validation_error
            (record { field = "role"; message = "Must be one of: user, admin" } ∷ [])))

-- The query parameter `is_active`.
unfoldable pub active_filter : GoString → Result GoError (Option Bool)
unfolding eqs validation_error
active_filter raw =
    if is_empty raw
    then ok none
    else if eqs raw (codes "true")
    then ok (some true)
    else if eqs raw (codes "false")
    then ok (some false)
    else err (
        fail (
          validation_error
            (record { field = "is_active"; message = "Must be true or false" } ∷ [])))

module _ {S F : Type 0} (wiring : Wiring S) (files : FileWiring F) where
  abbrev pub Handler : Type 0 → Type 0
  Handler A = Exec GoError (Site S F) A

  unfoldable pub me : Request → Handler (Answer UserResponse)
  unfolding actor_from get_user to_user_response
  me request = do
    actor ← lift (actor_from wiring.uuids request)
    user ← on_world (get_user wiring actor actor.id)
    pure (200, to_user_response user)

  -- Shared by both updates.
  abbrev pub update_account : Actor → Uuid → Body UpdateUserRequest → Handler (Answer UserResponse)
  update_account actor id body = do
    req ← lift (bind body)
    user ← on_world (
        update_user wiring actor id
          (record { full_name = req.full_name; role = req.role; is_active = req.is_active }))
    pure (200, to_user_response user)

  unfoldable pub update_me : Request → Body UpdateUserRequest → Handler (Answer UserResponse)
  unfolding actor_from bind update_user to_user_response
  update_me request body = do
    actor ← lift (actor_from wiring.uuids request)
    update_account actor actor.id body

  unfoldable pub update : Request → Body UpdateUserRequest → Handler (Answer UserResponse)
  unfolding actor_from uuid_param bind update_user to_user_response
  update request body = do
    actor ← lift (actor_from wiring.uuids request)
    id ← lift (uuid_param wiring.uuids request)
    update_account actor id body

  -- The file is opened behind the check of its size.
  abbrev pub take_avatar : Actor → FormFile → Handler (Answer UserResponse)
  take_avatar actor file = do
    on_world (
        refuse_if (ltz files.max_upload_bytes file.size)
          (fail (payload_too_large_error "Avatar exceeds the maximum upload size")))
    content ← lift (elim file.contents [
      | ok content ↦ ok content
      | err e ↦ err (app (bad_request_error "The uploaded file could not be read") e)
    ])
    user ← store_avatar wiring files actor actor.id (record {
      filename = file.filename;
      content_type = file.content_type;
      size = file.size;
      content = content;
    })
    pure (200, to_user_response user)

  abbrev pub form_file : Result GoError FormFile → Result GoError FormFile
  form_file (ok file) = ok file
  form_file (err e) = err (missing_avatar e)

  unfoldable pub upload_avatar : Request → Result GoError FormFile → Handler (Answer UserResponse)
  unfolding actor_from store_avatar to_user_response bad_request_error payload_too_large_error
  upload_avatar request file = do
    actor ← lift (actor_from wiring.uuids request)
    found ← lift (form_file file)
    take_avatar actor found

  unfoldable pub list :
      (GoString → GoString → Bool)
      → QueryReader
      → Request
      → Handler (Answer (List UserResponse × PageMeta))
  unfolding parse_page_params role_filter active_filter list_accounts to_user_responses
  list collation reader request = do
    page ← lift (parse_page_params reader user_sort_whitelist)
    role ← lift (role_filter (request.query (codes "role")))
    active ← lift (active_filter (request.query (codes "is_active")))
    found ←
        on_world
          (list_accounts wiring collation (record { page = page; role = role; is_active = active }))
    pure (200, (to_user_responses found.0, found.1))

  unfoldable pub create : Body CreateUserRequest → Handler (Answer UserResponse)
  unfolding bind create_user to_user_response
  create body = do
    req ← lift (bind body)
    user ← on_world (
        create_user wiring (record {
          email = req.email;
          password = req.password;
          full_name = req.full_name;
          role = req.role;
        }))
    pure (201, to_user_response user)

  unfoldable pub get : Request → Handler (Answer UserResponse)
  unfolding actor_from uuid_param get_user to_user_response
  get request = do
    actor ← lift (actor_from wiring.uuids request)
    id ← lift (uuid_param wiring.uuids request)
    user ← on_world (get_user wiring actor id)
    pure (200, to_user_response user)

  unfoldable pub delete : Request → Handler (Answer (Unit {0}))
  unfolding actor_from uuid_param delete_user
  delete request = do
    actor ← lift (actor_from wiring.uuids request)
    id ← lift (uuid_param wiring.uuids request)
    delete_user wiring files actor id
    pure (200, tt)
