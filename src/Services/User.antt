-- ===== src/Services/User.antt =====
-- app/services/user.go: `Get`, `List`, `Create` and `Update`, with the rules on who may do what.
pub mod Access
pub mod Files
use wordotron_api.Prelude.{
  Bool, true, false, not, ◌&&◌, ◌||◌, Option, none, some, List, [], ◌∷◌, ◌==◌, if◌then◌else◌,
  is_some,
}
use wordotron_api.Prelude.Exec.{Exec, ◌>>=◌, ◌>>◌, pure, inspect}
use wordotron_api.Text.{GoString, eqs, is_empty, trim_space}
use wordotron_api.Errors.{
  GoError, fail, with_fields, forbidden_error, bad_request_error, conflict_error,
}
use wordotron_api.Models.{Uuid, Role, User, role_user, role_admin, role_valid}
use wordotron_api.Repository.Users.{get_by_id, create, email_taken, update as update_row}
use wordotron_api.Models.Pagination.{PageMeta, new_page_meta}
use wordotron_api.Repository.Users.Listing.{ListUsersFilter, list as list_accounts}
use wordotron_api.Services.World.{on_db, refuse_if}
use wordotron_api.Services.Auth.{Wiring, Service, normalize_email, hash_password, revoke_all}

pub record Actor : Type 0 where
  pub id : Uuid
  pub role : Role

unfoldable pub is_admin : Actor → Bool
is_admin actor = eqs actor.role role_admin

pub record CreateUserInput : Type 0 where
  pub email : GoString
  pub password : GoString
  pub full_name : GoString
  pub role : Role

pub record UpdateUserInput : Type 0 where
  pub full_name : Option GoString
  pub role : Option Role
  pub is_active : Option Bool

abbrev pub invalid_role : GoError
invalid_role = fail (
    with_fields (record { field = "role"; message = "Must be one of: user, admin" } ∷ [])
      (bad_request_error "Invalid role"))

-- `in.IsActive != nil && !*in.IsActive`
abbrev pub deactivates : Option Bool → Bool
deactivates none = false
deactivates (some active) = not active

-- `in.Role != nil && !in.Role.Valid()`
abbrev pub is_unknown_role : Option Role → Bool
is_unknown_role none = false
is_unknown_role (some role) = not (role_valid role)

abbrev pub trimmed : Option GoString → Option GoString
trimmed none = none
trimmed (some name) = some (trim_space name)

-- `authorize` refuses this caller.
unfoldable pub is_outsider : Actor → Uuid → Bool
unfolding is_admin
is_outsider actor id = not (is_admin actor || actor.id == id)

abbrev pub role_or_user : Role → Role
role_or_user role = if is_empty role then role_user else role

module _ {S : Type 0} (wiring : Wiring S) where
  unfoldable pub authorize : Actor → Uuid → Service wiring (Unit {0})
  unfolding is_outsider
  authorize actor id = refuse_if (is_outsider actor id) (fail (forbidden_error ""))

  unfoldable pub get : Actor → Uuid → Service wiring User
  unfolding authorize
  get actor id = do authorize actor id; on_db (get_by_id id)

  -- The administrator's list, under the collation of the database.
  unfoldable pub list :
      (GoString → GoString → Bool) → ListUsersFilter → Service wiring (List User × PageMeta)
  unfolding list_accounts new_page_meta
  list collation filter = do
    found ← on_db (list_accounts collation filter)
    pure (found.0, new_page_meta filter.page found.1)

  unfoldable pub create_user : CreateUserInput → Service wiring User
  create_user input = do
    refuse_if (not (role_valid (role_or_user input.role))) invalid_role
    exists ← on_db (email_taken (normalize_email input.email))
    refuse_if exists (fail (conflict_error "An account with this email already exists"))
    hashed ← hash_password wiring input.password
    on_db (
        create (record {
          email = normalize_email input.email;
          password_hash = hashed;
          full_name = trim_space input.full_name;
          role = role_or_user input.role;
        }))

  abbrev pub check_self : Actor → Uuid → UpdateUserInput → Service wiring (Unit {0})
  check_self actor id input =
      refuse_if (actor.id == id && deactivates input.is_active)
        (fail (bad_request_error "You cannot deactivate your own account"))

  abbrev pub check_values : Actor → Uuid → UpdateUserInput → Service wiring (Unit {0})
  check_values actor id input =
      refuse_if (is_unknown_role input.role) invalid_role >> check_self actor id input

  -- The checks of `Update` behind `authorize`.
  abbrev pub check_update : Actor → Uuid → UpdateUserInput → Service wiring (Unit {0})
  check_update actor id input =
      refuse_if (not (is_admin actor) && (is_some input.role || is_some input.is_active))
        (fail (forbidden_error "Only administrators can change role or activation status"))
      >> check_values actor id input

  -- Tokens minted under the old privileges are dropped.
  abbrev pub after_update : Uuid → UpdateUserInput → User → Service wiring User
  after_update id input user =
      if deactivates input.is_active || is_some input.role
      then inspect (revoke_all wiring id) (λ _. pure user)
      else pure user

  abbrev pub change_row : Uuid → UpdateUserInput → Service wiring User
  change_row id input = on_db (
      update_row id (record {
        full_name = trimmed input.full_name;
        avatar_url = none;
        role = input.role;
        is_active = input.is_active;
      }))

  unfoldable pub update : Actor → Uuid → UpdateUserInput → Service wiring User
  unfolding authorize
  update actor id input = do
    authorize actor id
    check_update actor id input
    user ← change_row id input
    after_update id input user
