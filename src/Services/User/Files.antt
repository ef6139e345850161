-- ===== src/Services/User/Files.antt =====
-- app/services/user.go: `Delete` and `UploadAvatar`, which also act on the storage of files.
pub mod Laws
use wordotron_api.Prelude.{
  Bool, not, ◌&&◌, Option, none, some, List, [], ◌∷◌, ◌++◌, any, ◌==◌, if◌then◌else◌,
}
use wordotron_api.Prelude.Int.{ℤ, ltz}
use wordotron_api.Prelude.Exec.{Result, ok, err, Exec, ◌>>=◌, ◌>>◌, pure, raise, inspect, map_error}
use wordotron_api.Text.{
  GoString, codes, eqs, is_empty, to_lower, trim_space, trim_right, trim_prefix, has_prefix,
  before_byte,
}
use wordotron_api.Errors.{
  GoError, fail, internal_error, forbidden_error, bad_request_error, unsupported_media_type_error,
  payload_too_large_error,
}
use wordotron_api.Models.{Uuid, User}
use wordotron_api.Repository.Users.{get_by_id, update as update_row, delete as delete_row}
use wordotron_api.Storage.{FileStore, Paths, build_key}
use wordotron_api.Services.World.{World, on_db, draw_uuid, refuse_if}
use wordotron_api.Services.Auth.{Wiring, revoke_all}
use wordotron_api.Services.User.{Actor, is_admin, authorize}

-- The world and the storage.
pub record Site (S F : Type 0) : Type 0 where
  pub world : World S
  pub files : F

module _ {S F : Type 0} where
  abbrev pub on_world : {A : Type 0} → Exec GoError (World S) A → Exec GoError (Site S F) A
  on_world m site = ((m site.world).0, record site { world = (m site.world).1 })

  abbrev pub on_files : {A : Type 0} → Exec GoError F A → Exec GoError (Site S F) A
  on_files m site = ((m site.files).0, record site { files = (m site.files).1 })

pub record AvatarInput : Type 0 where
  pub filename : GoString
  pub content_type : GoString
  pub size : ℤ
  pub content : GoString

-- The storage that the service holds, and what it reads of the configuration.
pub record FileWiring (F : Type 0) : Type 0 where
  pub store : FileStore F
  pub paths : Paths
  pub public_base_url : GoString
  pub max_upload_bytes : ℤ

abbrev pub allowed_avatar_types : List GoString
allowed_avatar_types =
    codes "image/jpeg" ∷ codes "image/png" ∷ codes "image/webp" ∷ codes "image/gif" ∷ []

-- The media type without its parameters.
unfoldable pub media_type : GoString → GoString
unfolding before_byte trim_space to_lower
media_type s = to_lower (trim_space (before_byte b';' s))

unfoldable pub key_from_url : GoString → GoString → GoString
unfolding trim_right has_prefix trim_prefix
key_from_url base_url url =
    let base = trim_right b'/' base_url ++ codes "/" in
    if has_prefix url base then trim_prefix url base else []

module _ {S F : Type 0} (wiring : Wiring S) (files : FileWiring F) where
  abbrev pub OnSite : Type 0 → Type 0
  OnSite A = Exec GoError (Site S F) A

  -- A deletion whose error is only logged.
  abbrev pub clean_up : GoString → OnSite (Unit {0})
  clean_up key = inspect (on_files (files.store.delete key)) (λ _. pure tt)

  abbrev pub drop_avatar : Option GoString → OnSite (Unit {0})
  drop_avatar none = pure tt
  drop_avatar (some url) =
      let key = key_from_url files.public_base_url url in
      if is_empty key then pure tt else clean_up key

  -- `Delete` behind its checks.
  abbrev pub remove : Uuid → User → OnSite (Unit {0})
  remove id user =
      on_world (on_db (delete_row id))
      >> inspect (on_world (revoke_all wiring id)) (λ _. drop_avatar user.avatar_url)

  abbrev pub remove_found : Uuid → OnSite (Unit {0})
  remove_found id = on_world (on_db (get_by_id id)) >>= remove id

  -- The account of an administrator is not for the administrator to delete.
  abbrev pub spare_self : Actor → Uuid → OnSite (Unit {0})
  spare_self actor id =
      on_world (
        refuse_if (is_admin actor && actor.id == id)
          (fail (bad_request_error "Administrators cannot delete their own account")))
      >> remove_found id

  unfoldable pub delete : Actor → Uuid → OnSite (Unit {0})
  unfolding is_admin get_by_id delete_row key_from_url
  delete actor id =
      on_world
        (refuse_if (not (is_admin actor) && not (actor.id == id)) (fail (forbidden_error "")))
      >> spare_self actor id

  -- The previous avatar goes, unless the new one took its key.
  abbrev pub replace_avatar : GoString → Option GoString → OnSite (Unit {0})
  replace_avatar key none = pure tt
  replace_avatar key (some url) =
      let old_key = key_from_url files.public_base_url url in
      if not (is_empty old_key) && not (eqs old_key key) then clean_up old_key else pure tt

  -- The address of the avatar in the row; where that fails, the upload goes again.
  abbrev pub write_avatar : Uuid → GoString → GoString → OnSite User
  write_avatar id key url =
      inspect
        (on_world (
          on_db (
            update_row id
              (record { full_name = none; avatar_url = some url; role = none; is_active = none }))))
        (λ r. elim r [ ok user ↦ pure user | err e ↦ (clean_up key >> raise e) ])

  abbrev pub store_avatar : GoString → AvatarInput → Uuid → User → OnSite User
  store_avatar key input id existing = do
    object ←
        map_error internal_error
          (on_files (files.store.put key input.content input.size (media_type input.content_type)))
    user ← write_avatar id key object.url
    replace_avatar key existing.avatar_url
    pure user

  unfoldable pub upload_avatar : Actor → Uuid → AvatarInput → OnSite User
  unfolding authorize media_type eqs get_by_id build_key update_row key_from_url internal_error
  upload_avatar actor id input = do
    on_world (authorize wiring actor id)
    on_world (
        refuse_if (not (any (eqs (media_type input.content_type)) allowed_avatar_types))
          (fail (unsupported_media_type_error "Avatar must be a JPEG, PNG, WebP or GIF image")))
    on_world (
        refuse_if (ltz files.max_upload_bytes input.size)
          (fail (payload_too_large_error "Avatar exceeds the maximum upload size")))
    existing ← on_world (on_db (get_by_id id))
    name ← on_world draw_uuid
    store_avatar
        (build_key files.paths (codes "avatars") input.filename (wiring.uuids.to_text name)) input
        id existing
