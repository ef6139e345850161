-- ===== src/Tests/Files.antt =====
-- The storage of files as a list of keys, and the deletion of an account and the upload of an avatar over
-- it in the small world.
use wordotron_api.Prelude.{◌≡◌, refl, not, some, List, [], ◌∷◌, ◌++◌, keep_if, find?}
use wordotron_api.Prelude.Int.{pos}
use wordotron_api.Prelude.Exec.{ok}
use wordotron_api.Text.{GoString, codes, eqs}
use wordotron_api.Models.{role_user}
use wordotron_api.Redis.{Keyspace}
use wordotron_api.Db.{UserRow}
use wordotron_api.Db.Users.{has_id}
use wordotron_api.Storage.{FileStore}
use wordotron_api.Services.User.{Actor}
use wordotron_api.Services.User.Files.{Site, FileWiring, AvatarInput, delete, upload_avatar}
use wordotron_api.Services.User.Files.Laws.{MayDelete, IsGone, OthersStay, delete-eq-ok}
use wordotron_api.Tests.Worlds.{wiring, world, db, tables, alice}

abbrev pub disk : FileStore (List GoString)
disk = record {
  put = λ key content size type ks. (ok (record { key = key; url = codes "h/" ++ key }), key ∷ ks);
  delete = λ key ks. (ok tt, keep_if (λ k. not (eqs k key)) ks);
}

abbrev pub file_wiring : FileWiring (List GoString)
file_wiring = record {
  store = disk;
  paths = record { ext = λ s. codes ".png"; join = λ a b. a ++ codes "/" ++ b; clean = λ s. s };
  public_base_url = codes "h/";
  max_upload_bytes = pos 100;
}

abbrev pub pictured : UserRow
pictured = record alice { avatar_url = some (codes "h/avatars/old.png") }

abbrev pub site : Site Keyspace (List GoString)
site = record {
  world = record world { db = record db { tables = record tables { users = pictured ∷ [] } } };
  files = codes "avatars/old.png" ∷ [];
}

abbrev herself : Actor
herself = record { id = 1; role = role_user }

abbrev picture : AvatarInput
picture = record {
  filename = codes "me.PNG";
  content_type = codes "image/PNG; x";
  size = pos 9;
  content = codes "x";
}

-- The new avatar takes the place of the old one.
upload_avatar-files :
    (upload_avatar wiring file_wiring herself 1 picture site).1.files ≡ codes "avatars/F.png" ∷ []
unfolding upload_avatar eqs wordotron_api.Db.statement wordotron_api.Db.Users.change_user
upload_avatar-files = refl

delete-files : (delete wiring file_wiring herself 1 site).1.files ≡ []
unfolding delete eqs wordotron_api.Db.statement
delete-files = refl

delete-eq-ok_example :
    MayDelete herself 1
    × ((row : UserRow) × (find? (has_id 1) site.world.db.tables.users ≡ some row))
    × IsGone 1 (delete wiring file_wiring herself 1 site).1.world.db.tables
    × OthersStay 1 site.world.db.tables (delete wiring file_wiring herself 1 site).1.world.db.tables
unfolding delete eqs wordotron_api.Db.statement
delete-eq-ok_example = delete-eq-ok wiring file_wiring herself 1 site refl
