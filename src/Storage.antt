-- ===== src/Storage.antt =====
-- app/lib/storage: the contract of the object storage, its keys, and the paths of the local provider. The
-- packages path and filepath and the providers themselves are parameters.
use wordotron_api.Prelude.{◌||◌, [], ◌∷◌, ◌++◌, length, ltb, if◌then◌else◌}
use wordotron_api.Prelude.Int.{ℤ}
use wordotron_api.Prelude.Exec.{Result, ok, err, Exec}
use wordotron_api.Text.{
  GoString, codes, is_empty, to_lower, contains, has_prefix, trim_prefix, trim_left, trim_right,
}
use wordotron_api.Errors.{GoError, plain}

pub record Object : Type 0 where
  pub key : GoString
  pub url : GoString

-- `Storage`: the operations that the services call, on the state of the provider.
pub record FileStore (F : Type 0) : Type 0 where
  -- the key, the content, its size and its type
  pub put : GoString → GoString → ℤ → GoString → Exec GoError F Object
  pub delete : GoString → Exec GoError F (Unit {0})

-- path.Ext, path.Join and path.Clean; filepath.Join after filepath.FromSlash
pub record Paths : Type 0 where
  pub ext : GoString → GoString
  pub join : GoString → GoString → GoString
  pub clean : GoString → GoString

module _ (paths : Paths) where
  abbrev pub clean_prefix : GoString → GoString
  clean_prefix prefix = trim_left b'/' (trim_right b'/' (paths.clean (b'/' ∷ prefix)))

  abbrev pub extension : GoString → GoString
  extension filename =
      let ext = to_lower (paths.ext filename) in if ltb 10 (length ext) then [] else ext

  -- The name is the text of a new UUID.
  unfoldable pub build_key : GoString → GoString → GoString → GoString
  unfolding trim_left trim_right to_lower
  build_key prefix filename name =
      if is_empty prefix
      then name ++ extension filename
      else paths.join (clean_prefix prefix) (name ++ extension filename)

  unfoldable pub validate_key : GoString → Result GoError (Unit {0})
  unfolding contains has_prefix
  validate_key key =
      if is_empty key
      then err (plain "storage: empty key")
      else if contains key (codes "..") || has_prefix key (codes "/") || contains key (codes "\\")
      then err (plain "storage: invalid key")
      else ok tt

  -- `Local.resolve`, for a root directory.
  unfoldable pub resolve : GoString → GoString → Result GoError GoString
  unfolding validate_key has_prefix
  resolve root key = elim (validate_key key) [
    | err e ↦ err e
    | ok _ ↦
        if has_prefix (paths.join root key) (root ++ codes "/")
        then ok (paths.join root key)
        else err (plain "storage: key escapes root")
  ]

-- `Local.URL`
unfoldable pub url_of : GoString → GoString → GoString
unfolding trim_prefix
url_of base key = base ++ codes "/" ++ trim_prefix key (codes "/")
