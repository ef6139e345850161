-- ===== src/Auth/Password.antt =====
-- app/lib/auth/password.go: `BcryptHasher`. The package bcrypt is an interface; the salt of a hash is
-- the number of its draw from the random source.
use wordotron_api.Prelude.{ℕ, ◌≡◌, ltb, if◌then◌else◌, length}
use wordotron_api.Prelude.Exec.{Result, ok, err}
use wordotron_api.Text.{GoString}
use wordotron_api.Errors.{
  GoError, sentinel, plain, wrap, is, bcrypt_mismatch, err_password_mismatch,
}

-- golang.org/x/crypto/bcrypt: a hash is compared with the password that it was made of.
pub record Bcrypt : Type 0 where
  pub generate : ℕ → ℕ → GoString → Result GoError GoString
  pub compare : GoString → GoString → Result GoError (Unit {0})
  pub compare-generate :
      (salt cost : ℕ) (password : GoString) {hash : GoString}
      → generate salt cost password ≡ ok hash
      → compare hash password ≡ ok tt

module _ (bcrypt : Bcrypt) (cost : ℕ) where
  unfoldable pub hash : ℕ → GoString → Result GoError GoString
  hash salt password =
      if ltb 72 (length password)
      then err (plain "auth: password exceeds 72 bytes")
      else elim (bcrypt.generate salt cost password) [
        | ok hashed ↦ ok hashed
        | err e ↦ err (wrap "auth: hash password" e)
      ]

  unfoldable pub verify : GoString → GoString → Result GoError (Unit {0})
  verify hashed password = elim (bcrypt.compare hashed password) [
    | ok done ↦ ok done
    | err e ↦
        if is bcrypt_mismatch e
        then err (sentinel err_password_mismatch)
        else err (wrap "auth: compare password" e)
  ]
