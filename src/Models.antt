-- ===== src/Models.antt =====
-- app/models: the domain types. A UUID is its 128-bit number, a time the nanoseconds since 1970, a
-- nil pointer `none`.
pub mod Pagination
pub mod Words
pub mod UserWords
use wordotron_api.Prelude.{ℕ, ◌*◌, ◌/◌, Bool, ◌&&◌, ◌||◌, Option, ltb, is_none}
use wordotron_api.Text.{GoString, codes, eqs}

abbrev pub Uuid : Type 0
Uuid = ℕ

abbrev pub Time : Type 0
Time = ℕ

-- time.Second
abbrev pub second : ℕ
second = 1_000_000_000

abbrev pub hour : ℕ
hour = 3600 * second

-- t.Unix()
abbrev pub unix : Time → ℕ
unix t = t / second

-- user.go

abbrev pub Role : Type 0
Role = GoString

abbrev pub role_user : Role
role_user = codes "user"

abbrev pub role_admin : Role
role_admin = codes "admin"

unfoldable pub role_valid : Role → Bool
unfolding eqs
role_valid r = eqs r role_user || eqs r role_admin

pub record User : Type 0 where
  pub id : Uuid
  pub email : GoString
  pub full_name : GoString
  pub role : Role
  pub avatar_url : Option GoString
  pub is_active : Bool
  pub email_verified_at : Option Time
  pub last_login_at : Option Time
  pub created_at : Time
  pub updated_at : Time
  pub password_hash : GoString

pub record CreateUserInput : Type 0 where
  pub email : GoString
  pub password_hash : GoString
  pub full_name : GoString
  pub role : Role

pub record UpdateUserInput : Type 0 where
  pub full_name : Option GoString
  pub avatar_url : Option GoString
  pub role : Option Role
  pub is_active : Option Bool

-- token.go: `PasswordResetToken` and `EmailVerificationToken` have the same fields.

pub record Token : Type 0 where
  pub id : Uuid
  pub user_id : Uuid
  pub token_hash : GoString
  pub expires_at : Time
  pub used_at : Option Time
  pub created_at : Time

-- `IsUsable` of both token types.
unfoldable pub is_usable : Token → Time → Bool
is_usable t now = is_none t.used_at && ltb now t.expires_at
