-- ===== src/Db.antt =====
-- The PostgreSQL database as the program sees it: the tables of migrations/, and the running of one
-- statement. A statement can fail in the driver, and then changes nothing; `fault` says which do. The
-- clock of NOW() and the identifiers of gen_random_uuid() are read at the number of the statement.
pub mod Query
pub mod Users
pub mod Tokens
pub mod Words
pub mod WordSenses
pub mod UserWords
pub mod OauthAccounts
pub mod Tx
use wordotron_api.Prelude.{
  ℕ, suc, Bool, true, false, ◌||◌, Option, none, some, List, ◌==◌, if◌then◌else◌, String,
}
use wordotron_api.Prelude.Int.{ℤ}
use wordotron_api.Prelude.Exec.{Result, ok, err, Exec}
use wordotron_api.Text.{GoString, equal_fold}
use wordotron_api.Errors.{
  GoError, sentinel, context_canceled, context_deadline_exceeded, pgx_no_rows, pg, pg_other, plain,
}
use wordotron_api.Models.{Uuid, Time, Token}

-- db.User; the role is checked by the table.
pub record UserRow : Type 0 where
  pub id : Uuid
  pub email : GoString
  pub password_hash : Option GoString
  pub full_name : GoString
  pub role : GoString
  pub avatar_url : Option GoString
  pub is_active : Bool
  pub email_verified_at : Option Time
  pub last_login_at : Option Time
  pub created_at : Time
  pub updated_at : Time

pub record WordRow : Type 0 where
  pub id : Uuid
  pub term : GoString
  pub language : GoString
  pub pronunciation : Option GoString
  -- NULL is not the empty array
  pub tags : Option (List GoString)
  pub created_by : Option Uuid
  pub created_at : Time
  pub updated_at : Time

pub record WordSenseRow : Type 0 where
  pub id : Uuid
  pub word_id : Uuid
  pub part_of_speech : Option GoString
  pub definition : GoString
  pub example : Option GoString
  pub meta : GoString
  pub sense_order : ℤ
  pub created_at : Time
  pub updated_at : Time

-- db.UserWord
pub record UserWordRow : Type 0 where
  pub user_id : Uuid
  pub word_id : Uuid
  pub status : GoString
  pub notes : Option GoString
  pub is_favourite : Bool
  pub review_count : ℕ
  pub correct_count : ℕ
  pub box : ℕ
  pub last_reviewed_at : Option Time
  pub due_at : Time
  pub added_at : Time
  pub updated_at : Time

-- db.OauthAccount
pub record OauthAccountRow : Type 0 where
  pub id : Uuid
  pub user_id : Uuid
  pub provider : GoString
  pub provider_account_id : GoString
  pub email : Option GoString
  pub created_at : Time
  pub updated_at : Time

-- How a statement fails in the driver, whatever it asks for.
pub data DriverFault : Type 0 where
  broken cancelled timed_out server_error : DriverFault

unfoldable pub driver_error : DriverFault → GoError
driver_error broken = plain "connection lost"
driver_error cancelled = sentinel context_canceled
driver_error timed_out = sentinel context_deadline_exceeded
driver_error server_error = pg pg_other

pub record Tables : Type 0 where
  pub users : List UserRow
  pub password_resets : List Token
  pub email_verifications : List Token
  pub words : List WordRow
  pub word_senses : List WordSenseRow
  pub user_words : List UserWordRow
  pub oauth_accounts : List OauthAccountRow

pub record Db : Type 0 where
  pub tables : Tables
  pub open tables use *
  -- the start of the transaction that the connection is in
  pub tx_start : Option Time
  -- the number of the next statement, and what the environment does at each
  pub step : ℕ
  pub fault : ℕ → Option DriverFault
  -- whether a COMMIT whose answer is an error or does not come took effect
  pub committed : ℕ → Bool
  pub clock : ℕ → Time
  pub ids : ℕ → Uuid

-- A statement reads gen_random_uuid() and NOW(), and gives a result and the changed tables.
abbrev pub Statement : Type 0 → Type 0
Statement A = Uuid → Time → Tables → Result GoError A × Tables

-- NOW(): in a transaction, the time of its start.
unfoldable pub now : Db → Time
now db = elim db.tx_start [ some t ↦ t | none ↦ db.clock db.step ]

abbrev pub advance : Db → Db
advance db = record db { step = suc db.step }

-- Runs one statement, unless the driver fails.
unfoldable pub statement : {A : Type 0} → Statement A → Exec GoError Db A
unfolding now
statement f db = elim (db.fault db.step) [
  | some d ↦ (err (driver_error d), advance db)
  | none ↦
      (let (r, after) = f (db.ids db.step) (now db) db.tables in
        (r, record db { tables = after; step = suc db.step }))
]

-- A statement that only reads.
abbrev pub query : {A : Type 0} → (Tables → Result GoError A) → Statement A
query f id at t = (f t, t)

-- The row of a :one query, or pgx.ErrNoRows.
abbrev pub one_row : {A : Type 0} → Option A → Result GoError A
one_row none = err (sentinel pgx_no_rows)
one_row (some a) = ok a
