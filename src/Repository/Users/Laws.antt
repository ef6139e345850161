-- ===== src/Repository/Users/Laws.antt =====
-- What the lookups of the user repository find, and that they change no table.
use wordotron_api.Prelude.{◌≡◌, refl, Option, none, some, true, find?}
use wordotron_api.Prelude.Exec.{
  Result, ok, err, on_result, on_result-eq-ok, >>=-eq-ok, map_error, proceed-pure,
}
use wordotron_api.Text.{GoString}
use wordotron_api.Errors.{
  GoError, app, sentinel, pgx_no_rows, has_code, not_found, not_found_error, new_error, is,
  is_no_rows,
}
use wordotron_api.Models.{Uuid, User}
use wordotron_api.Db.{Db, Tables, UserRow, statement, query, one_row}
use wordotron_api.Db.Users.{has_id, has_email, get_user_by_email, get_user_by_id}
use wordotron_api.Db.Tokens.Laws.{statement-eq-ok, tables-query}
use wordotron_api.Repository.Users.{to_domain_user, lookup_error, get_by_email, get_by_id}

pub one_row-eq-ok : {A : Type 0} (o : Option A) {a : A} → one_row o ≡ ok a → o ≡ some a
one_row-eq-ok (some b) h = cc
one_row-eq-ok none h = absurd (cc)

pub get_by_email-eq-ok :
    (email : GoString) (db : Db) {user : User}
    → (get_by_email email db).0 ≡ ok user
    → (row : UserRow) × (find? (has_email email) db.tables.users ≡ some row)
      × (to_domain_user row ≡ user)
unfolding get_by_email get_user_by_email
get_by_email-eq-ok email db h =
    let lookup : Tables → Result GoError UserRow = λ t. one_row (find? (has_email email) t.users) in
    let (row, found, made, _) =
      >>=-eq-ok (map_error (lookup_error "User" "get user by email") (statement (query lookup))) _
        db h in
    let (read, _) =
      statement-eq-ok (query lookup) db (on_result-eq-ok _ (statement (query lookup) db).0 found) in
    (row, one_row-eq-ok _ read, cc)

pub get_by_id-eq-ok :
    (id : Uuid) (db : Db) {user : User}
    → (get_by_id id db).0 ≡ ok user
    → (row : UserRow) × (find? (has_id id) db.tables.users ≡ some row) × (to_domain_user row ≡ user)
unfolding get_by_id get_user_by_id
get_by_id-eq-ok id db h =
    let lookup : Tables → Result GoError UserRow = λ t. one_row (find? (has_id id) t.users) in
    let (row, found, made, _) =
      >>=-eq-ok (map_error (lookup_error "User" "get user by id") (statement (query lookup))) _ db
        h in
    let (read, _) =
      statement-eq-ok (query lookup) db (on_result-eq-ok _ (statement (query lookup) db).0 found) in
    (row, one_row-eq-ok _ read, cc)

-- A statement of a query that the driver runs.
pub statement-query :
    {A : Type 0} (f : Tables → Result GoError A) (db : Db)
    → db.fault db.step ≡ none
    → (statement (query f) db).0 ≡ f db.tables
unfolding statement
statement-query f db h = rw (h, statement) refl

-- An unknown email is an error with the code of a missing resource.
pub get_by_email_unknown :
    (email : GoString) (db : Db)
    → db.fault db.step ≡ none
    → find? (has_email email) db.tables.users ≡ none
    → (e : GoError) × ((get_by_email email db).0 ≡ err e) × (has_code not_found e ≡ true)
unfolding get_by_email get_user_by_email lookup_error is_no_rows is not_found_error new_error
    has_code
get_by_email_unknown email db h unknown =
    let p = statement-query (λ t. one_row (find? (has_email email) t.users)) db h in
    (app (not_found_error "User") (sentinel pgx_no_rows), rw (p, unknown) refl, refl)

pub get_by_email_known :
    (email : GoString) (db : Db) (row : UserRow)
    → db.fault db.step ≡ none
    → find? (has_email email) db.tables.users ≡ some row
    → (get_by_email email db).0 ≡ ok (to_domain_user row)
unfolding get_by_email get_user_by_email
get_by_email_known email db row h known =
    let p = statement-query (λ t. one_row (find? (has_email email) t.users)) db h in
    rw (p, known) refl

pub tables-get_by_email :
    (email : GoString) (db : Db) → (get_by_email email db).1.tables ≡ db.tables
unfolding get_by_email get_user_by_email
tables-get_by_email email db =
    let lookup : Tables → Result GoError UserRow = λ t. one_row (find? (has_email email) t.users) in
    rw
      (proceed-pure
        (on_result (lookup_error "User" "get user by email") (statement (query lookup) db).0)
        to_domain_user (statement (query lookup) db).1)
      (tables-query lookup db)

pub tables-get_by_id : (id : Uuid) (db : Db) → (get_by_id id db).1.tables ≡ db.tables
unfolding get_by_id get_user_by_id
tables-get_by_id id db =
    let lookup : Tables → Result GoError UserRow = λ t. one_row (find? (has_id id) t.users) in
    rw
      (proceed-pure
        (on_result (lookup_error "User" "get user by id") (statement (query lookup) db).0)
        to_domain_user (statement (query lookup) db).1)
      (tables-query lookup db)
