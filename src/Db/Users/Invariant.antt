-- ===== src/Db/Users/Invariant.antt =====
-- That no two accounts have the same email, through every statement on the table users.
use wordotron_api.Prelude.{
  ◌≡◌, refl, ap, Bool, ◌||◌, or_else, false, not, Option, some, arith, any, find?, Bool-cases, inl,
  inr,
}
use wordotron_api.Text.{GoString, equal_fold, to_lower}
use wordotron_api.Text.Laws.{eqs_iff}
use wordotron_api.Models.{Uuid, Time, role_valid}
use wordotron_api.Db.{Db, Tables, UserRow}
use wordotron_api.Db.OauthAccounts.{
  CreateOauthUserParams, new_oauth_user, insert_oauth_user, create_oauth_user, mark_email_verified,
  set_user_avatar_if_empty, first_of,
}
use wordotron_api.Db.Query.Distinct.{
  IsDistinct, IsDistinct-snoc, IsDistinct-map_if, IsDistinct-keep_if,
}
use wordotron_api.Db.Query.Laws.{statement-keeps}
use wordotron_api.Db.Users.{
  CreateUserParams, UpdateUserParams, has_id, has_email, insert_user, new_user_row, is_taken,
  set_user, change_user, update_row, row_allowed, create_user, update_user, update_user_password,
  update_last_login, mark_user_email_verified, delete_user,
}

abbrev same_email : UserRow → UserRow → Bool
same_email x y = has_email x.email y

equal_fold_sym : (s t : GoString) → equal_fold s t ≡ false → equal_fold t s ≡ false
unfolding equal_fold
equal_fold_sym s t h =
    ground (arith, eqs_iff (to_lower s) (to_lower t), eqs_iff (to_lower t) (to_lower s))

-- The emails of the table are pairwise different, whatever the case of their letters.
abbrev pub HasDistinctEmails : Tables → Type 0
HasDistinctEmails t = IsDistinct same_email t.users

insert_user-distinct :
    (arg : CreateUserParams) (id : Uuid) (at : Time) (t : Tables)
    → HasDistinctEmails t
    → HasDistinctEmails (insert_user arg id at t).1
unfolding insert_user
insert_user-distinct arg id at t h = elim (Bool-cases (role_valid arg.role)) [
  | inr p ↦ rw (p, insert_user) h
  | inl p ↦ elim (Bool-cases (is_taken arg id t)) [
    | inl q ↦ rw (p, q, insert_user) h
    | inr q ↦
        rw (p, q, insert_user)
          (IsDistinct-snoc same_email t.users (new_user_row arg id at) (free q)
            (λ y. equal_fold_sym y.email arg.email) h)
  ]
]
  where
    free : is_taken arg id t ≡ false → any (has_email arg.email) t.users ≡ false
    free q = ground arith

insert_oauth_user-distinct :
    (arg : CreateOauthUserParams) (id : Uuid) (at : Time) (t : Tables)
    → HasDistinctEmails t
    → HasDistinctEmails (insert_oauth_user arg id at t).1
unfolding insert_oauth_user
insert_oauth_user-distinct arg id at t h =
    elim (Bool-cases (any (has_email arg.email) t.users || any (has_id id) t.users)) [
      | inl q ↦ rw (q, insert_oauth_user) h
      | inr q ↦
          rw (q, insert_oauth_user)
            (IsDistinct-snoc same_email t.users (new_oauth_user arg id at) (ground arith)
              (λ y. equal_fold_sym y.email arg.email) h)
    ]

change_user-distinct :
    (arg : UpdateUserParams) (id : Uuid) (at : Time) (t : Tables)
    → HasDistinctEmails t
    → HasDistinctEmails (change_user arg id at t).1
unfolding change_user
change_user-distinct arg id at t h =
    elim (Bool-cases (row_allowed (find? (has_id arg.id) changed.users))) [
      | inl p ↦
          rw (p, change_user)
            (IsDistinct-map_if same_email (has_id arg.id) _ t.users (λ x y. refl) (λ x y. refl) h)
      | inr p ↦ rw (p, change_user) h
    ]
  where
    changed : Tables
    changed = set_user arg.id (update_row arg) at t

-- One statement on the table users.
pub data Writes : Db → Db → Type 0 where
  created : (arg : CreateUserParams) (db : Db) → Writes db (create_user arg db).1
  updated : (arg : UpdateUserParams) (db : Db) → Writes db (update_user arg db).1
  password :
      (id : Uuid) (hash : Option GoString) (db : Db) → Writes db (update_user_password id hash db).1
  login : (id : Uuid) (db : Db) → Writes db (update_last_login id db).1
  verified : (id : Uuid) (db : Db) → Writes db (mark_user_email_verified id db).1
  deleted : (id : Uuid) (db : Db) → Writes db (delete_user id db).1
  signed_up : (arg : CreateOauthUserParams) (db : Db) → Writes db (create_oauth_user arg db).1
  confirmed : (id : Uuid) (db : Db) → Writes db (mark_email_verified id db).1
  pictured :
      (id : Uuid) (avatar_url : Option GoString) (db : Db)
      → Writes db (set_user_avatar_if_empty id avatar_url db).1

-- Any number of them, in any order.
pub data Reaches (start : Db) : Db → Type 0 where
  here : Reaches start start
  then_write : (db after : Db) → Reaches start db → Writes db after → Reaches start after

set_user-distinct :
    (id : Uuid) (f : UserRow → UserRow) (at : Time) (t : Tables)
    → ((x : UserRow) → (f x).email ≡ x.email)
    → HasDistinctEmails t
    → HasDistinctEmails (set_user id f at t)
set_user-distinct id f at t same h =
    IsDistinct-map_if same_email (has_id id) (λ row. record (f row) { updated_at = at }) t.users
      (λ x y. ap (λ e. equal_fold y.email e) (same x))
      (λ x y. ap (λ e. equal_fold e x.email) (same y)) h

Writes-distinct :
    (db after : Db) → Writes db after → HasDistinctEmails db.tables → HasDistinctEmails after.tables
unfolding create_user update_user update_user_password update_last_login mark_user_email_verified
    delete_user create_oauth_user mark_email_verified set_user_avatar_if_empty
Writes-distinct _ _ (created arg db) h =
    statement-keeps HasDistinctEmails (insert_user arg) db (insert_user-distinct arg) h
Writes-distinct _ _ (updated arg db) h =
    statement-keeps HasDistinctEmails (change_user arg) db (change_user-distinct arg) h
Writes-distinct _ _ (password id hash db) h =
    statement-keeps HasDistinctEmails _ db
      (λ _ at t k.
        set_user-distinct id (λ row. record row { password_hash = hash }) at t (λ x. refl) k)
      h
Writes-distinct _ _ (login id db) h =
    statement-keeps HasDistinctEmails _ db
      (λ _ at t k.
        set_user-distinct id (λ row. record row { last_login_at = some at }) at t (λ x. refl) k)
      h
Writes-distinct _ _ (verified id db) h =
    statement-keeps HasDistinctEmails _ db
      (λ _ at t k.
        set_user-distinct id (λ row. record row { email_verified_at = some at }) at t (λ x. refl) k)
      h
Writes-distinct _ _ (deleted id db) h =
    statement-keeps HasDistinctEmails _ db
      (λ _ at t k. IsDistinct-keep_if same_email (λ row. not (has_id id row)) t.users k) h
Writes-distinct _ _ (signed_up arg db) h =
    statement-keeps HasDistinctEmails (insert_oauth_user arg) db (insert_oauth_user-distinct arg) h
Writes-distinct _ _ (confirmed id db) h =
    statement-keeps HasDistinctEmails _ db
      (λ _ at t k.
        set_user-distinct id
          (λ row. record row { email_verified_at = some (or_else row.email_verified_at at) }) at t
          (λ x. refl) k)
      h
Writes-distinct _ _ (pictured id avatar_url db) h =
    statement-keeps HasDistinctEmails _ db
      (λ _ at t k.
        set_user-distinct id (λ row. record row { avatar_url = first_of row.avatar_url avatar_url })
          at t (λ x. refl) k)
      h

-- From a table in which no two accounts have the same email, whatever the case of its letters, every
-- sequence of statements on users leads to such a table, wherever the driver fails on the way.
pub Reaches-distinct :
    (start db : Db)
    → HasDistinctEmails start.tables
    → Reaches start db
    → HasDistinctEmails db.tables
Reaches-distinct start _ h here = h
Reaches-distinct start _ h (then_write before db path write) =
    Writes-distinct before db write (Reaches-distinct start before h path)
