-- ===== src/Db/UserWords/Invariant.antt =====
-- That the table user_words stays sound through every statement on it.
use wordotron_api.Prelude.{
  ◌≡◌, refl, Bool, true, false, not, Option, none, some, List, [], ◌∷◌, ◌==◌, arith, find?, any,
  keep_if, All, Bool-cases, inl, inr,
}
use wordotron_api.Models.{Uuid, Time}
use wordotron_api.Errors.{GoError}
use wordotron_api.Db.{Db, Tables, UserWordRow}
use wordotron_api.Db.Query.Distinct.{
  IsDistinct, IsDistinct-snoc, IsDistinct-map_if, IsDistinct-keep_if, All-map_found,
}
use wordotron_api.Db.Query.Laws.{statement-keeps, All-snoc, All-keep_if, All-map_if}
use wordotron_api.Db.Users.{delete_user}
use wordotron_api.Db.UserWords.{
  AddWordToUserParams, UpdateUserWordParams, has_key, row_checked, row_error, new_user_word, touch,
  add_or_touch, insert_user_word, add_word_to_user, change_row, change_found, store_change,
  record_review, review_row, update_user_word, edit_row, remove_word_from_user, refers,
}

abbrev same_key : UserWordRow → UserWordRow → Bool
same_key x y = has_key x.user_id x.word_id y

-- Every row passes the checks of the table, so that its box is at most 5, its status one of the three
-- and its right answers no more than its reviews; and a person has a word at most once.
abbrev pub IsSound : Tables → Type 0
IsSound t = All (λ row. row_checked row ≡ true) t.user_words × IsDistinct same_key t.user_words

any-find? : {A : Type 0} (p : A → Bool) (xs : List A) → find? p xs ≡ none → any p xs ≡ false
any-find? p [] h = refl
any-find? p (x ∷ xs) h = ground (arith, any-find? p xs)

same_key-flip : (x y : UserWordRow) → same_key x y ≡ false → same_key y x ≡ false
same_key-flip x y h = ground arith

add_or_touch-IsSound :
    (arg : AddWordToUserParams) (at : Time) (found : Option UserWordRow) (t : Tables)
    → row_checked (new_user_word arg at) ≡ true
    → find? (has_key arg.user_id arg.word_id) t.user_words ≡ found
    → IsSound t
    → IsSound (add_or_touch arg at found t).1
unfolding row_checked
add_or_touch-IsSound arg at (some row) t checked same (rows, keys) = (
  All-map_if (λ r. row_checked r ≡ true) (has_key arg.user_id arg.word_id) (touch at) t.user_words
      (λ r _ k. k) rows,
  IsDistinct-map_if same_key (has_key arg.user_id arg.word_id) (touch at) t.user_words (λ x y. refl)
      (λ x y. refl) keys,
)
add_or_touch-IsSound arg at none t checked same (rows, keys) =
    elim (Bool-cases (refers arg.user_id arg.word_id t)) [
      | inr p ↦ rw p (rows, keys)
      | inl p ↦ rw p (
        All-snoc (λ r. row_checked r ≡ true) t.user_words (new_user_word arg at) rows checked,
        IsDistinct-snoc same_key t.user_words (new_user_word arg at)
            (any-find? (has_key arg.user_id arg.word_id) t.user_words same)
            (same_key-flip (new_user_word arg at)) keys,
      )
    ]

insert_user_word-IsSound :
    (arg : AddWordToUserParams) (id : Uuid) (at : Time) (t : Tables)
    → IsSound t
    → IsSound (insert_user_word arg id at t).1
unfolding insert_user_word
insert_user_word-IsSound arg id at t h = elim (Bool-cases (row_checked (new_user_word arg at))) [
  | inl p ↦ rw p (add_or_touch-IsSound arg at _ t p refl h)
  | inr p ↦ rw p h
]

-- Only the row that is found has the key.
same_key-reads :
    (user_id word_id : Uuid) (x y : UserWordRow)
    → has_key user_id word_id x ≡ true
    → same_key x y ≡ has_key user_id word_id y
same_key-reads user_id word_id x y h = ground arith

row_error-checked : (row : UserWordRow) → row_error row ≡ none → row_checked row ≡ true
unfolding row_error
row_error-checked row h = ground arith

module _ (user_id word_id : Uuid) (f : Time → UserWordRow → UserWordRow)
    (same : (at : Time) (x y : UserWordRow)
      → (same_key (f at x) y ≡ same_key x y) × (same_key x (f at y) ≡ same_key x y)) where
  store_change-IsSound :
      (at : Time) (row : UserWordRow) (e : Option GoError) (t : Tables)
      → row_error (f at row) ≡ e
      → find? (has_key user_id word_id) t.user_words ≡ some row
      → IsSound t
      → IsSound (store_change user_id word_id (f at) at row e t).1
  unfolding row_checked
  store_change-IsSound at row (some e) t refused found h = h
  store_change-IsSound at row none t taken found (rows, keys) = (
    All-map_found (λ r. row_checked r ≡ true) same_key (has_key user_id word_id)
        (λ r. touch at (f at r)) t.user_words row (same_key-reads user_id word_id) keys found
        (row_error-checked (f at row) taken) rows,
    IsDistinct-map_if same_key (has_key user_id word_id) (λ r. touch at (f at r)) t.user_words
        (λ x y. (same at x y).0) (λ x y. (same at x y).1) keys,
  )

  change_found-IsSound :
      (at : Time) (found : Option UserWordRow) (t : Tables)
      → find? (has_key user_id word_id) t.user_words ≡ found
      → IsSound t
      → IsSound (change_found user_id word_id (f at) at found t).1
  change_found-IsSound at none t at_key h = h
  change_found-IsSound at (some row) t at_key h =
      store_change-IsSound at row (row_error (f at row)) t refl at_key h

  change_row-IsSound :
      (id : Uuid) (at : Time) (t : Tables)
      → IsSound t
      → IsSound (change_row user_id word_id f id at t).1
  unfolding change_row
  change_row-IsSound id at t h =
      change_found-IsSound at (find? (has_key user_id word_id) t.user_words) t refl h

-- One statement on the table user_words, and the deletion of a user, which takes their words along.
data Writes : Db → Db → Type 0 where
  added : (arg : AddWordToUserParams) (db : Db) → Writes db (add_word_to_user arg db).1
  answered :
      (correct : Bool) (user_id word_id : Uuid) (db : Db)
      → Writes db (record_review correct user_id word_id db).1
  edited : (arg : UpdateUserWordParams) (db : Db) → Writes db (update_user_word arg db).1
  removed :
      (user_id word_id : Uuid) (db : Db) → Writes db (remove_word_from_user user_id word_id db).1
  user_deleted : (id : Uuid) (db : Db) → Writes db (delete_user id db).1

-- Any number of them, in any order.
data Reaches (start : Db) : Db → Type 0 where
  here : Reaches start start
  then_write : (db after : Db) → Reaches start db → Writes db after → Reaches start after

keep_rows-IsSound :
    (p : UserWordRow → Bool) (rows : List UserWordRow)
    → All (λ row. row_checked row ≡ true) rows × IsDistinct same_key rows
    → All (λ row. row_checked row ≡ true) (keep_if p rows) × IsDistinct same_key (keep_if p rows)
keep_rows-IsSound p rows (checked, keys) = (
  All-keep_if (λ r. row_checked r ≡ true) p rows checked,
  IsDistinct-keep_if same_key p rows keys,
)

Writes-IsSound : (db after : Db) → Writes db after → IsSound db.tables → IsSound after.tables
unfolding add_word_to_user record_review update_user_word remove_word_from_user delete_user
    review_row edit_row
Writes-IsSound _ _ (added arg db) h =
    statement-keeps IsSound (insert_user_word arg) db (insert_user_word-IsSound arg) h
Writes-IsSound _ _ (answered correct user_id word_id db) h =
    statement-keeps IsSound (change_row user_id word_id (review_row correct)) db
      (change_row-IsSound user_id word_id (review_row correct) (λ at x y. (refl, refl))) h
Writes-IsSound _ _ (edited arg db) h =
    statement-keeps IsSound (change_row arg.user_id arg.word_id (edit_row arg)) db
      (change_row-IsSound arg.user_id arg.word_id (edit_row arg) (λ at x y. (refl, refl))) h
Writes-IsSound _ _ (removed user_id word_id db) h =
    statement-keeps IsSound _ db
      (λ _ at t k. keep_rows-IsSound (λ r. not (has_key user_id word_id r)) t.user_words k) h
Writes-IsSound _ _ (user_deleted id db) h =
    statement-keeps IsSound _ db
      (λ _ at t k. keep_rows-IsSound (λ r. not (r.user_id == id)) t.user_words k) h

-- From a sound table, every sequence of additions, answers, edits, removals and deletions of users
-- leads to a sound one, wherever the driver fails on the way: each row passes the checks of the table,
-- and no person has a word twice.
Reaches-IsSound : (start db : Db) → IsSound start.tables → Reaches start db → IsSound db.tables
Reaches-IsSound start _ h here = h
Reaches-IsSound start _ h (then_write before db path write) =
    Writes-IsSound before db write (Reaches-IsSound start before h path)
