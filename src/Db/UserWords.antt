-- ===== src/Db/UserWords.antt =====
-- app/repository/db/user_words.sql.go: the statements on the table user_words, by their SQL text. The
-- key of a row is its user and its word. A day of an interval is 24 hours, as in the time zone UTC.
pub mod Leitner
pub mod Answers
pub mod Invariant
pub mod Progress
pub mod Listing
use wordotron_api.Prelude.{
  ℕ, suc, ◌+◌, ◌*◌, Bool, true, false, not, ◌&&◌, ◌||◌, Option, none, some, List, [], ◌∷◌, ◌++◌,
  ◌==◌, ltb, leb, find?, any, keep_if, map_if, or_else, length, if◌then◌else◌, map,
}
use wordotron_api.Prelude.Int.{ℤ}
use wordotron_api.Prelude.Exec.{Result, ok, err, Exec}
use wordotron_api.Text.{GoString, codes, eqs}
use wordotron_api.Errors.{
  GoError, sentinel, pgx_no_rows, pg, pg_check_violation, pg_unique_violation, pg_other,
}
use wordotron_api.Models.{Uuid, Time, hour, second}
use wordotron_api.Models.UserWords.{
  status_learning, status_known, status_archived, status_valid, max_box, UserWordStats,
}
use wordotron_api.Db.{Db, Tables, UserWordRow, WordRow, Statement, statement, query, one_row, now}
use wordotron_api.Db.Query.{
  char_length, fits_integer, unless_null, ilike_around, has_tags, order_by, then_by, limit_offset,
}
use wordotron_api.Db.Users.{has_id, coalesce, coalesce_null}

abbrev pub has_key : Uuid → Uuid → UserWordRow → Bool
has_key user_id word_id row = row.user_id == user_id && row.word_id == word_id

-- The checks of the table on one row.
unfoldable pub row_checked : UserWordRow → Bool
unfolding status_valid char_length
row_checked row =
    status_valid row.status
    && unless_null row.notes (λ s. leb (char_length s) 2000)
    && leb row.box max_box
    && leb row.correct_count row.review_count

pub record AddWordToUserParams : Type 0 where
  pub user_id : Uuid
  pub word_id : Uuid
  pub status : Option GoString
  pub notes : Option GoString
  pub is_favourite : Option Bool

abbrev pub new_user_word : AddWordToUserParams → Time → UserWordRow
new_user_word arg at = record {
  user_id = arg.user_id;
  word_id = arg.word_id;
  status = coalesce arg.status status_learning;
  notes = arg.notes;
  is_favourite = coalesce arg.is_favourite false;
  review_count = 0;
  correct_count = 0;
  box = 0;
  last_reviewed_at = none;
  due_at = at;
  added_at = at;
  updated_at = at;
}

-- The foreign keys of a new row.
abbrev pub refers : Uuid → Uuid → Tables → Bool
refers user_id word_id t = any (has_id user_id) t.users && any (λ w. w.id == word_id) t.words

abbrev pub touch : Time → UserWordRow → UserWordRow
touch at row = record row { updated_at = at }

-- The INSERT where no row has the key, and its ON CONFLICT where one has: an update, so that the
-- trigger of the table sets `updated_at` after all.
abbrev pub add_or_touch :
    AddWordToUserParams → Time → Option UserWordRow → Tables → Result GoError UserWordRow × Tables
add_or_touch arg at (some row) t = (
  ok (touch at row),
  record t { user_words = map_if (has_key arg.user_id arg.word_id) (touch at) t.user_words },
)
add_or_touch arg at none t =
    if refers arg.user_id arg.word_id t
    then (
      ok (new_user_word arg at),
      record t { user_words = t.user_words ++ new_user_word arg at ∷ [] },
    )
    else (err (pg pg_other), t)

-- A proposed row is checked before a conflict is looked for.
unfoldable pub insert_user_word : AddWordToUserParams → Statement UserWordRow
unfolding row_checked
insert_user_word arg id at t =
    if row_checked (new_user_word arg at)
    then add_or_touch arg at (find? (has_key arg.user_id arg.word_id) t.user_words) t
    else (err (pg pg_check_violation), t)

unfoldable pub add_word_to_user : AddWordToUserParams → Exec GoError Db UserWordRow
add_word_to_user arg = statement (insert_user_word arg)

unfoldable pub get_user_word : Uuid → Uuid → Exec GoError Db UserWordRow
get_user_word user_id word_id =
    statement (query (λ t. one_row (find? (has_key user_id word_id) t.user_words)))

-- Why an updated row is not stored: a count that an INTEGER does not hold, or a check of the table.
unfoldable pub row_error : UserWordRow → Option GoError
unfolding fits_integer row_checked
row_error row =
    if fits_integer row.review_count && fits_integer row.correct_count
    then (if row_checked row then none else some (pg pg_check_violation))
    else some (pg pg_other)

-- An UPDATE of the row with the key, with the trigger of the table.
abbrev pub store_change :
    Uuid
    → Uuid
    → (UserWordRow → UserWordRow)
    → Time
    → UserWordRow
    → Option GoError
    → Tables
    → Result GoError UserWordRow × Tables
store_change user_id word_id f at row (some e) t = (err e, t)
store_change user_id word_id f at row none t = (
  ok (touch at (f row)),
  record t { user_words = map_if (has_key user_id word_id) (λ r. touch at (f r)) t.user_words },
)

abbrev pub change_found :
    Uuid
    → Uuid
    → (UserWordRow → UserWordRow)
    → Time
    → Option UserWordRow
    → Tables
    → Result GoError UserWordRow × Tables
change_found user_id word_id f at none t = (err (sentinel pgx_no_rows), t)
change_found user_id word_id f at (some row) t =
    store_change user_id word_id f at row (row_error (f row)) t

unfoldable pub change_row : Uuid → Uuid → (Time → UserWordRow → UserWordRow) → Statement UserWordRow
unfolding row_error
change_row user_id word_id f id at t =
    change_found user_id word_id (f at) at (find? (has_key user_id word_id) t.user_words) t

abbrev pub minute : ℕ
minute = 60 * second

-- The interval until the next review, by the answer and the box before it.
unfoldable pub interval : Bool → ℕ → ℕ
interval correct box =
    if not correct
    then 10 * minute
    else if box + 1 == 1
    then 24 * hour
    else if box + 1 == 2
    then 48 * hour
    else if box + 1 == 3
    then 96 * hour
    else if box + 1 == 4
    then 168 * hour
    else 360 * hour

-- LEAST(box + 1, 5), or 0
unfoldable pub next_box : Bool → ℕ → ℕ
next_box correct box = if correct then (if leb (box + 1) 5 then box + 1 else 5) else 0

unfoldable pub next_status : Bool → UserWordRow → GoString
unfolding eqs
next_status correct row =
    if eqs row.status status_archived
    then row.status
    else if correct && leb 5 (row.box + 1)
    then status_known
    else status_learning

-- The SET clause of recordReview.
unfoldable pub review_row : Bool → Time → UserWordRow → UserWordRow
unfolding interval next_box next_status
review_row correct at row = record row {
  review_count = row.review_count + 1;
  correct_count = row.correct_count + (if correct then 1 else 0);
  box = next_box correct row.box;
  status = next_status correct row;
  last_reviewed_at = some at;
  due_at = at + interval correct row.box;
}

unfoldable pub record_review : Bool → Uuid → Uuid → Exec GoError Db UserWordRow
unfolding change_row review_row
record_review correct user_id word_id = statement (change_row user_id word_id (review_row correct))

pub record UpdateUserWordParams : Type 0 where
  pub status : Option GoString
  pub clear_notes : Bool
  pub notes : Option GoString
  pub is_favourite : Option Bool
  pub user_id : Uuid
  pub word_id : Uuid

unfoldable pub edit_row : UpdateUserWordParams → Time → UserWordRow → UserWordRow
edit_row arg at row = record row {
  status = coalesce arg.status row.status;
  notes = if arg.clear_notes then none else coalesce_null arg.notes row.notes;
  is_favourite = coalesce arg.is_favourite row.is_favourite;
}

unfoldable pub update_user_word : UpdateUserWordParams → Exec GoError Db UserWordRow
unfolding change_row edit_row
update_user_word arg = statement (change_row arg.user_id arg.word_id (edit_row arg))

unfoldable pub remove_word_from_user : Uuid → Uuid → Exec GoError Db ℕ
remove_word_from_user user_id word_id = statement (λ _ _ t. (
  ok (length (keep_if (has_key user_id word_id) t.user_words)),
  record t { user_words = keep_if (λ r. not (has_key user_id word_id r)) t.user_words },
))

-- due_at <= NOW() AND status <> 'archived'
unfoldable pub in_queue : Time → UserWordRow → Bool
unfolding eqs
in_queue at row = leb row.due_at at && not (eqs row.status status_archived)

abbrev pub sum_of : {A : Type 0} → (A → ℕ) → List A → ℕ
sum_of f [] = 0
sum_of f (x ∷ xs) = f x + sum_of f xs

-- COUNT(*) FILTER (WHERE test)
abbrev pub count_if : {A : Type 0} → (A → Bool) → List A → ℕ
count_if test rows = length (keep_if test rows)

unfoldable pub stats_of : Time → List UserWordRow → UserWordStats
unfolding in_queue eqs
stats_of at rows = record {
  total = length rows;
  learning = count_if (λ r. eqs r.status status_learning) rows;
  known = count_if (λ r. eqs r.status status_known) rows;
  archived = count_if (λ r. eqs r.status status_archived) rows;
  favourites = count_if (λ r. r.is_favourite) rows;
  due = count_if (in_queue at) rows;
  reviews = sum_of (λ r. r.review_count) rows;
  correct = sum_of (λ r. r.correct_count) rows;
}

unfoldable pub get_user_word_stats : Uuid → Exec GoError Db UserWordStats
unfolding stats_of
get_user_word_stats user_id =
    statement (λ _ at t. (ok (stats_of at (keep_if (λ r. r.user_id == user_id) t.user_words)), t))
