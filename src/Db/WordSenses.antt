-- ===== src/Db/WordSenses.antt =====
-- app/repository/db/word_senses.sql.go: the statements on the table word_senses, by their SQL text. The
-- identifier is the primary key. A JSON value is one of its texts.
use wordotron_api.Prelude.{
  ℕ, Bool, not, ◌&&◌, Option, none, some, List, [], ◌∷◌, ◌++◌, ◌==◌, leb, find?, any, keep_if,
  map_if, length, if◌then◌else◌, or_else,
}
use wordotron_api.Prelude.Int.{ℤ, lez}
use wordotron_api.Prelude.Exec.{Result, ok, err, Exec}
use wordotron_api.Text.{GoString, codes}
use wordotron_api.Errors.{
  GoError, sentinel, pgx_no_rows, pg, pg_check_violation, pg_unique_violation, pg_other,
}
use wordotron_api.Models.{Uuid, Time}
use wordotron_api.Models.Words.{part_valid}
use wordotron_api.Db.{Db, Tables, WordSenseRow, Statement, statement, query, one_row}
use wordotron_api.Db.Query.{char_length, unless_null, order_by, then_by}
use wordotron_api.Db.Users.{coalesce, coalesce_null}
use wordotron_api.Db.Words.{has_word_id}

abbrev pub has_sense_id : Uuid → WordSenseRow → Bool
has_sense_id id row = row.id == id

abbrev pub is_sense_of : Uuid → WordSenseRow → Bool
is_sense_of word_id row = row.word_id == word_id

-- The checks of the table on one row.
unfoldable pub sense_checked : WordSenseRow → Bool
unfolding part_valid char_length
sense_checked row =
    unless_null row.part_of_speech part_valid
    && leb 1 (char_length row.definition)
    && leb (char_length row.definition) 2000
    && unless_null row.example (λ s. leb (char_length s) 2000)

pub record CreateWordSenseParams : Type 0 where
  pub word_id : Uuid
  pub definition : GoString
  pub part_of_speech : Option GoString
  pub example : Option GoString
  pub meta : Option GoString
  pub sense_order : ℤ

abbrev pub new_sense_row : CreateWordSenseParams → Uuid → Time → WordSenseRow
new_sense_row arg id at = record {
  id = id;
  word_id = arg.word_id;
  part_of_speech = arg.part_of_speech;
  definition = arg.definition;
  example = arg.example;
  meta = or_else arg.meta (codes "{}");
  sense_order = arg.sense_order;
  created_at = at;
  updated_at = at;
}

unfoldable pub insert_sense : CreateWordSenseParams → Statement WordSenseRow
unfolding sense_checked
insert_sense arg id at t =
    if not (sense_checked (new_sense_row arg id at))
    then (err (pg pg_check_violation), t)
    else if any (has_sense_id id) t.word_senses
    then (err (pg pg_unique_violation), t)
    else if any (has_word_id arg.word_id) t.words
    then (
      ok (new_sense_row arg id at),
      record t { word_senses = t.word_senses ++ new_sense_row arg id at ∷ [] },
    )
    else (err (pg pg_other), t)

unfoldable pub create_word_sense : CreateWordSenseParams → Exec GoError Db WordSenseRow
create_word_sense arg = statement (insert_sense arg)

abbrev pub drop_senses : (WordSenseRow → Bool) → Tables → Tables
drop_senses p t = record t { word_senses = keep_if (λ s. not (p s)) t.word_senses }

unfoldable pub delete_word_sense : Uuid → Exec GoError Db ℕ
delete_word_sense id = statement (λ _ _ t.
    (ok (length (keep_if (has_sense_id id) t.word_senses)), drop_senses (has_sense_id id) t))

unfoldable pub delete_word_senses_by_word : Uuid → Exec GoError Db (Unit {0})
delete_word_senses_by_word word_id =
    statement (λ _ _ t. (ok tt, drop_senses (is_sense_of word_id) t))

unfoldable pub get_word_sense : Uuid → Exec GoError Db WordSenseRow
get_word_sense id = statement (query (λ t. one_row (find? (has_sense_id id) t.word_senses)))

-- sense_order ASC, created_at ASC
abbrev pub sense_le : WordSenseRow → WordSenseRow → Bool
sense_le x y =
    then_by (lez x.sense_order y.sense_order) (lez y.sense_order x.sense_order)
      (leb x.created_at y.created_at)

unfoldable pub list_word_senses_by_word : Uuid → Exec GoError Db (List WordSenseRow)
unfolding order_by
list_word_senses_by_word word_id =
    statement (query (λ t. ok (order_by sense_le (keep_if (is_sense_of word_id) t.word_senses))))

-- word_id, sense_order ASC, created_at ASC
abbrev pub word_sense_le : WordSenseRow → WordSenseRow → Bool
word_sense_le x y = then_by (leb x.word_id y.word_id) (leb y.word_id x.word_id) (sense_le x y)

unfoldable pub list_word_senses_by_word_ids : List Uuid → Exec GoError Db (List WordSenseRow)
unfolding order_by
list_word_senses_by_word_ids word_ids = statement (
    query (λ t.
      ok (
        order_by word_sense_le
          (keep_if (λ s. any (λ id. s.word_id == id) word_ids) t.word_senses))))

pub record UpdateWordSenseParams : Type 0 where
  pub clear_part_of_speech : Bool
  pub part_of_speech : Option GoString
  pub definition : Option GoString
  pub clear_example : Bool
  pub example : Option GoString
  pub meta : Option GoString
  pub id : Uuid

-- The SET clause, and the trigger of the table.
unfoldable pub edit_sense : UpdateWordSenseParams → Time → WordSenseRow → WordSenseRow
edit_sense arg at row = record row {
  part_of_speech =
      if arg.clear_part_of_speech
      then none
      else coalesce_null arg.part_of_speech row.part_of_speech;
  definition = coalesce arg.definition row.definition;
  example = if arg.clear_example then none else coalesce_null arg.example row.example;
  meta = coalesce arg.meta row.meta;
  updated_at = at;
}

abbrev pub edit_found_sense :
    UpdateWordSenseParams
    → Time
    → Option WordSenseRow
    → Tables
    → Result GoError WordSenseRow × Tables
edit_found_sense arg at none t = (err (sentinel pgx_no_rows), t)
edit_found_sense arg at (some row) t =
    if sense_checked (edit_sense arg at row)
    then (
      ok (edit_sense arg at row),
      record t { word_senses = map_if (has_sense_id arg.id) (edit_sense arg at) t.word_senses },
    )
    else (err (pg pg_check_violation), t)

unfoldable pub change_sense : UpdateWordSenseParams → Statement WordSenseRow
unfolding sense_checked edit_sense
change_sense arg id at t = edit_found_sense arg at (find? (has_sense_id arg.id) t.word_senses) t

unfoldable pub update_word_sense : UpdateWordSenseParams → Exec GoError Db WordSenseRow
update_word_sense arg = statement (change_sense arg)
