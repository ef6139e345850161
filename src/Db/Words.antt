-- ===== src/Db/Words.antt =====
-- app/repository/db/words.sql.go: the statements on the table words, by their SQL text. The identifier is
-- the primary key, and no two words of a language have the same term; `term` is of type citext.
pub mod Tags
use wordotron_api.Prelude.{
  ℕ, ◌+◌, Bool, true, false, not, ◌&&◌, ◌||◌, Option, none, some, List, [], ◌∷◌, ◌++◌, ◌==◌, leb,
  find?, any, keep_if, map_if, length, if◌then◌else◌,
}
use wordotron_api.Prelude.Int.{ℤ}
use wordotron_api.Prelude.Exec.{Result, ok, err, Exec}
use wordotron_api.Text.{GoString, codes, eqs, equal_fold}
use wordotron_api.Errors.{
  GoError, sentinel, pgx_no_rows, pg, pg_check_violation, pg_unique_violation, pg_other,
}
use wordotron_api.Models.{Uuid, Time}
use wordotron_api.Models.Pagination.{sort_asc, sort_desc}
use wordotron_api.Db.{Db, Tables, WordRow, Statement, statement, query, one_row}
use wordotron_api.Db.Query.{
  char_length, unless_null, ilike_around, has_tags, order_by, then_by, limit_offset,
}
use wordotron_api.Db.Users.{has_id, coalesce, coalesce_null}

abbrev pub has_word_id : Uuid → WordRow → Bool
has_word_id id row = row.id == id

abbrev pub has_term : GoString → GoString → WordRow → Bool
has_term language term row = eqs row.language language && equal_fold row.term term

abbrev pub is_small : ℕ → Bool
is_small c = leb b'a' c && leb c b'z'

abbrev is_alphanumeric : ℕ → Bool
is_alphanumeric c = is_small c || (leb b'A' c && leb c b'Z') || (leb b'0' c && leb c b'9')

-- (-[A-Za-z0-9]{2,8})*, behind `n` characters of a subtag
abbrev in_subtag : ℕ → GoString → Bool
in_subtag n [] = leb 2 n && leb n 8
in_subtag n (c ∷ s) =
    let next = in_subtag 0 s in
    let more = in_subtag (n + 1) s in
    if c == b'-' then leb 2 n && leb n 8 && next else is_alphanumeric c && more

abbrev subtags : GoString → Bool
subtags [] = true
subtags (c ∷ s) = c == b'-' && in_subtag 0 s

-- language ~ '^[a-z]{2}(-[A-Za-z0-9]{2,8})*$'
unfoldable pub language_ok : GoString → Bool
language_ok [] = false
language_ok (c ∷ []) = false
language_ok (c ∷ d ∷ s) = is_small c && is_small d && subtags s

-- The checks of the table on one row.
unfoldable pub word_checked : WordRow → Bool
unfolding language_ok char_length
word_checked row =
    language_ok row.language && unless_null row.pronunciation (λ s. leb (char_length s) 200)

-- The unique indexes: another row has the identifier, or the term in the language.
abbrev pub clashes : WordRow → WordRow → Bool
clashes row other = other.id == row.id || has_term row.language row.term other

pub record CreateWordParams : Type 0 where
  pub term : GoString
  pub language : GoString
  pub pronunciation : Option GoString
  pub tags : Option (List GoString)
  pub created_by : Option Uuid

abbrev pub new_word_row : CreateWordParams → Uuid → Time → WordRow
new_word_row arg id at = record {
  id = id;
  term = arg.term;
  language = arg.language;
  pronunciation = arg.pronunciation;
  tags = arg.tags;
  created_by = arg.created_by;
  created_at = at;
  updated_at = at;
}

unfoldable pub insert_word : CreateWordParams → Statement WordRow
unfolding word_checked
insert_word arg id at t =
    if not (word_checked (new_word_row arg id at))
    then (err (pg pg_check_violation), t)
    else if any (clashes (new_word_row arg id at)) t.words
    then (err (pg pg_unique_violation), t)
    else if unless_null arg.created_by (λ u. any (has_id u) t.users)
    then (ok (new_word_row arg id at), record t { words = t.words ++ new_word_row arg id at ∷ [] })
    else (err (pg pg_other), t)

unfoldable pub create_word : CreateWordParams → Exec GoError Db WordRow
create_word arg = statement (insert_word arg)

-- The foreign keys of the other tables delete what belongs to the word.
abbrev pub without_word : Uuid → Tables → Tables
without_word id t = record t {
  words = keep_if (λ w. not (has_word_id id w)) t.words;
  word_senses = keep_if (λ s. not (s.word_id == id)) t.word_senses;
  user_words = keep_if (λ r. not (r.word_id == id)) t.user_words;
}

unfoldable pub delete_word : Uuid → Exec GoError Db ℕ
delete_word id =
    statement (λ _ _ t. (ok (length (keep_if (has_word_id id) t.words)), without_word id t))

unfoldable pub get_word : Uuid → Exec GoError Db WordRow
get_word id = statement (query (λ t. one_row (find? (has_word_id id) t.words)))

unfoldable pub get_word_by_term : GoString → GoString → Exec GoError Db WordRow
get_word_by_term language term =
    statement (query (λ t. one_row (find? (has_term language term) t.words)))

pub record UpdateWordParams : Type 0 where
  pub term : Option GoString
  pub language : Option GoString
  pub clear_pronunciation : Bool
  pub pronunciation : Option GoString
  pub tags : Option (List GoString)
  pub id : Uuid

-- The SET clause, and the trigger of the table.
unfoldable pub edit_word : UpdateWordParams → Time → WordRow → WordRow
edit_word arg at row = record row {
  term = coalesce arg.term row.term;
  language = coalesce arg.language row.language;
  pronunciation =
      if arg.clear_pronunciation then none else coalesce_null arg.pronunciation row.pronunciation;
  tags = coalesce_null arg.tags row.tags;
  updated_at = at;
}

abbrev others : Uuid → List WordRow → List WordRow
others id words = keep_if (λ w. not (has_word_id id w)) words

abbrev pub edit_found :
    UpdateWordParams → Time → Option WordRow → Tables → Result GoError WordRow × Tables
edit_found arg at none t = (err (sentinel pgx_no_rows), t)
edit_found arg at (some row) t =
    if not (word_checked (edit_word arg at row))
    then (err (pg pg_check_violation), t)
    else if any (clashes (edit_word arg at row)) (others arg.id t.words)
    then (err (pg pg_unique_violation), t)
    else (
      ok (edit_word arg at row),
      record t { words = map_if (has_word_id arg.id) (edit_word arg at) t.words },
    )

unfoldable pub change_word : UpdateWordParams → Statement WordRow
unfolding word_checked edit_word
change_word arg id at t = edit_found arg at (find? (has_word_id arg.id) t.words) t

unfoldable pub update_word : UpdateWordParams → Exec GoError Db WordRow
update_word arg = statement (change_word arg)

pub record WordFilter : Type 0 where
  pub search : Option GoString
  pub language : Option GoString
  pub tags : Option (List GoString)
  pub created_by : Option Uuid

-- The WHERE clause of listWords and countWords.
unfoldable pub selects : WordFilter → WordRow → Bool
unfolding ilike_around eqs
selects f row =
    unless_null f.search (λ s. ilike_around s row.term)
    && unless_null f.language (λ l. eqs row.language l)
    && unless_null f.tags (has_tags row.tags)
    && unless_null f.created_by (λ u. elim row.created_by [ none ↦ false | some v ↦ v == u ])

unfoldable pub count_words : WordFilter → Exec GoError Db ℕ
unfolding selects
count_words f = statement (query (λ t. ok (length (keep_if (selects f) t.words))))

-- The ORDER BY clause of listWords, for the collation of the database: the key that the two texts
-- name, if they name one, then the identifier.
unfoldable pub word_le :
    (GoString → GoString → Bool) → GoString → GoString → WordRow → WordRow → Bool
unfolding eqs
word_le le sort order x y =
    let id_le = leb x.id y.id in
    if eqs sort (codes "created_at") && eqs order sort_asc
    then then_by (leb x.created_at y.created_at) (leb y.created_at x.created_at) id_le
    else if eqs sort (codes "created_at") && eqs order sort_desc
    then then_by (leb y.created_at x.created_at) (leb x.created_at y.created_at) id_le
    else if eqs sort (codes "updated_at") && eqs order sort_asc
    then then_by (leb x.updated_at y.updated_at) (leb y.updated_at x.updated_at) id_le
    else if eqs sort (codes "updated_at") && eqs order sort_desc
    then then_by (leb y.updated_at x.updated_at) (leb x.updated_at y.updated_at) id_le
    else if eqs sort (codes "term") && eqs order sort_asc
    then then_by (le x.term y.term) (le y.term x.term) id_le
    else if eqs sort (codes "term") && eqs order sort_desc
    then then_by (le y.term x.term) (le x.term y.term) id_le
    else id_le

unfoldable pub list_words :
    (GoString → GoString → Bool)
    → WordFilter
    → GoString
    → GoString
    → ℤ
    → ℤ
    → Exec GoError Db (List WordRow)
unfolding selects word_le order_by limit_offset
list_words le f sort order offset limit = statement (
    query (λ t.
      limit_offset limit offset (order_by (word_le le sort order) (keep_if (selects f) t.words))))
