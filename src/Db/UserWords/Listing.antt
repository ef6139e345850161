-- ===== src/Db/UserWords/Listing.antt =====
-- `ListUserWords` and `CountUserWords`: the list of a person, joined with the catalogue.
use wordotron_api.Prelude.{
  ℕ, Bool, not, ◌&&◌, ◌||◌, Option, List, [], ◌∷◌, ◌++◌, ◌==◌, leb, keep_if, length, if◌then◌else◌,
}
use wordotron_api.Prelude.Int.{ℤ}
use wordotron_api.Prelude.Exec.{ok, Exec}
use wordotron_api.Text.{GoString, codes, eqs}
use wordotron_api.Errors.{GoError}
use wordotron_api.Models.{Uuid, Time}
use wordotron_api.Models.Pagination.{sort_asc, sort_desc}
use wordotron_api.Db.{Db, WordRow, UserWordRow, statement}
use wordotron_api.Db.Query.{unless_null, ilike_around, has_tags, order_by, then_by, limit_offset}
use wordotron_api.Db.UserWords.{in_queue}
use wordotron_api.Db.Words.{has_word_id}

-- The columns of both tables.
abbrev pub UserWordEntry : Type 0
UserWordEntry = UserWordRow × WordRow

pub record UserWordFilter : Type 0 where
  pub user_id : Uuid
  pub search : Option GoString
  pub status : Option GoString
  pub language : Option GoString
  pub tags : Option (List GoString)
  pub is_favourite : Option Bool
  pub due_only : Bool

abbrev pair_all : UserWordRow → List WordRow → List UserWordEntry
pair_all row [] = []
pair_all row (w ∷ words) = (row, w) ∷ pair_all row words

-- user_words JOIN words ON words.id = user_words.word_id
unfoldable pub joined : List UserWordRow → List WordRow → List UserWordEntry
joined [] words = []
joined (row ∷ rows) words =
    pair_all row (keep_if (has_word_id row.word_id) words) ++ joined rows words

abbrev same_flag : Bool → Bool → Bool
same_flag a b = if a then b else not b

-- The WHERE clause of both queries, at the time of the statement.
unfoldable pub picks : UserWordFilter → Time → UserWordEntry → Bool
unfolding ilike_around in_queue eqs
picks f at (row, word) =
    row.user_id == f.user_id
    && unless_null f.search (λ s. ilike_around s word.term)
    && unless_null f.status (eqs row.status)
    && unless_null f.language (eqs word.language)
    && unless_null f.tags (has_tags word.tags)
    && unless_null f.is_favourite (same_flag row.is_favourite)
    && (not f.due_only || in_queue at row)

unfoldable pub count_user_words : UserWordFilter → Exec GoError Db ℕ
unfolding picks joined
count_user_words f =
    statement (λ _ at t. (ok (length (keep_if (picks f at) (joined t.user_words t.words))), t))

-- The ORDER BY clause, for the collation of the database.
unfoldable pub entry_le :
    (GoString → GoString → Bool) → GoString → GoString → UserWordEntry → UserWordEntry → Bool
unfolding eqs
entry_le le sort order (x, v) (y, w) =
    let id_le = leb x.word_id y.word_id in
    if eqs sort (codes "added_at") && eqs order sort_asc
    then then_by (leb x.added_at y.added_at) (leb y.added_at x.added_at) id_le
    else if eqs sort (codes "added_at") && eqs order sort_desc
    then then_by (leb y.added_at x.added_at) (leb x.added_at y.added_at) id_le
    else if eqs sort (codes "due_at") && eqs order sort_asc
    then then_by (leb x.due_at y.due_at) (leb y.due_at x.due_at) id_le
    else if eqs sort (codes "due_at") && eqs order sort_desc
    then then_by (leb y.due_at x.due_at) (leb x.due_at y.due_at) id_le
    else if eqs sort (codes "term") && eqs order sort_asc
    then then_by (le v.term w.term) (le w.term v.term) id_le
    else if eqs sort (codes "term") && eqs order sort_desc
    then then_by (le w.term v.term) (le v.term w.term) id_le
    else id_le

unfoldable pub list_user_words :
    (GoString → GoString → Bool)
    → UserWordFilter
    → GoString
    → GoString
    → ℤ
    → ℤ
    → Exec GoError Db (List UserWordEntry)
unfolding picks joined entry_le order_by limit_offset
list_user_words le f sort order offset limit = statement (λ _ at t. (
  limit_offset limit offset
      (order_by (entry_le le sort order) (keep_if (picks f at) (joined t.user_words t.words))),
  t,
))
