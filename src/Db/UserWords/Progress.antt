-- ===== src/Db/UserWords/Progress.antt =====
-- The numbers of the progress header, and what they say of the rows that they count.
use wordotron_api.Prelude.{
  ◌+◌, ◌≤◌, ◌≡◌, refl, true, false, List, [], ◌∷◌, arith, keep_if, length, All, if◌then◌else◌, ◌==◌,
  none,
}
use wordotron_api.Text.{eqs}
use wordotron_api.Text.Laws.{eqs_iff}
use wordotron_api.Models.{Uuid, Time}
use wordotron_api.Models.UserWords.{
  UserWord, UserWordStats, is_due, status_learning, status_known, status_archived, status_valid,
}
use wordotron_api.Prelude.Exec.{ok}
use wordotron_api.Db.{Db, UserWordRow, now}
use wordotron_api.Db.Query.Laws.{statement-runs, All-keep_if}
use wordotron_api.Db.UserWords.Invariant.{IsSound}
use wordotron_api.Db.UserWords.Leitner.{row_checked-counts}
use wordotron_api.Db.UserWords.{get_user_word_stats, stats_of, in_queue, count_if, row_checked}

-- The domain value with the columns of a row.
abbrev pub user_word_of : UserWordRow → UserWord
user_word_of row = record {
  user_id = row.user_id;
  word_id = row.word_id;
  status = row.status;
  notes = row.notes;
  is_favourite = row.is_favourite;
  review_count = row.review_count;
  correct_count = row.correct_count;
  box = row.box;
  last_reviewed_at = row.last_reviewed_at;
  due_at = row.due_at;
  added_at = row.added_at;
  updated_at = row.updated_at;
}

-- At every time, the test of the SQL texts for the review queue is IsDue of the domain type.
in_queue-eq-is_due :
    (at : Time) (row : UserWordRow) → in_queue at row ≡ is_due (user_word_of row) at
unfolding in_queue is_due
in_queue-eq-is_due at row = ground arith

one_status :
    (row : UserWordRow)
    → row_checked row ≡ true
    → (if eqs row.status status_learning then 1 else 0)
        + (if eqs row.status status_known then 1 else 0)
        + (if eqs row.status status_archived then 1 else 0)
      ≡ 1
unfolding row_checked status_valid
one_status row h = ground (
  arith,
  eqs_iff row.status status_learning,
  eqs_iff row.status status_known,
  eqs_iff row.status status_archived,
)

-- What the numbers say of the rows that they count.
abbrev pub AddUp : Time → List UserWordRow → UserWordStats → Type 0
AddUp at rows s =
    (s.total ≡ length rows)
    × (s.learning + s.known + s.archived ≡ s.total)
    × (s.due ≡ count_if (λ r. is_due (user_word_of r) at) rows)
    × (s.due + s.archived ≤ s.total)
    × (s.correct ≤ s.reviews)

in_queue-live :
    (at : Time) (row : UserWordRow)
    → in_queue at row ≡ true
    → eqs row.status status_archived ≡ false
unfolding in_queue
in_queue-live at row h = ground arith

stats_of-AddUp :
    (at : Time) (rows : List UserWordRow)
    → All (λ r. row_checked r ≡ true) rows
    → AddUp at rows (stats_of at rows)
unfolding stats_of
stats_of-AddUp at [] h = (refl, refl, refl, omega arith, omega arith)
stats_of-AddUp at (r ∷ rows) (first, rest) =
    let ih = stats_of-AddUp at rows rest in
    let one = one_status r first in
    let counts = (row_checked-counts r first).0 in
    let due = in_queue-eq-is_due at r in
    let live = in_queue-live at r in
    (ground arith, ground arith, ground arith, ground arith, ground arith)

-- Of a sound table, where the driver does not fail, the numbers of a user add up: each of the words is
-- learning, known or archived, the due ones are those that IsDue finds due at the time of the
-- statement, no archived word among them, and no more answers were right than were given.
pub get_user_word_stats-AddUp :
    (user_id : Uuid) (db : Db)
    → IsSound db.tables
    → db.fault db.step ≡ none
    → (s : UserWordStats) × ((get_user_word_stats user_id db).0 ≡ ok s)
      × AddUp (now db) (keep_if (λ r. r.user_id == user_id) db.tables.user_words) s
unfolding get_user_word_stats
get_user_word_stats-AddUp user_id db (checked, keys) lets = (
  stats_of (now db) (keep_if (λ r. r.user_id == user_id) db.tables.user_words),
  rw (statement-runs _ db lets) refl,
  stats_of-AddUp (now db) _ (
      All-keep_if (λ r. row_checked r ≡ true) (λ r. r.user_id == user_id) db.tables.user_words
        checked),
)
