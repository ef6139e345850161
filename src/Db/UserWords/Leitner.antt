-- ===== src/Db/UserWords/Leitner.antt =====
-- The schedule of reviews: what one answer does to a row, and what a run of right answers leads to.
use wordotron_api.Prelude.{
  ℕ, zero, suc, ◌+◌, ◌*◌, ◌^◌, ◌≤◌, ◌<◌, ◌≡◌, refl, ◌∙◌, Bool, true, false, none, some, arith,
  find?, map_if, leb, Bool-cases, inl, inr,
}
use wordotron_api.Prelude.Exec.{ok}
use wordotron_api.Text.{eqs}
use wordotron_api.Models.{Uuid, Time, hour}
use wordotron_api.Models.UserWords.{status_known, status_archived, status_valid, max_box}
use wordotron_api.Db.{Db, Tables, UserWordRow, now}
use wordotron_api.Db.Query.{fits_integer}
use wordotron_api.Db.Query.Laws.{statement-runs}
use wordotron_api.Db.Tokens.Laws.{find?-map_if, find?-holds}
use wordotron_api.Db.UserWords.{
  has_key, row_checked, row_error, review_row, record_review, interval, next_box, next_status,
  minute, touch, change_row,
}

-- One answer at a time `at`, from a row to the one that is stored.
abbrev pub reviewed : Bool → Time → UserWordRow → UserWordRow
reviewed correct at row = touch at (review_row correct at row)

interval_bounds :
    (correct : Bool) (box : ℕ)
    → (10 * minute ≤ interval correct box) × (interval correct box ≤ 360 * hour)
unfolding interval
interval_bounds correct box = ground arith

next_status-valid :
    (correct : Bool) (row : UserWordRow)
    → status_valid row.status ≡ true
    → status_valid (next_status correct row) ≡ true
unfolding next_status status_valid eqs
next_status-valid correct row h = elim (Bool-cases (eqs row.status status_archived)) [
  | inl p ↦ rw p h
  | inr p ↦ rw p (ground arith)
]

-- An answer leaves a row that passes the checks of the table where it was one, and is due again no
-- sooner than 10 minutes and no later than 15 days after the answer, whatever the box.
pub reviewed_bounds :
    (correct : Bool) (at : Time) (row : UserWordRow)
    → row_checked row ≡ true
    → (row_checked (reviewed correct at row) ≡ true)
      × (at + 10 * minute ≤ (reviewed correct at row).due_at)
      × ((reviewed correct at row).due_at ≤ at + 360 * hour)
unfolding row_checked review_row next_box
reviewed_bounds correct at row h = (
  ground (arith, next_status-valid correct row),
  ground (arith, interval_bounds correct row.box),
  ground (arith, interval_bounds correct row.box),
)

pub row_checked-counts :
    (row : UserWordRow)
    → row_checked row ≡ true
    → (row.correct_count ≤ row.review_count) × (row.box ≤ 5)
unfolding row_checked
row_checked-counts row h = ground arith

pub row_error-eq-none :
    (row : UserWordRow) → row_checked row ≡ true → row.review_count < 2 ^ 31 → row_error row ≡ none
unfolding row_error fits_integer
row_error-eq-none row h small = ground (arith, row_checked-counts row h)

review_row-checked :
    (correct : Bool) (at : Time) (row : UserWordRow)
    → row_checked row ≡ true
    → row_checked (review_row correct at row) ≡ true
unfolding row_checked
review_row-checked correct at row h = (reviewed_bounds correct at row h).0

-- A change of a row that is found and that the table takes.
change_row-runs :
    (user_id word_id : Uuid) (f : Time → UserWordRow → UserWordRow) (id : Uuid) (at : Time)
    (t : Tables) (row : UserWordRow)
    → ((r : UserWordRow) → has_key user_id word_id (f at r) ≡ has_key user_id word_id r)
    → find? (has_key user_id word_id) t.user_words ≡ some row
    → row_error (f at row) ≡ none
    → ((change_row user_id word_id f id at t).0 ≡ ok (touch at (f at row)))
      × (find? (has_key user_id word_id) (change_row user_id word_id f id at t).1.user_words
          ≡ some (touch at (f at row)))
unfolding change_row
change_row-runs user_id word_id f id at t row same found taken = rw (found, taken) (refl, stored)
  where
    stored :
        find?
          (has_key user_id word_id)
          (map_if (has_key user_id word_id) (λ r. touch at (f at r)) t.user_words)
        ≡ some (touch at (f at row))
    stored =
        find?-map_if (has_key user_id word_id) (has_key user_id word_id) (λ r. touch at (f at r))
          t.user_words same found
        ∙ rw (find?-holds (has_key user_id word_id) t.user_words found) refl

-- An answer to a word that is in the list, unless its count of reviews is full or the driver fails.
pub record_review-runs :
    (correct : Bool) (user_id word_id : Uuid) (db : Db) (row : UserWordRow)
    → db.fault db.step ≡ none
    → find? (has_key user_id word_id) db.tables.user_words ≡ some row
    → row_checked row ≡ true
    → row.review_count + 1 < 2 ^ 31
    → ((record_review correct user_id word_id db).0 ≡ ok (reviewed correct (now db) row))
      × (find?
            (has_key user_id word_id)
            (record_review correct user_id word_id db).1.tables.user_words
          ≡ some (reviewed correct (now db) row))
      × ((record_review correct user_id word_id db).1.fault ≡ db.fault)
unfolding record_review
record_review-runs correct user_id word_id db row lets found checked small =
    rw (statement-runs (change_row user_id word_id (review_row correct)) db lets)
      (ran.0, ran.1, refl)
  where
    ran :
        ((change_row user_id word_id (review_row correct) (db.ids db.step) (now db) db.tables).0
          ≡ ok (reviewed correct (now db) row))
        × (find?
              (has_key user_id word_id)
              (change_row user_id word_id
                (review_row correct)
                (db.ids db.step)
                (now db)
                db.tables).1.user_words
            ≡ some (reviewed correct (now db) row))
    ran =
        change_row-runs user_id word_id (review_row correct) (db.ids db.step) (now db) db.tables row
          (λ r. refl) found
          (row_error-eq-none (review_row correct (now db) row)
            (review_row-checked correct (now db) row checked) small)

-- The database after `n` right answers in a row.
abbrev pub right_answers : ℕ → Uuid → Uuid → Db → Db
right_answers zero user_id word_id db = db
right_answers (suc n) user_id word_id db =
    right_answers n user_id word_id (record_review true user_id word_id db).1

-- A row in the top box, and known.
abbrev pub IsLearnt : UserWordRow → Type 0
IsLearnt row = (row.box ≡ max_box) × (row.status ≡ status_known)

-- One right answer: the box goes up until the top one, and the word is not archived by it.
right_answer :
    (at : Time) (row : UserWordRow)
    → row_checked row ≡ true
    → eqs row.status status_archived ≡ false
    → (eqs (reviewed true at row).status status_archived ≡ false)
      × (4 ≤ row.box → IsLearnt (reviewed true at row))
      × (row.box < 4 → (reviewed true at row).box ≡ row.box + 1)
unfolding review_row next_box next_status eqs
right_answer at row checked live =
    let box = (row_checked-counts row checked).1 in
    (ground arith, λ high. (ground arith, ground arith), λ low. ground arith)

-- Where the driver fails at no statement, right answers in a row to a word that is in the list and not
-- archived bring it to the top box, and make it known, as soon as they are as many as the boxes above
-- its own; one more answer keeps it there. Its row passes the checks of the table, and its count of
-- reviews stays below 2 ^ 31.
pub right_answers-learn :
    (n : ℕ) (user_id word_id : Uuid) (db : Db) (row : UserWordRow)
    → ((k : ℕ) → db.fault k ≡ none)
    → find? (has_key user_id word_id) db.tables.user_words ≡ some row
    → row_checked row ≡ true
    → eqs row.status status_archived ≡ false
    → row.review_count + suc n < 2 ^ 31
    → 5 ≤ row.box + suc n
    → (after : UserWordRow) × (find?
          (has_key user_id word_id)
          (right_answers (suc n) user_id word_id db).tables.user_words
        ≡ some after)
      × IsLearnt after
unfolding review_row
right_answers-learn zero user_id word_id db row lets found checked live small enough =
    let step = record_review-runs true user_id word_id db row (lets db.step) found checked small in
    (reviewed true (now db) row, step.1, (right_answer (now db) row checked live).1 (omega arith))
right_answers-learn (suc n) user_id word_id db row lets found checked live small enough =
    let step =
      record_review-runs true user_id word_id db row (lets db.step) found checked (omega arith) in
    right_answers-learn n user_id word_id (record_review true user_id word_id db).1
      (reviewed true (now db) row) (λ k. rw step.2 (lets k)) step.1
      (reviewed_bounds true (now db) row checked).0 (right_answer (now db) row checked live).0
      (omega arith) (grow (leb 4 row.box) refl)
  where
    grow : (b : Bool) → leb 4 row.box ≡ b → 5 ≤ (reviewed true (now db) row).box + suc n
    grow true high = ground (arith, (right_answer (now db) row checked live).1)
    grow false low = ground (arith, (right_answer (now db) row checked live).2)
