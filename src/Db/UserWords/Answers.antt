-- ===== src/Db/UserWords/Answers.antt =====
-- What any run of answers makes of a row of recordReview.
use wordotron_api.Prelude.{
  ℕ, ◌+◌, ◌^◌, ◌≤◌, ◌<◌, ◌≡◌, refl, Bool, true, false, none, some, List, [], ◌∷◌, arith, find?,
  length, leb, if◌then◌else◌, ap, ◌∙◌,
}
use wordotron_api.Text.{eqs}
use wordotron_api.Models.{Uuid, Time}
use wordotron_api.Models.UserWords.{status_archived}
use wordotron_api.Db.{Db, UserWordRow, now}
use wordotron_api.Db.UserWords.{
  has_key, row_checked, review_row, record_review, next_box, next_status,
}
use wordotron_api.Db.UserWords.Leitner.{
  reviewed, reviewed_bounds, row_checked-counts, record_review-runs,
}

-- The database after the answers, in turn.
abbrev pub after_answers : List Bool → Uuid → Uuid → Db → Db
after_answers [] user_id word_id db = db
after_answers (a ∷ answers) user_id word_id db =
    after_answers answers user_id word_id (record_review a user_id word_id db).1

abbrev pub count_right : List Bool → ℕ
count_right [] = 0
count_right (a ∷ answers) = (if a then 1 else 0) + count_right answers

-- The box after the answers: one higher for a right answer, up to the fifth, and the first one, which
-- is 0, after a wrong answer.
abbrev pub box_after : List Bool → ℕ → ℕ
box_after [] box = box
box_after (true ∷ answers) box = box_after answers (if leb 5 box then 5 else box + 1)
box_after (false ∷ answers) box = box_after answers 0

-- What the answers make of a row.
abbrev pub IsCounted : List Bool → UserWordRow → UserWordRow → Type 0
IsCounted answers row after =
    (after.review_count ≡ row.review_count + length answers)
    × (after.correct_count ≡ row.correct_count + count_right answers)
    × (after.box ≡ box_after answers row.box)
    × (after.box ≤ 5)
    × (eqs after.status status_archived ≡ eqs row.status status_archived)
    × (after.notes ≡ row.notes)
    × (after.is_favourite ≡ row.is_favourite)

reviewed-box :
    (a : Bool) (answers : List Bool) (at : Time) (row : UserWordRow)
    → row_checked row ≡ true
    → box_after answers (reviewed a at row).box ≡ box_after (a ∷ answers) row.box
unfolding review_row next_box
reviewed-box true answers at row checked =
    ap (box_after answers) (ground (arith, row_checked-counts row checked))
reviewed-box false answers at row checked = refl

reviewed-status :
    (a : Bool) (at : Time) (row : UserWordRow)
    → eqs (reviewed a at row).status status_archived ≡ eqs row.status status_archived
unfolding review_row next_status eqs
reviewed-status a at row = ground arith

reviewed-rest :
    (a : Bool) (at : Time) (row : UserWordRow)
    → ((reviewed a at row).review_count ≡ row.review_count + 1)
      × ((reviewed a at row).correct_count ≡ row.correct_count + (if a then 1 else 0))
      × ((reviewed a at row).notes ≡ row.notes)
      × ((reviewed a at row).is_favourite ≡ row.is_favourite)
unfolding review_row
reviewed-rest a at row = (refl, refl, refl, refl)

IsCounted-cons :
    (a : Bool) (answers : List Bool) (at : Time) (row after : UserWordRow)
    → row_checked row ≡ true
    → IsCounted answers (reviewed a at row) after
    → IsCounted (a ∷ answers) row after
IsCounted-cons a answers at row after checked
      (reviews, corrects, box, top, status, notes, favourite) =
    let rest = reviewed-rest a at row in
    (
      omega (arith, reviews, rest.0),
      omega (arith, corrects, rest.1),
      box ∙ reviewed-box a answers at row checked,
      top,
      status ∙ reviewed-status a at row,
      notes ∙ rest.2,
      favourite ∙ rest.3,
    )

-- Where the driver fails at no statement, any run of answers to a word that is in the list succeeds:
-- its row then counts as many more reviews as there were answers and as many more right ones as were
-- right, its box went up by one for each right answer, at most to 5, and back to 0 at each wrong one;
-- it is archived exactly if it was, with the notes and the mark as before. Its row passes the checks of
-- the table, and its count of reviews stays below 2 ^ 31.
pub after_answers-IsCounted :
    (answers : List Bool) (user_id word_id : Uuid) (db : Db) (row : UserWordRow)
    → ((k : ℕ) → db.fault k ≡ none)
    → find? (has_key user_id word_id) db.tables.user_words ≡ some row
    → row_checked row ≡ true
    → row.review_count + length answers < 2 ^ 31
    → (after : UserWordRow) × (find?
          (has_key user_id word_id)
          (after_answers answers user_id word_id db).tables.user_words
        ≡ some after)
      × IsCounted answers row after
after_answers-IsCounted [] user_id word_id db row lets found checked small = (
  row,
  found,
  (omega arith, omega arith, refl, (row_checked-counts row checked).1, refl, refl, refl),
)
after_answers-IsCounted (a ∷ answers) user_id word_id db row lets found checked small =
    let step =
      record_review-runs a user_id word_id db row (lets db.step) found checked (omega arith) in
    let rest = reviewed-rest a (now db) row in
    let (after, stored, counted) =
      after_answers-IsCounted answers user_id word_id (record_review a user_id word_id db).1
        (reviewed a (now db) row) (λ k. rw step.2 (lets k)) step.1
        (reviewed_bounds a (now db) row checked).0 (omega (arith, rest.0)) in
    (after, stored, IsCounted-cons a answers (now db) row after checked counted)
