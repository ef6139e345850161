-- ===== src/Models/UserWords.antt =====
-- app/models/user_word.go: what a person knows of a word, and what they may ask for.
use wordotron_api.Prelude.{ℕ, Bool, ◌||◌, ◌&&◌, not, Option, ltb}
use wordotron_api.Text.{GoString, codes, eqs}
use wordotron_api.Models.{Uuid, Time}

abbrev pub LearningStatus : Type 0
LearningStatus = GoString

abbrev pub status_learning : LearningStatus
status_learning = codes "learning"

abbrev pub status_known : LearningStatus
status_known = codes "known"

abbrev pub status_archived : LearningStatus
status_archived = codes "archived"

unfoldable pub status_valid : LearningStatus → Bool
unfolding eqs
status_valid s = eqs s status_learning || (eqs s status_known || eqs s status_archived)

abbrev pub max_box : ℕ
max_box = 5

pub record UserWord : Type 0 where
  pub user_id : Uuid
  pub word_id : Uuid
  pub status : LearningStatus
  pub notes : Option GoString
  pub is_favourite : Bool
  pub review_count : ℕ
  pub correct_count : ℕ
  pub box : ℕ
  pub last_reviewed_at : Option Time
  pub due_at : Time
  pub added_at : Time
  pub updated_at : Time

-- `IsDue`
unfoldable pub is_due : UserWord → Time → Bool
unfolding eqs
is_due u now = not (eqs u.status status_archived) && not (ltb now u.due_at)

pub record UserWordStats : Type 0 where
  pub total : ℕ
  pub learning : ℕ
  pub known : ℕ
  pub archived : ℕ
  pub favourites : ℕ
  pub due : ℕ
  pub reviews : ℕ
  pub correct : ℕ
