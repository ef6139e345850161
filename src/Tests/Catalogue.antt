-- ===== src/Tests/Catalogue.antt =====
-- The theorems on words and on what a person learns, at a small catalogue.
use wordotron_api.Prelude.{◌*◌, ◌≡◌, refl, true, false, none, some, List, [], ◌∷◌, arith, find?}
use wordotron_api.Prelude.Exec.{Result, ok, err}
use wordotron_api.Prelude.Int.{pos}
use wordotron_api.Text.{GoString, codes}
use wordotron_api.Errors.{GoError, plain}
use wordotron_api.Models.{second}
use wordotron_api.Models.Words.{WordMeta, Word}
use wordotron_api.Models.UserWords.{UserWordStats, status_learning}
use wordotron_api.Db.{Db, WordRow, WordSenseRow, UserWordRow, now}
use wordotron_api.Db.UserWords.{has_key, record_review, get_user_word_stats}
use wordotron_api.Db.UserWords.Leitner.{right_answers, IsLearnt, right_answers-learn}
use wordotron_api.Db.UserWords.Answers.{after_answers, IsCounted, after_answers-IsCounted}
use wordotron_api.Db.UserWords.Progress.{AddUp, get_user_word_stats-AddUp}
use wordotron_api.Repository.WordSenses.{JsonCodec}
use wordotron_api.Services.Words.{WordWiring, Sense, CreateWordInput, get, create_and_enrich}
use wordotron_api.Services.Words.Outcome.{IsAllOrNothing, create_and_enrich-outcome}
use wordotron_api.Services.Words.Ownership.{IsShown, get-eq-ok}
use wordotron_api.Tests.Worlds.{db, tables, value_or}

abbrev marshal_lists : List GoString → List GoString → List GoString → Result GoError GoString
marshal_lists [] [] [] = ok (codes "{}")
marshal_lists _ _ _ = err (plain "json: unsupported value")

abbrev meta_of : List GoString → List GoString → List GoString → WordMeta
meta_of a b c = record { synonyms = a; antonyms = b; other_ways_to_say = c }

abbrev marshal : WordMeta → Result GoError GoString
marshal m = marshal_lists m.synonyms m.antonyms m.other_ways_to_say

abbrev unmarshal : GoString → Result GoError WordMeta
unmarshal s = ok (meta_of [] [] [])

-- A JSON package that knows one value.
abbrev json : JsonCodec
json = record { marshal = marshal; unmarshal = unmarshal }

abbrev sense : GoString → Sense
sense definition = record {
  part_of_speech = codes "noun";
  definition = definition;
  example = [];
  synonyms = [];
  antonyms = [];
  other_ways_to_say = [];
}

-- An enricher with two senses, one of them blank.
abbrev wordbook : WordWiring
wordbook = record {
  json = json;
  api_key = codes "k";
  enricher = some (λ term language. ok (sense (codes " ") ∷ sense (codes " shore") ∷ []));
  collation = λ s t. true;
}

abbrev apple : WordRow
apple = record {
  id = 7;
  term = codes "apple";
  language = codes "en";
  pronunciation = none;
  tags = none;
  created_by = some 1;
  created_at = 0;
  updated_at = 0;
}

abbrev fruit : WordSenseRow
fruit = record {
  id = 8;
  word_id = 7;
  part_of_speech = some (codes "noun");
  definition = codes "a fruit";
  example = none;
  meta = codes "{}";
  sense_order = pos 0;
  created_at = 0;
  updated_at = 0;
}

abbrev card : UserWordRow
card = record {
  user_id = 1;
  word_id = 7;
  status = status_learning;
  notes = none;
  is_favourite = false;
  review_count = 5;
  correct_count = 4;
  box = 3;
  last_reviewed_at = none;
  due_at = 10 * second;
  added_at = 0;
  updated_at = 0;
}

abbrev study : Db
study = record db {
  tables = record tables { words = apple ∷ []; word_senses = fruit ∷ []; user_words = card ∷ [] };
}

abbrev bank : CreateWordInput
bank = record { term = codes " bank"; language = [] }

abbrev no_word : Word
no_word = record {
  id = 0;
  term = [];
  language = [];
  pronunciation = none;
  tags = none;
  created_by = none;
  created_at = 0;
  updated_at = 0;
  senses = [];
}

right_answers-learn_example :
    (after : UserWordRow) × (find? (has_key 1 7) (right_answers 2 1 7 study).tables.user_words
      ≡ some after)
    × IsLearnt after
unfolding wordotron_api.Db.UserWords.row_checked
right_answers-learn_example =
    right_answers-learn 1 1 7 study card (λ k. refl) refl refl refl (omega arith) (omega arith)

after_answers-IsCounted_example :
    (after : UserWordRow) × (find?
        (has_key 1 7)
        (after_answers (true ∷ false ∷ true ∷ []) 1 7 study).tables.user_words
      ≡ some after)
    × IsCounted (true ∷ false ∷ true ∷ []) card after
unfolding wordotron_api.Db.UserWords.row_checked
after_answers-IsCounted_example =
    after_answers-IsCounted (true ∷ false ∷ true ∷ []) 1 7 study card (λ k. refl) refl refl
      (omega arith)

get_user_word_stats-AddUp_example :
    (s : UserWordStats) × ((get_user_word_stats 1 study).0 ≡ ok s)
    × AddUp (100 * second) (card ∷ []) s
unfolding wordotron_api.Db.UserWords.row_checked now
get_user_word_stats-AddUp_example = get_user_word_stats-AddUp 1 study ((refl, tt), (refl, tt)) refl

create_and_enrich-outcome_example :
    IsAllOrNothing wordbook 1 bank study.tables
      (create_and_enrich wordbook 1 bank study).0
      (create_and_enrich wordbook 1 bank study).1.tables
create_and_enrich-outcome_example = create_and_enrich-outcome wordbook 1 bank study

get-eq-ok_example : IsShown json 7 1 study.tables (value_or no_word (get wordbook 7 1 study).0)
unfolding get wordotron_api.Db.statement
get-eq-ok_example =
    get-eq-ok wordbook 7 1 study {word = value_or no_word (get wordbook 7 1 study).0} refl
