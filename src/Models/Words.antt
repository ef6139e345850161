-- ===== src/Models/Words.antt =====
-- app/models/word.go: the catalogue of words and their senses.
use wordotron_api.Prelude.Int.{ℤ}
use wordotron_api.Prelude.{Bool, Option, List, [], ◌∷◌, any}
use wordotron_api.Text.{GoString, codes, eqs}
use wordotron_api.Models.{Uuid, Time}

abbrev pub parts_of_speech : List GoString
parts_of_speech =
    codes "noun"
    ∷ codes "verb"
    ∷ codes "adjective"
    ∷ codes "adverb"
    ∷ codes "pronoun"
    ∷ codes "preposition"
    ∷ codes "conjunction"
    ∷ codes "interjection"
    ∷ codes "phrase"
    ∷ []

-- `PartOfSpeech.Valid`
unfoldable pub part_valid : GoString → Bool
unfolding eqs
part_valid p = any (eqs p) parts_of_speech

pub record WordMeta : Type 0 where
  pub synonyms : List GoString
  pub antonyms : List GoString
  pub other_ways_to_say : List GoString

pub record WordSense : Type 0 where
  pub id : Uuid
  pub word_id : Uuid
  pub part_of_speech : Option GoString
  pub definition : GoString
  pub example : Option GoString
  pub meta : WordMeta
  pub sense_order : ℤ
  pub created_at : Time
  pub updated_at : Time

-- A nil slice of tags is `none`.
pub record Word : Type 0 where
  pub id : Uuid
  pub term : GoString
  pub language : GoString
  pub pronunciation : Option GoString
  pub tags : Option (List GoString)
  pub created_by : Option Uuid
  pub created_at : Time
  pub updated_at : Time
  pub senses : List WordSense

pub record CreateWordInput : Type 0 where
  pub term : GoString
  pub language : GoString
  pub pronunciation : Option GoString
  pub tags : Option (List GoString)
  pub created_by : Option Uuid

pub record UpdateWordInput : Type 0 where
  pub term : Option GoString
  pub language : Option GoString
  pub pronunciation : Option GoString
  pub tags : Option (List GoString)
  pub clear_pronunciation : Bool

pub record CreateWordSenseInput : Type 0 where
  pub word_id : Uuid
  pub part_of_speech : Option GoString
  pub definition : GoString
  pub example : Option GoString
  pub meta : Option WordMeta
  pub sense_order : ℤ

pub record UpdateWordSenseInput : Type 0 where
  pub part_of_speech : Option GoString
  pub definition : Option GoString
  pub example : Option GoString
  pub meta : Option WordMeta
  pub clear_part_of_speech : Bool
  pub clear_example : Bool

pub record ListWordsFilter : Type 0 where
  pub search : Option GoString
  pub language : Option GoString
  pub tags : Option (List GoString)
  pub created_by : Option Uuid
