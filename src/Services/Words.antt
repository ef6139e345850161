-- ===== src/Services/Words.antt =====
-- app/services/word.go: the catalogue of words. The enricher, which asks a remote service for the senses
-- of a term, is a parameter.
pub mod Creation
pub mod Ownership
pub mod Outcome
use wordotron_api.Prelude.{
  ℕ, ◌+◌, ◌^◌, Bool, true, false, not, ◌||◌, Option, none, some, List, [], ◌∷◌, map, ◌==◌,
  if◌then◌else◌,
}
use wordotron_api.Prelude.Int.{ℤ, pos, wrap}
use wordotron_api.Prelude.Exec.{
  Result, ok, err, Exec, ◌>>=◌, ◌>>◌, pure, raise, lift, inspect, map_error,
}
use wordotron_api.Text.{GoString, codes, is_empty, trim_space, to_lower}
use wordotron_api.Errors.{
  GoError, fail, plain, wrap as wrap_error, internal_error, unavailable_error, conflict_error,
  not_found_error, has_code, not_found, no_error,
}
use wordotron_api.Models.{Uuid}
use wordotron_api.Models.Pagination.{PageParams, PageMeta, new_page_meta}
use wordotron_api.Models.Words.{Word, WordSense, WordMeta, part_valid, ListWordsFilter}
use wordotron_api.Db.{Db}
use wordotron_api.Db.Tx.{with_tx}
use wordotron_api.Repository.Users.{internal_wrap}
use wordotron_api.Repository.Words.{
  get_by_term, get_by_id, create as create_word, list as list_words,
}
use wordotron_api.Repository.WordSenses.{
  JsonCodec, create as create_sense, list_by_word, list_by_words,
}

-- dictionary.Sense, of app/lib/dictionary/get_initial_word_data.go
pub record Sense : Type 0 where
  pub part_of_speech : GoString
  pub definition : GoString
  pub example : GoString
  pub synonyms : List GoString
  pub antonyms : List GoString
  pub other_ways_to_say : List GoString

pub record CreateWordInput : Type 0 where
  pub term : GoString
  pub language : GoString

-- What the service holds: the enricher may be nil, and is off without a key of the remote service.
pub record WordWiring : Type 0 where
  pub json : JsonCodec
  pub api_key : GoString
  pub enricher : Option (GoString → GoString → Result GoError (List Sense))
  -- the collation of the database
  pub collation : GoString → GoString → Bool

unfoldable pub normalize_language : GoString → GoString
unfolding to_lower trim_space
normalize_language s =
    let language = to_lower (trim_space s) in if is_empty language then codes "en" else language

unfoldable pub part_of_sense : Sense → Option GoString
unfolding part_valid
part_of_sense s = if part_valid s.part_of_speech then some s.part_of_speech else none

unfoldable pub example_of_sense : Sense → Option GoString
unfolding trim_space
example_of_sense s = if is_empty (trim_space s.example) then none else some (trim_space s.example)

-- Only a lookup that found nothing lets the creation go on.
abbrev pub refuse_known : Result GoError Word → Exec GoError Db (Unit {0})
refuse_known (ok word) = raise (fail (conflict_error "This word already exists"))
refuse_known (err e) = if has_code not_found e then pure tt else raise e

abbrev pub refuse_empty : List Sense → Exec GoError Db (List Sense)
refuse_empty [] = raise (internal_error (plain "enrichment returned no senses"))
refuse_empty (s ∷ senses) = pure (s ∷ senses)

module _ (wiring : WordWiring) where
  -- The guard on the configuration, and the call of the enricher.
  unfoldable pub enrich : GoString → GoString → Exec GoError Db (List Sense)
  unfolding internal_error unavailable_error
  enrich term language = elim wiring.enricher [
    | none ↦ raise (unavailable_error "Word enrichment is not configured" no_error)
    | some ask ↦
        if is_empty wiring.api_key
        then raise (unavailable_error "Word enrichment is not configured" no_error)
        else (map_error (internal_wrap "enrich word") (lift (ask term language)) >>= refuse_empty)
  ]

  abbrev pub add_sense : ℕ → Uuid → Sense → Exec GoError Db (Unit {0})
  add_sense i word_id s = do
    created ← create_sense wiring.json (record {
      word_id = word_id;
      part_of_speech = part_of_sense s;
      definition = trim_space s.definition;
      example = example_of_sense s;
      meta = some (record {
        synonyms = s.synonyms;
        antonyms = s.antonyms;
        other_ways_to_say = s.other_ways_to_say;
      });
      sense_order = wrap (2 ^ 16) (pos i);
    })
    pure tt

  -- The loop over the senses from number `i`: one with no definition is skipped.
  unfoldable pub add_senses : ℕ → Uuid → List Sense → Exec GoError Db (Unit {0})
  unfolding part_of_sense example_of_sense trim_space create_sense
  add_senses i word_id [] = pure tt
  add_senses i word_id (s ∷ senses) =
      let rest = add_senses (i + 1) word_id senses in
      if is_empty (trim_space s.definition) then rest else (add_sense i word_id s >> rest)

  -- The body of the transaction, which hands out the identifier of the word.
  unfoldable pub add_word : Uuid → GoString → GoString → List Sense → Exec GoError Db Uuid
  unfolding add_senses create_word
  add_word actor_id term language senses = do
    word ← create_word (record {
      term = term;
      language = language;
      pronunciation = none;
      tags = none;
      created_by = some actor_id;
    })
    add_senses 0 word.id senses
    pure word.id

  abbrev pub is_owner : Uuid → Word → Bool
  is_owner owner_id word = elim word.created_by [ none ↦ false | some u ↦ u == owner_id ]

  abbrev pub refuse_stranger : Uuid → Word → Exec GoError Db (Unit {0})
  refuse_stranger owner_id word =
      if is_owner owner_id word then pure tt else raise (fail (not_found_error "Word"))

  unfoldable pub get : Uuid → Uuid → Exec GoError Db Word
  unfolding get_by_id list_by_word not_found_error
  get id owner_id = do
    word ← get_by_id id
    refuse_stranger owner_id word
    senses ← list_by_word wiring.json id
    pure (record word { senses = senses })

  unfoldable pub create_and_enrich : Uuid → CreateWordInput → Exec GoError Db Word
  unfolding normalize_language trim_space get_by_term enrich add_word with_tx get conflict_error
      has_code
  create_and_enrich actor_id input = do
    inspect (get_by_term (normalize_language input.language) (trim_space input.term)) refuse_known
    senses ← enrich (trim_space input.term) (normalize_language input.language)
    word_id ←
        with_tx
          (add_word actor_id (trim_space input.term) (normalize_language input.language) senses)
    get word_id actor_id

  abbrev pub with_senses : (Uuid → List WordSense) → Word → Word
  with_senses by_word word = record word { senses = by_word word.id }

  unfoldable pub list : ListWordsFilter → PageParams → Exec GoError Db (List Word × PageMeta)
  unfolding list_words list_by_words new_page_meta
  list filter page = do
    found ← list_words wiring.collation filter page
    by_word ← list_by_words wiring.json (map (λ (w : Word). w.id) found.0)
    pure (map (with_senses by_word) found.0, new_page_meta page found.1)
