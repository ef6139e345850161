-- ===== src/Repository/WordSenses.antt =====
-- app/repository/word_sense_repository.go, over an interface of encoding/json.
use wordotron_api.Prelude.{[], ◌∷◌, Option, none, some, List, if◌then◌else◌, keep_if, ◌==◌}
use wordotron_api.Prelude.Exec.{Result, ok, err, Exec, ◌>>=◌, pure, lift, map_error}
use wordotron_api.Text.{GoString, is_empty}
use wordotron_api.Errors.{GoError, fail, internal_error, not_found_error}
use wordotron_api.Models.{Uuid}
use wordotron_api.Models.Words.{WordMeta, WordSense, CreateWordSenseInput, UpdateWordSenseInput}
use wordotron_api.Db.{Db, WordSenseRow}
use wordotron_api.Db.WordSenses.{
  create_word_sense, get_word_sense, list_word_senses_by_word, list_word_senses_by_word_ids,
  update_word_sense, delete_word_sense, delete_word_senses_by_word,
}
use wordotron_api.Repository.Users.{lookup_error, internal_wrap, refuse_zero}

-- json.Marshal and json.Unmarshal at WordMeta.
pub record JsonCodec : Type 0 where
  pub marshal : WordMeta → Result GoError GoString
  pub unmarshal : GoString → Result GoError WordMeta

abbrev pub no_meta : WordMeta
no_meta = record { synonyms = []; antonyms = []; other_ways_to_say = [] }

module _ (json : JsonCodec) where
  -- `marshalWordMeta`: nil stays nil, which SQL reads as NULL.
  unfoldable pub marshal_word_meta : Option WordMeta → Result GoError (Option GoString)
  marshal_word_meta none = ok none
  marshal_word_meta (some m) = elim (json.marshal m) [ ok s ↦ ok (some s) | err e ↦ err e ]

  unfoldable pub to_domain_word_sense : WordSenseRow → Result GoError WordSense
  unfolding internal_error
  to_domain_word_sense row =
      elim (if is_empty row.meta then ok no_meta else json.unmarshal row.meta) [
        | err e ↦ err (internal_wrap "unmarshal sense meta" e)
        | ok meta ↦ ok (record {
          id = row.id;
          word_id = row.word_id;
          part_of_speech = row.part_of_speech;
          definition = row.definition;
          example = row.example;
          meta = meta;
          sense_order = row.sense_order;
          created_at = row.created_at;
          updated_at = row.updated_at;
        })
      ]

  abbrev pub cons_result :
      Result GoError WordSense → Result GoError (List WordSense) → Result GoError (List WordSense)
  cons_result (err e) rest = err e
  cons_result (ok s) (err e) = err e
  cons_result (ok s) (ok senses) = ok (s ∷ senses)

  -- The loop over the rows, up to the first that cannot be read.
  abbrev pub to_domain_word_senses : List WordSenseRow → Result GoError (List WordSense)
  to_domain_word_senses [] = ok []
  to_domain_word_senses (row ∷ rows) =
      cons_result (to_domain_word_sense row) (to_domain_word_senses rows)

  unfoldable pub create : CreateWordSenseInput → Exec GoError Db WordSense
  unfolding marshal_word_meta to_domain_word_sense create_word_sense internal_error
  create input = do
    meta ← map_error (internal_wrap "marshal sense meta") (lift (marshal_word_meta input.meta))
    row ← map_error (internal_wrap "create word sense") (
        create_word_sense (record {
          word_id = input.word_id;
          part_of_speech = input.part_of_speech;
          definition = input.definition;
          example = input.example;
          meta = meta;
          sense_order = input.sense_order;
        }))
    lift (to_domain_word_sense row)

  unfoldable pub get_by_id : Uuid → Exec GoError Db WordSense
  unfolding get_word_sense to_domain_word_sense lookup_error
  get_by_id id = do
    row ← map_error (lookup_error "Word sense" "get word sense") (get_word_sense id)
    lift (to_domain_word_sense row)

  unfoldable pub list_by_word : Uuid → Exec GoError Db (List WordSense)
  unfolding list_word_senses_by_word to_domain_word_sense internal_error
  list_by_word word_id = do
    rows ← map_error (internal_wrap "list word senses") (list_word_senses_by_word word_id)
    lift (to_domain_word_senses rows)

  -- The map by word, to which each sense is appended in turn.
  abbrev pub group_by_word : List WordSense → Uuid → List WordSense
  group_by_word senses word_id = keep_if (λ s. s.word_id == word_id) senses

  abbrev pub list_nonempty : List Uuid → Exec GoError Db (Uuid → List WordSense)
  list_nonempty word_ids = do
    rows ←
        map_error (internal_wrap "list word senses by words")
          (list_word_senses_by_word_ids word_ids)
    senses ← lift (to_domain_word_senses rows)
    pure (group_by_word senses)

  unfoldable pub list_by_words : List Uuid → Exec GoError Db (Uuid → List WordSense)
  unfolding list_word_senses_by_word_ids to_domain_word_sense internal_error
  list_by_words [] = pure (λ _. [])
  list_by_words (id ∷ word_ids) = list_nonempty (id ∷ word_ids)

  unfoldable pub update : Uuid → UpdateWordSenseInput → Exec GoError Db WordSense
  unfolding marshal_word_meta to_domain_word_sense update_word_sense lookup_error internal_error
  update id input = do
    meta ← map_error (internal_wrap "marshal sense meta") (lift (marshal_word_meta input.meta))
    row ← map_error (lookup_error "Word sense" "update word sense") (
        update_word_sense (record {
          id = id;
          part_of_speech = input.part_of_speech;
          clear_part_of_speech = input.clear_part_of_speech;
          definition = input.definition;
          example = input.example;
          clear_example = input.clear_example;
          meta = meta;
        }))
    lift (to_domain_word_sense row)

unfoldable pub delete : Uuid → Exec GoError Db (Unit {0})
unfolding delete_word_sense internal_error not_found_error
delete id = do
  affected ← map_error (internal_wrap "delete word sense") (delete_word_sense id)
  refuse_zero (fail (not_found_error "Word sense")) affected

unfoldable pub delete_by_word : Uuid → Exec GoError Db (Unit {0})
unfolding delete_word_senses_by_word internal_error
delete_by_word word_id =
    map_error (internal_wrap "delete word senses") (delete_word_senses_by_word word_id)
