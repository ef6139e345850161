-- ===== src/Handlers/Words.antt =====
-- app/handlers/word.go: the endpoints of the catalogue.
use wordotron_api.Prelude.{Option, none, some, List, [], ◌∷◌, if◌then◌else◌}
use wordotron_api.Prelude.Exec.{Exec, ◌>>=◌, pure, lift}
use wordotron_api.Text.{GoString, codes, is_empty}
use wordotron_api.Errors.{GoError}
use wordotron_api.Models.Pagination.{PageMeta}
use wordotron_api.Models.Pagination.Request.{QueryReader, SortWhitelist, parse_page_params}
use wordotron_api.Db.{Db}
use wordotron_api.Auth.Session.{Uuids}
use wordotron_api.Services.Words.{
  WordWiring, create_and_enrich, get as get_word, list as list_words,
}
use wordotron_api.Serializers.{CreateWordRequest, WordResponse, to_word_response, to_word_responses}
use wordotron_api.Handlers.{Request, Body, Answer, bind, uuid_param, user_id, actor_from}

abbrev pub word_sort_whitelist : SortWhitelist
word_sort_whitelist = record {
  allowed = codes "created_at" ∷ codes "updated_at" ∷ codes "term" ∷ codes "random" ∷ [];
  default = codes "created_at";
  message = "must be one of: created_at, updated_at, term, random";
}

abbrev pub some_text : GoString → Option GoString
some_text raw = if is_empty raw then none else some raw

module _ (uuids : Uuids) (wiring : WordWiring) where
  abbrev pub Handler : Type 0 → Type 0
  Handler A = Exec GoError Db A

  unfoldable pub create : Request → Body CreateWordRequest → Handler (Answer WordResponse)
  unfolding actor_from bind create_and_enrich to_word_response
  create request body = do
    actor ← lift (actor_from uuids request)
    req ← lift (bind body)
    word ← create_and_enrich wiring actor.id (record { term = req.term; language = req.language })
    pure (201, to_word_response word)

  unfoldable pub get : Request → Handler (Answer WordResponse)
  unfolding uuid_param user_id get_word to_word_response
  get request = do
    id ← lift (uuid_param uuids request)
    caller ← lift (user_id uuids request)
    word ← get_word wiring id caller
    pure (200, to_word_response word)

  -- The words of the caller.
  unfoldable pub list : QueryReader → Request → Handler (Answer (List WordResponse × PageMeta))
  unfolding parse_page_params user_id list_words to_word_responses
  list reader request = do
    page ← lift (parse_page_params reader word_sort_whitelist)
    caller ← lift (user_id uuids request)
    found ←
        list_words wiring
          (record {
            search = some_text (request.query (codes "search"));
            language = some_text (request.query (codes "language"));
            tags = none;
            created_by = some caller;
          })
          page
    pure (200, (to_word_responses found.0, found.1))
