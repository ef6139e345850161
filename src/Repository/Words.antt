-- ===== src/Repository/Words.antt =====
-- app/repository/word_repository.go
use wordotron_api.Prelude.{ℕ, [], Bool, List, map, if◌then◌else◌}
use wordotron_api.Prelude.Int.{wrap}
use wordotron_api.Prelude.{◌^◌}
use wordotron_api.Prelude.Exec.{Exec, ◌>>=◌, pure, map_error}
use wordotron_api.Text.{GoString}
use wordotron_api.Errors.{
  GoError, app, fail, wrap as wrap_error, internal_error, not_found_error, conflict_error,
  is_pg_error, pg_unique_violation,
}
use wordotron_api.Models.{Uuid}
use wordotron_api.Models.Pagination.{PageParams, page_offset}
use wordotron_api.Models.Words.{Word, CreateWordInput, UpdateWordInput, ListWordsFilter}
use wordotron_api.Db.{Db, WordRow}
use wordotron_api.Db.Words.{
  create_word, get_word, get_word_by_term, update_word, delete_word, list_words, count_words,
  WordFilter,
}
use wordotron_api.Repository.Users.{lookup_error, internal_wrap, refuse_zero}

-- `toDomainWord`; the senses are left to the service.
unfoldable pub to_domain_word : WordRow → Word
to_domain_word row = record {
  id = row.id;
  term = row.term;
  language = row.language;
  pronunciation = row.pronunciation;
  tags = row.tags;
  created_by = row.created_by;
  created_at = row.created_at;
  updated_at = row.updated_at;
  senses = [];
}

unfoldable pub creation_error : GoError → GoError
unfolding is_pg_error internal_error conflict_error
creation_error e =
    if is_pg_error e pg_unique_violation
    then app (conflict_error "This word already exists") e
    else internal_error (wrap_error "create word" e)

unfoldable pub create : CreateWordInput → Exec GoError Db Word
unfolding create_word creation_error to_domain_word
create input = do
  row ← map_error creation_error (
      create_word (record {
        term = input.term;
        language = input.language;
        pronunciation = input.pronunciation;
        tags = input.tags;
        created_by = input.created_by;
      }))
  pure (to_domain_word row)

unfoldable pub get_by_id : Uuid → Exec GoError Db Word
unfolding get_word lookup_error to_domain_word
get_by_id id = do
  row ← map_error (lookup_error "Word" "get word") (get_word id)
  pure (to_domain_word row)

unfoldable pub get_by_term : GoString → GoString → Exec GoError Db Word
unfolding get_word_by_term lookup_error to_domain_word
get_by_term language term = do
  row ← map_error (lookup_error "Word" "get word by term") (get_word_by_term language term)
  pure (to_domain_word row)

-- A term that another word has is no conflict here, but an internal error.
unfoldable pub update : Uuid → UpdateWordInput → Exec GoError Db Word
unfolding update_word lookup_error to_domain_word
update id input = do
  row ← map_error (lookup_error "Word" "update word") (
      update_word (record {
        id = id;
        term = input.term;
        language = input.language;
        pronunciation = input.pronunciation;
        clear_pronunciation = input.clear_pronunciation;
        tags = input.tags;
      }))
  pure (to_domain_word row)

unfoldable pub delete : Uuid → Exec GoError Db (Unit {0})
unfolding delete_word internal_error not_found_error
delete id = do
  affected ← map_error (internal_wrap "delete word") (delete_word id)
  refuse_zero (fail (not_found_error "Word")) affected

abbrev pub filter_of : ListWordsFilter → WordFilter
filter_of f = record {
  search = f.search;
  language = f.language;
  tags = f.tags;
  created_by = f.created_by;
}

-- The page and the number of all words that the filter selects, by the collation of the database.
unfoldable pub list :
    (GoString → GoString → Bool) → ListWordsFilter → PageParams → Exec GoError Db (List Word × ℕ)
unfolding list_words count_words internal_error page_offset to_domain_word
list le filter page = do
  rows ← map_error (internal_wrap "list words") (
      list_words le (filter_of filter) page.sort page.order (page_offset page)
        (wrap (2 ^ 32) page.limit))
  total ← map_error (internal_wrap "count words") (count_words (filter_of filter))
  pure (map to_domain_word rows, total)
