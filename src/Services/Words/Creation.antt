-- ===== src/Services/Words/Creation.antt =====
-- What the creation of a word leaves in the tables.
use wordotron_api.Prelude.{
  ℕ, ◌+◌, ◌^◌, ◌≡◌, refl, sym, ap, ◌∙◌, Bool, true, false, Option, none, some, List, [], ◌∷◌, ◌++◌,
  arith, if◌then◌else◌,
}
use mathlib.Core.Path.{subst}
use mathlib.Core.List.{append_assoc, append-nil}
use wordotron_api.Prelude.Int.{pos, wrap}
use wordotron_api.Prelude.Exec.{ok, ◌>>=◌, >>=-eq-ok, map_error, lift, pure, on_result-eq-ok}
use wordotron_api.Text.{GoString, is_empty, trim_space}
use wordotron_api.Models.{Uuid, Time}
use wordotron_api.Models.Words.{Word, WordSense, CreateWordInput as WordInput, CreateWordSenseInput}
use wordotron_api.Db.{Db, Tables, WordRow, WordSenseRow, now, statement}
use wordotron_api.Db.Tokens.Laws.{statement-eq-ok}
use wordotron_api.Db.Words.{CreateWordParams, insert_word, new_word_row, create_word as insert_row}
use wordotron_api.Db.WordSenses.{
  CreateWordSenseParams, insert_sense, new_sense_row, create_word_sense,
}
use wordotron_api.Repository.Users.{internal_wrap}
use wordotron_api.Repository.Words.{to_domain_word, create as create_word, creation_error}
use wordotron_api.Repository.WordSenses.{
  JsonCodec, create as create_sense, marshal_word_meta, to_domain_word_sense,
}
use wordotron_api.Services.Words.{
  WordWiring, Sense, part_of_sense, example_of_sense, add_sense, add_senses, add_word,
}

-- The senses that have a definition, with their numbers from `i` on.
abbrev pub defined : ℕ → List Sense → List (ℕ × Sense)
defined i [] = []
defined i (s ∷ senses) =
    let rest = defined (i + 1) senses in
    if is_empty (trim_space s.definition) then rest else (i, s) ∷ rest

-- The row holds the numbered sense, trimmed, as a sense of the word.
abbrev pub Holds : Uuid → ℕ × Sense → WordSenseRow → Type 0
Holds word_id (i, s) row =
    (row.word_id ≡ word_id)
    × (row.definition ≡ trim_space s.definition)
    × (row.part_of_speech ≡ part_of_sense s)
    × (row.example ≡ example_of_sense s)
    × (row.sense_order ≡ wrap (2 ^ 16) (pos i))

abbrev pub HoldAll : Uuid → List (ℕ × Sense) → List WordSenseRow → Type 0
HoldAll word_id [] [] = Unit
HoldAll word_id [] (r ∷ rows) = ⊥
HoldAll word_id (s ∷ senses) [] = ⊥
HoldAll word_id (s ∷ senses) (r ∷ rows) = Holds word_id s r × HoldAll word_id senses rows

HoldAll-++ :
    (word_id : Uuid) (xs ys : List (ℕ × Sense)) (rows rows' : List WordSenseRow)
    → HoldAll word_id xs rows
    → HoldAll word_id ys rows'
    → HoldAll word_id (xs ++ ys) (rows ++ rows')
HoldAll-++ word_id [] ys [] rows' h k = k
HoldAll-++ word_id [] ys (r ∷ rows) rows' h k = absurd h
HoldAll-++ word_id (x ∷ xs) ys [] rows' h k = absurd h
HoldAll-++ word_id (x ∷ xs) ys (r ∷ rows) rows' (first, h) k =
    (first, HoldAll-++ word_id xs ys rows rows' h k)

insert_sense-eq-ok :
    (arg : CreateWordSenseParams) (id : Uuid) (at : Time) (t : Tables) {row : WordSenseRow}
    → (insert_sense arg id at t).0 ≡ ok row
    → ((insert_sense arg id at t).1.word_senses ≡ t.word_senses ++ new_sense_row arg id at ∷ [])
      × ((insert_sense arg id at t).1.words ≡ t.words)
unfolding insert_sense
insert_sense-eq-ok arg id at t h = (ground arith, ground arith)

insert_word-eq-ok :
    (arg : CreateWordParams) (id : Uuid) (at : Time) (t : Tables) {row : WordRow}
    → (insert_word arg id at t).0 ≡ ok row
    → ((insert_word arg id at t).1.words ≡ t.words ++ new_word_row arg id at ∷ [])
      × ((insert_word arg id at t).1.word_senses ≡ t.word_senses)
      × (row ≡ new_word_row arg id at)
unfolding insert_word
insert_word-eq-ok arg id at t h = (ground arith, ground arith, ground arith)

abbrev params_of : CreateWordSenseInput → Option GoString → CreateWordSenseParams
params_of input meta = record {
  word_id = input.word_id;
  part_of_speech = input.part_of_speech;
  definition = input.definition;
  example = input.example;
  meta = meta;
  sense_order = input.sense_order;
}

-- The row is added behind the others, with the columns of the input.
create_sense-eq-ok :
    (json : JsonCodec) (input : CreateWordSenseInput) (db : Db) {a : WordSense}
    → (create_sense json input db).0 ≡ ok a
    → (meta : Option GoString) × ((create_sense json input db).1.tables.word_senses
        ≡ db.tables.word_senses
          ++ new_sense_row (params_of input meta) (db.ids db.step) (now db) ∷ [])
      × ((create_sense json input db).1.tables.words ≡ db.tables.words)
unfolding create_sense create_word_sense
create_sense-eq-ok json input db h =
    let (meta, _, rest, chain) =
      >>=-eq-ok
        (map_error (internal_wrap "marshal sense meta") (lift (marshal_word_meta json input.meta)))
        (λ meta.
          map_error (internal_wrap "create word sense") (create_word_sense (params_of input meta))
          >>= λ row. lift (to_domain_word_sense json row))
        db h in
    let insert = statement (insert_sense (params_of input meta)) in
    let (row, ran, _, chain') =
      >>=-eq-ok (map_error (internal_wrap "create word sense") insert)
        (λ row. lift (to_domain_word_sense json row)) db rest in
    let (done, after) =
      statement-eq-ok (insert_sense (params_of input meta)) db
        (on_result-eq-ok _ (insert db).0 ran) in
    let (added, same) =
      insert_sense-eq-ok (params_of input meta) (db.ids db.step) (now db) db.tables done in
    (meta, rw (chain, chain', after) added, rw (chain, chain', after) same)

-- What the loop over the senses adds.
abbrev IsFilled : Uuid → List (ℕ × Sense) → Tables → Tables → Type 0
IsFilled word_id senses before after =
    (rows : List WordSenseRow) × (after.word_senses ≡ before.word_senses ++ rows)
    × (after.words ≡ before.words)
    × HoldAll word_id senses rows

-- What the loop sends for the numbered sense.
abbrev input_of : ℕ → Uuid → Sense → CreateWordSenseInput
input_of i word_id s = record {
  word_id = word_id;
  part_of_speech = part_of_sense s;
  definition = trim_space s.definition;
  example = example_of_sense s;
  meta = some (record {
    synonyms = s.synonyms;
    antonyms = s.antonyms;
    other_ways_to_say = s.other_ways_to_say;
  });
  sense_order = wrap (2 ^ 16) (pos i);
}

module _ (wiring : WordWiring) where
  add_sense-eq-ok :
      (i : ℕ) (word_id : Uuid) (s : Sense) (db : Db)
      → (add_sense wiring i word_id s db).0 ≡ ok tt
      → IsFilled word_id ((i, s) ∷ []) db.tables (add_sense wiring i word_id s db).1.tables
  add_sense-eq-ok i word_id s db h =
      let (a, ran, _, chain) = >>=-eq-ok (create_sense wiring.json (input_of i word_id s)) _ db h in
      let (meta, added, same) = create_sense-eq-ok wiring.json (input_of i word_id s) db ran in
      (
        new_sense_row (params_of (input_of i word_id s) meta) (db.ids db.step) (now db) ∷ [],
        rw chain added,
        rw chain same,
        ((refl, refl, refl, refl, refl), tt),
      )

  add_senses-eq-ok :
      (i : ℕ) (word_id : Uuid) (senses : List Sense) (db : Db)
      → (add_senses wiring i word_id senses db).0 ≡ ok tt
      → IsFilled word_id
          (defined i senses)
          db.tables
          (add_senses wiring i word_id senses db).1.tables
  unfolding add_senses
  add_senses-eq-ok i word_id [] db h = ([], sym (append-nil db.tables.word_senses), refl, tt)
  add_senses-eq-ok i word_id (s ∷ senses) db h =
      by_definition (is_empty (trim_space s.definition)) refl
        (add_senses-eq-ok (i + 1) word_id senses)
    where
      by_definition :
          (b : Bool)
          → is_empty (trim_space s.definition) ≡ b
          → ((db : Db)
              → (add_senses wiring (i + 1) word_id senses db).0 ≡ ok tt
              → IsFilled word_id
                  (defined (i + 1) senses)
                  db.tables
                  (add_senses wiring (i + 1) word_id senses db).1.tables)
          → IsFilled word_id
              (defined i (s ∷ senses))
              db.tables
              (add_senses wiring i word_id (s ∷ senses) db).1.tables
      by_definition true e go = rw e (go db (rw e at h))
      by_definition false e go =
          let (_, first, rest, chain) =
            >>=-eq-ok (add_sense wiring i word_id s) (λ _. add_senses wiring (i + 1) word_id senses)
              db (rw e at h) in
          let (rows, added, same, hold) = add_sense-eq-ok i word_id s db first in
          let (rows', added', same', hold') = go (add_sense wiring i word_id s db).1 rest in
          rw (e, chain)
            (
              rows ++ rows',
              added' ∙ ap (λ xs. xs ++ rows') added ∙ append_assoc db.tables.word_senses rows rows',
              same' ∙ same,
              HoldAll-++ word_id ((i, s) ∷ []) (defined (i + 1) senses) rows rows' hold hold',
            )

-- The tables with a new word of the actor behind the others, and behind the other senses a row for
-- each sense that has a definition, in order.
abbrev pub IsAdded : Uuid → GoString → GoString → List Sense → Tables → Tables → Type 0
IsAdded actor_id term language senses before after =
    (row : WordRow) × (rows : List WordSenseRow) × (after.words ≡ before.words ++ row ∷ [])
    × (after.word_senses ≡ before.word_senses ++ rows)
    × (row.term ≡ term)
    × (row.language ≡ language)
    × (row.created_by ≡ some actor_id)
    × HoldAll row.id (defined 0 senses) rows

abbrev word_params : Uuid → GoString → GoString → CreateWordParams
word_params actor_id term language = record {
  term = term;
  language = language;
  pronunciation = none;
  tags = none;
  created_by = some actor_id;
}

abbrev word_input : Uuid → GoString → GoString → WordInput
word_input actor_id term language = record {
  term = term;
  language = language;
  pronunciation = none;
  tags = none;
  created_by = some actor_id;
}

create_word-eq-ok :
    (actor_id : Uuid) (term language : GoString) (db : Db) {word : Word}
    → (create_word (word_input actor_id term language) db).0 ≡ ok word
    → (word
        ≡ to_domain_word
            (new_word_row (word_params actor_id term language) (db.ids db.step) (now db)))
      × ((create_word (word_input actor_id term language) db).1.tables.words
          ≡ db.tables.words
            ++ new_word_row (word_params actor_id term language) (db.ids db.step) (now db) ∷ [])
      × ((create_word (word_input actor_id term language) db).1.tables.word_senses
          ≡ db.tables.word_senses)
unfolding create_word insert_row
create_word-eq-ok actor_id term language db h =
    let insert = statement (insert_word (word_params actor_id term language)) in
    let (row, ran, made, chain) =
      >>=-eq-ok (map_error creation_error insert) (λ row. pure (to_domain_word row)) db h in
    let (done, after) =
      statement-eq-ok (insert_word (word_params actor_id term language)) db
        (on_result-eq-ok creation_error (insert db).0 ran) in
    let (words, senses, same) =
      insert_word-eq-ok (word_params actor_id term language) (db.ids db.step) (now db) db.tables
        done in
    (cc, rw (chain, after) words, rw (chain, after) senses)

-- The body of the transaction, where it ends well.
pub add_word-eq-ok :
    (wiring : WordWiring) (actor_id : Uuid) (term language : GoString) (senses : List Sense)
    (db : Db) {id : Uuid}
    → (add_word wiring actor_id term language senses db).0 ≡ ok id
    → IsAdded actor_id term language senses db.tables
        (add_word wiring actor_id term language senses db).1.tables
unfolding add_word to_domain_word
add_word-eq-ok wiring actor_id term language senses db h =
    let made = create_word (word_input actor_id term language) in
    let (word, first, rest, chain) =
      >>=-eq-ok made (λ w. add_senses wiring 0 w.id senses >>= λ _. pure w.id) db h in
    let (same_word, words, untouched) = create_word-eq-ok actor_id term language db first in
    let (_, second, _, chain') =
      >>=-eq-ok (add_senses wiring 0 word.id senses) (λ _. pure word.id) (made db).1 rest in
    let (rows, added, same, hold) = add_senses-eq-ok wiring 0 word.id senses (made db).1 second in
    (
      new_word_row (word_params actor_id term language) (db.ids db.step) (now db),
      rows,
      rw (chain, chain') (same ∙ words),
      rw (chain, chain') (added ∙ ap (λ xs. xs ++ rows) untouched),
      refl,
      refl,
      refl,
      subst (λ w. HoldAll w (defined 0 senses) rows) (ap (λ w. w.id) same_word) hold,
    )
