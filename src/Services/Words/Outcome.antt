-- ===== src/Services/Words/Outcome.antt =====
-- That the creation of a word is all or nothing, through the lookup, the enricher and the transaction.
use wordotron_api.Prelude.{
  ◌≡◌, refl, sym, ap, ◌∙◌, some, List, [], ◌∷◌, ◌⊎◌, inl, inr, Bool-cases, Option-cases,
}
use mathlib.Core.Path.{subst}
use wordotron_api.Prelude.Exec.{
  Result, ok, err, Exec, ◌>>=◌, >>=-ok, >>=-err, >>=-eq-ok, on_result-eq-ok, Result-cases, inspect,
  lift, map_error,
}
use wordotron_api.Text.{GoString, is_empty, trim_space}
use wordotron_api.Errors.{GoError, has_code, not_found}
use wordotron_api.Models.{Uuid}
use wordotron_api.Models.Words.{Word}
use wordotron_api.Db.{Db, Tables}
use wordotron_api.Db.Query.Laws.{IsReading, IsReading->>=}
use wordotron_api.Db.Tokens.Laws.{tables-query}
use wordotron_api.Db.Tx.{with_tx}
use wordotron_api.Db.Tx.Laws.{with_tx-outcome, begun, IsLost}
use wordotron_api.Db.Words.{get_word, get_word_by_term}
use wordotron_api.Db.WordSenses.{list_word_senses_by_word}
use wordotron_api.Repository.Users.{internal_wrap}
use wordotron_api.Repository.Words.{get_by_term, get_by_id}
use wordotron_api.Repository.WordSenses.{list_by_word}
use wordotron_api.Services.Words.{
  WordWiring, Sense, CreateWordInput, normalize_language, refuse_known, refuse_empty, enrich,
  add_word, refuse_stranger, is_owner, get, create_and_enrich,
}
use wordotron_api.Services.Words.Creation.{IsAdded, add_word-eq-ok}

get_by_term-IsReading : (language term : GoString) → IsReading (get_by_term language term)
unfolding get_by_term get_word_by_term
get_by_term-IsReading language term = IsReading->>= _ _ (λ db. tables-query _ db) (λ row db. refl)

refuse_known-IsReading : (r : Result GoError Word) → IsReading (refuse_known r)
refuse_known-IsReading (ok word) db = refl
refuse_known-IsReading (err e) db = elim (Bool-cases (has_code not_found e)) [
  | inl p ↦ rw p refl
  | inr p ↦ rw p refl
]

refuse_empty-IsReading : (senses : List Sense) → IsReading (refuse_empty senses)
refuse_empty-IsReading [] db = refl
refuse_empty-IsReading (s ∷ senses) db = refl

module _ (wiring : WordWiring) where
  enrich-IsReading : (term language : GoString) → IsReading (enrich wiring term language)
  unfolding enrich
  enrich-IsReading term language db = elim (Option-cases wiring.enricher) [
    | inl p ↦ rw p refl
    | inr (ask, p) ↦ elim (Bool-cases (is_empty wiring.api_key)) [
      | inl q ↦ rw (p, q) refl
      | inr q ↦
          rw (p, q)
            (IsReading->>= (map_error (internal_wrap "enrich word") (lift (ask term language)))
              refuse_empty (λ d. refl) refuse_empty-IsReading db)
    ]
  ]

  refuse_stranger-IsReading :
      (owner_id : Uuid) (word : Word) → IsReading (refuse_stranger wiring owner_id word)
  refuse_stranger-IsReading owner_id word db = elim (Bool-cases (is_owner wiring owner_id word)) [
    | inl p ↦ rw p refl
    | inr p ↦ rw p refl
  ]

  get-IsReading : (id owner_id : Uuid) → IsReading (get wiring id owner_id)
  unfolding get get_by_id get_word list_by_word list_word_senses_by_word
  get-IsReading id owner_id =
      IsReading->>= (get_by_id id) _ (IsReading->>= _ _ (λ db. tables-query _ db) (λ row db. refl))
        (λ word.
          IsReading->>= (refuse_stranger wiring owner_id word) _
            (refuse_stranger-IsReading owner_id word)
            (λ _.
              IsReading->>= (list_by_word wiring.json id) _
                (IsReading->>= _ _ (λ db. tables-query _ db) (λ rows db. refl))
                (λ senses db. refl)))

  refuse_empty-eq-ok :
      (found : List Sense) (db : Db) {senses : List Sense}
      → (refuse_empty found db).0 ≡ ok senses
      → found ≡ senses
  refuse_empty-eq-ok [] db h = absurd (cc)
  refuse_empty-eq-ok (s ∷ found) db h = cc

  -- What the enricher answered, where it was asked.
  enrich-eq-ok :
      (term language : GoString) (db : Db) {senses : List Sense}
      → (enrich wiring term language db).0 ≡ ok senses
      → (ask : GoString → GoString → Result GoError (List Sense)) × (wiring.enricher ≡ some ask)
        × (ask term language ≡ ok senses)
  unfolding enrich
  enrich-eq-ok term language db {senses = senses} h = elim (Option-cases wiring.enricher) [
    | inl p ↦ absurd (cc (rw p at h))
    | inr (ask, p) ↦ elim (Bool-cases (is_empty wiring.api_key)) [
      | inl q ↦ absurd (cc (rw (p, q) at h))
      | inr q ↦ (ask, p, asked ask (rw (p, q) at h))
    ]
  ]
    where
      asked :
          (ask : GoString → GoString → Result GoError (List Sense))
          → ((map_error (internal_wrap "enrich word") (lift (ask term language)) >>= refuse_empty)
              db).0
            ≡ ok senses
          → ask term language ≡ ok senses
      asked ask e =
          let (found, ran, rest, _) =
            >>=-eq-ok (map_error (internal_wrap "enrich word") (lift (ask term language)))
              refuse_empty db e in
          on_result-eq-ok (internal_wrap "enrich word") (ask term language) ran
          ∙ ap ok (refuse_empty-eq-ok found db rest)

  -- The way of a creation: an error that changes no table, or the word with its senses.
  abbrev pub IsAllOrNothing :
      Uuid → CreateWordInput → Tables → Result GoError Word → Tables → Type 0
  IsAllOrNothing actor_id input before r after =
      ((e : GoError) × (r ≡ err e) × (after ≡ before))
      ⊎ ((ask : GoString → GoString → Result GoError (List Sense)) × (senses : List Sense)
          × (wiring.enricher ≡ some ask)
          × (ask (trim_space input.term) (normalize_language input.language) ≡ ok senses)
          × IsAdded actor_id (trim_space input.term) (normalize_language input.language) senses
              before after)

  -- The transaction and the reading of its word.
  abbrev stored : Uuid → CreateWordInput → List Sense → Exec GoError Db Word
  stored actor_id input senses =
      with_tx (
        add_word wiring actor_id (trim_space input.term) (normalize_language input.language) senses)
      >>= λ id. get wiring id actor_id

  -- The reading behind a transaction that took effect changes no table, whatever the answer was.
  same_after :
      (actor_id : Uuid) (body : Exec GoError Db Uuid) (id : Uuid) (db : Db)
      → ((with_tx body db).0 ≡ ok id) ⊎ IsLost (with_tx body db).0
      → ((with_tx body >>= λ id. get wiring id actor_id) db).1.tables ≡ (with_tx body db).1.tables
  same_after actor_id body id db (inl done) =
      ap (λ r. r.1.tables) (>>=-ok (with_tx body) (λ id. get wiring id actor_id) db done)
      ∙ get-IsReading id actor_id (with_tx body db).1
  same_after actor_id body id db (inr (d, lost)) =
      ap (λ r. r.1.tables) (>>=-err (with_tx body) (λ id. get wiring id actor_id) db lost)

  stored-outcome :
      (actor_id : Uuid) (input : CreateWordInput) (senses : List Sense) (db : Db)
      → ((e : GoError) × ((stored actor_id input senses db).0 ≡ err e)
          × ((stored actor_id input senses db).1.tables ≡ db.tables))
        ⊎ IsAdded actor_id
            (trim_space input.term)
            (normalize_language input.language)
            senses
            db.tables
            (stored actor_id input senses db).1.tables
  stored-outcome actor_id input senses db =
      let body =
        add_word wiring actor_id (trim_space input.term) (normalize_language input.language)
          senses in
      elim (with_tx-outcome body db) [
        | inl (e, failed, same) ↦ inl (
          e,
          ap (λ r. r.0) (>>=-err (with_tx body) (λ id. get wiring id actor_id) db failed),
          ap (λ r. r.1.tables) (>>=-err (with_tx body) (λ id. get wiring id actor_id) db failed)
              ∙ same,
        )
        | inr (id, ran, after, answer) ↦ inr (
            subst
              (IsAdded actor_id (trim_space input.term) (normalize_language input.language) senses
                db.tables)
              (sym (same_after actor_id body id db answer ∙ after))
              (add_word-eq-ok wiring actor_id _ _ senses (begun db) ran))
      ]

  -- The lookup that lets a new term through.
  abbrev looked_up : CreateWordInput → Exec GoError Db (Unit {0})
  looked_up input =
      inspect (get_by_term (normalize_language input.language) (trim_space input.term)) refuse_known

  looked_up-IsReading : (input : CreateWordInput) → IsReading (looked_up input)
  looked_up-IsReading input db =
      refuse_known-IsReading
        (get_by_term (normalize_language input.language) (trim_space input.term) db).0
        (get_by_term (normalize_language input.language) (trim_space input.term) db).1
      ∙ get_by_term-IsReading (normalize_language input.language) (trim_space input.term) db

  abbrev enriched : Uuid → CreateWordInput → Exec GoError Db Word
  enriched actor_id input =
      enrich wiring (trim_space input.term) (normalize_language input.language)
      >>= stored actor_id input

  enriched-outcome :
      (actor_id : Uuid) (input : CreateWordInput) (db : Db)
      → IsAllOrNothing actor_id input db.tables
          (enriched actor_id input db).0
          (enriched actor_id input db).1.tables
  enriched-outcome actor_id input db =
      let ask_for = enrich wiring (trim_space input.term) (normalize_language input.language) in
      let same = enrich-IsReading (trim_space input.term) (normalize_language input.language) db in
      elim (Result-cases (ask_for db).0) [
        | inr (e, p) ↦
            let chain = >>=-err ask_for (stored actor_id input) db p in
            inl (e, ap (λ r. r.0) chain, ap (λ r. r.1.tables) chain ∙ same)
        | inl (senses, p) ↦
            let chain = >>=-ok ask_for (stored actor_id input) db p in
            let (ask, wired, answer) =
              enrich-eq-ok (trim_space input.term) (normalize_language input.language) db p in
            elim (stored-outcome actor_id input senses (ask_for db).1) [
              | inl (e, failed, kept) ↦
                  inl (e, ap (λ r. r.0) chain ∙ failed, ap (λ r. r.1.tables) chain ∙ kept ∙ same)
              | inr added ↦ inr (
                ask,
                senses,
                wired,
                answer,
                subst
                    (λ t.
                      IsAdded actor_id (trim_space input.term) (normalize_language input.language)
                        senses t (enriched actor_id input db).1.tables)
                    same
                    (subst
                      (IsAdded actor_id (trim_space input.term) (normalize_language input.language)
                        senses (ask_for db).1.tables)
                      (sym (ap (λ r. r.1.tables) chain)) added),
              )
            ]
      ]

  -- The creation of a word is all or nothing, wherever the driver, the enricher or the JSON package
  -- fails: it ends in an error and no table has changed, or the enricher answered with senses, and the
  -- word of the caller stands in the table with a row for each of them that has a definition, trimmed
  -- and in order. So a creation that ends well has stored them all; one that ends in an error behind its
  -- commit, or at a commit whose answer was lost, may have.
  pub create_and_enrich-outcome :
      (actor_id : Uuid) (input : CreateWordInput) (db : Db)
      → IsAllOrNothing actor_id input db.tables
          (create_and_enrich wiring actor_id input db).0
          (create_and_enrich wiring actor_id input db).1.tables
  unfolding create_and_enrich
  create_and_enrich-outcome actor_id input db = elim (Result-cases (looked_up input db).0) [
    | inr (e, p) ↦
        let chain = >>=-err (looked_up input) (λ _. enriched actor_id input) db p in
        inl (e, ap (λ r. r.0) chain, ap (λ r. r.1.tables) chain ∙ looked_up-IsReading input db)
    | inl (_, p) ↦
        let chain = >>=-ok (looked_up input) (λ _. enriched actor_id input) db p in
        subst
          (λ t.
            IsAllOrNothing actor_id input t (create_and_enrich wiring actor_id input db).0
              (create_and_enrich wiring actor_id input db).1.tables)
          (looked_up-IsReading input db)
          (subst
            (λ (r : Result GoError Word × Db).
              IsAllOrNothing actor_id input (looked_up input db).1.tables r.0 r.1.tables)
            (sym chain) (enriched-outcome actor_id input (looked_up input db).1))
  ]
