-- ===== src/Services/Words/Ownership.antt =====
-- What a caller gets to see of the words.
use wordotron_api.Prelude.{
  ◌≡◌, refl, sym, ap, ◌∙◌, Bool, true, false, Option, none, some, List, [], ◌∷◌, arith, find?,
  keep_if, All, leb, if◌then◌else◌, Bool-cases, inl, inr,
}
use mathlib.Core.Path.{subst}
use mathlib.Core.List.{Perm}
use wordotron_api.Prelude.Int.{lez}
use wordotron_api.Prelude.Exec.{
  Result, ok, err, ◌>>=◌, ◌>>◌, >>=-eq-ok, map_error, lift, pure, on_result-eq-ok, Result-cases,
}
use wordotron_api.Text.{is_empty}
use wordotron_api.Errors.{GoError}
use wordotron_api.Models.{Uuid}
use wordotron_api.Models.Words.{Word, WordSense}
use wordotron_api.Db.{Db, Tables, WordRow, WordSenseRow, statement, query, one_row}
use wordotron_api.Db.Query.{order_by, then_by}
use wordotron_api.Db.Query.Order.{
  IsOrdered, order_by-IsOrdered, All-order_by, order_by-Perm, All-keep_if_self,
}
use wordotron_api.Db.Tokens.Laws.{statement-eq-ok, tables-query}
use wordotron_api.Db.Words.{has_word_id, get_word}
use wordotron_api.Db.WordSenses.{is_sense_of, sense_le, list_word_senses_by_word}
use wordotron_api.Repository.Users.{lookup_error, internal_wrap}
use wordotron_api.Repository.Users.Laws.{one_row-eq-ok}
use wordotron_api.Repository.Words.{to_domain_word, get_by_id}
use wordotron_api.Repository.WordSenses.{
  JsonCodec, no_meta, to_domain_word_sense, to_domain_word_senses, cons_result, list_by_word,
}
use wordotron_api.Services.Words.{WordWiring, refuse_stranger, is_owner, get}

-- The order of senses: by number, then by age.
abbrev pub sense_before : WordSense → WordSense → Bool
sense_before x y =
    then_by (lez x.sense_order y.sense_order) (lez y.sense_order x.sense_order)
      (leb x.created_at y.created_at)

module _ (json : JsonCodec) where
  -- A sense and the row that it is: every column, with the column of JSON as it is read.
  abbrev pub SameSense : WordSenseRow → WordSense → Type 0
  SameSense row s =
      (s.word_id ≡ row.word_id)
      × (s.sense_order ≡ row.sense_order)
      × (s.created_at ≡ row.created_at)
      × (s.id ≡ row.id)
      × (s.part_of_speech ≡ row.part_of_speech)
      × (s.definition ≡ row.definition)
      × (s.example ≡ row.example)
      × (s.updated_at ≡ row.updated_at)
      × ((if is_empty row.meta then ok no_meta else json.unmarshal row.meta) ≡ ok s.meta)

  abbrev pub SameSenses : List WordSenseRow → List WordSense → Type 0
  SameSenses [] [] = Unit
  SameSenses [] (s ∷ senses) = ⊥
  SameSenses (r ∷ rows) [] = ⊥
  SameSenses (r ∷ rows) (s ∷ senses) = SameSense r s × SameSenses rows senses

  to_domain_word_sense-eq-ok :
      (row : WordSenseRow) {s : WordSense} → to_domain_word_sense json row ≡ ok s → SameSense row s
  unfolding to_domain_word_sense
  to_domain_word_sense-eq-ok row h =
      elim (Result-cases (if is_empty row.meta then ok no_meta else json.unmarshal row.meta)) [
        | inl (m, p) ↦
            let made = rw (p, to_domain_word_sense) at h in
            (
              ground arith,
              ground arith,
              ground arith,
              ground arith,
              ground arith,
              ground arith,
              ground arith,
              ground arith,
              rw p (ground arith),
            )
        | inr (e, p) ↦ absurd (cc (rw (p, to_domain_word_sense) at h))
      ]

  cons_result-eq-ok :
      (r : Result GoError WordSense) (rest : Result GoError (List WordSense))
      {senses : List WordSense}
      → cons_result json r rest ≡ ok senses
      → (s : WordSense) × (ss : List WordSense) × (r ≡ ok s) × (rest ≡ ok ss) × (s ∷ ss ≡ senses)
  cons_result-eq-ok (err e) rest h = absurd (cc)
  cons_result-eq-ok (ok s) (err e) h = absurd (cc)
  cons_result-eq-ok (ok s) (ok ss) h = (s, ss, refl, refl, cc)

  to_domain_word_senses-eq-ok :
      (rows : List WordSenseRow) {senses : List WordSense}
      → to_domain_word_senses json rows ≡ ok senses
      → SameSenses rows senses
  to_domain_word_senses-eq-ok [] h =
      let none_left : [] ≡ _ = cc in subst (SameSenses []) none_left tt
  to_domain_word_senses-eq-ok (row ∷ rows) h =
      let (s, ss, read, rest, made) =
        cons_result-eq-ok (to_domain_word_sense json row) (to_domain_word_senses json rows) h in
      subst (SameSenses (row ∷ rows)) made
        (to_domain_word_sense-eq-ok row read, to_domain_word_senses-eq-ok rows rest)

  SameSenses-All :
      (id : Uuid) (rows : List WordSenseRow) (senses : List WordSense)
      → SameSenses rows senses
      → All (λ r. is_sense_of id r ≡ true) rows
      → All (λ s. s.word_id ≡ id) senses
  SameSenses-All id [] [] h k = tt
  SameSenses-All id [] (s ∷ senses) h k = absurd h
  SameSenses-All id (r ∷ rows) [] h k = absurd h
  SameSenses-All id (r ∷ rows) (s ∷ senses) (same, rest) (first, k) =
      (ground (arith, same), SameSenses-All id rows senses rest k)

  SameSenses-IsOrdered :
      (rows : List WordSenseRow) (senses : List WordSense)
      → SameSenses rows senses
      → IsOrdered sense_le rows
      → IsOrdered sense_before senses
  SameSenses-IsOrdered [] [] h k = tt
  SameSenses-IsOrdered [] (s ∷ senses) h k = absurd h
  SameSenses-IsOrdered (r ∷ rows) [] h k = absurd h
  SameSenses-IsOrdered (r ∷ []) (s ∷ []) h k = tt
  SameSenses-IsOrdered (r ∷ []) (s ∷ s' ∷ senses) h k = absurd h.1
  SameSenses-IsOrdered (r ∷ r' ∷ rows) (s ∷ []) h k = absurd h.1
  SameSenses-IsOrdered (r ∷ r' ∷ rows) (s ∷ s' ∷ senses) (same, (same', rest)) (first, k) = (
    rw (same.1, same.2, same'.1, same'.2) first,
    SameSenses-IsOrdered (r' ∷ rows) (s' ∷ senses) (same', rest) k,
  )

sense_le-total : (x y : WordSenseRow) → sense_le x y ≡ false → sense_le y x ≡ true
sense_le-total x y h = ground arith

-- What the owner of a word sees: the word, and its senses in order, which are the rows of the word, each
-- of them once.
abbrev pub IsShown : JsonCodec → Uuid → Uuid → Tables → Word → Type 0
IsShown json id owner_id t word =
    (row : WordRow) × (find? (has_word_id id) t.words ≡ some row)
    × (row.created_by ≡ some owner_id)
    × (word ≡ record {
      id = row.id;
      term = row.term;
      language = row.language;
      pronunciation = row.pronunciation;
      tags = row.tags;
      created_by = row.created_by;
      created_at = row.created_at;
      updated_at = row.updated_at;
      senses = word.senses;
    })
    × All (λ s. s.word_id ≡ id) word.senses
    × IsOrdered sense_before word.senses
    × (rows : List WordSenseRow) × Perm rows (keep_if (is_sense_of id) t.word_senses)
    × SameSenses json rows word.senses

get_by_id-eq-ok :
    (id : Uuid) (db : Db) {word : Word}
    → (get_by_id id db).0 ≡ ok word
    → (row : WordRow) × (find? (has_word_id id) db.tables.words ≡ some row)
      × (to_domain_word row ≡ word)
      × ((get_by_id id db).1.tables ≡ db.tables)
unfolding get_by_id get_word
get_by_id-eq-ok id db h =
    let lookup : Tables → Result GoError WordRow = λ t. one_row (find? (has_word_id id) t.words) in
    let (row, found, made, chain) =
      >>=-eq-ok (map_error (lookup_error "Word" "get word") (statement (query lookup)))
        (λ row. pure (to_domain_word row)) db h in
    let (read, _) =
      statement-eq-ok (query lookup) db (on_result-eq-ok _ (statement (query lookup) db).0 found) in
    (row, one_row-eq-ok _ read, cc, ap (λ r. r.1.tables) chain ∙ tables-query lookup db)

list_by_word-eq-ok :
    (json : JsonCodec) (id : Uuid) (db : Db) {senses : List WordSense}
    → (list_by_word json id db).0 ≡ ok senses
    → SameSenses json (order_by sense_le (keep_if (is_sense_of id) db.tables.word_senses)) senses
unfolding list_by_word list_word_senses_by_word
list_by_word-eq-ok json id db {senses = senses} h =
    let rows_of : Tables → Result GoError (List WordSenseRow) =
      λ t. ok (order_by sense_le (keep_if (is_sense_of id) t.word_senses)) in
    let (rows, found, made, chain) =
      >>=-eq-ok (map_error (internal_wrap "list word senses") (statement (query rows_of)))
        (λ rows. lift (to_domain_word_senses json rows)) db h in
    let (read, _) =
      statement-eq-ok (query rows_of) db
        (on_result-eq-ok _ (statement (query rows_of) db).0 found) in
    let same : rows ≡ order_by sense_le (keep_if (is_sense_of id) db.tables.word_senses) = cc in
    subst (λ r. SameSenses json r senses) same (to_domain_word_senses-eq-ok json rows made)

is_owner-holds :
    (wiring : WordWiring) (owner_id : Uuid) (o : Option Uuid) (row : WordRow)
    → row.created_by ≡ o
    → is_owner wiring owner_id (to_domain_word row) ≡ true
    → o ≡ some owner_id
unfolding to_domain_word
is_owner-holds wiring owner_id none row e h = absurd (cc (rw e at h))
is_owner-holds wiring owner_id (some u) row e h = let same = rw e at h in ground arith

refuse_stranger-eq-ok :
    (wiring : WordWiring) (owner_id : Uuid) (word : Word) (db : Db)
    → (refuse_stranger wiring owner_id word db).0 ≡ ok tt
    → (is_owner wiring owner_id word ≡ true)
      × (refuse_stranger wiring owner_id word db ≡ (ok tt, db))
refuse_stranger-eq-ok wiring owner_id word db h =
    elim (Bool-cases (is_owner wiring owner_id word)) [
      | inl p ↦ (p, rw p refl)
      | inr p ↦ absurd (cc (rw p at h))
    ]

assembled :
    (wiring : WordWiring) (id owner_id : Uuid) (row : WordRow) (senses : List WordSense)
    (t : Tables)
    → find? (has_word_id id) t.words ≡ some row
    → is_owner wiring owner_id (to_domain_word row) ≡ true
    → SameSenses wiring.json (order_by sense_le (keep_if (is_sense_of id) t.word_senses)) senses
    → IsShown wiring.json id owner_id t (record (to_domain_word row) { senses = senses })
unfolding to_domain_word
assembled wiring id owner_id row senses t found owned same =
    let own = keep_if (is_sense_of id) t.word_senses in
    (
      row,
      found,
      is_owner-holds wiring owner_id row.created_by row refl owned,
      refl,
      SameSenses-All wiring.json id (order_by sense_le own) senses same (
          All-order_by (λ r. is_sense_of id r ≡ true) sense_le own
            (All-keep_if_self (is_sense_of id) t.word_senses)),
      SameSenses-IsOrdered wiring.json (order_by sense_le own) senses same
          (order_by-IsOrdered sense_le sense_le-total own),
      order_by sense_le own,
      order_by-Perm sense_le own,
      same,
    )

-- A word that is read is one that the caller created, with the columns of its row; its senses are the
-- rows of senses of this word, each of them once and with all of its columns, ordered by their numbers
-- and, where these are equal, by their age.
pub get-eq-ok :
    (wiring : WordWiring) (id owner_id : Uuid) (db : Db) {word : Word}
    → (get wiring id owner_id db).0 ≡ ok word
    → IsShown wiring.json id owner_id db.tables word
unfolding get
get-eq-ok wiring id owner_id db {word = word} h =
    let (w, first, rest, _) =
      >>=-eq-ok (get_by_id id)
        (λ w.
          refuse_stranger wiring owner_id w
          >> (list_by_word wiring.json id >>= λ senses. pure (record w { senses = senses })))
        db h in
    let (row, found, same_word, tables) = get_by_id-eq-ok id db first in
    let (_, let_in, rest', _) =
      >>=-eq-ok (refuse_stranger wiring owner_id w)
        (λ _. list_by_word wiring.json id >>= λ senses. pure (record w { senses = senses }))
        (get_by_id id db).1 rest in
    let (owned, through) = refuse_stranger-eq-ok wiring owner_id w (get_by_id id db).1 let_in in
    let (senses, listed, made, _) =
      >>=-eq-ok (list_by_word wiring.json id) (λ senses. pure (record w { senses = senses }))
        (get_by_id id db).1 (rw (ap (λ r. r.1) through) at rest') in
    let made_word : record w { senses = senses } ≡ word = cc in
    let of_row =
      λ (v : Word). IsShown wiring.json id owner_id db.tables (record v { senses = senses }) in
    subst (IsShown wiring.json id owner_id db.tables) made_word (
      subst of_row same_word (
        assembled wiring id owner_id row senses db.tables found
          (subst (λ v. is_owner wiring owner_id v ≡ true) (sym same_word) owned)
          (subst
            (λ t.
              SameSenses wiring.json (order_by sense_le (keep_if (is_sense_of id) t.word_senses))
                senses)
            tables (list_by_word-eq-ok wiring.json id (get_by_id id db).1 listed))))
