-- ===== src/Services/Auth/Links/SingleUse.antt =====
-- A link is used once.
use wordotron_api.Prelude.{
  ◌≡◌, ◌≢◌, refl, ap, ◌∙◌, true, Option, none, [], some, arith, keep_if, find?, is_none,
}
use wordotron_api.Prelude.Exec.{
  Result, ok, Exec, ◌>>◌, >>=-eq-ok, map_error, on_result, on_result-eq-ok,
}
use wordotron_api.Text.{GoString}
use wordotron_api.Errors.{GoError}
use wordotron_api.Models.{Uuid, Time, Token, is_usable}
use wordotron_api.Db.{Db, Tables, UserRow, now, statement, Statement, query, one_row}
use wordotron_api.Db.Users.{set_user, update_user_password, mark_user_email_verified}
use wordotron_api.Db.Tokens.{
  Kind, password_reset, email_verification, rows, has_hash, is_fresh, use_rows,
}
use wordotron_api.Db.Tokens.Laws.{
  IsSpent, statement-eq-ok, tables-query, fresh_after-use_rows, use_rows-IsSpent,
}
use wordotron_api.Db.Tx.{with_tx}
use wordotron_api.Db.Tx.Laws.{begun, with_tx-eq-ok}
use wordotron_api.Repository.Users.{update_password, mark_email_verified}
use wordotron_api.Repository.Tokens.{mark_used}
use wordotron_api.Repository.Tokens.Laws.{mark_used-eq-ok}
use wordotron_api.Db.Tokens.{get_token}
use wordotron_api.Repository.Tokens.{get_by_token_hash}
use wordotron_api.Services.World.{World, on_db}
use wordotron_api.Services.Auth.{
  Wiring, hash_token, hash_password, invalid_reset_link, invalid_verification_link,
}
use wordotron_api.Services.Auth.Links.{
  consume_reset, consume_verification, link_error, check_usable, usable_token, reset_password,
  verify_email,
}

rows-set_user :
    (k : Kind) (id : Uuid) (f : UserRow → UserRow) (at : Time) (t : Tables)
    → rows k (set_user id f at t) ≡ rows k t
rows-set_user password_reset id f at t = refl
rows-set_user email_verification id f at t = refl

-- A call that ends well leaves the tokens as they are.
abbrev Keeps : Kind → Exec GoError Db (Unit {0}) → Type 0
Keeps k body = (d : Db) → (body d).0 ≡ ok tt → rows k (body d).1.tables ≡ rows k d.tables

Keeps-change :
    (k : Kind) (u : Uuid) (f : Time → UserRow → UserRow) (what : GoError → GoError)
    → Keeps k (map_error what (statement (λ _ at t. (ok tt, set_user u (f at) at t))))
Keeps-change k u f what d h =
    let change : Statement (Unit {0}) = λ _ at t. (ok tt, set_user u (f at) at t) in
    let (_, after) = statement-eq-ok change d (on_result-eq-ok what (statement change d).0 h) in
    rw after (rows-set_user k u (f (now d)) (now d) d.tables)

Keeps-update_password :
    (k : Kind) (u : Uuid) (hashed : GoString) → Keeps k (update_password u hashed)
unfolding update_password update_user_password
Keeps-update_password k u hashed =
    Keeps-change k u (λ at row. record row { password_hash = some hashed }) _

Keeps-mark_email_verified : (k : Kind) (u : Uuid) → Keeps k (mark_email_verified u)
unfolding mark_email_verified mark_user_email_verified
Keeps-mark_email_verified k u =
    Keeps-change k u (λ at row. record row { email_verified_at = some at }) _

module _ (k : Kind) (id : Uuid) (body : Exec GoError Db (Unit {0})) (keeps : Keeps k body) where
  -- What a transaction that consumes a token found, and left.
  consumed :
      (db : Db)
      → (with_tx (mark_used k id >> body) db).0 ≡ ok tt
      → (keep_if (is_fresh id) (rows k db.tables) ≢ [])
        × (rows k (with_tx (mark_used k id >> body) db).1.tables
            ≡ rows k
                (use_rows k (is_fresh id) (db.ids (begun db).step) (now (begun db)) db.tables).1)
  consumed db h =
      let (inner, after) = with_tx-eq-ok (mark_used k id >> body) db h in
      let (done, marked, bodied, chain) = >>=-eq-ok (mark_used k id) (λ _. body) (begun db) inner in
      let (found, tables) = mark_used-eq-ok k id (begun db) marked in
      (found, rw (after, chain, keeps _ bodied, tables) refl)

  consumed_once :
      (db later : Db)
      → (with_tx (mark_used k id >> body) db).0 ≡ ok tt
      → rows k later.tables ≡ rows k (with_tx (mark_used k id >> body) db).1.tables
      → keep_if (is_fresh id) (rows k later.tables) ≡ []
  consumed_once db later h same =
      rw (same, (consumed db h).1) (fresh_after-use_rows k id _ _ db.tables)

  unmarked_twice :
      (later : Db)
      → keep_if (is_fresh id) (rows k later.tables) ≡ []
      → (with_tx (mark_used k id >> body) later).0 ≢ ok tt
  unmarked_twice later none_left h = (consumed later h).0 none_left

module _ (k : Kind) (row : Token) (body : Exec GoError Db (Unit {0})) (keeps : Keeps k body) where
  -- A link that was found usable is spent when its token is consumed.
  spent :
      (db : Db) (hash : GoString)
      → find? (has_hash hash) (rows k db.tables) ≡ some row
      → is_none row.used_at ≡ true
      → (with_tx (mark_used k row.id >> body) db).0 ≡ ok tt
      → IsSpent k hash (with_tx (mark_used k row.id >> body) db).1.tables
  spent db hash found unused h =
      rw (consumed k row.id body keeps db h).1
        (use_rows-IsSpent k hash _ (now (begun db)) db.tables row found unused)

-- Two requests found the same reset token before either consumed it. Once the transaction of one has
-- ended well, that of the other never does, where the reset tokens are as the first left them.
pub consume_reset_once :
    (token : Token) (first second : GoString) (db later : Db)
    → (consume_reset token first db).0 ≡ ok tt
    → later.tables.password_resets ≡ (consume_reset token first db).1.tables.password_resets
    → (consume_reset token second later).0 ≢ ok tt
unfolding consume_reset
consume_reset_once token first second db later h same =
    unmarked_twice password_reset token.id _
      (Keeps-update_password password_reset token.user_id second) later
      (consumed_once password_reset token.id _
        (Keeps-update_password password_reset token.user_id first) db later h same)

module _ {S : Type 0} (wiring : Wiring S) where
  check_usable-eq-ok :
      (invalid : GoError) (found : Token) (s : World S) {row : Token}
      → (check_usable wiring invalid found s).0 ≡ ok row
      → (found ≡ row)
        × (is_none found.used_at ≡ true)
        × ((check_usable wiring invalid found s).1.db.tables ≡ s.db.tables)
  unfolding is_usable
  check_usable-eq-ok invalid found s h = (ground arith, ground arith, ground arith)

  one_row-eq-ok : {A : Type 0} (o : Option A) {a : A} → one_row o ≡ ok a → o ≡ some a
  one_row-eq-ok (some b) h = cc
  one_row-eq-ok none h = absurd (cc)

  -- The token that a link is checked against stands in the table, unused, and is left there.
  usable_token-eq-ok :
      (k : Kind) (invalid : GoError) (token : GoString) (w : World S) {row : Token}
      → (usable_token wiring k invalid token w).0 ≡ ok row
      → (find? (has_hash (hash_token wiring token)) (rows k w.db.tables) ≡ some row)
        × (is_none row.used_at ≡ true)
        × ((usable_token wiring k invalid token w).1.db.tables ≡ w.db.tables)
  unfolding usable_token get_by_token_hash get_token
  usable_token-eq-ok k invalid token w h =
      let lookup : Tables → Result GoError Token =
        λ t. one_row (find? (has_hash (hash_token wiring token)) (rows k t)) in
      let looking : Exec GoError (World S) Token =
        map_error (link_error invalid) (on_db (get_by_token_hash k (hash_token wiring token))) in
      let (found, looked_up, checked, chain) =
        >>=-eq-ok looking (check_usable wiring invalid) w h in
      let (read, _) = statement-eq-ok (query lookup) w.db (
        on_result-eq-ok _ (statement (query lookup) w.db).0
          (on_result-eq-ok _ (on_result _ (statement (query lookup) w.db).0) looked_up)) in
      let (same, unused, kept) = check_usable-eq-ok invalid found (looking w).1 checked in
      (
        one_row-eq-ok _ read ∙ ap some same,
        rw (← same) unused,
        rw (chain, kept) (tables-query lookup w.db),
      )

  -- A reset that ends well spends its link.
  reset_password-IsSpent :
      (token new_password : GoString) (w : World S)
      → (reset_password wiring token new_password w).0 ≡ ok tt
      → IsSpent password_reset
          (hash_token wiring token)
          (reset_password wiring token new_password w).1.db.tables
  unfolding reset_password consume_reset
  reset_password-IsSpent token new_password w h =
      let (found, usable, rest, chain) =
        >>=-eq-ok (usable_token wiring password_reset invalid_reset_link token) _ w h in
      let (row, unused, kept) =
        usable_token-eq-ok password_reset invalid_reset_link token w usable in
      let u : World S = (usable_token wiring password_reset invalid_reset_link token w).1 in
      let (hashed, hashing, rest', chain') =
        >>=-eq-ok (hash_password wiring new_password) _ u rest in
      let v : World S = (hash_password wiring new_password u).1 in
      let (done, consuming, rest'', chain'') =
        >>=-eq-ok (on_db (consume_reset found hashed)) _ v rest' in
      rw (chain, chain', chain'')
        (spent password_reset found (update_password found.user_id hashed)
          (Keeps-update_password password_reset found.user_id hashed) v.db (hash_token wiring token)
          (rw kept row) unused consuming)

  verify_email-IsSpent :
      (token : GoString) (w : World S)
      → (verify_email wiring token w).0 ≡ ok tt
      → IsSpent email_verification
          (hash_token wiring token)
          (verify_email wiring token w).1.db.tables
  unfolding verify_email consume_verification
  verify_email-IsSpent token w h =
      let (found, usable, rest, chain) =
        >>=-eq-ok (usable_token wiring email_verification invalid_verification_link token) _ w h in
      let (row, unused, kept) =
        usable_token-eq-ok email_verification invalid_verification_link token w usable in
      let u : World S =
        (usable_token wiring email_verification invalid_verification_link token w).1 in
      rw chain (
        spent email_verification found (mark_email_verified found.user_id)
          (Keeps-mark_email_verified email_verification found.user_id) u.db
          (hash_token wiring token) (rw kept row) unused rest)

  -- A spent link is refused.
  spent_is_unusable :
      (k : Kind) (invalid : GoError) (token : GoString) (w : World S) {row : Token}
      → IsSpent k (hash_token wiring token) w.db.tables
      → (usable_token wiring k invalid token w).0 ≢ ok row
  spent_is_unusable k invalid token w (row, found, used) h =
      let (found', unused, _) = usable_token-eq-ok k invalid token w h in cc

  -- A reset link works once: after a reset that ended well, the same link never resets the password
  -- again, in any world whose reset tokens are those that the first reset left.
  pub reset_password_once :
      (token first second : GoString) (w later : World S)
      → (reset_password wiring token first w).0 ≡ ok tt
      → later.db.tables.password_resets
        ≡ (reset_password wiring token first w).1.db.tables.password_resets
      → (reset_password wiring token second later).0 ≢ ok tt
  unfolding reset_password
  reset_password_once token first second w later h same again =
      let (row, found, used) = reset_password-IsSpent token first w h in
      let (_, usable, _, _) =
        >>=-eq-ok (usable_token wiring password_reset invalid_reset_link token) _ later again in
      spent_is_unusable password_reset invalid_reset_link token later (row, rw same found, used)
        usable

  -- A verification link works once: after it verified an account, it never verifies again, in any world
  -- whose verification tokens are those that the first use left.
  pub verify_email_once :
      (token : GoString) (w later : World S)
      → (verify_email wiring token w).0 ≡ ok tt
      → later.db.tables.email_verifications
        ≡ (verify_email wiring token w).1.db.tables.email_verifications
      → (verify_email wiring token later).0 ≢ ok tt
  unfolding verify_email
  verify_email_once token w later h same again =
      let (row, found, used) = verify_email-IsSpent token w h in
      let (_, usable, _, _) =
        >>=-eq-ok (usable_token wiring email_verification invalid_verification_link token) _ later
          again in
      spent_is_unusable email_verification invalid_verification_link token later
        (row, rw same found, used) usable
