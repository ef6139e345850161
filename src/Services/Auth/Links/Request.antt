-- ===== src/Services/Auth/Links/Request.antt =====
-- What a request for a reset link leaves, and what it tells about an account.
use wordotron_api.Prelude.{
  ◌≡◌, refl, Bool, true, false, none, some, List, [], ◌∷◌, ◌++◌, arith, keep_if, find?, ◌⊎◌, inl,
  inr,
}
use wordotron_api.Prelude.Exec.{ok, >>=-eq-ok, map_error, on_result-eq-ok}
use wordotron_api.Text.{GoString}
use wordotron_api.Models.{Uuid, Time, Token}
use wordotron_api.Db.{Db, Tables, UserRow, now, statement}
use wordotron_api.Db.Users.{has_email}
use wordotron_api.Db.Tokens.{
  password_reset, is_pending, use_at, use_rows, new_token, insert_token, create_token,
  invalidate_user_tokens,
}
use wordotron_api.Db.Tokens.Laws.{statement-eq-ok, keep_if-map_if}
use wordotron_api.Db.Tx.Laws.{begun, with_tx-eq-ok}
use wordotron_api.Repository.Users.{get_by_email, to_domain_user}
use wordotron_api.Repository.Users.Laws.{
  get_by_email_unknown, get_by_email_known, tables-get_by_email,
}
use wordotron_api.Repository.Tokens.{create, invalidate_for_user}
use wordotron_api.Services.World.{World, on_db}
use wordotron_api.Services.Auth.{Wiring, normalize_email}
use wordotron_api.Services.Auth.Links.{replace_token, forgot_password}

keep_if-++ :
    {A : Type 0} (p : A → Bool) (xs ys : List A)
    → keep_if p (xs ++ ys) ≡ keep_if p xs ++ keep_if p ys
keep_if-++ p [] ys = refl
keep_if-++ p (x ∷ xs) ys = ground (arith, keep_if-++ p xs ys)

use_at-pending : (u : Uuid) (at : Time) (x : Token) → is_pending u (use_at at x) ≡ false
use_at-pending u at x = ground arith

invalidate-eq-ok :
    (u : Uuid) (db : Db)
    → (invalidate_for_user password_reset u db).0 ≡ ok tt
    → keep_if (is_pending u) (invalidate_for_user password_reset u db).1.tables.password_resets ≡ []
unfolding invalidate_for_user invalidate_user_tokens use_rows
invalidate-eq-ok u db h =
    let (n, ran, _, chain) =
      >>=-eq-ok (map_error _ (invalidate_user_tokens password_reset u)) _ db h in
    let (_, after) =
      statement-eq-ok (use_rows password_reset (is_pending u)) db
        (on_result-eq-ok _ (statement (use_rows password_reset (is_pending u)) db).0 ran) in
    rw (chain, after)
      (keep_if-map_if (is_pending u) (use_at (now db)) db.tables.password_resets
        (use_at-pending u (now db)))

insert_token-eq-ok :
    (u : Uuid) (hash : GoString) (expires_at : Time) (id : Uuid) (at : Time) (t : Tables)
    {row : Token}
    → (insert_token password_reset u hash expires_at id at t).0 ≡ ok row
    → (insert_token password_reset u hash expires_at id at t).1.password_resets
      ≡ t.password_resets ++ new_token u hash expires_at id at ∷ []
unfolding insert_token
insert_token-eq-ok u hash expires_at id at t h = ground arith

create-eq-ok :
    (u : Uuid) (hash : GoString) (expires_at : Time) (db : Db) {row : Token}
    → (create password_reset u hash expires_at db).0 ≡ ok row
    → (create password_reset u hash expires_at db).1.tables.password_resets
      ≡ db.tables.password_resets ++ new_token u hash expires_at (db.ids db.step) (now db) ∷ []
unfolding create create_token
create-eq-ok u hash expires_at db h =
    let insert = insert_token password_reset u hash expires_at in
    let (ran, after) = statement-eq-ok insert db (on_result-eq-ok _ (statement insert db).0 h) in
    rw after (insert_token-eq-ok u hash expires_at (db.ids db.step) (now db) db.tables ran)

new_is_pending :
    (u : Uuid) (hash : GoString) (expires_at : Time) (id : Uuid) (at : Time)
    → is_pending u (new_token u hash expires_at id at) ≡ true
new_is_pending u hash expires_at id at = ground arith

-- After the transaction of a request ends well, the user has exactly one unused reset token: the new
-- one, with its hash and expiry. Every earlier link is dead.
pub replace_token-leaves_one :
    (u : Uuid) (hash : GoString) (expires_at : Time) (db : Db)
    → (replace_token u hash expires_at db).0 ≡ ok tt
    → (id : Uuid) × (at : Time) × (keep_if
          (is_pending u)
          (replace_token u hash expires_at db).1.tables.password_resets
        ≡ new_token u hash expires_at id at ∷ [])
unfolding replace_token
replace_token-leaves_one u hash expires_at db h =
    let (inner, after) = with_tx-eq-ok _ db h in
    let v : Db = (invalidate_for_user password_reset u (begun db)).1 in
    let (_, invalidated, rest, chain) =
      >>=-eq-ok (invalidate_for_user password_reset u) _ (begun db) inner in
    let (row, created, done, chain') =
      >>=-eq-ok (create password_reset u hash expires_at) _ v rest in
    (
      v.ids v.step,
      now v,
      rw
          (
            after,
            chain,
            chain',
            create-eq-ok u hash expires_at v created,
            keep_if-++ (is_pending u) v.tables.password_resets
                (new_token u hash expires_at (v.ids v.step) (now v) ∷ []),
            invalidate-eq-ok u (begun db) invalidated,
            new_is_pending u hash expires_at (v.ids v.step) (now v),
          )
          refl,
    )

module _ {S : Type 0} (wiring : Wiring S) where
  -- No account of the email, or one that is deactivated.
  abbrev pub IsUnreachable : GoString → World S → Type 0
  IsUnreachable email w =
      (find? (has_email (normalize_email email)) w.db.tables.users ≡ none)
      ⊎ ((row : UserRow) × (find? (has_email (normalize_email email)) w.db.tables.users ≡ some row)
          × (row.is_active ≡ false))

  unreachable :
      (email : GoString) (w : World S)
      → w.db.fault w.db.step ≡ none
      → IsUnreachable email w
      → forgot_password wiring email w ≡ (ok tt, (on_db (get_by_email (normalize_email email)) w).1)
  unfolding forgot_password to_domain_user
  unreachable email w h (inl unknown) =
      let (e, failed, missing) = get_by_email_unknown (normalize_email email) w.db h unknown in
      rw (failed, missing) refl
  unreachable email w h (inr (row, known, inactive)) =
      rw (get_by_email_known (normalize_email email) w.db row h known, inactive) refl

  -- Where the database answers, a request for an email with no account, or with a deactivated one,
  -- reports success, sends no link, and changes no table and no session.
  pub forgot_password_silent :
      (email : GoString) (w : World S)
      → w.db.fault w.db.step ≡ none
      → IsUnreachable email w
      → ((forgot_password wiring email w).0 ≡ ok tt)
        × ((forgot_password wiring email w).1.links ≡ w.links)
        × ((forgot_password wiring email w).1.db.tables ≡ w.db.tables)
        × ((forgot_password wiring email w).1.sessions ≡ w.sessions)
  forgot_password_silent email w h away =
      let p = unreachable email w h away in
      (rw p refl, rw p refl, rw p (tables-get_by_email (normalize_email email) w.db), rw p refl)
