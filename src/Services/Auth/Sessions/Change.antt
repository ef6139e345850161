-- ===== src/Services/Auth/Sessions/Change.antt =====
-- What a change of the password guarantees.
use wordotron_api.Prelude.{◌≡◌, ap, sym, ◌∙◌, true, false, arith, find?, ==_iff, some}
use mathlib.Core.Path.{subst}
use wordotron_api.Prelude.Exec.{ok, ◌>>◌, >>=-eq-ok, map_error, on_result-eq-ok, lift}
use wordotron_api.Text.{GoString, eqs}
use wordotron_api.Errors.{internal_error}
use wordotron_api.Models.{Uuid, User}
use wordotron_api.Db.{UserRow}
use wordotron_api.Db.Users.{has_id}
use wordotron_api.Db.Tokens.Laws.{find?-holds}
use wordotron_api.Repository.Users.{get_by_id, to_domain_user, update_password}
use wordotron_api.Repository.Users.Laws.{get_by_id-eq-ok}
use wordotron_api.Auth.Session.Refresh.{IsGone-revoke_all}
use wordotron_api.Auth.Password.{verify}
use wordotron_api.Services.World.{World, on_db, refuse_if-eq-ok}
use wordotron_api.Services.Auth.{
  Wiring, AuthResult, same_password, hash_password, verify_password, issue_session, revoke_all,
}
use wordotron_api.Services.Auth.Sessions.{change_password, current_error}
use wordotron_api.Services.Auth.Sessions.Rotation.{IsOut, issue_session-IsOut}

module _ {S : Type 0} (wiring : Wiring S) where
  matched :
      (hashed password : GoString)
      → verify_password wiring hashed password ≡ ok tt
      → wiring.bcrypt.compare hashed password ≡ ok tt
  unfolding verify
  matched hashed password h = ground arith

  row_id :
      (u : Uuid) (row : UserRow) (x : User)
      → to_domain_user row ≡ x
      → has_id u row ≡ true
      → x.id ≡ u
  unfolding to_domain_user
  row_id u row x made same = sym (ap (λ (y : User). y.id) made) ∙ (==_iff row.id u).0 same

  -- The last steps: everything is revoked, then a session issued.
  renewed :
      (user : User) (jti : GoString) (w : World S) {r : AuthResult}
      → eqs r.tokens.refresh_jti jti ≡ false
      → ((map_error internal_error (revoke_all wiring user.id) >> issue_session wiring user) w).0
        ≡ ok r
      → IsOut wiring user.id jti
          ((map_error internal_error (revoke_all wiring user.id) >> issue_session wiring user) w).1
  renewed user jti w differs h =
      let (_, revoked, issued, chain) =
        >>=-eq-ok (map_error internal_error (revoke_all wiring user.id))
          (λ _. issue_session wiring user) w h in
      rw chain (
        issue_session-IsOut wiring user jti (revoke_all wiring user.id w).1 differs issued (
          IsGone-revoke_all wiring.redis wiring.uuids wiring.cfg.refresh_ttl (w.clock w.ticks)
            user.id jti w.sessions
            (on_result-eq-ok internal_error (revoke_all wiring user.id w).0 revoked)))

  -- What a change of the password by a user requires.
  abbrev pub IsEntitled : GoString → GoString → User → Type 0
  IsEntitled current_password new_password user =
      (wiring.bcrypt.compare user.password_hash current_password ≡ ok tt)
      × (eqs current_password new_password ≡ false)

  -- A change of the password that ends well was given the current password and a different new one,
  -- and leaves no refresh token of the user registered but the new one.
  pub change_password-eq-ok :
      (u : Uuid) (current_password new_password jti : GoString) (w : World S) (r : AuthResult)
      → (change_password wiring u current_password new_password w).0 ≡ ok r
      → eqs r.tokens.refresh_jti jti ≡ false
      → ((row : UserRow) × (find? (has_id u) w.db.tables.users ≡ some row)
          × IsEntitled current_password new_password (to_domain_user row))
        × IsOut wiring u jti (change_password wiring u current_password new_password w).1
  unfolding change_password
  change_password-eq-ok u current_password new_password jti w r h differs =
      let (user, read, rest0, chain0) = >>=-eq-ok (on_db (get_by_id u)) _ w h in
      let (row, found, made) = get_by_id-eq-ok u w.db read in
      let same = row_id u row user made (find?-holds (has_id u) w.db.users found) in
      let w1 : World S = (on_db (get_by_id u) w).1 in
      let (_, checked, rest1, chain1) =
        >>=-eq-ok
          (map_error (current_error wiring)
            (lift (verify_password wiring user.password_hash current_password)))
          _ w1 rest0 in
      let (different, chain2) =
        refuse_if-eq-ok (eqs current_password new_password) same_password _ w1 rest1 in
      let rest2 = rw chain2 at rest1 in
      let (hashed, _, rest3, chain3) = >>=-eq-ok (hash_password wiring new_password) _ w1 rest2 in
      let w2 : World S = (hash_password wiring new_password w1).1 in
      let (_, _, rest4, chain4) = >>=-eq-ok (on_db (update_password user.id hashed)) _ w2 rest3 in
      let w3 : World S = (on_db (update_password user.id hashed) w2).1 in
      (
        (
          row,
          found,
          subst (IsEntitled current_password new_password) (sym made) (
            matched user.password_hash current_password (
                on_result-eq-ok (current_error wiring)
                  (verify_password wiring user.password_hash current_password) checked),
            different,
          ),
        ),
        rw (chain0, chain1, chain2, chain3, chain4)
            (subst
              (λ x.
                IsOut wiring x jti
                  ((map_error internal_error (revoke_all wiring user.id)
                      >> issue_session wiring user)
                    w3).1)
              same (renewed user jti w3 differs rest4)),
      )
