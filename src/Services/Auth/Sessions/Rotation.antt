-- ===== src/Services/Auth/Sessions/Rotation.antt =====
-- What a refresh does to the presented token.
use wordotron_api.Prelude.{
  ◌≡◌, ◌≢◌, refl, ap, sym, ◌∙◌, suc, Bool, true, false, arith, ==_iff, inl, inr, Bool-cases,
}
use mathlib.Core.Path.{subst}
use wordotron_api.Prelude.Exec.{
  Result, ok, err, Exec, ◌>>=◌, ◌>>◌, >>=-eq-ok, map_error, on_result-eq-ok, Result-cases,
}
use wordotron_api.Text.{GoString, eqs}
use wordotron_api.Errors.{GoError, fail, internal_error, unauthorized_error}
use wordotron_api.Models.{Uuid, Time, User}
use wordotron_api.Db.{UserRow}
use wordotron_api.Db.Users.{has_id}
use wordotron_api.Db.Tokens.Laws.{find?-holds}
use wordotron_api.Repository.Users.{get_by_id, to_domain_user}
use wordotron_api.Repository.Users.Laws.{get_by_id-eq-ok}
use wordotron_api.Auth.Session.{is_refresh_token_active}
use wordotron_api.Auth.Session.Refresh.{
  IsGone, IsGone-inactive, IsGone-revoke_one, IsGone-revoke_all, IsGone-store,
}
use wordotron_api.Auth.Token.{Claims, parse_refresh_token, user_id_of}
use wordotron_api.Auth.Token.Laws.{parse_refresh_token-IsVouched, decode_once}
use wordotron_api.Services.World.{World, on_db, read_clock}
use wordotron_api.Services.Auth.{
  Wiring, AuthResult, issue_session, revoke_refresh, is_active_session, revoke_all,
}
use wordotron_api.Services.Auth.Sessions.{refresh, rotate, continue, drop_sessions}
use wordotron_api.Services.Auth.Sessions.Login.{issue_session-IsIssued}

module _ {S : Type 0} (wiring : Wiring S) where
  -- No session of the user for the token.
  abbrev pub IsOut : Uuid → GoString → World S → Type 0
  IsOut u jti w = IsGone wiring.redis wiring.uuids wiring.cfg.refresh_ttl u jti w.sessions

  pub issue_session-IsOut :
      (user : User) (jti : GoString) (w : World S) {r : AuthResult}
      → eqs r.tokens.refresh_jti jti ≡ false
      → (issue_session wiring user w).0 ≡ ok r
      → IsOut user.id jti w
      → IsOut user.id jti (issue_session wiring user w).1
  issue_session-IsOut user jti w {r = r} differs h out =
      let issued = issue_session-IsIssued wiring user w h in
      rw issued.sessions (
        IsGone-store wiring.redis wiring.uuids wiring.cfg.refresh_ttl (w.clock (suc w.ticks))
          user.id jti r.tokens.refresh_jti r.tokens.refresh_expires_at w.sessions differs out
          issued.stored)

  rotate-IsOut :
      (user : User) (u : Uuid) (jti : GoString) (w : World S) {r : AuthResult}
      → user.id ≡ u
      → eqs r.tokens.refresh_jti jti ≡ false
      → (rotate wiring user u jti w).0 ≡ ok r
      → IsOut u jti (rotate wiring user u jti w).1
  rotate-IsOut user u jti w {r = r} same differs h = elim (Bool-cases user.is_active) [
    | inr p ↦ absurd (ground arith)
    | inl p ↦
        let rest =
          map_error internal_error (revoke_refresh wiring u jti) >> issue_session wiring user in
        let is_rest : rotate wiring user u jti w ≡ rest w = ground arith in
        let (done, revoked, issued, chain) =
          >>=-eq-ok (map_error internal_error (revoke_refresh wiring u jti))
            (λ _. issue_session wiring user) w (rw is_rest at h) in
        let v : World S = (revoke_refresh wiring u jti w).1 in
        let out : IsOut u jti v =
          IsGone-revoke_one wiring.redis wiring.uuids wiring.cfg.refresh_ttl (w.clock w.ticks) u jti
            w.sessions (on_result-eq-ok internal_error (revoke_refresh wiring u jti w).0 revoked) in
        rw (is_rest, chain)
          (subst (λ x. IsOut x jti (issue_session wiring user v).1) same
            (issue_session-IsOut user jti v differs issued
              (subst (λ x. IsOut x jti v) (sym same) out)))
  ]

  abbrev parsed_at : Time → GoString → Result GoError Claims
  parsed_at now raw = parse_refresh_token wiring.jwt wiring.uuids wiring.manager now raw

  abbrev pub active_at : Time → Uuid → GoString → S → Result GoError Bool
  active_at now u jti s =
      (is_refresh_token_active wiring.redis wiring.uuids wiring.cfg.refresh_ttl now u jti s).0

  -- The last step of a refresh.
  continue-eq-ok :
      (u : Uuid) (jti : GoString) (active : Bool) (w : World S) {r : AuthResult}
      → (continue wiring u jti active w).0 ≡ ok r
      → (active ≡ true)
        × (eqs r.tokens.refresh_jti jti ≡ false → IsOut u jti (continue wiring u jti active w).1)
  unfolding to_domain_user
  continue-eq-ok u jti false w h = absurd (cc)
  continue-eq-ok u jti true w {r = r} h =
      let (user, read, rotated, chain) =
        >>=-eq-ok (on_db (get_by_id u)) (λ x. rotate wiring x u jti) w h in
      let (row, found, made) = get_by_id-eq-ok u w.db read in
      let v : World S = (on_db (get_by_id u) w).1 in
      (
        refl,
        λ differs. rw chain (
            rotate-IsOut user u jti v
              (row_id row user made (find?-holds (has_id u) w.db.users found)) differs rotated),
      )
    where
      row_id : (row : UserRow) (x : User) → to_domain_user row ≡ x → has_id u row ≡ true → x.id ≡ u
      row_id row x made same = sym (ap (λ (y : User). y.id) made) ∙ (==_iff row.id u).0 same

  -- What a refresh that ends well found in its token and in the session store, and where the token is
  -- afterwards.
  refresh-eq-ok :
      (raw : GoString) (w : World S) {r : AuthResult} {c : Claims} {u : Uuid}
      → parsed_at (w.clock w.ticks) raw ≡ ok c
      → user_id_of wiring.uuids c ≡ ok u
      → (refresh wiring raw w).0 ≡ ok r
      → (active_at (w.clock (suc w.ticks)) u c.id w.sessions ≡ ok true)
        × (eqs r.tokens.refresh_jti c.id ≡ false → IsOut u c.id (refresh wiring raw w).1)
  unfolding refresh
  refresh-eq-ok raw w {r = r} {c = c} {u = u} parsed named h =
      let v : World S = (read_clock w).1 in
      let asking : Exec GoError (World S) Bool =
        map_error internal_error (is_active_session wiring u c.id) in
      let is_rest : refresh wiring raw w ≡ (asking >>= continue wiring u c.id) v =
        rw (parsed, named) refl in
      let (active, asked, rest, chain) =
        >>=-eq-ok asking (continue wiring u c.id) v (rw is_rest at h) in
      let (is_active, out) = continue-eq-ok u c.id active (asking v).1 rest in
      (
        on_result-eq-ok internal_error (is_active_session wiring u c.id v).0 asked
            ∙ ap ok is_active,
        λ differs. rw (is_rest, chain) (out differs),
      )

  -- A string that is accepted as a refresh token twice gives the same claims.
  same_claims :
      (now later : Time) (raw : GoString) {c d : Claims}
      → parsed_at now raw ≡ ok c
      → parsed_at later raw ≡ ok d
      → c ≡ d
  same_claims now later raw h k =
      let one = parse_refresh_token-IsVouched wiring.jwt wiring.uuids wiring.manager now raw _ h in
      let two =
        parse_refresh_token-IsVouched wiring.jwt wiring.uuids wiring.manager later raw _ k in
      decode_once wiring.jwt raw one.decoded two.decoded

  refresh_unparsed :
      (raw : GoString) (w : World S) {e : GoError} {r : AuthResult}
      → parsed_at (w.clock w.ticks) raw ≡ err e
      → (refresh wiring raw w).0 ≢ ok r
  unfolding refresh
  refresh_unparsed raw w failed h = absurd (cc (rw (failed, refresh) at h))

  -- A refresh token works once: after a refresh that ended well, with a new token whose identifier is
  -- another one, the same token never refreshes again, in any later state of the other parts that has
  -- the session store as it was left.
  pub refresh_once :
      (raw : GoString) (w later : World S) (c : Claims) (u : Uuid) (r s : AuthResult)
      → parse_refresh_token wiring.jwt wiring.uuids wiring.manager (w.clock w.ticks) raw ≡ ok c
      → user_id_of wiring.uuids c ≡ ok u
      → (refresh wiring raw w).0 ≡ ok r
      → eqs r.tokens.refresh_jti c.id ≡ false
      → later.sessions ≡ (refresh wiring raw w).1.sessions
      → (refresh wiring raw later).0 ≢ ok s
  refresh_once raw w later c u r s parsed named h differs kept again =
      elim (Result-cases (parsed_at (later.clock later.ticks) raw)) [
        | inr (e, p) ↦ refresh_unparsed raw later p again
        | inl (d, p) ↦
            let same = same_claims (w.clock w.ticks) (later.clock later.ticks) raw parsed p in
            let out = (refresh-eq-ok raw w parsed named h).1 differs in
            let active = (refresh-eq-ok raw later (p ∙ ap ok (sym same)) named again).0 in
            let gone =
              IsGone-inactive wiring.redis wiring.uuids wiring.cfg.refresh_ttl
                (later.clock (suc later.ticks)) u c.id later.sessions (rw kept out) active in
            cc
      ]

  -- A token that is accepted by the parser and is not registered is a replay. Where the revocation
  -- reaches the session store, the refresh is refused with 401, the database is left alone, and no
  -- refresh token of the user is registered any more.
  pub refresh_replay :
      (raw jti : GoString) (w : World S) (c : Claims) (u : Uuid)
      → parse_refresh_token wiring.jwt wiring.uuids wiring.manager (w.clock w.ticks) raw ≡ ok c
      → user_id_of wiring.uuids c ≡ ok u
      → (revoke_all wiring u (is_active_session wiring u c.id (read_clock w).1).1).0 ≡ ok tt
      → active_at (w.clock (suc w.ticks)) u c.id w.sessions ≡ ok false
      → ((refresh wiring raw w).0
          ≡ err (fail (unauthorized_error "Session expired, please sign in again")))
        × ((refresh wiring raw w).1.db ≡ w.db)
        × IsOut u jti (refresh wiring raw w).1
  unfolding refresh
  refresh_replay raw jti w c u parsed named revoked inactive =
      let v : World S = (is_active_session wiring u c.id (read_clock w).1).1 in
      let is_rest : refresh wiring raw w ≡ drop_sessions wiring u v =
        rw (parsed, named, inactive) refl in
      (
        rw is_rest refl,
        rw is_rest refl,
        rw is_rest (
            IsGone-revoke_all wiring.redis wiring.uuids wiring.cfg.refresh_ttl (v.clock v.ticks) u
              jti v.sessions revoked),
      )
