-- ===== src/Middleware/Laws.antt =====
-- What a request has shown that reaches a handler.
use wordotron_api.Prelude.{◌≡◌, ap, ◌∙◌, suc, Bool, true, false, not, List, arith}
use mathlib.Core.Path.{subst}
use wordotron_api.Prelude.Exec.{Result, ok, >>=-eq-ok, map_error, on_result-eq-ok, lift, pure}
use wordotron_api.Text.{GoString}
use wordotron_api.Errors.{GoError, app, fail, internal_error, unauthorized_error, forbidden_error}
use wordotron_api.Models.{Uuid, Role}
use wordotron_api.Auth.Session.{is_access_token_valid}
use wordotron_api.Auth.Token.{Claims, access_type, user_id_of, parse_access_token}
use wordotron_api.Auth.Token.Laws.{IsVouched, parse_access_token-IsVouched}
use wordotron_api.Services.World.{World, read_clock, refuse_if-eq-ok}
use wordotron_api.Services.Auth.{Wiring}
use wordotron_api.Middleware.{
  bearer_token, issued_at_time, access_error, is_permitted, is_valid_access, check_session,
  identify, authenticate, require_roles, guarded,
}

module _ {S : Type 0} (wiring : Wiring S) where
  -- The claims are those of a token that the header carries and the parser accepts, and the session
  -- store found them valid for their user.
  abbrev pub IsSignedIn : GoString → World S → Claims → Type 0
  IsSignedIn header w claims =
      (raw : GoString) × (bearer_token header ≡ ok raw)
      × (parse_access_token wiring.jwt wiring.uuids wiring.manager (w.clock w.ticks) raw
          ≡ ok claims)
      × IsVouched wiring.jwt wiring.uuids wiring.manager (w.clock w.ticks)
          wiring.manager.access_secret access_type raw claims
      × ((u : Uuid) × (user_id_of wiring.uuids claims ≡ ok u)
          × ((is_access_token_valid wiring.redis wiring.uuids wiring.cfg.refresh_ttl
                (w.clock (suc w.ticks)) u claims.id (issued_at_time claims.issued_at) w.sessions).0
              ≡ ok true))

  check_session-eq-ok :
      (u : Uuid) (claims : Claims) (w : World S) {c : Claims}
      → (check_session wiring u claims w).0 ≡ ok c
      → (claims ≡ c) × ((is_valid_access wiring u claims w).0 ≡ ok true)
  check_session-eq-ok u claims w h =
      let (valid, asked, rest, _) =
        >>=-eq-ok (map_error internal_error (is_valid_access wiring u claims)) _ w h in
      let v : World S = (is_valid_access wiring u claims w).1 in
      let (passed, chain) = refuse_if-eq-ok (not valid) _ (pure claims) v rest in
      (
        cc (rw chain at rest),
        on_result-eq-ok internal_error (is_valid_access wiring u claims w).0 asked
            ∙ ap ok (is_true valid passed),
      )
    where
      is_true : (b : Bool) → not b ≡ false → b ≡ true
      is_true b p = ground arith

  authenticate-eq-ok :
      (header : GoString) (w : World S) {c : Claims}
      → (authenticate wiring header w).0 ≡ ok c
      → IsSignedIn header w c
  unfolding authenticate
  authenticate-eq-ok header w h =
      let (raw, borne, rest0, _) = >>=-eq-ok (lift (bearer_token header)) _ w h in
      let v : World S = (read_clock w).1 in
      let parsed =
        parse_access_token wiring.jwt wiring.uuids wiring.manager (w.clock w.ticks) raw in
      let (claims, accepted, rest2, _) =
        >>=-eq-ok (map_error access_error (lift parsed)) (identify wiring) v rest0 in
      let (u, named, rest3, _) =
        >>=-eq-ok
          (map_error (app (unauthorized_error "Invalid access token"))
            (lift (user_id_of wiring.uuids claims)))
          (λ u. check_session wiring u claims) v rest2 in
      let (same, valid) = check_session-eq-ok u claims v rest3 in
      subst (IsSignedIn header w) same (
        raw,
        borne,
        on_result-eq-ok access_error parsed accepted,
        parse_access_token-IsVouched wiring.jwt wiring.uuids wiring.manager (w.clock w.ticks) raw
            claims (on_result-eq-ok access_error parsed accepted),
        (u, on_result-eq-ok _ (user_id_of wiring.uuids claims) named, valid),
      )

  -- A request that gets past both guards carries a token that the parser accepts at the time of the
  -- request, with the claims that the handler sees; HS256 verifies it under the access secret, and it is
  -- an access token that has not expired; the session store found it valid for its user, and its role is
  -- one of those allowed.
  pub guarded-eq-ok :
      (roles : List Role) (header : GoString) (w : World S) (c : Claims)
      → (guarded wiring roles header w).0 ≡ ok c
      → IsSignedIn header w c × (is_permitted roles c ≡ true)
  unfolding require_roles
  guarded-eq-ok roles header w c h =
      let (claims, signed_in, rest, _) =
        >>=-eq-ok (authenticate wiring header) (require_roles wiring roles) w h in
      let (passed, chain) =
        refuse_if-eq-ok (not (is_permitted roles claims)) (fail (forbidden_error "")) (pure claims)
          (authenticate wiring header w).1 rest in
      subst (λ (x : Claims). IsSignedIn header w x × (is_permitted roles x ≡ true))
        (the_same (rw chain at rest))
        (authenticate-eq-ok header w signed_in, is_true (is_permitted roles claims) passed)
    where
      is_true : (b : Bool) → not b ≡ false → b ≡ true
      is_true b p = ground arith

      the_same : {x y : Claims} → ◌≡◌ {A = Result GoError Claims} (ok x) (ok y) → x ≡ y
      the_same e = cc
