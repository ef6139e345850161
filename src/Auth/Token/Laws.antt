-- ===== src/Auth/Token/Laws.antt =====
-- What an accepted token guarantees.
use wordotron_api.Prelude.{
  ℕ, ◌⊎◌, some, Option-cases, Bool-cases, ◌*◌, ◌<◌, ◌≡◌, ◌≢◌, true, false, ap, sym, ◌∙◌, arith, inl,
  inr,
}
use mathlib.Core.Path.{subst}
use wordotron_api.Prelude.Exec.{ok, Result-cases}
use wordotron_api.Text.{GoString, is_empty}
use wordotron_api.Text.Laws.{eqs_iff}
use wordotron_api.Models.{Uuid, Time, role_valid, second}
use wordotron_api.Auth.Session.{Uuids}
use wordotron_api.Auth.Token.{
  Claims, Jwt, JwtManager, SigningMethod, hs256, is_accepted, is_listed, access_type, refresh_type,
  user_id_of, key_for, options_at, check_claims, parse_token, parse_access_token,
  parse_refresh_token,
}

-- A string names one set of claims.
pub decode_once :
    (jwt : Jwt) (raw : GoString) {c d : Claims}
    → jwt.decode raw ≡ some (hs256, c)
    → jwt.decode raw ≡ some (hs256, d)
    → c ≡ d
decode_once jwt raw h k = cc

module _ (jwt : Jwt) (uuids : Uuids) (m : JwtManager) where
  -- The claims `c` of `raw`, accepted at `now`: HS256 verifies it under the secret; they are not expired
  -- and of this issuer, if there is one, of the wanted type, with an identifier, a user and a role that
  -- exists.
  pub record IsVouched (now : Time) (secret want raw : GoString) (c : Claims) : Type 0 where
    pub decoded : jwt.decode raw ≡ some (hs256, c)
    pub verified : jwt.verify hs256 secret raw ≡ true
    pub expires : (e : ℕ) × (c.expires_at ≡ some e) × (now < e * second)
    pub issued : (is_empty m.issuer ≡ true) ⊎ (c.issuer ≡ m.issuer)
    pub type : c.token_type ≡ want
    pub named : is_empty c.id ≡ false
    pub user : Uuid
    pub parsed : uuids.parse c.subject ≡ ok user
    pub role : role_valid c.role ≡ true

  user_id_of-eq-ok :
      (claims : Claims) {u : Uuid}
      → user_id_of uuids claims ≡ ok u
      → uuids.parse claims.subject ≡ ok u
  unfolding user_id_of
  user_id_of-eq-ok claims h = ground arith

  check_claims-eq-ok :
      (want : GoString) (claims : Claims) {c : Claims}
      → check_claims jwt uuids m want claims ≡ ok c
      → (claims ≡ c)
        × (claims.token_type ≡ want)
        × (is_empty claims.id ≡ false)
        × ((u : Uuid) × (uuids.parse claims.subject ≡ ok u))
        × (role_valid claims.role ≡ true)
  unfolding check_claims
  check_claims-eq-ok want claims h = elim (Result-cases (user_id_of uuids claims)) [
    | inl (u, e) ↦ (
      ground arith,
      ground (arith, eqs_iff claims.token_type want),
      ground arith,
      (u, user_id_of-eq-ok claims e),
      ground arith,
    )
    | inr (x, e) ↦ absurd (ground arith)
  ]

  key_for-eq-ok :
      (secret : GoString) (method : SigningMethod) (now : Time) {k : GoString}
      → key_for jwt uuids m secret method ≡ ok k
      → is_listed (options_at jwt uuids m now) method ≡ true
      → (method ≡ hs256) × (k ≡ secret)
  key_for-eq-ok secret hs256 now h l = ground arith
  key_for-eq-ok secret _ now h l = cc

  accepted-expires :
      (now : Time) (c : Claims)
      → is_accepted (options_at jwt uuids m now) c ≡ true
      → (e : ℕ) × (c.expires_at ≡ some e) × (now < e * second)
  accepted-expires now c h = elim (Option-cases c.expires_at) [
    | inl p ↦ absurd (cc (rw p at h))
    | inr (e, p) ↦ (e, p, ground (arith, rw p at h))
  ]

  accepted-issued :
      (now : Time) (c : Claims)
      → is_accepted (options_at jwt uuids m now) c ≡ true
      → (is_empty m.issuer ≡ true) ⊎ (c.issuer ≡ m.issuer)
  accepted-issued now c h = elim (Bool-cases (is_empty m.issuer)) [
    | inl p ↦ inl p
    | inr p ↦ inr ((eqs_iff c.issuer m.issuer).0 (ground (arith, rw p at h)))
  ]

  parse_token-IsVouched :
      (raw secret want : GoString) (now : Time) (c : Claims)
      → parse_token jwt uuids m raw secret want now ≡ ok c
      → IsVouched now secret want raw c
  unfolding parse_token
  parse_token-IsVouched raw secret want now c h =
      elim (Result-cases
        (jwt.parse raw (key_for jwt uuids m secret) (options_at jwt uuids m now))) [
          | inr (x, e) ↦ absurd (ground arith)
          | inl (claims, e) ↦
              let (same, type, named, (user, parsed), role) =
                check_claims-eq-ok want claims (rw (e, parse_token) at h) in
              let (method, key, decoded, keyed, verified, listed, current) =
                jwt.parse-eq-ok raw _ _ e in
              let (is_hs256, is_secret) = key_for-eq-ok secret method now keyed listed in
              subst (IsVouched now secret want raw) same (record {
                decoded = rw (← is_hs256) decoded;
                verified = rw (← is_hs256, ← is_secret) verified;
                expires = accepted-expires now claims current;
                issued = accepted-issued now claims current;
                type = type;
                named = named;
                user = user;
                parsed = parsed;
                role = role;
              })
        ]

  -- The claims of an access token that is accepted at `now` are those that the token names; HS256, and no
  -- other method, verifies it under the access secret; they expire after `now`, are of this issuer if one
  -- is configured, of the access type, and name a token, a user and a role that exists.
  pub parse_access_token-IsVouched :
      (now : Time) (raw : GoString) (c : Claims)
      → parse_access_token jwt uuids m now raw ≡ ok c
      → IsVouched now m.access_secret access_type raw c
  unfolding parse_access_token
  parse_access_token-IsVouched now raw c h =
      parse_token-IsVouched raw m.access_secret access_type now c h

  pub parse_refresh_token-IsVouched :
      (now : Time) (raw : GoString) (c : Claims)
      → parse_refresh_token jwt uuids m now raw ≡ ok c
      → IsVouched now m.refresh_secret refresh_type raw c
  unfolding parse_refresh_token
  parse_refresh_token-IsVouched now raw c h =
      parse_token-IsVouched raw m.refresh_secret refresh_type now c h

  -- A string that is accepted as a refresh token, at whatever time, is never accepted as an access
  -- token, even if the two secrets are the same.
  pub refresh_is_no_access :
      (now later : Time) (raw : GoString) (c d : Claims)
      → parse_refresh_token jwt uuids m now raw ≡ ok c
      → parse_access_token jwt uuids m later raw ≢ ok d
  refresh_is_no_access now later raw c d h k =
      let refresh = parse_refresh_token-IsVouched now raw c h in
      let access = parse_access_token-IsVouched later raw d k in
      let same = decode_once jwt raw refresh.decoded access.decoded in
      types_differ (sym refresh.type ∙ ap (λ (x : Claims). x.token_type) same ∙ access.type)
    where
      types_differ : refresh_type ≢ access_type
      types_differ e = cc
