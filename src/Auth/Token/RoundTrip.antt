-- ===== src/Auth/Token/RoundTrip.antt =====
-- That the tokens of a generated pair are accepted, each for its own purpose.
use wordotron_api.Prelude.{
  ℕ, ◌^◌, some, Bool-cases, ltb, ◌+◌, ◌*◌, ◌≤◌, ◌<◌, ◌≡◌, refl, true, false, arith, inl, inr,
}
use wordotron_api.Prelude.Exec.{Result, ok, Result-cases}
use wordotron_api.Text.{GoString, eqs, is_empty}
use wordotron_api.Text.Utf8.{valid_utf8}
use wordotron_api.Errors.{GoError}
use wordotron_api.Text.Laws.{eqs_iff, eqs_refl}
use wordotron_api.Models.{Uuid, Time, Role, role_valid, role_user, role_admin, second, unix}
use wordotron_api.Auth.Session.{Uuids}
use wordotron_api.Auth.Token.{
  Claims, Jwt, JwtManager, TokenPair, hs256, is_issued, is_writable, access_type, refresh_type,
  user_id_of, minted, sign_claims, generate_token_pair, key_for, options_at, check_claims,
  parse_token, parse_access_token, parse_refresh_token,
}

-- What a token is for.
pub data Purpose : Type 0 where
  as_access as_refresh : Purpose

module _ (jwt : Jwt) (uuids : Uuids) (m : JwtManager) where
  check_claims-minted :
      (now ttl : Time) (jti user : Uuid) (role : Role) (type : GoString)
      → is_empty (uuids.to_text jti) ≡ false
      → role_valid role ≡ true
      → check_claims jwt uuids m type (minted jwt uuids m now ttl jti user role type)
        ≡ ok (minted jwt uuids m now ttl jti user role type)
  unfolding check_claims user_id_of
  check_claims-minted now ttl jti user role type named valid =
      rw (eqs_refl, uuids.parse-to_text) (ground arith)

  sign_claims-eq-ok :
      (secret raw : GoString) (c : Claims)
      → sign_claims jwt uuids m secret c ≡ ok raw
      → jwt.sign hs256 secret c ≡ ok raw
  unfolding sign_claims
  sign_claims-eq-ok secret raw c h = ground arith

  -- What stands in a pair that was generated.
  pub generate_token_pair-signed :
      (now : Time) (a r user : Uuid) (role : Role) (pair : TokenPair)
      → generate_token_pair jwt uuids m now a r user role ≡ ok pair
      → (jwt.sign hs256 m.access_secret
            (minted jwt uuids m now m.access_ttl a user role access_type)
          ≡ ok pair.access_token)
        × (jwt.sign hs256 m.refresh_secret
              (minted jwt uuids m now m.refresh_ttl r user role refresh_type)
            ≡ ok pair.refresh_token)
        × (pair.refresh_jti ≡ uuids.to_text r)
        × (pair.refresh_expires_at ≡ now + m.refresh_ttl)
  unfolding generate_token_pair
  generate_token_pair-signed now a r user role pair h =
      elim (Result-cases (
        sign_claims jwt uuids m m.access_secret
          (minted jwt uuids m now m.access_ttl a user role access_type))) [
            | inr (x, e) ↦ absurd (ground arith)
            | inl (access, e) ↦
                elim (Result-cases (
                  sign_claims jwt uuids m m.refresh_secret
                    (minted jwt uuids m now m.refresh_ttl r user role refresh_type))) [
                      | inr (x, f) ↦ absurd (ground arith)
                      | inl (refresh, f) ↦ (
                        ground (arith, sign_claims-eq-ok m.access_secret access _ e),
                        ground (arith, sign_claims-eq-ok m.refresh_secret refresh _ f),
                        ground arith,
                        ground arith,
                      )
                    ]
          ]

  role_valid-utf8 : (role : Role) → role_valid role ≡ true → valid_utf8 role ≡ true
  unfolding role_valid valid_utf8
  role_valid-utf8 role h = elim (Bool-cases (eqs role role_user)) [
    | inl p ↦ rw ((eqs_iff role role_user).0 p) refl
    | inr p ↦ rw ((eqs_iff role role_admin).0 (ground arith)) refl
  ]

  -- The texts that a pair is minted with are of UTF-8.
  abbrev pub IsText : Uuid → Uuid → Type 0
  IsText jti user =
      (valid_utf8 (uuids.to_text jti) ≡ true)
      × (valid_utf8 (uuids.to_text user) ≡ true)
      × (valid_utf8 m.issuer ≡ true)

  minted-is_writable :
      (now ttl : Time) (jti user : Uuid) (role : Role) (type : GoString)
      → IsText jti user
      → role_valid role ≡ true
      → valid_utf8 type ≡ true
      → now + ttl < 2 ^ 53 * second
      → is_writable (minted jwt uuids m now ttl jti user role type) ≡ true
  unfolding is_writable
  minted-is_writable now ttl jti user role type (text, owner, issuer) valid typed fits =
      let known = role_valid-utf8 role valid in
      let begun : ltb (unix now) (2 ^ 53) ≡ true = ground arith in
      let ends : ltb (unix (now + ttl)) (2 ^ 53) ≡ true = ground arith in
      ground (arith, text, owner, issuer, known, typed, begun, ends)

  issued_by_self : (now : Time) → is_issued (options_at jwt uuids m now) m.issuer ≡ true
  issued_by_self now = ground (arith, eqs_refl m.issuer)

  parse_token-sign :
      (secret raw type : GoString) (now later ttl : Time) (jti user : Uuid) (role : Role)
      → jwt.sign hs256 secret (minted jwt uuids m now ttl jti user role type) ≡ ok raw
      → IsText jti user
      → is_empty (uuids.to_text jti) ≡ false
      → role_valid role ≡ true
      → valid_utf8 type ≡ true
      → now + ttl < 2 ^ 53 * second
      → now ≤ later
      → later < unix (now + ttl) * second
      → parse_token jwt uuids m raw secret type later
        ≡ ok (minted jwt uuids m now ttl jti user role type)
  unfolding parse_token
  parse_token-sign secret raw type now later ttl jti user role signed text named valid typed fits
        begun fresh =
      let (decoded, verified) =
        jwt.decode-sign hs256 secret raw _ signed
          (minted-is_writable now ttl jti user role type text valid typed fits) in
      rw
        (
          jwt.parse-decode raw secret hs256 _ (key_for jwt uuids m secret)
              (options_at jwt uuids m later) decoded refl verified refl
              (rw (issued_by_self later) (ground arith)),
          parse_token,
        )
        (check_claims-minted now ttl jti user role type named valid)

  abbrev pub lifetime : Purpose → Time
  lifetime as_access = m.access_ttl
  lifetime as_refresh = m.refresh_ttl

  abbrev pub token_for : Purpose → TokenPair → GoString
  token_for as_access pair = pair.access_token
  token_for as_refresh pair = pair.refresh_token

  abbrev pub parse_for : Purpose → Time → GoString → Result GoError Claims
  parse_for as_access now raw = parse_access_token jwt uuids m now raw
  parse_for as_refresh now raw = parse_refresh_token jwt uuids m now raw

  abbrev pub jti_for : Purpose → Uuid → Uuid → Uuid
  jti_for as_access a r = a
  jti_for as_refresh a r = r

  -- Claims that name the user, the role and the identifier, from `now` until the second `e`.
  abbrev pub Names : Time → ℕ → Uuid → Uuid → Role → Claims → Type 0
  Names now e jti user role c =
      (user_id_of uuids c ≡ ok user)
      × (c.role ≡ role)
      × (c.id ≡ uuids.to_text jti)
      × (c.issued_at ≡ some (unix now))
      × (c.expires_at ≡ some e)

  minted-Names :
      (now ttl : Time) (jti user : Uuid) (role : Role) (type : GoString)
      → Names now (unix (now + ttl)) jti user role (minted jwt uuids m now ttl jti user role type)
  unfolding user_id_of
  minted-Names now ttl jti user role type =
      (rw (uuids.parse-to_text user, user_id_of) refl, refl, refl, refl, refl)

  -- From its minting until the second in which it expires itself, each token of a generated pair is
  -- accepted for its own purpose, and its claims name the user, the role, the identifier and the seconds
  -- of the minting and of its expiry. The identifiers are not empty and the role exists; the texts are of
  -- UTF-8, and the expiry lies before second 2 ^ 53.
  pub parse-generate_token_pair :
      (p : Purpose) (now later : Time) (a r user : Uuid) (role : Role) (pair : TokenPair)
      → generate_token_pair jwt uuids m now a r user role ≡ ok pair
      → IsText (jti_for p a r) user
      → is_empty (uuids.to_text (jti_for p a r)) ≡ false
      → role_valid role ≡ true
      → now + lifetime p < 2 ^ 53 * second
      → now ≤ later
      → later < unix (now + lifetime p) * second
      → (c : Claims) × (parse_for p later (token_for p pair) ≡ ok c)
        × Names now (unix (now + lifetime p)) (jti_for p a r) user role c
  unfolding parse_access_token parse_refresh_token valid_utf8
  parse-generate_token_pair as_access now later a r user role pair h text named valid fits begun
        fresh =
      (
        _,
        parse_token-sign m.access_secret pair.access_token access_type now later m.access_ttl a user
            role (generate_token_pair-signed now a r user role pair h).0 text named valid refl fits
            begun fresh,
        minted-Names now m.access_ttl a user role access_type,
      )
  parse-generate_token_pair as_refresh now later a r user role pair h text named valid fits begun
        fresh =
      (
        _,
        parse_token-sign m.refresh_secret pair.refresh_token refresh_type now later m.refresh_ttl r
            user role (generate_token_pair-signed now a r user role pair h).1 text named valid refl
            fits begun fresh,
        minted-Names now m.refresh_ttl r user role refresh_type,
      )
