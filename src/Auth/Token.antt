-- ===== src/Auth/Token.antt =====
-- app/lib/auth/jwt.go. The packages golang-jwt and uuid are interfaces. A NumericDate is a number of
-- seconds, to which NewNumericDate cuts a time; the identifiers that uuid.NewString draws are
-- arguments.
pub mod Laws
pub mod RoundTrip
pub mod Logout
use wordotron_api.Prelude.{
  ℕ, ◌+◌, ◌*◌, ◌/◌, ◌^◌, ◌≡◌, Bool, true, false, ◌&&◌, ◌||◌, Option, none, some, List, [], ◌∷◌, ltb,
  leb, not, any, if◌then◌else◌,
}
use wordotron_api.Prelude.Exec.{Result, ok, err}
use wordotron_api.Text.{GoString, codes, eqs, is_empty}
use wordotron_api.Text.Utf8.{valid_utf8}
use wordotron_api.Errors.{
  GoError, sentinel, plain, wrap, is, err_invalid_token, err_expired_token, err_wrong_type,
  jwt_token_expired,
}
use wordotron_api.Models.{Uuid, Time, Role, role_valid, second, unix}
use wordotron_api.Auth.Session.{Uuids}

abbrev pub access_type : GoString
access_type = codes "access"

abbrev pub refresh_type : GoString
refresh_type = codes "refresh"

-- `Claims`, its registered claims included.
pub record Claims : Type 0 where
  pub id : GoString
  pub subject : GoString
  pub issuer : GoString
  pub issued_at : Option ℕ
  pub not_before : Option ℕ
  pub expires_at : Option ℕ
  pub role : Role
  pub token_type : GoString

pub data SigningMethod : Type 0 where
  hs256 hs384 hs512 other_method : SigningMethod

-- The type assertion on *jwt.SigningMethodHMAC.
abbrev pub is_hmac : SigningMethod → Bool
is_hmac other_method = false
is_hmac _ = true

abbrev pub same_method : SigningMethod → SigningMethod → Bool
same_method hs256 hs256 = true
same_method hs384 hs384 = true
same_method hs512 hs512 = true
same_method other_method other_method = true
same_method _ _ = false

-- WithValidMethods, WithIssuer, WithExpirationRequired, WithTimeFunc
pub record ParserOptions : Type 0 where
  pub valid_methods : List SigningMethod
  pub issuer : GoString
  pub expiration_required : Bool
  pub now : Time

-- `exp` and `nbf` as the package checks them: before the one, and not before the other.
abbrev pub not_expired : ParserOptions → Option ℕ → Bool
not_expired o none = not o.expiration_required
not_expired o (some e) = ltb o.now (e * second)

abbrev pub has_begun : ParserOptions → Option ℕ → Bool
has_begun o none = true
has_begun o (some b) = leb (b * second) o.now

-- An empty issuer among the options asks for none.
abbrev pub is_issued : ParserOptions → GoString → Bool
is_issued o issuer = is_empty o.issuer || eqs issuer o.issuer

-- The claims that the package accepts under the options.
abbrev pub is_accepted : ParserOptions → Claims → Bool
is_accepted o c = not_expired o c.expires_at && (has_begun o c.not_before && is_issued o c.issuer)

abbrev pub is_listed : ParserOptions → SigningMethod → Bool
is_listed o m = any (same_method m) o.valid_methods

-- What the JSON of a token can hold as it is: strings of UTF-8, and seconds that a float64 holds.
abbrev pub fits_number : Option ℕ → Bool
fits_number none = true
fits_number (some n) = ltb n (2 ^ 53)

unfoldable pub is_writable : Claims → Bool
is_writable c =
    (valid_utf8 c.id
      && (valid_utf8 c.subject
          && (valid_utf8 c.issuer && (valid_utf8 c.role && valid_utf8 c.token_type))))
    && (fits_number c.issued_at && (fits_number c.not_before && fits_number c.expires_at))

-- github.com/golang-jwt/jwt/v5
pub record Jwt : Type 0 where
  pub sign : SigningMethod → GoString → Claims → Result GoError GoString
  pub parse :
      GoString → (SigningMethod → Result GoError GoString) → ParserOptions → Result GoError Claims
  -- ParseUnverified: the method and the claims that a string names
  pub decode : GoString → Option (SigningMethod × Claims)
  -- SigningMethod.Verify, of the signature in a string under a key
  pub verify : SigningMethod → GoString → GoString → Bool
  -- a token that was signed names its claims, and verifies under its key
  pub decode-sign :
      (m : SigningMethod) (secret raw : GoString) (c : Claims)
      → sign m secret c ≡ ok raw
      → is_writable c ≡ true
      → (decode raw ≡ some (m, c)) × (verify m secret raw ≡ true)
  -- Parse decodes, verifies under the key of the key function, and checks the options
  pub parse-decode :
      (raw secret : GoString) (m : SigningMethod) (c : Claims)
      (key : SigningMethod → Result GoError GoString) (o : ParserOptions)
      → decode raw ≡ some (m, c)
      → key m ≡ ok secret
      → verify m secret raw ≡ true
      → is_listed o m ≡ true
      → is_accepted o c ≡ true
      → parse raw key o ≡ ok c
  pub parse-eq-ok :
      (raw : GoString) (key : SigningMethod → Result GoError GoString) (o : ParserOptions)
      {c : Claims}
      → parse raw key o ≡ ok c
      → (m : SigningMethod) × (secret : GoString) × (decode raw ≡ some (m, c))
        × (key m ≡ ok secret)
        × (verify m secret raw ≡ true)
        × (is_listed o m ≡ true)
        × (is_accepted o c ≡ true)

pub record JwtManager : Type 0 where
  pub access_secret : GoString
  pub refresh_secret : GoString
  pub access_ttl : Time
  pub refresh_ttl : Time
  pub issuer : GoString

pub record TokenPair : Type 0 where
  pub access_token : GoString
  pub refresh_token : GoString
  pub token_type : GoString
  pub expires_in : ℕ
  pub expires_at : Time
  pub access_jti : GoString
  pub refresh_jti : GoString
  pub refresh_expires_at : Time

-- `Claims.UserID`
unfoldable pub user_id_of : Uuids → Claims → Result GoError Uuid
user_id_of uuids c = elim (uuids.parse c.subject) [
  | ok id ↦ ok id
  | err e ↦ err (wrap "subject is not a uuid" (sentinel err_invalid_token))
]

infixl 5 ◌>>=◌
abbrev pub ◌>>=◌ : {A B : Type 0} → Result GoError A → (A → Result GoError B) → Result GoError B
ok a >>= f = f a
err e >>= f = err e

module _ (jwt : Jwt) (uuids : Uuids) (m : JwtManager) where
  -- The claims of a token of a type, minted at `now` with a time to live.
  abbrev pub minted : Time → Time → Uuid → Uuid → Role → GoString → Claims
  minted now ttl jti user_id role type = record {
    id = uuids.to_text jti;
    subject = uuids.to_text user_id;
    issuer = m.issuer;
    issued_at = some (unix now);
    not_before = some (unix now);
    expires_at = some (unix (now + ttl));
    role = role;
    token_type = type;
  }

  -- `sign`
  unfoldable pub sign_claims : GoString → Claims → Result GoError GoString
  sign_claims secret claims = elim (jwt.sign hs256 secret claims) [
    | ok signed ↦ ok signed
    | err e ↦ err (wrap "auth: sign token" e)
  ]

  unfoldable pub generate_token_pair : Time → Uuid → Uuid → Uuid → Role → Result GoError TokenPair
  generate_token_pair now access_jti refresh_jti user_id role = do
    access ←
        sign_claims m.access_secret (minted now m.access_ttl access_jti user_id role access_type)
    refresh ←
        sign_claims m.refresh_secret
          (minted now m.refresh_ttl refresh_jti user_id role refresh_type)
    ok (record {
      access_token = access;
      refresh_token = refresh;
      token_type = codes "Bearer";
      expires_in = m.access_ttl / second;
      expires_at = now + m.access_ttl;
      access_jti = uuids.to_text access_jti;
      refresh_jti = uuids.to_text refresh_jti;
      refresh_expires_at = now + m.refresh_ttl;
    })

  -- The key function, which pins the family of the algorithm.
  abbrev pub key_for : GoString → SigningMethod → Result GoError GoString
  key_for secret method =
      if is_hmac method
      then ok secret
      else err (wrap "unexpected signing method" (sentinel err_invalid_token))

  abbrev pub options_at : Time → ParserOptions
  options_at now = record {
    valid_methods = hs256 ∷ [];
    issuer = m.issuer;
    expiration_required = true;
    now = now;
  }

  abbrev pub parse_failure : GoError → GoError
  parse_failure e =
      if is jwt_token_expired e
      then sentinel err_expired_token
      else wrap "auth: invalid token" (sentinel err_invalid_token)

  -- The checks behind the parser.
  unfoldable pub check_claims : GoString → Claims → Result GoError Claims
  check_claims want claims =
      if not (eqs claims.token_type want)
      then err (sentinel err_wrong_type)
      else if is_empty claims.id
      then err (wrap "missing jti" (sentinel err_invalid_token))
      else elim (user_id_of uuids claims) [
        | err e ↦ err e
        | ok id ↦
            if not (role_valid claims.role)
            then err (wrap "unknown role" (sentinel err_invalid_token))
            else ok claims
      ]

  unfoldable pub parse_token : GoString → GoString → GoString → Time → Result GoError Claims
  parse_token raw secret want now = elim (jwt.parse raw (key_for secret) (options_at now)) [
    | err e ↦ err (parse_failure e)
    | ok claims ↦ check_claims want claims
  ]

  unfoldable pub parse_access_token : Time → GoString → Result GoError Claims
  parse_access_token now raw = parse_token raw m.access_secret access_type now

  unfoldable pub parse_refresh_token : Time → GoString → Result GoError Claims
  parse_refresh_token now raw = parse_token raw m.refresh_secret refresh_type now
