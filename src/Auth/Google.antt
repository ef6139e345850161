-- ===== src/Auth/Google.antt =====
-- app/lib/auth/google.go: the exchange of an authorization code for an identity, over interfaces of the
-- HTTP client, of encoding/json and of golang-jwt; the domain types of app/models/oauth.go.
pub mod Laws
use wordotron_api.Prelude.{
  ℕ, ◌*◌, Bool, true, false, not, ◌||◌, Option, none, some, List, [], ◌∷◌, ◌==◌, any, ltb,
  if◌then◌else◌,
}
use wordotron_api.Prelude.Exec.{Result, ok, err}
use wordotron_api.Text.{GoString, codes, eqs, is_empty, trim_space, to_lower, before_byte}
use wordotron_api.Errors.{GoError, sentinel, wrap, err_exchange_failed, err_identity_unusable}
use wordotron_api.Models.{Time, second}

-- `ExternalIdentity`
pub record ExternalIdentity : Type 0 where
  pub provider : GoString
  pub subject : GoString
  pub email : GoString
  pub email_verified : Bool
  pub full_name : GoString
  pub avatar_url : GoString

abbrev pub provider_google : GoString
provider_google = codes "google"

-- `Provider.Valid`
unfoldable pub provider_valid : GoString → Bool
unfolding eqs
provider_valid p = eqs p provider_google

pub record GoogleTokenResponse : Type 0 where
  pub access_token : GoString
  pub id_token : GoString
  pub token_type : GoString
  pub error : GoString

-- The claims that are read, with the registered ones among them; the expiry is in seconds.
pub record GoogleClaims : Type 0 where
  pub issuer : GoString
  pub subject : GoString
  pub audience : List GoString
  pub expires_at : Option ℕ
  pub email : GoString
  pub email_verified : Bool
  pub name : GoString
  pub given_name : GoString
  pub picture : GoString

pub record HttpResponse : Type 0 where
  pub status : ℕ
  pub body : GoString

-- The HTTP client at the token endpoint, the reading of its JSON, and ParseUnverified of a token.
pub record GoogleClient : Type 0 where
  pub post_form : List (GoString × GoString) → Result GoError HttpResponse
  pub decode_response : GoString → Option GoogleTokenResponse
  pub parse_unverified : GoString → Option GoogleClaims

pub record GoogleProvider : Type 0 where
  pub client_id : GoString
  pub client_secret : GoString
  pub redirect_url : GoString

abbrev pub google_issuers : List GoString
google_issuers = codes "https://accounts.google.com" ∷ codes "accounts.google.com" ∷ []

abbrev pub exchange_failed : {A : Type 0} → Result GoError A
exchange_failed =
    err (wrap "auth: could not complete the google exchange" (sentinel err_exchange_failed))

abbrev pub identity_unusable : {A : Type 0} → Result GoError A
identity_unusable =
    err (wrap "auth: google returned an unusable profile" (sentinel err_identity_unusable))

-- `VerifyAudience`
unfoldable pub verify_audience : GoogleClaims → GoString → Bool
unfolding eqs
verify_audience c expected = any (λ a. eqs a expected) c.audience

-- `claims.ExpiresAt == nil || claims.ExpiresAt.Before(now)`
abbrev pub is_expired : GoogleClaims → Time → Bool
is_expired c now = elim c.expires_at [ none ↦ true | some s ↦ ltb (s * second) now ]

abbrev pub email_of : GoogleClaims → GoString
email_of c = to_lower (trim_space c.email)

-- The name, else the given name, else the local part of the address.
unfoldable pub full_name_of : GoogleClaims → GoString
unfolding to_lower trim_space before_byte
full_name_of c =
    if not (is_empty (trim_space c.name))
    then trim_space c.name
    else if not (is_empty (trim_space c.given_name))
    then trim_space c.given_name
    else before_byte b'@' (email_of c)

-- The checks of `identityFromIDToken` on the claims, in turn.
unfoldable pub identity_of : GoogleProvider → Time → GoogleClaims → Result GoError ExternalIdentity
unfolding verify_audience full_name_of to_lower trim_space eqs
identity_of g now c =
    if not (any (eqs c.issuer) google_issuers)
    then exchange_failed
    else if not (verify_audience c g.client_id)
    then exchange_failed
    else if is_expired c now
    then exchange_failed
    else if is_empty c.subject
    then exchange_failed
    else if is_empty (email_of c)
    then identity_unusable
    else if not c.email_verified
    then identity_unusable
    else ok (record {
      provider = provider_google;
      subject = c.subject;
      email = email_of c;
      email_verified = true;
      full_name = full_name_of c;
      avatar_url = c.picture;
    })

module _ (client : GoogleClient) (g : GoogleProvider) where
  unfoldable pub identity_from_id_token : Time → GoString → Result GoError ExternalIdentity
  unfolding identity_of
  identity_from_id_token now raw = elim (client.parse_unverified raw) [
    | none ↦ exchange_failed
    | some c ↦ identity_of g now c
  ]

  abbrev pub form_of : GoString → GoString → List (GoString × GoString)
  form_of code code_verifier =
      (codes "code", code)
      ∷ (codes "client_id", g.client_id)
      ∷ (codes "client_secret", g.client_secret)
      ∷ (codes "redirect_uri", g.redirect_url)
      ∷ (codes "grant_type", codes "authorization_code")
      ∷ (codes "code_verifier", code_verifier)
      ∷ []

  abbrev pub read_payload :
      Time → HttpResponse → Option GoogleTokenResponse → Result GoError ExternalIdentity
  read_payload now response none = exchange_failed
  read_payload now response (some payload) =
      if not (response.status == 200) || not (is_empty payload.error)
      then exchange_failed
      else if is_empty payload.id_token
      then exchange_failed
      else identity_from_id_token now payload.id_token

  -- An error of the client is not wrapped: its text alone is kept.
  unfoldable pub exchange : Time → GoString → GoString → Result GoError ExternalIdentity
  unfolding identity_from_id_token
  exchange now code code_verifier = elim (client.post_form (form_of code code_verifier)) [
    | err e ↦ exchange_failed
    | ok response ↦ read_payload now response (client.decode_response response.body)
  ]
