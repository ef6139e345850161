-- ===== src/Auth/Google/Laws.antt =====
-- What an identity of Google guarantees.
use wordotron_api.Prelude.{◌≡◌, true, false, some, any}
use wordotron_api.Prelude.Exec.{ok}
use wordotron_api.Text.{GoString, eqs, is_empty}
use wordotron_api.Models.{Time}
use wordotron_api.Auth.Google.{
  ExternalIdentity, GoogleClaims, GoogleClient, GoogleProvider, HttpResponse, GoogleTokenResponse,
  google_issuers, verify_audience, is_expired, email_of, form_of,
}

-- The claims speak of a verified address, to this client, at this time; the identity is theirs.
abbrev pub Attests : GoogleProvider → Time → GoogleClaims → ExternalIdentity → Type 0
Attests g now c i =
    (any (eqs c.issuer) google_issuers ≡ true)
    × (verify_audience c g.client_id ≡ true)
    × (is_expired c now ≡ false)
    × (c.email_verified ≡ true)
    × (i.subject ≡ c.subject)
    × (is_empty i.subject ≡ false)
    × (i.email ≡ email_of c)
    × (is_empty i.email ≡ false)

module _ (client : GoogleClient) (g : GoogleProvider) (now : Time) where
  -- The answer of the token endpoint that an identity was read from.
  abbrev pub CameFrom : GoString → GoString → ExternalIdentity → Type 0
  CameFrom code verifier i =
      (response : HttpResponse) × (payload : GoogleTokenResponse) × (c : GoogleClaims)
      × (client.post_form (form_of client g code verifier) ≡ ok response)
      × (response.status ≡ 200)
      × (client.decode_response response.body ≡ some payload)
      × (client.parse_unverified payload.id_token ≡ some c)
      × Attests g now c i
