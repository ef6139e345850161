-- ===== src/Tests/Limits.antt =====
-- The theorems on the configuration, a sign-in by Google and the rate limit at concrete ones.
use wordotron_api.Prelude.{
  ◌*◌, ◌≤◌, ◌≡◌, ◌≢◌, refl, true, some, none, [], ◌∷◌, ◌++◌, arith, if◌then◌else◌,
}
use wordotron_api.Prelude.Int.{pos}
use wordotron_api.Prelude.Exec.{Result, ok, err}
use wordotron_api.Text.{GoString, codes, eqs}
use wordotron_api.Errors.{GoError, plain}
use wordotron_api.Models.{second}
use wordotron_api.Redis.{Keyspace}
use wordotron_api.Config.Load.{Environment, resolve, load}
use wordotron_api.Config.Laws.{IsFit, load-IsFit}
use wordotron_api.Auth.OauthState.{OauthState, StateCodec, save_state, consume_state, stamped}
use wordotron_api.Auth.OauthState.Laws.{consume_state_once}
use wordotron_api.Middleware.RateLimit.{RateLimitConfig}
use wordotron_api.Middleware.RateLimit.Laws.{let_through, let_through_bound}
use wordotron_api.Auth.Google.{GoogleProvider, GoogleClaims, GoogleClient}
use wordotron_api.Tests.Instances.{memory, uuids, put, first_of, rest_of, first_of-put, rest_of-put}
use wordotron_api.Tests.Worlds.{empty}

abbrev ten : GoString
ten = codes "0123456789"

abbrev getenv : GoString → GoString
getenv key =
    if eqs key (codes "JWT_SECRET")
    then codes "ab" ++ (ten ++ (ten ++ ten))
    else if eqs key (codes "REFRESH_SECRET")
    then codes "cd" ++ (ten ++ (ten ++ ten))
    else if eqs key (codes "DATABASE_URL")
    then codes "d"
    else if eqs key (codes "REDIS_URL")
    then codes "r"
    else []

-- An environment with the required variables.
abbrev environment : Environment
environment = record {
  getenv = getenv;
  atoi = λ s. none;
  parse_bool = λ s. none;
  parse_duration = λ s. none;
}

load-IsFit_example : IsFit (resolve environment)
unfolding load
load-IsFit_example = load-IsFit environment {c = resolve environment} refl

abbrev read_state : GoString → GoString → Result GoError OauthState
read_state verifier [] = err (plain "unexpected end of JSON input")
read_state verifier (c ∷ path) =
    ok (record { code_verifier = verifier; return_to = path; created_at = c })

abbrev write_state : OauthState → GoString
write_state d = put d.code_verifier (d.created_at ∷ d.return_to)

read_back :
    (d : OauthState) {s : GoString} → write_state d ≡ s → read_state (first_of s) (rest_of s) ≡ ok d
read_back d h = rw (← h) (
    rw
      (
        first_of-put d.code_verifier (d.created_at ∷ d.return_to),
        rest_of-put d.code_verifier (d.created_at ∷ d.return_to),
      )
      refl)

abbrev marshal : OauthState → Result GoError GoString
marshal d = ok (write_state d)

written : (d : OauthState) {s : GoString} → marshal d ≡ ok s → write_state d ≡ s
written d h = cc

abbrev codec : StateCodec
codec = record {
  marshal = marshal;
  unmarshal = λ s. read_state (first_of s) (rest_of s);
  unmarshal-marshal = λ d h verifier path. read_back d (written d h);
}

abbrev started : OauthState
started = record { code_verifier = codes "v"; return_to = codes "/words"; created_at = 0 }

abbrev saved : Keyspace
saved = (save_state memory codec uuids (100 * second) (codes "s") started empty).1

consume_state_once_example :
    (consume_state memory codec uuids
      (120 * second)
      (codes "s")
      (consume_state memory codec uuids (110 * second) (codes "s") saved).1).0
    ≢ ok started
unfolding consume_state wordotron_api.Redis.eval_all save_state eqs
consume_state_once_example =
    consume_state_once memory codec uuids (110 * second) (120 * second) (codes "s") saved
      (consume_state memory codec uuids (110 * second) (codes "s") saved).1
      {d = stamped (100 * second) started} {e = started} refl refl

abbrev limiter : RateLimitConfig
limiter = record {
  has_client = true;
  enabled = true;
  max = pos 2;
  window = 60 * second;
  key_prefix = [];
}

let_through_bound_example :
    let_through memory limiter (codes "ip:1") (61 * second ∷ 62 * second ∷ 119 * second ∷ []) empty
    ≤ 2
let_through_bound_example =
    let_through_bound memory limiter (codes "ip:1") 2 1 refl refl (λ now cs s. (_, refl))
      (61 * second ∷ 62 * second ∷ 119 * second ∷ []) empty (omega arith) refl
      (refl, (refl, (refl, tt))) (omega arith)

abbrev provider : GoogleProvider
provider = record {
  client_id = codes "client";
  client_secret = codes "x";
  redirect_url = codes "/back";
}

abbrev vouched : GoogleClaims
vouched = record {
  issuer = codes "accounts.google.com";
  subject = codes "1";
  audience = codes "client" ∷ [];
  expires_at = some 200;
  email = codes "A@b";
  email_verified = true;
  name = codes "A";
  given_name = [];
  picture = [];
}

abbrev google : GoogleClient
google = record {
  post_form = λ f. ok (record { status = 200; body = codes "{}" });
  decode_response =
      λ b. some (record { access_token = []; id_token = codes "t"; token_type = []; error = [] });
  parse_unverified = λ t. some vouched;
}
