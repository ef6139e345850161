-- ===== src/Tests/Worlds.antt =====
-- A wiring of the concrete packages, and a small world: one verified account with the password "pw".
use wordotron_api.Prelude.{◌+◌, ◌*◌, true, false, none, some, [], ◌∷◌}
use wordotron_api.Prelude.Exec.{Result, ok, err}
use wordotron_api.Text.{codes}
use wordotron_api.Errors.{GoError}
use wordotron_api.Models.{Token, second, hour, role_user}
use wordotron_api.Db.{Db, Tables, UserRow}
use wordotron_api.Redis.{Keyspace}
use wordotron_api.Auth.Token.{JwtManager}
use wordotron_api.Services.World.{World}
use wordotron_api.Services.Auth.{Wiring, AuthResult}
use wordotron_api.Tests.Instances.{memory, uuids, bcrypt, jwt}

abbrev pub manager : JwtManager
manager = record {
  access_secret = codes "a";
  refresh_secret = codes "r";
  access_ttl = 900 * second;
  refresh_ttl = 168 * hour;
  issuer = codes "w";
}

abbrev pub wiring : Wiring Keyspace
wiring = record {
  redis = memory;
  uuids = uuids;
  jwt = jwt;
  manager = manager;
  bcrypt = bcrypt;
  codecs = record { sha256_hex = λ x. x; base64_url = λ x. x; query_escape = λ x. x };
  cfg = record {
    refresh_ttl = 168 * hour;
    bcrypt_cost = 10;
    password_reset_expiry = hour;
    email_verification_expiry = hour;
    frontend_url = codes "f/";
    reset_password_path = codes "r";
    verify_email_path = codes "v";
  };
}

abbrev pub alice : UserRow
alice = record {
  id = 1;
  email = codes "a@b";
  password_hash = some (0 ∷ codes "pw");
  full_name = codes "A";
  role = role_user;
  avatar_url = none;
  is_active = true;
  email_verified_at = some 1;
  last_login_at = none;
  created_at = 0;
  updated_at = 0;
}

abbrev pub link : Token
link = record {
  id = 5;
  user_id = 1;
  token_hash = codes "t";
  expires_at = 1000 * second;
  used_at = none;
  created_at = 0;
}

abbrev pub tables : Tables
tables = record {
  users = alice ∷ [];
  password_resets = link ∷ [];
  email_verifications = link ∷ [];
  words = [];
  word_senses = [];
  user_words = [];
  oauth_accounts = [];
}

abbrev pub db : Db
db = record {
  tables = tables;
  tx_start = none;
  step = 0;
  fault = λ n. none;
  committed = λ n. false;
  clock = λ n. (100 + n) * second;
  ids = λ n. 50 + n;
}

abbrev pub empty : Keyspace
empty key = none

abbrev pub world : World Keyspace
world = record {
  db = db;
  sessions = empty;
  clock = λ n. (100 + n) * second;
  ticks = 0;
  uuid_at = λ n. 70 + n;
  drawn = 0;
  random = λ n. ok (n ∷ []);
  reads = 0;
  links = [];
}

-- The value of a call that ends well, or another one.
abbrev pub value_or : {A : Type 0} → A → Result GoError A → A
value_or d (ok a) = a
value_or d (err e) = d

abbrev pub nobody : AuthResult
nobody = record {
  user = record {
    id = 0;
    email = [];
    full_name = [];
    role = [];
    avatar_url = none;
    is_active = false;
    email_verified_at = none;
    last_login_at = none;
    created_at = 0;
    updated_at = 0;
    password_hash = [];
  };
  tokens = record {
    access_token = [];
    refresh_token = [];
    token_type = [];
    expires_in = 0;
    expires_at = 0;
    access_jti = [];
    refresh_jti = [];
    refresh_expires_at = 0;
  };
}
