-- ===== src/Tests/Libraries.antt =====
-- The theorems on the session store and the tokens at the concrete packages.
use wordotron_api.Prelude.{◌+◌, ◌*◌, ◌≡◌, ◌≢◌, refl, true, false, ltb, leb, arith}
use wordotron_api.Prelude.Int.{pos, sub_ℕ}
use wordotron_api.Prelude.Exec.{ok}
use wordotron_api.Text.{GoString, codes}
use wordotron_api.Models.{Time, second, hour, unix, role_user}
use wordotron_api.Redis.{Keyspace}
use wordotron_api.Auth.Session.{
  store_refresh_token, revoke_refresh_token, revoke_all_sessions, is_refresh_token_active,
  is_access_token_valid, blacklist_access_token,
}
use wordotron_api.Auth.Session.Revocation.{is_access_token_valid-revoke_all}
use wordotron_api.Auth.Session.Refresh.{
  is_refresh_token_active-revoke_all, is_refresh_token_active-revoke_one,
  is_refresh_token_active-store,
}
use wordotron_api.Auth.Token.{
  Claims, TokenPair, minted, access_type, refresh_type, generate_token_pair, parse_access_token,
  parse_refresh_token,
}
use wordotron_api.Auth.Token.Laws.{IsVouched, parse_access_token-IsVouched, refresh_is_no_access}
use wordotron_api.Auth.Token.RoundTrip.{Names, as_refresh, parse-generate_token_pair}
use wordotron_api.Auth.Token.Logout.{blacklist_outlives_token}
use wordotron_api.Tests.Instances.{memory, uuids, jwt}
use wordotron_api.Tests.Worlds.{manager, empty, value_or, nobody}

abbrev ttl : Time
ttl = 168 * hour

abbrev start : Time
start = 100 * second

abbrev stored : Keyspace
stored = (store_refresh_token memory uuids ttl start 1 (codes "j") (200 * second) empty).1

abbrev pair : TokenPair
pair = value_or nobody.tokens (generate_token_pair jwt uuids manager start 70 71 1 role_user)

abbrev access : Claims
access = minted jwt uuids manager start manager.access_ttl 70 1 role_user access_type

abbrev blocked : Keyspace
blocked =
    (blacklist_access_token memory uuids ttl start access.id (sub_ℕ (1000 * second) start) empty).1

is_access_token_valid-revoke_all_example : true ≡ leb (unix start) 100
unfolding store_refresh_token wordotron_api.Redis.eval_all wordotron_api.Text.eqs
    revoke_all_sessions is_access_token_valid wordotron_api.Text.Decimal.parse_int
    wordotron_api.Text.Decimal.format_int
is_access_token_valid-revoke_all_example =
    is_access_token_valid-revoke_all memory uuids ttl start (101 * second) 1 (codes "j") 100 stored
      (omega arith) (omega arith) (omega arith) refl refl refl

is_refresh_token_active-revoke_all_example :
    value_or true
      (is_refresh_token_active memory uuids ttl
        (101 * second)
        1
        (codes "j")
        (revoke_all_sessions memory uuids ttl start 1 stored).1).0
    ≡ false
unfolding revoke_all_sessions wordotron_api.Redis.eval_all store_refresh_token
    wordotron_api.Text.eqs is_refresh_token_active
is_refresh_token_active-revoke_all_example =
    is_refresh_token_active-revoke_all memory uuids ttl start (101 * second) 1 (codes "j") stored
      refl refl

is_refresh_token_active-revoke_one_example :
    value_or true
      (is_refresh_token_active memory uuids ttl
        (101 * second)
        1
        (codes "j")
        (revoke_refresh_token memory uuids ttl start 1 (codes "j") stored).1).0
    ≡ false
unfolding revoke_refresh_token wordotron_api.Redis.eval_all store_refresh_token
    wordotron_api.Text.eqs is_refresh_token_active
is_refresh_token_active-revoke_one_example =
    is_refresh_token_active-revoke_one memory uuids ttl start (101 * second) 1 (codes "j") stored
      refl refl

is_refresh_token_active-store_example :
    value_or false (is_refresh_token_active memory uuids ttl (150 * second) 1 (codes "j") stored).0
    ≡ ltb (unix (150 * second)) (unix (200 * second))
unfolding store_refresh_token wordotron_api.Redis.eval_all wordotron_api.Text.eqs
    is_refresh_token_active wordotron_api.Text.Decimal.parse_int
    wordotron_api.Text.Decimal.format_int
is_refresh_token_active-store_example =
    is_refresh_token_active-store memory uuids ttl start (150 * second) (200 * second) 1 (codes "j")
      empty (omega arith) (omega arith) refl refl

parse_access_token-IsVouched_example :
    IsVouched jwt uuids manager start manager.access_secret access_type pair.access_token access
unfolding parse_access_token wordotron_api.Auth.Token.parse_token generate_token_pair
    wordotron_api.Auth.Token.sign_claims wordotron_api.Text.eqs
    wordotron_api.Auth.Token.check_claims wordotron_api.Auth.Token.user_id_of
    wordotron_api.Models.role_valid
parse_access_token-IsVouched_example =
    parse_access_token-IsVouched jwt uuids manager start pair.access_token access refl

refresh_is_no_access_example :
    parse_access_token jwt uuids manager start pair.refresh_token ≢ ok access
unfolding parse_refresh_token wordotron_api.Auth.Token.parse_token generate_token_pair
    wordotron_api.Auth.Token.sign_claims wordotron_api.Text.eqs
    wordotron_api.Auth.Token.check_claims wordotron_api.Auth.Token.user_id_of
    wordotron_api.Models.role_valid
refresh_is_no_access_example =
    refresh_is_no_access jwt uuids manager start start pair.refresh_token
      (minted jwt uuids manager start manager.refresh_ttl 71 1 role_user refresh_type) access refl

parse-generate_token_pair_example :
    (c : Claims) × (parse_refresh_token jwt uuids manager (start + second) pair.refresh_token
      ≡ ok c)
    × Names jwt uuids manager start (unix (start + manager.refresh_ttl)) 71 1 role_user c
unfolding generate_token_pair wordotron_api.Auth.Token.sign_claims wordotron_api.Models.role_valid
    wordotron_api.Text.Utf8.valid_utf8 parse_refresh_token wordotron_api.Auth.Token.parse_token
parse-generate_token_pair_example =
    parse-generate_token_pair jwt uuids manager as_refresh start (start + second) 70 71 1 role_user
      pair refl (refl, refl, refl) refl refl (omega arith) (omega arith) (omega arith)

blacklist_outlives_token_example :
    value_or true (is_access_token_valid memory uuids ttl start 1 access.id (pos 100) blocked).0
    ≡ false
unfolding parse_access_token wordotron_api.Auth.Token.parse_token generate_token_pair
    wordotron_api.Auth.Token.sign_claims wordotron_api.Text.eqs
    wordotron_api.Auth.Token.check_claims wordotron_api.Auth.Token.user_id_of
    wordotron_api.Models.role_valid blacklist_access_token wordotron_api.Redis.eval_all
    is_access_token_valid
blacklist_outlives_token_example =
    blacklist_outlives_token memory jwt uuids manager ttl start start pair.access_token access
      access 1000 1 (pos 100) empty refl refl refl (omega arith) refl refl
