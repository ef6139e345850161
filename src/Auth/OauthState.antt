-- ===== src/Auth/OauthState.antt =====
-- app/lib/auth/oauth_state.go: `RedisOAuthStateStore`, over the interfaces of Redis, of encoding/json and
-- of uuid. Each method takes the reading of the clock `now` that it makes.
pub mod Laws
use wordotron_api.Prelude.{
  ℕ, ◌*◌, ◌≡◌, Bool, true, Option, none, some, List, [], ◌∷◌, ◌++◌, ltb, length, if◌then◌else◌,
}
use wordotron_api.Prelude.Exec.{Result, ok, err, Exec, ◌>>=◌, lift, map_error}
use wordotron_api.Text.{GoString, codes}
use wordotron_api.Text.Utf8.{valid_utf8}
use wordotron_api.Errors.{GoError, sentinel, err_state_not_found, plain, wrap}
use wordotron_api.Models.{Uuid, Time, second}
use wordotron_api.Redis.{Redis, Reply, getdel, set}
use wordotron_api.Auth.Session.{Uuids, first_text, all_done}

pub record OauthState : Type 0 where
  pub code_verifier : GoString
  pub return_to : GoString
  pub created_at : Time

-- json.Marshal and json.Unmarshal at OAuthState.
pub record StateCodec : Type 0 where
  pub marshal : OauthState → Result GoError GoString
  pub unmarshal : GoString → Result GoError OauthState
  -- strings of UTF-8 come back as they were
  pub unmarshal-marshal :
      (d : OauthState) {s : GoString}
      → marshal d ≡ ok s
      → valid_utf8 d.code_verifier ≡ true
      → valid_utf8 d.return_to ≡ true
      → unmarshal s ≡ ok d

abbrev pub oauth_state_ttl : Time
oauth_state_ttl = 600 * second

abbrev pub oauth_handoff_ttl : Time
oauth_handoff_ttl = 60 * second

abbrev pub max_return_path_length : ℕ
max_return_path_length = 512

abbrev pub state_key : GoString → GoString
state_key state = codes "oauth:state:" ++ state

abbrev pub handoff_key : GoString → GoString
handoff_key code = codes "oauth:handoff:" ++ code

-- The data that is stored: an over-long path is dropped, and the time is set.
abbrev pub stamped : Time → OauthState → OauthState
stamped now d = record {
  code_verifier = d.code_verifier;
  return_to = if ltb max_return_path_length (length d.return_to) then [] else d.return_to;
  created_at = now;
}

-- What GETDEL found: nothing means that the state is unknown.
abbrev pub consumed :
    {A : Type 0} → (GoString → Result GoError A) → Option GoString → Result GoError A
consumed decode none = err (sentinel err_state_not_found)
consumed decode (some raw) = decode raw

module _ {S : Type 0} (redis : Redis S) (codec : StateCodec) (uuids : Uuids) where
  unfoldable pub save_state : Time → GoString → OauthState → Exec GoError S (Unit {0})
  save_state now state d = do
    encoded ← map_error (wrap "encode oauth state") (lift (codec.marshal (stamped now d)))
    map_error (wrap "save oauth state") (
        redis.run now (set (state_key state) encoded oauth_state_ttl ∷ []) >>= λ rs.
        lift (all_done rs))

  -- The GETDEL, with redis.Nil as `none`.
  abbrev pub take_text : (GoError → GoError) → Time → GoString → Exec GoError S (Option GoString)
  take_text f now key = map_error f (redis.run now (getdel key ∷ []) >>= λ rs. lift (first_text rs))

  abbrev pub decode_state : GoString → Result GoError OauthState
  decode_state raw = elim (codec.unmarshal raw) [
    | ok d ↦ ok d
    | err e ↦ err (wrap "decode oauth state" e)
  ]

  unfoldable pub consume_state : Time → GoString → Exec GoError S OauthState
  consume_state now state = do
    found ← take_text (wrap "load oauth state") now (state_key state)
    lift (consumed decode_state found)

  unfoldable pub save_handoff : Time → GoString → Uuid → Exec GoError S (Unit {0})
  save_handoff now code user_id = map_error (wrap "save oauth handoff") (
      redis.run now (set (handoff_key code) (uuids.to_text user_id) oauth_handoff_ttl ∷ [])
      >>= λ rs. lift (all_done rs))

  abbrev pub decode_handoff : GoString → Result GoError Uuid
  decode_handoff raw = elim (uuids.parse raw) [
    | ok u ↦ ok u
    | err e ↦ err (wrap "decode oauth handoff" e)
  ]

  unfoldable pub consume_handoff : Time → GoString → Exec GoError S Uuid
  consume_handoff now code = do
    found ← take_text (wrap "load oauth handoff") now (handoff_key code)
    lift (consumed decode_handoff found)
