-- ===== src/Auth/OauthState/Laws.antt =====
-- That a state of a sign-in is consumed once, and gives back what was saved.
use wordotron_api.Prelude.{◌≡◌, ◌≢◌, ap, ◌∙◌, Option, none, some, [], ◌∷◌}
use mathlib.Core.Path.{subst}
use wordotron_api.Prelude.Exec.{Result, ok, Exec, ◌>>=◌, >>=-eq-ok, lift, checked_call-eq-ok}
use wordotron_api.Text.{GoString}
use wordotron_api.Text.Laws.{eqs_refl}
use wordotron_api.Errors.{GoError, wrap}
use wordotron_api.Models.{Time}
use wordotron_api.Redis.{Redis, eval_all, getdel, present, get_at, write}
use wordotron_api.Auth.Session.{Uuids, text_of, first_text}
use wordotron_api.Auth.OauthState.{
  OauthState, StateCodec, state_key, take_text, consumed, decode_state, consume_state,
}

module _ {S : Type 0} (redis : Redis S) (codec : StateCodec) (uuids : Uuids) where
  -- A GETDEL that is answered reads the key, and removes it.
  take_text-eq-ok :
      (f : GoError → GoError) (now : Time) (key : GoString) (s : S) {o : Option GoString}
      → (take_text redis codec uuids f now key s).0 ≡ ok o
      → (text_of (get_at (present now (redis.keys s key))) ≡ ok o)
        × (redis.keys (take_text redis codec uuids f now key s).1 ≡ write key none (redis.keys s))
  unfolding eval_all
  take_text-eq-ok f now key s {o = o} h =
      let (rs, ran, made, after) =
        checked_call-eq-ok f (redis.run now (getdel key ∷ [])) first_text s h in
      (
        subst (λ rs. first_text rs ≡ ok o) (redis.replies_of_run now (getdel key ∷ []) s ran) made,
        ap redis.keys after ∙ redis.keys_of_run now (getdel key ∷ []) s ran,
      )

  module _ {A : Type 0} (decode : GoString → Result GoError A) (f : GoError → GoError)
      (key : GoString) where
    abbrev consume : Time → Exec GoError S A
    consume now = take_text redis codec uuids f now key >>= λ found. lift (consumed decode found)

    consume-eq-ok :
        (now : Time) (s : S) {a : A}
        → (consume now s).0 ≡ ok a
        → (raw : GoString) × (text_of (get_at (present now (redis.keys s key))) ≡ ok (some raw))
          × (decode raw ≡ ok a)
          × (redis.keys (consume now s).1 ≡ write key none (redis.keys s))
    consume-eq-ok now s {a = a} h =
        let (found, ran, made, chain) =
          >>=-eq-ok (take_text redis codec uuids f now key) (λ found. lift (consumed decode found))
            s h in
        let (read, after) = take_text-eq-ok f now key s ran in
        of_found found made (read) (ap (λ r. redis.keys r.1) chain ∙ after)
      where
        of_found :
            (found : Option GoString)
            → consumed decode found ≡ ok a
            → text_of (get_at (present now (redis.keys s key))) ≡ ok found
            → redis.keys (consume now s).1 ≡ write key none (redis.keys s)
            → (raw : GoString) × (text_of (get_at (present now (redis.keys s key))) ≡ ok (some raw))
              × (decode raw ≡ ok a)
              × (redis.keys (consume now s).1 ≡ write key none (redis.keys s))
        of_found none made read after = absurd (cc)
        of_found (some raw) made read after = (raw, read, made, after)

    -- Two uses of one key, the second at a state that has the keys as the first left them.
    consume_once :
        (now later : Time) (s s' : S) {a b : A}
        → (consume now s).0 ≡ ok a
        → redis.keys s' ≡ redis.keys (consume now s).1
        → (consume later s').0 ≢ ok b
    consume_once now later s s' h same again =
        let (_, _, _, after) = consume-eq-ok now s h in
        let (raw, read, _, _) = consume-eq-ok later s' again in
        absurd (cc (rw (same, after, eqs_refl) at read))

  -- The secrets of a sign-in are handed out once: after a callback consumed a state, no later one
  -- consumes it, at any time, from keys that are as the first left them.
  pub consume_state_once :
      (now later : Time) (state : GoString) (s s' : S) {d e : OauthState}
      → (consume_state redis codec uuids now state s).0 ≡ ok d
      → redis.keys s' ≡ redis.keys (consume_state redis codec uuids now state s).1
      → (consume_state redis codec uuids later state s').0 ≢ ok e
  unfolding consume_state
  consume_state_once now later state s s' =
      consume_once (decode_state redis codec uuids) (wrap "load oauth state") (state_key state) now
        later s s'
