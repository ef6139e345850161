-- ===== src/Auth/Session/Refresh.antt =====
-- Which refresh tokens are active.
use wordotron_api.Prelude.{
  ◌+◌, ◌*◌, ◌^◌, ◌<◌, ◌≡◌, refl, Bool, true, false, Option, none, some, List, [], ◌∷◌, arith, ltb,
  not, ap, ◌∙◌,
}
use wordotron_api.Prelude.Int.{ℤ}
use wordotron_api.Prelude.Exec.{ok, >>=-eq-ok, checked_call-eq-ok}
use wordotron_api.Text.{GoString, eqs}
use wordotron_api.Text.Laws.{eqs_refl, eqs_iff}
use wordotron_api.Text.Decimal.{parse_int}
use wordotron_api.Text.Decimal.RoundTrip.{parse_int-format_int}
use wordotron_api.Errors.{wrap}
use wordotron_api.Models.{Uuid, Time, second, hour, unix}
use wordotron_api.Redis.{
  Redis, Keyspace, Entry, whole, hset_at, hdel_at, expire_at, deadline_of, alive, Value, str, hash,
  eval_all, present, field, without_field, hset, hget, hdel, expire,
}
use wordotron_api.Auth.Session.{
  Uuids, sessions_key, first_text, failed, all_done, is_over, judge_entry, read_entry,
  store_refresh_token, revoke_refresh_token, is_refresh_token_active, revoke_all_sessions,
}
use wordotron_api.Auth.Session.Laws.{
  keys-revoke_all, keys-revoke_one, keys-store, key_kinds, unix_bound,
}

abbrev unexpired : Time → Option ℤ → Bool
unexpired now none = false
unexpired now (some expires_at) = not (is_over now expires_at)

-- Whether the text of an entry says that its token is active.
abbrev pub judged : Time → Option GoString → Bool
judged now none = false
judged now (some raw) = unexpired now (parse_int raw)

-- The text that the sessions of a user hold for a token.
abbrev pub token_text : Time → GoString → Option Value → Option GoString
token_text now jti none = none
token_text now jti (some (str v)) = none
token_text now jti (some (hash h)) = field jti h

first_text-eq :
    (now : Time) (key jti : GoString) (ks : Keyspace) {found : Option GoString}
    → first_text (eval_all now (hget key jti ∷ []) ks).0 ≡ ok found
    → found ≡ token_text now jti (present now (ks key))
unfolding eval_all
first_text-eq now key jti ks h = ground arith

field-without_field :
    (f : GoString) (h : List (GoString × GoString)) → field f (without_field f h) ≡ none
field-without_field f [] = refl
field-without_field f ((g, v) ∷ h) = ground (arith, field-without_field f h)

text_after_hdel :
    (now t : Time) (key jti : GoString) (e : Option Entry) (ks : Keyspace)
    → ks key ≡ e
    → token_text now jti (present now ((hdel_at key jti (deadline_of t e) (present t e) ks).1 key))
      ≡ none
text_after_hdel now t key jti none ks h = rw eqs_refl refl
text_after_hdel now t key jti (some e) ks h = value_after_hdel e.value refl
  where
    value_after_hdel :
        (v : Value)
        → e.value ≡ v
        → token_text now jti
            (present now ((hdel_at key jti (deadline_of t (some e)) (present t (some e)) ks).1 key))
          ≡ none
    value_after_hdel (str x) p = ground (arith, eqs_refl key)
    value_after_hdel (hash x) p = ground (arith, eqs_refl key, field-without_field jti x)

token_text_deleted :
    (now t : Time) (key jti : GoString) (ks : Keyspace)
    → token_text now jti (present now ((eval_all t (hdel key jti ∷ []) ks).1 key)) ≡ none
unfolding eval_all
token_text_deleted now t key jti ks = text_after_hdel now t key jti (ks key) ks refl

alive-deadline_of : (t : Time) (e : Option Entry) → alive t (deadline_of t e) ≡ true
alive-deadline_of t e = ground arith

text_after_hset :
    (now t ttl : Time) (key jti v : GoString) (d : Option Time) (found : Option Value)
    (ks : Keyspace)
    → now < t + whole second ttl
    → alive t d ≡ true
    → failed (hset_at key jti v d found ks).0 ≡ false
    → token_text now jti (
        present now (
          (expire_at key
              (t + whole second ttl)
              (present t ((hset_at key jti v d found ks).1 key))
              (hset_at key jti v d found ks).1).1
            key))
      ≡ some v
text_after_hset now t ttl key jti v d none ks kept live done =
    ground (arith, eqs_refl key, eqs_refl jti)
text_after_hset now t ttl key jti v d (some (str x)) ks kept live done = cc
text_after_hset now t ttl key jti v d (some (hash x)) ks kept live done =
    ground (arith, eqs_refl key, eqs_refl jti)

token_text_stored :
    (now t ttl : Time) (key jti v : GoString) (ks : Keyspace)
    → now < t + whole second ttl
    → all_done (eval_all t (hset key jti v ∷ expire key ttl ∷ []) ks).0 ≡ ok tt
    → token_text now jti
        (present now ((eval_all t (hset key jti v ∷ expire key ttl ∷ []) ks).1 key))
      ≡ some v
unfolding eval_all
token_text_stored now t ttl key jti v ks kept done =
    text_after_hset now t ttl key jti v (deadline_of t (ks key)) (present t (ks key)) ks kept
      (alive-deadline_of t (ks key)) (ground arith)

field-other :
    (f g v : GoString) (h : List (GoString × GoString))
    → eqs g f ≡ false
    → field f ((g, v) ∷ without_field g h) ≡ field f h
field-other f g v [] d = ground arith
field-other f g v ((k, x) ∷ h) d = ground (arith, field-other f g v h d, eqs_iff k g, eqs_iff k f)

-- Storing another token does not bring one back.
none_after_hset :
    (now t ttl : Time) (key f jti v : GoString) (d : Option Time) (found : Option Value)
    (ks : Keyspace)
    → eqs f jti ≡ false
    → token_text t jti found ≡ none
    → failed (hset_at key f v d found ks).0 ≡ false
    → token_text now jti (
        present now (
          (expire_at key
              (t + whole second ttl)
              (present t ((hset_at key f v d found ks).1 key))
              (hset_at key f v d found ks).1).1
            key))
      ≡ none
none_after_hset now t ttl key f jti v d none ks other gone done = ground (arith, eqs_refl key)
none_after_hset now t ttl key f jti v d (some (str x)) ks other gone done = cc
none_after_hset now t ttl key f jti v d (some (hash x)) ks other gone done =
    ground (arith, eqs_refl key, field-other jti f v x other)

none_after_store :
    (now t ttl : Time) (key f jti v : GoString) (ks : Keyspace)
    → eqs f jti ≡ false
    → token_text t jti (present t (ks key)) ≡ none
    → all_done (eval_all t (hset key f v ∷ expire key ttl ∷ []) ks).0 ≡ ok tt
    → token_text now jti (present now ((eval_all t (hset key f v ∷ expire key ttl ∷ []) ks).1 key))
      ≡ none
unfolding eval_all
none_after_store now t ttl key f jti v ks other gone done =
    none_after_hset now t ttl key f jti v (deadline_of t (ks key)) (present t (ks key)) ks other
      gone (ground arith)

module _ {S : Type 0} (redis : Redis S) (uuids : Uuids) (refresh_ttl : Time) where
  judge_entry-answer :
      (now : Time) (u : Uuid) (jti : GoString) (found : Option GoString) (s : S) {b : Bool}
      → (judge_entry redis uuids refresh_ttl now u jti found s).0 ≡ ok b
      → b ≡ judged now found
  judge_entry-answer now u jti found s h = ground arith

  -- The answer for a refresh token is read from the keys.
  active_of_keys :
      (now : Time) (u : Uuid) (jti : GoString) (s : S) {b : Bool}
      → (is_refresh_token_active redis uuids refresh_ttl now u jti s).0 ≡ ok b
      → b ≡ judged now (token_text now jti (present now (redis.keys s (sessions_key uuids u))))
  unfolding is_refresh_token_active
  active_of_keys now u jti s h =
      let (found, read, judge, _) =
        >>=-eq-ok (read_entry redis uuids refresh_ttl now u jti)
          (judge_entry redis uuids refresh_ttl now u jti) s h in
      let (rs, ran, texts, _) =
        checked_call-eq-ok (wrap "auth: read refresh token") (redis.run now _) first_text s read in
      judge_entry-answer now u jti found _ judge
      ∙ ap (judged now) (
          first_text-eq now (sessions_key uuids u) jti (redis.keys s)
            (rw (← redis.replies_of_run now _ s ran) texts))

  -- After all sessions of a user are revoked, a check that is answered finds none of their refresh
  -- tokens active, at any time.
  pub is_refresh_token_active-revoke_all :
      (t now : Time) (u : Uuid) (jti : GoString) (s : S) {b : Bool}
      → (revoke_all_sessions redis uuids refresh_ttl t u s).0 ≡ ok tt
      → (is_refresh_token_active redis uuids refresh_ttl now u jti
          (revoke_all_sessions redis uuids refresh_ttl t u s).1).0
        ≡ ok b
      → b ≡ false
  is_refresh_token_active-revoke_all t now u jti s revoked answered =
      active_of_keys now u jti _ answered
      ∙ rw (keys-revoke_all redis uuids refresh_ttl t u s revoked)
          (rw ((key_kinds uuids u u jti).1, eqs_refl) refl)

  -- After one refresh token is revoked, a check that is answered does not find it active, at any time.
  pub is_refresh_token_active-revoke_one :
      (t now : Time) (u : Uuid) (jti : GoString) (s : S) {b : Bool}
      → (revoke_refresh_token redis uuids refresh_ttl t u jti s).0 ≡ ok tt
      → (is_refresh_token_active redis uuids refresh_ttl now u jti
          (revoke_refresh_token redis uuids refresh_ttl t u jti s).1).0
        ≡ ok b
      → b ≡ false
  is_refresh_token_active-revoke_one t now u jti s revoked answered =
      active_of_keys now u jti _ answered
      ∙ rw (keys-revoke_one redis uuids refresh_ttl t u jti s revoked, token_text_deleted) refl

  -- A stored refresh token, with an expiry below 2 ^ 63 seconds, is found active by a check that is
  -- answered exactly until the second in which it expires, for as long as the sessions of the user
  -- are kept.
  pub is_refresh_token_active-store :
      (t now expires_at : Time) (u : Uuid) (jti : GoString) (s : S) {b : Bool}
      → expires_at < 2 ^ 63 * second
      → now < t + whole second (refresh_ttl + hour)
      → (store_refresh_token redis uuids refresh_ttl t u jti expires_at s).0 ≡ ok tt
      → (is_refresh_token_active redis uuids refresh_ttl now u jti
          (store_refresh_token redis uuids refresh_ttl t u jti expires_at s).1).0
        ≡ ok b
      → b ≡ ltb (unix now) (unix expires_at)
  is_refresh_token_active-store t now expires_at u jti s fits kept stored answered =
      let (after, done) = keys-store redis uuids refresh_ttl t u jti expires_at s stored in
      active_of_keys now u jti _ answered
      ∙ rw (after, token_text_stored now t _ _ jti _ _ kept done)
          (ground (arith, parse_int-format_int (unix expires_at) (unix_bound expires_at fits)))

  -- No entry of the user for the token, at any time.
  abbrev pub IsGone : Uuid → GoString → S → Type 0
  IsGone u jti s =
      (now : Time) → token_text now jti (present now (redis.keys s (sessions_key uuids u))) ≡ none

  pub IsGone-inactive :
      (now : Time) (u : Uuid) (jti : GoString) (s : S) {b : Bool}
      → IsGone u jti s
      → (is_refresh_token_active redis uuids refresh_ttl now u jti s).0 ≡ ok b
      → b ≡ false
  IsGone-inactive now u jti s gone answered =
      active_of_keys now u jti s answered ∙ rw (gone now) refl

  pub IsGone-revoke_one :
      (t : Time) (u : Uuid) (jti : GoString) (s : S)
      → (revoke_refresh_token redis uuids refresh_ttl t u jti s).0 ≡ ok tt
      → IsGone u jti (revoke_refresh_token redis uuids refresh_ttl t u jti s).1
  IsGone-revoke_one t u jti s revoked now =
      rw (keys-revoke_one redis uuids refresh_ttl t u jti s revoked)
        (token_text_deleted now t (sessions_key uuids u) jti (redis.keys s))

  pub IsGone-store :
      (t : Time) (u : Uuid) (jti other : GoString) (expires_at : Time) (s : S)
      → eqs other jti ≡ false
      → IsGone u jti s
      → (store_refresh_token redis uuids refresh_ttl t u other expires_at s).0 ≡ ok tt
      → IsGone u jti (store_refresh_token redis uuids refresh_ttl t u other expires_at s).1
  IsGone-store t u jti other expires_at s differs gone stored now =
      let (after, done) = keys-store redis uuids refresh_ttl t u other expires_at s stored in
      rw after (
        none_after_store now t _ (sessions_key uuids u) other jti _ (redis.keys s) differs (gone t)
          done)

  pub IsGone-revoke_all :
      (t : Time) (u : Uuid) (jti : GoString) (s : S)
      → (revoke_all_sessions redis uuids refresh_ttl t u s).0 ≡ ok tt
      → IsGone u jti (revoke_all_sessions redis uuids refresh_ttl t u s).1
  IsGone-revoke_all t u jti s revoked now =
      rw (keys-revoke_all redis uuids refresh_ttl t u s revoked)
        (rw ((key_kinds uuids u u jti).1, eqs_refl) refl)
