-- ===== src/Auth/Session/Laws.antt =====
-- What the methods of the session store do to the keys, and what they answer afterwards.
use wordotron_api.Prelude.{
  ◌+◌, ◌-◌, ◌*◌, ◌^◌, ◌≤◌, ◌<◌, ◌≡◌, refl, Bool, false, none, some, List, [], ◌∷◌, arith,
}
use wordotron_api.Prelude.Int.{ℤ}
use wordotron_api.Prelude.Exec.{ok, checked_call-eq-ok}
use wordotron_api.Text.{GoString, eqs}
use wordotron_api.Text.Decimal.{format_int}
use wordotron_api.Errors.{wrap}
use wordotron_api.Models.{Uuid, Time, second, hour, unix}
use wordotron_api.Redis.{
  Redis, Cmd, Keyspace, milli, whole, eval_all, write, entry, str, hset, hdel, get, exists, expire,
}
use wordotron_api.Auth.Session.{
  Uuids, sessions_key, revoked_key, blacklist_key, all_done, access_verdict, store_refresh_token,
  revoke_refresh_token, revoke_all_sessions, is_access_token_valid,
}

module _ {S : Type 0} (redis : Redis S) (uuids : Uuids) (refresh_ttl : Time) where
  -- The keys after a revocation of everything that succeeds.
  abbrev pub revoked_keys : Time → Uuid → Keyspace → Keyspace
  revoked_keys now u ks =
      write (revoked_key uuids u)
        (entry (str (format_int (unix (now - second))))
          (some (now + whole milli (refresh_ttl + hour))))
        (write (sessions_key uuids u) none ks)

  pub keys-revoke_all :
      (now : Time) (u : Uuid) (s : S)
      → (revoke_all_sessions redis uuids refresh_ttl now u s).0 ≡ ok tt
      → redis.keys (revoke_all_sessions redis uuids refresh_ttl now u s).1
        ≡ revoked_keys now u (redis.keys s)
  unfolding revoke_all_sessions eval_all
  keys-revoke_all now u s h =
      let (rs, ran, done, after) =
        checked_call-eq-ok (wrap "auth: revoke all sessions") (redis.run now _) all_done s h in
      rw after (redis.keys_of_run now _ s ran)

  -- The answer for an access token is read from the keys.
  pub verdict_of_keys :
      (now : Time) (u : Uuid) (jti : GoString) (issued_at : ℤ) (s : S) {b : Bool}
      → (is_access_token_valid redis uuids refresh_ttl now u jti issued_at s).0 ≡ ok b
      → access_verdict issued_at
          (eval_all now
            (exists (blacklist_key jti) ∷ get (revoked_key uuids u) ∷ [])
            (redis.keys s)).0
        ≡ ok b
  unfolding is_access_token_valid
  verdict_of_keys now u jti issued_at s h =
      let (rs, ran, done, after) =
        checked_call-eq-ok (wrap "auth: validate access token") (redis.run now _)
          (access_verdict issued_at) s h in
      rw (← redis.replies_of_run now _ s ran) done

  -- So is the answer for a refresh token, and so are the keys after it.
  pub keys-revoke_one :
      (now : Time) (u : Uuid) (jti : GoString) (s : S)
      → (revoke_refresh_token redis uuids refresh_ttl now u jti s).0 ≡ ok tt
      → redis.keys (revoke_refresh_token redis uuids refresh_ttl now u jti s).1
        ≡ (eval_all now (hdel (sessions_key uuids u) jti ∷ []) (redis.keys s)).1
  unfolding revoke_refresh_token
  keys-revoke_one now u jti s h =
      let (rs, ran, done, after) =
        checked_call-eq-ok (wrap "auth: revoke refresh token") (redis.run now _) all_done s h in
      rw after (redis.keys_of_run now _ s ran)

  -- The commands of a store.
  abbrev pub store_cmds : Uuid → GoString → Time → List Cmd
  store_cmds u jti expires_at =
      hset (sessions_key uuids u) jti (format_int (unix expires_at))
      ∷ expire (sessions_key uuids u) (refresh_ttl + hour)
      ∷ []

  pub keys-store :
      (now : Time) (u : Uuid) (jti : GoString) (expires_at : Time) (s : S)
      → (store_refresh_token redis uuids refresh_ttl now u jti expires_at s).0 ≡ ok tt
      → (redis.keys (store_refresh_token redis uuids refresh_ttl now u jti expires_at s).1
          ≡ (eval_all now (store_cmds u jti expires_at) (redis.keys s)).1)
        × (all_done (eval_all now (store_cmds u jti expires_at) (redis.keys s)).0 ≡ ok tt)
  unfolding store_refresh_token
  keys-store now u jti expires_at s h =
      let (rs, ran, done, after) =
        checked_call-eq-ok (wrap "auth: store refresh token") (redis.run now _) all_done s h in
      (
        rw after (redis.keys_of_run now _ s ran),
        rw (← redis.replies_of_run now (store_cmds u jti expires_at) s ran) done,
      )

pub unix_bound : (t : Time) → t < 2 ^ 63 * second → unix t < 2 ^ 63
unix_bound t h = omega arith

pub unix-sub-second : (t : Time) → second ≤ t → unix (t - second) ≡ unix t - 1
unix-sub-second t h = omega arith

pub key_kinds :
    (uuids : Uuids) (u v : Uuid) (jti : GoString)
    → (eqs (sessions_key uuids u) (revoked_key uuids v) ≡ false)
      × (eqs (revoked_key uuids v) (sessions_key uuids u) ≡ false)
      × (eqs (revoked_key uuids v) (blacklist_key jti) ≡ false)
      × (eqs (sessions_key uuids u) (blacklist_key jti) ≡ false)
unfolding eqs
key_kinds uuids u v jti = (refl, refl, refl, refl)
