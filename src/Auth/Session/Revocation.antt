-- ===== src/Auth/Session/Revocation.antt =====
-- What "log out everywhere" does to the tokens that are out.
use wordotron_api.Prelude.{
  ℕ, ◌+◌, ◌-◌, ◌*◌, ◌^◌, ◌≤◌, ◌<◌, ◌≡◌, refl, Bool, false, none, some, [], ◌∷◌, arith, ltb, leb,
}
use wordotron_api.Prelude.Int.{ℤ, pos}
use wordotron_api.Prelude.Exec.{ok}
use wordotron_api.Text.{GoString}
use wordotron_api.Text.Laws.{eqs_refl}
use wordotron_api.Text.Decimal.{format_int}
use wordotron_api.Text.Decimal.RoundTrip.{parse_int-format_int}
use wordotron_api.Models.{Uuid, Time, second, hour, unix}
use wordotron_api.Redis.{Redis, Keyspace, milli, whole, eval_all, entry, str, get, exists}
use wordotron_api.Auth.Session.{
  Uuids, revoked_key, blacklist_key, access_verdict, revoke_all_sessions, is_access_token_valid,
}
use wordotron_api.Auth.Session.Laws.{
  revoked_keys, keys-revoke_all, verdict_of_keys, key_kinds, unix-sub-second,
}

-- The verdict at keys that hold an epoch and no mark on the blacklist.
verdict_with_epoch :
    (uuids : Uuids) (now d : Time) (u : Uuid) (jti : GoString) (e issued : ℕ) (ks : Keyspace)
    → ks (blacklist_key jti) ≡ none
    → ks (revoked_key uuids u) ≡ entry (str (format_int e)) (some d)
    → now < d
    → e < 2 ^ 63
    → access_verdict
        (pos issued)
        (eval_all now (exists (blacklist_key jti) ∷ get (revoked_key uuids u) ∷ []) ks).0
      ≡ ok (ltb e issued)
unfolding eval_all
verdict_with_epoch uuids now d u jti e issued ks clean epoch h k =
    rw (clean, epoch) (ground (arith, parse_int-format_int e k))

-- The verdict at keys that hold a mark on the blacklist.
pub verdict_blacklisted :
    (uuids : Uuids) (now d : Time) (u : Uuid) (jti v : GoString) (issued : ℤ) (ks : Keyspace)
    {b : Bool}
    → ks (blacklist_key jti) ≡ entry (str v) (some d)
    → now < d
    → access_verdict issued
        (eval_all now (exists (blacklist_key jti) ∷ get (revoked_key uuids u) ∷ []) ks).0
      ≡ ok b
    → b ≡ false
unfolding eval_all
verdict_blacklisted uuids now d u jti v issued ks marked h answered =
    let answered' = rw marked at answered in ground (arith, answered')

module _ {S : Type 0} (redis : Redis S) (uuids : Uuids) (refresh_ttl : Time) where
  -- An access token that is not on the blacklist and was issued in second `issued`: after all
  -- sessions are revoked at time `t`, of at least one second and less than 2 ^ 63, and for as long as
  -- the epoch is kept, a check that is answered refuses it exactly where `issued` is a second before
  -- that of `t`.
  pub is_access_token_valid-revoke_all :
      (t now : Time) (u : Uuid) (jti : GoString) (issued : ℕ) (s : S) {b : Bool}
      → second ≤ t
      → t < 2 ^ 63 * second
      → now < t + whole milli (refresh_ttl + hour)
      → redis.keys s (blacklist_key jti) ≡ none
      → (revoke_all_sessions redis uuids refresh_ttl t u s).0 ≡ ok tt
      → (is_access_token_valid redis uuids refresh_ttl now u jti
          (pos issued)
          (revoke_all_sessions redis uuids refresh_ttl t u s).1).0
        ≡ ok b
      → b ≡ leb (unix t) issued
  is_access_token_valid-revoke_all t now u jti issued s late fits kept clean revoked answered =
      let ks = revoked_keys redis uuids refresh_ttl t u (redis.keys s) in
      let verdict =
        rw (keys-revoke_all redis uuids refresh_ttl t u s revoked) at
          (verdict_of_keys redis uuids refresh_ttl now u jti (pos issued) _ answered) in
      let known =
        verdict_with_epoch uuids now (t + whole milli (refresh_ttl + hour)) u jti
          (unix (t - second)) issued ks
          (rw (key_kinds uuids u u jti).2 (rw (key_kinds uuids u u jti).3 clean)) (rw eqs_refl refl)
          kept (omega arith) in
      ground (arith, verdict, known, unix-sub-second t late)
