-- ===== src/Auth/Token/Logout.antt =====
-- The blacklist of the session store against the lifetime of an access token.
use wordotron_api.Prelude.{ℕ, ◌+◌, ◌-◌, ◌*◌, ◌≤◌, ◌<◌, ◌≡◌, refl, Bool, true, false, some, arith}
use mathlib.Core.Path.{subst}
use wordotron_api.Prelude.Int.{ℤ, pos, sub_ℕ, ltz}
use wordotron_api.Prelude.Exec.{ok, checked_call-eq-ok}
use wordotron_api.Text.{GoString, codes}
use wordotron_api.Text.Laws.{eqs_refl}
use wordotron_api.Errors.{wrap}
use wordotron_api.Models.{Uuid, Time, second}
use wordotron_api.Redis.{Redis, milli, whole, eval_all, write, entry, str}
use wordotron_api.Auth.Session.{
  Uuids, all_done, blacklist_key, blacklist_access_token, is_access_token_valid,
}
use wordotron_api.Auth.Session.Laws.{verdict_of_keys}
use wordotron_api.Auth.Session.Revocation.{verdict_blacklisted}
use wordotron_api.Auth.Token.{Claims, Jwt, JwtManager, parse_access_token}
use wordotron_api.Auth.Token.Laws.{parse_access_token-IsVouched, decode_once}

module _ {S : Type 0} (redis : Redis S) (uuids : Uuids) (refresh_ttl : Time) where
  keys-blacklist_pos :
      (t : Time) (jti : GoString) (n : ℕ) (s : S)
      → ltz (pos 0) (pos n) ≡ true
      → (blacklist_access_token redis uuids refresh_ttl t jti (pos n) s).0 ≡ ok tt
      → redis.keys (blacklist_access_token redis uuids refresh_ttl t jti (pos n) s).1
        ≡ write
            (blacklist_key jti)
            (entry (str (codes "1")) (some (t + whole milli n)))
            (redis.keys s)
  unfolding blacklist_access_token eval_all
  keys-blacklist_pos t jti n s h done =
      rw (h, blacklist_access_token)
        (let (rs, ran, _, after) =
            checked_call-eq-ok (wrap "auth: blacklist access token") (redis.run t _) all_done s
              (rw (h, blacklist_access_token) at done) in
          rw after (redis.keys_of_run t _ s ran))

  sub_ℕ-lt : (d t : ℕ) → t < d → sub_ℕ d t ≡ pos (d - t)
  sub_ℕ-lt d t h = ground arith

  keys-blacklist :
      (t : Time) (jti : GoString) (d : ℕ) (s : S)
      → t < d
      → (blacklist_access_token redis uuids refresh_ttl t jti (sub_ℕ d t) s).0 ≡ ok tt
      → redis.keys
          (blacklist_access_token redis uuids refresh_ttl t jti (sub_ℕ d t) s).1
          (blacklist_key jti)
        ≡ entry (str (codes "1")) (some (t + whole milli (d - t)))
  keys-blacklist t jti d s h done =
      let e = sub_ℕ-lt d t h in
      rw (e, keys-blacklist_pos t jti (d - t) s (ground arith) (rw e at done), eqs_refl) refl

-- The mark stays until the last millisecond before the deadline that was asked for.
whole-milli-lt : (t d now : Time) → t < d → now + milli ≤ d → now < t + whole milli (d - t)
whole-milli-lt t d now h k = ground arith

module _ {S : Type 0} (redis : Redis S) (jwt : Jwt) (uuids : Uuids) (m : JwtManager)
    (refresh_ttl : Time) where
  -- A token that was accepted at `t` is put on the blacklist for the rest of its life: until the last
  -- millisecond before it expires, an answer of the session store on what the parser accepts of it is
  -- that it is not valid.
  pub blacklist_outlives_token :
      (t now : Time) (raw : GoString) (c d : Claims) (e : ℕ) (u : Uuid) (issued_at : ℤ) (s : S)
      {b : Bool}
      → parse_access_token jwt uuids m t raw ≡ ok c
      → c.expires_at ≡ some e
      → (blacklist_access_token redis uuids refresh_ttl t c.id (sub_ℕ (e * second) t) s).0 ≡ ok tt
      → now + milli ≤ e * second
      → parse_access_token jwt uuids m now raw ≡ ok d
      → (is_access_token_valid redis uuids refresh_ttl now u d.id issued_at
          (blacklist_access_token redis uuids refresh_ttl t c.id (sub_ℕ (e * second) t) s).1).0
        ≡ ok b
      → b ≡ false
  blacklist_outlives_token t now raw c d e u issued_at s parsed expires done early again answered =
      let before = parse_access_token-IsVouched jwt uuids m t raw c parsed in
      let after = parse_access_token-IsVouched jwt uuids m now raw d again in
      let same = decode_once jwt raw before.decoded after.decoded in
      let (f, known_end, later) = before.expires in
      let ends = expires_once c expires known_end later in
      let marked = keys-blacklist redis uuids refresh_ttl t c.id (e * second) s ends done in
      let verdict = verdict_of_keys redis uuids refresh_ttl now u d.id issued_at _ answered in
      let known =
        verdict_blacklisted uuids now (t + whole milli (e * second - t)) u d.id (codes "1")
          issued_at
          (redis.keys
            (blacklist_access_token redis uuids refresh_ttl t c.id (sub_ℕ (e * second) t) s).1)
          (subst
            (λ (x : Claims).
              redis.keys
                (blacklist_access_token redis uuids refresh_ttl t c.id (sub_ℕ (e * second) t) s).1
                (blacklist_key x.id)
              ≡ entry (str (codes "1")) (some (t + whole milli (e * second - t))))
            same marked)
          (whole-milli-lt t (e * second) now ends early) verdict in
      known
    where
      expires_once :
          (x : Claims) {i j : ℕ}
          → x.expires_at ≡ some i
          → x.expires_at ≡ some j
          → t < j * second
          → t < i * second
      expires_once x p q h = ground arith
