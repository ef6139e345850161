-- ===== src/Auth/Session.antt =====
-- app/lib/auth/session.go: `RedisSessionStore`. Each method takes the reading of the clock `now` that
-- it makes. A key of sessions is a hash from token identifier to expiry, a key of revocations the
-- second of the last revocation, a key of the blacklist a mark.
pub mod Laws
pub mod Revocation
pub mod Refresh
use wordotron_api.Prelude.{
  ℕ, ◌+◌, ◌-◌, ◌≡◌, Bool, true, false, Option, none, some, List, [], ◌∷◌, ◌++◌, ltb, if◌then◌else◌,
  not,
}
use wordotron_api.Prelude.Int.{ℤ, pos, ltz, pos_part}
use wordotron_api.Prelude.Exec.{Result, ok, err, Exec, ◌>>=◌, pure, lift, map_error, inspect}
use wordotron_api.Text.{GoString, codes}
use wordotron_api.Text.Decimal.{format_int, parse_int}
use wordotron_api.Errors.{GoError, plain, wrap}
use wordotron_api.Models.{Uuid, Time, second, hour, unix}
use wordotron_api.Redis.{
  Redis, Reply, int, bulk, null, wrong_type, hset, hget, hdel, hlen, del, get, exists, expire, set,
}

-- github.com/google/uuid, which the repository does not contain.
pub record Uuids : Type 0 where
  pub to_text : Uuid → GoString
  pub parse : GoString → Result GoError Uuid
  pub parse-to_text : (u : Uuid) → parse (to_text u) ≡ ok u

-- The reply to a command for one string.
abbrev pub text_of : Reply → Result GoError (Option GoString)
text_of null = ok none
text_of (bulk v) = ok (some v)
text_of _ = err (plain "WRONGTYPE")

abbrev pub first_text : List Reply → Result GoError (Option GoString)
first_text [] = err (plain "redis: no reply")
first_text (r ∷ rs) = text_of r

abbrev pub failed : Reply → Bool
failed wrong_type = true
failed _ = false

-- The error of a pipeline is that of its first command that fails.
abbrev pub all_done : List Reply → Result GoError (Unit {0})
all_done [] = ok tt
all_done (r ∷ rs) = if failed r then err (plain "WRONGTYPE") else all_done rs

-- `now.Unix() >= expiresAt`
abbrev pub is_over : Time → ℤ → Bool
is_over now expires_at = not (ltz (pos (unix now)) expires_at)

-- The tests of `IsAccessTokenValid` on the two replies of its pipeline, whose error comes first.
abbrev pub after_epoch : ℤ → Option ℤ → Bool
after_epoch issued_at none = true
after_epoch issued_at (some epoch) = ltz epoch issued_at

abbrev pub epoch_allows : ℤ → Reply → Result GoError Bool
epoch_allows issued_at null = ok true
epoch_allows issued_at (bulk raw) = ok (after_epoch issued_at (parse_int raw))
epoch_allows issued_at _ = err (plain "WRONGTYPE")

abbrev pub access_verdict : ℤ → List Reply → Result GoError Bool
access_verdict issued_at (int n ∷ r ∷ []) =
    if failed r
    then err (plain "WRONGTYPE")
    else if ltb 0 n
    then ok false
    else epoch_allows issued_at r
access_verdict issued_at _ = err (plain "redis: no reply")

abbrev pub count_of : List Reply → Result GoError ℕ
count_of (int n ∷ []) = ok n
count_of _ = err (plain "WRONGTYPE")

module _ (uuids : Uuids) where
  abbrev pub sessions_key : Uuid → GoString
  sessions_key u = codes "auth:sessions:" ++ uuids.to_text u

  abbrev pub revoked_key : Uuid → GoString
  revoked_key u = codes "auth:revoked:" ++ uuids.to_text u

abbrev pub blacklist_key : GoString → GoString
blacklist_key jti = codes "auth:blacklist:" ++ jti

module _ {S : Type 0} (redis : Redis S) (uuids : Uuids) (refresh_ttl : Time) where
  unfoldable pub store_refresh_token : Time → Uuid → GoString → Time → Exec GoError S (Unit {0})
  store_refresh_token now u jti expires_at = map_error (wrap "auth: store refresh token") do
    rs ← redis.run now (
        hset (sessions_key uuids u) jti (format_int (unix expires_at))
        ∷ expire (sessions_key uuids u) (refresh_ttl + hour)
        ∷ [])
    lift (all_done rs)

  unfoldable pub revoke_refresh_token : Time → Uuid → GoString → Exec GoError S (Unit {0})
  revoke_refresh_token now u jti =
      map_error (wrap "auth: revoke refresh token")
        do rs ← redis.run now (hdel (sessions_key uuids u) jti ∷ []); lift (all_done rs)

  -- `_ = s.RevokeRefreshToken(...); return false, nil`
  abbrev pub clean_up : Time → Uuid → GoString → Exec GoError S Bool
  clean_up now u jti = inspect (revoke_refresh_token now u jti) (λ _. pure false)

  abbrev pub judge_expiry : Time → Uuid → GoString → Option ℤ → Exec GoError S Bool
  judge_expiry now u jti none = clean_up now u jti
  judge_expiry now u jti (some expires_at) =
      if is_over now expires_at then clean_up now u jti else pure true

  abbrev pub judge_entry : Time → Uuid → GoString → Option GoString → Exec GoError S Bool
  judge_entry now u jti none = pure false
  judge_entry now u jti (some raw) = judge_expiry now u jti (parse_int raw)

  -- The HGET, with redis.Nil as `none`.
  abbrev pub read_entry : Time → Uuid → GoString → Exec GoError S (Option GoString)
  read_entry now u jti =
      map_error (wrap "auth: read refresh token")
        do rs ← redis.run now (hget (sessions_key uuids u) jti ∷ []); lift (first_text rs)

  unfoldable pub is_refresh_token_active : Time → Uuid → GoString → Exec GoError S Bool
  is_refresh_token_active now u jti = do found ← read_entry now u jti; judge_entry now u jti found

  -- The epoch is one second before the clock.
  unfoldable pub revoke_all_sessions : Time → Uuid → Exec GoError S (Unit {0})
  revoke_all_sessions now u = map_error (wrap "auth: revoke all sessions") do
    rs ← redis.run now (
        del (sessions_key uuids u)
        ∷ set (revoked_key uuids u) (format_int (unix (now - second))) (refresh_ttl + hour)
        ∷ [])
    lift (all_done rs)

  unfoldable pub blacklist_access_token : Time → GoString → ℤ → Exec GoError S (Unit {0})
  blacklist_access_token now jti ttl =
      if ltz (pos 0) ttl
      then (map_error (wrap "auth: blacklist access token") do
        rs ← redis.run now (set (blacklist_key jti) (codes "1") (pos_part ttl) ∷ [])
        lift (all_done rs))
      else pure tt

  -- `issued_at` is in seconds, as `issuedAt.Unix()` gives it.
  unfoldable pub is_access_token_valid : Time → Uuid → GoString → ℤ → Exec GoError S Bool
  is_access_token_valid now u jti issued_at = map_error (wrap "auth: validate access token") do
    rs ← redis.run now (exists (blacklist_key jti) ∷ get (revoked_key uuids u) ∷ [])
    lift (access_verdict issued_at rs)

  unfoldable pub active_session_count : Time → Uuid → Exec GoError S ℕ
  active_session_count now u =
      map_error (wrap "auth: count sessions")
        do rs ← redis.run now (hlen (sessions_key uuids u) ∷ []); lift (count_of rs)
