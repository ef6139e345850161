-- ===== src/Middleware/RateLimit.antt =====
-- app/middleware/ratelimit.go: a counter of requests per identity and window, in Redis. A window is not
-- negative, and the request reads the clock once.
pub mod Laws
use wordotron_api.Prelude.{
  ℕ, suc, ◌+◌, ◌-◌, ◌*◌, ◌/◌, Bool, true, false, not, ◌||◌, Option, none, some, List, [], ◌∷◌, ◌++◌,
  ltb, if◌then◌else◌,
}
use wordotron_api.Prelude.Int.{ℤ, pos, negsuc, ◌-ℤ◌, ltz, lez, pos_part}
use wordotron_api.Prelude.Exec.{Result, ok, err, Exec, ◌>>=◌, ◌>>◌, lift}
use wordotron_api.Text.{GoString, codes, is_empty}
use wordotron_api.Text.Decimal.{format_int}
use wordotron_api.Errors.{GoError, fail, plain, too_many_requests_error}
use wordotron_api.Models.{Time, second, unix}
use wordotron_api.Redis.{Redis, Reply, int, negative, incr, expire_nx, ttl}
use wordotron_api.Auth.Session.{all_done}

-- `has_client` is false for a nil client.
pub record RateLimitConfig : Type 0 where
  pub has_client : Bool
  pub enabled : Bool
  pub max : ℤ
  pub window : Time
  pub key_prefix : GoString

-- The headers X-RateLimit-Limit, -Remaining and -Reset; a refusal has Retry-After as well, the same as
-- Reset.
pub record Headers : Type 0 where
  pub limit : ℤ
  pub remaining : ℤ
  pub reset : ℕ

-- The request goes on, with headers or without, or it is refused.
pub data Verdict : Type 0 where
  next : Option Headers → Verdict
  refused : Headers → GoError → Verdict

abbrev pub window_seconds : Time → ℕ
window_seconds window = if ltb (window / second) 1 then 1 else window / second

-- The identifier of the caller, or their address.
unfoldable pub rate_limit_identity : GoString → GoString → GoString
rate_limit_identity user_id ip =
    if is_empty user_id then codes "ip:" ++ ip else codes "user:" ++ user_id

abbrev pub prefix_of : RateLimitConfig → GoString
prefix_of cfg = if is_empty cfg.key_prefix then codes "ratelimit:default" else cfg.key_prefix

abbrev pub window_key : RateLimitConfig → Time → GoString → GoString
window_key cfg now identity =
    prefix_of cfg
    ++ codes ":"
    ++ identity
    ++ codes ":"
    ++ format_int (unix now / window_seconds cfg.window)

abbrev count_reply : Reply → ℤ
count_reply (int n) = pos n
count_reply (negative (suc n)) = negsuc n
count_reply _ = pos 0

-- `if remaining < 0 { remaining = window }`
abbrev ttl_reply : Time → Reply → Time
ttl_reply window (int n) = n * second
ttl_reply window _ = window

abbrev pub read_window : Time → List Reply → Result GoError (ℤ × Time)
read_window window (c ∷ e ∷ t ∷ rs) = ok (count_reply c, ttl_reply window t)
read_window window _ = err (plain "redis: no reply")

abbrev pub headers_of : RateLimitConfig → ℤ → Time → Headers
headers_of cfg count left = record {
  limit = cfg.max;
  remaining = if ltz (cfg.max -ℤ count) (pos 0) then pos 0 else cfg.max -ℤ count;
  reset = left / second;
}

abbrev pub judge : RateLimitConfig → Result GoError (ℤ × Time) → Verdict
judge cfg (err e) = next none
judge cfg (ok (count, left)) =
    if ltz cfg.max count
    then refused (headers_of cfg count left) (fail (too_many_requests_error ""))
    else next (some (headers_of cfg count left))

module _ {S : Type 0} (redis : Redis S) (cfg : RateLimitConfig) where
  unfoldable pub increment_window : Time → GoString → Exec GoError S (ℤ × Time)
  increment_window now key = do
    rs ← redis.run now (incr key ∷ expire_nx key cfg.window ∷ ttl key ∷ [])
    lift (all_done rs)
    lift (read_window cfg.window rs)

  abbrev pub is_off : Bool
  is_off = not cfg.enabled || not cfg.has_client || lez cfg.max (pos 0)

  -- An error of Redis lets the request through.
  unfoldable pub rate_limit : Time → GoString → S → Verdict × S
  unfolding increment_window too_many_requests_error format_int ◌-ℤ◌
  rate_limit now identity s = if is_off then (next none, s) else (
    judge cfg (increment_window now (window_key cfg now identity) s).0,
    (increment_window now (window_key cfg now identity) s).1,
  )
