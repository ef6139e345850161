-- ===== src/Middleware/RateLimit/Laws.antt =====
-- That no more than Max requests of one identity get through in one window.
use wordotron_api.Prelude.{
  ℕ, zero, suc, ◌+◌, ◌-◌, ◌*◌, ◌/◌, ◌%◌, ◌^◌, ◌≤◌, ◌<◌, ◌≡◌, refl, sym, ap, ◌∙◌, Bool, true, false,
  not, ◌||◌, none, some, List, [], ◌∷◌, ◌++◌, arith, All, length, ltb, if◌then◌else◌,
}
use native.Mathlib.Nat.{div-add-mod, mod-lt}
use wordotron_api.Prelude.Int.{pos, lez}
use wordotron_api.Prelude.Exec.{ok}
use wordotron_api.Text.{GoString, codes}
use wordotron_api.Text.Laws.{eqs_refl}
use wordotron_api.Text.Decimal.{format_int}
use wordotron_api.Text.Decimal.RoundTrip.{parse_int-format_int}
use wordotron_api.Models.{Time, second, unix}
use wordotron_api.Redis.{
  Redis, Keyspace, whole, Reply, Cmd, int, eval_all, incr, expire_nx, ttl, entry, str,
}
use wordotron_api.Middleware.RateLimit.{
  RateLimitConfig, Verdict, next, refused, window_seconds, prefix_of, increment_window, is_off,
  rate_limit,
}

-- The commands of one request.
abbrev bump : GoString → Time → List Cmd
bump key window = incr key ∷ expire_nx key window ∷ ttl key ∷ []

quotient_close : (a b k : ℕ) → 1 ≤ k → a / k ≡ b / k → b < a + k
quotient_close a b k h same =
    let split_a = div-add-mod a k in
    let split_b = div-add-mod b k in
    let rest_b : b % k < k = mod-lt b (omega arith) in
    omega (arith, rw same at split_a, split_b, rest_b)

-- What one request reads and leaves: the counter, raised by one.
abbrev Bumps : ℕ → Time → Time → GoString → List Cmd → Keyspace → Type 0
Bumps n now deadline key cs ks =
    (e : ℕ) × (left : ℕ) × ((eval_all now cs ks).0 ≡ int (n + 1) ∷ int e ∷ int left ∷ [])
    × ((eval_all now cs ks).1 key ≡ entry (str (format_int (n + 1))) (some deadline))

-- The first request of a window.
eval-first :
    (now : Time) (key : GoString) (window : Time) (ks : Keyspace)
    → ks key ≡ none
    → 0 < whole second window
    → Bumps 0 now (now + whole second window) key (bump key window) ks
unfolding eval_all
eval-first now key window ks h positive =
    let fresh : ltb now (now + whole second window) ≡ true = ground arith in
    (
      1,
      (now + whole second window - now + 500_000_000) / second,
      rw (h, eqs_refl, eqs_refl, fresh) refl,
      rw (h, eqs_refl, eqs_refl) refl,
    )

eval-later :
    (n : ℕ) (now : Time) (key : GoString) (window deadline : Time) (ks : Keyspace)
    → ks key ≡ entry (str (format_int n)) (some deadline)
    → now < deadline
    → n + 1 < 2 ^ 63
    → Bumps n now deadline key (bump key window) ks
unfolding eval_all
eval-later n now key window deadline ks h soon small =
    let fresh : ltb now deadline ≡ true = ground arith in
    let number = parse_int-format_int n (omega arith) in
    let fits : ltb (n + 1) (2 ^ 63) ≡ true = ground arith in
    (
      0,
      (deadline - now + 500_000_000) / second,
      rw (h, fresh, number, fits, eqs_refl, fresh, eqs_refl, fresh) refl,
      rw (h, fresh, number, fits, eqs_refl, fresh, eqs_refl) refl,
    )

module _ {S : Type 0} (redis : Redis S) (cfg : RateLimitConfig) (key : GoString) where
  -- The counter of the key stands at `n` until the deadline, or is not there and stands at none.
  abbrev Stands : ℕ → Time → S → Type 0
  Stands zero deadline s = redis.keys s key ≡ none
  Stands (suc n) deadline s = redis.keys s key ≡ entry (str (format_int (suc n))) (some deadline)

  increment_window-counts :
      (n : ℕ) (now deadline : Time) (s : S) {rs : List Reply}
      → Bumps n now deadline key (bump key cfg.window) (redis.keys s)
      → (redis.run now (bump key cfg.window) s).0 ≡ ok rs
      → (left : Time) × ((increment_window redis cfg now key s).0 ≡ ok (pos (n + 1), left))
        × (redis.keys (increment_window redis cfg now key s).1 key
            ≡ entry (str (format_int (n + 1))) (some deadline))
  unfolding increment_window
  increment_window-counts n now deadline s (e, left, replies, after) ran =
      let all = redis.replies_of_run now (bump key cfg.window) s ran in
      let keys = redis.keys_of_run now (bump key cfg.window) s ran in
      (
        left * second,
        rw (ran, all, replies) refl,
        rw (ran, all, replies) (ap (λ ks. ks key) keys ∙ after),
      )

All-map : {P Q : Time → Type 0} → ((t : Time) → P t → Q t) → (ts : List Time) → All P ts → All Q ts
All-map f [] h = tt
All-map f (t ∷ ts) (first, rest) = (f t first, All-map f ts rest)

-- How many of the requests at the given times get through.
abbrev passes : Verdict → ℕ
passes (next h) = 1
passes (refused h e) = 0

module _ {S : Type 0} (redis : Redis S) (cfg : RateLimitConfig) (identity : GoString) where
  abbrev pub let_through : List Time → S → ℕ
  let_through [] s = 0
  let_through (t ∷ ts) s =
      passes (rate_limit redis cfg t identity s).0
      + let_through ts (rate_limit redis cfg t identity s).1

  abbrev key_of : ℕ → GoString
  key_of w = prefix_of cfg ++ codes ":" ++ identity ++ codes ":" ++ format_int w

  module _ (m w : ℕ) (on : is_off redis cfg ≡ false) (limit : cfg.max ≡ pos m)
      (answers : (now : Time) (cs : List Cmd) (s : S)
        → (rs : List Reply) × ((redis.run now cs s).0 ≡ ok rs)) where
    -- One request of the window, at a counter that is raised.
    counted :
        (n : ℕ) (t deadline : Time) (s : S)
        → unix t / window_seconds cfg.window ≡ w
        → Bumps n t deadline (key_of w) (bump (key_of w) cfg.window) (redis.keys s)
        → (passes (rate_limit redis cfg t identity s).0 ≡ (if ltb m (n + 1) then 0 else 1))
          × (redis.keys (rate_limit redis cfg t identity s).1 (key_of w)
              ≡ entry (str (format_int (n + 1))) (some deadline))
    unfolding rate_limit
    counted n t deadline s here bumps =
        let (rs, ran) = answers t (bump (key_of w) cfg.window) s in
        let (left, read, after) =
          increment_window-counts redis cfg (key_of w) n t deadline s bumps ran in
        (rw (on, here, read, limit) (ground arith), rw (on, here) after)

    -- The times of the window, from its first request on.
    abbrev IsIn : Time → List Time → Type 0
    IsIn deadline ts = All (λ t. (unix t / window_seconds cfg.window ≡ w) × (t < deadline)) ts

    let_through_later :
        (ts : List Time) (n : ℕ) (deadline : Time) (s : S)
        → redis.keys s (key_of w) ≡ entry (str (format_int (n + 1))) (some deadline)
        → IsIn deadline ts
        → n + 1 + length ts < 2 ^ 63
        → let_through ts s ≤ m - (n + 1)
    let_through_later [] n deadline s stands h small = omega arith
    let_through_later (t ∷ ts) n deadline s stands ((here, soon), rest) small =
        let (passed, after) = counted (n + 1) t deadline s here (
          eval-later (n + 1) t (key_of w) cfg.window deadline (redis.keys s) stands soon
            (omega arith)) in
        let later =
          let_through_later ts (n + 1) deadline (rate_limit redis cfg t identity s).1 after rest
            (omega arith) in
        ground arith

    same_window :
        (t u : Time)
        → second ≤ cfg.window
        → unix t / window_seconds cfg.window ≡ w
        → unix u / window_seconds cfg.window ≡ w
        → u < t + whole second cfg.window
    same_window t u long p q =
        let seconds : window_seconds cfg.window ≡ cfg.window / second = ground arith in
        let sent : whole second cfg.window ≡ cfg.window / second * second = ground arith in
        let close : unix u < unix t + cfg.window / second =
          quotient_close (unix t) (unix u) (cfg.window / second) (omega arith)
            (rw seconds at (p ∙ sym q)) in
        rw sent (omega (arith, close))

    -- Of the requests of one identity whose times lie in one window, at most Max get through: where
    -- the limiter is on, the window is of at least a second, Redis answers, the counter of the window
    -- is not there before the first of them, and they are fewer than 2 ^ 63.
    pub let_through_bound :
        (ts : List Time) (s : S)
        → second ≤ cfg.window
        → redis.keys s (key_of w) ≡ none
        → All (λ t. unix t / window_seconds cfg.window ≡ w) ts
        → length ts < 2 ^ 63
        → let_through ts s ≤ m
    let_through_bound [] s long none_yet h small = omega arith
    let_through_bound (t ∷ ts) s long none_yet (here, rest) small =
        let positive_window : 0 < whole second cfg.window = ground arith in
        let (passed, after) =
          counted 0 t (t + whole second cfg.window) s here
            (eval-first t (key_of w) cfg.window (redis.keys s) none_yet positive_window) in
        let later =
          let_through_later ts 0 (t + whole second cfg.window) (rate_limit redis cfg t identity s).1
            after (All-map (λ u q. (q, same_window t u long here q)) ts rest) (omega arith) in
        let positive : 1 ≤ m = is_on (not cfg.enabled || not cfg.has_client) (rw limit at on) in
        ground arith
      where
        is_on : (b : Bool) → b || lez (pos m) (pos 0) ≡ false → 1 ≤ m
        is_on b e = ground arith
