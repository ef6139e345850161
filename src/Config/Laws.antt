-- ===== src/Config/Laws.antt =====
-- What a configuration that is accepted guarantees.
use wordotron_api.Prelude.{
  ℕ, ◌≤◌, ◌≡◌, ◌≢◌, refl, String, Bool, true, false, not, ◌&&◌, ◌||◌, List, [], ◌∷◌, ◌++◌, ◌⊎◌, inl,
  inr, arith, length, Bool-cases,
}
use wordotron_api.Prelude.Int.{ℤ, pos, negsuc, ltz, lez}
use wordotron_api.Text.{GoString, codes, eqs, is_empty}
use wordotron_api.Text.Laws.{eqs_iff}
use wordotron_api.Models.{hour}
use wordotron_api.Prelude.{All}
use mathlib.Core.Path.{subst}
use wordotron_api.Prelude.Exec.{ok}
use wordotron_api.Config.{
  Config, Auth, Storage, checks, problems, auth_checks, app_checks, storage_problems, cors_problems,
  origin_checks, production_problems, env_valid, is_production, is_example,
}
use wordotron_api.Config.Load.{Environment, resolve, accept, load}

-- The number lies between two bounds.
abbrev pub IsWithin : ℕ → ℕ → ℤ → Type 0
IsWithin low high z = (n : ℕ) × (z ≡ pos n) × (low ≤ n) × (n ≤ high)

-- Checks that report nothing found nothing wrong.
checks-eq-nil : (cs : List (Bool × String)) → checks cs ≡ [] → All (λ c. c.0 ≡ false) cs
unfolding checks
checks-eq-nil [] h = tt
checks-eq-nil ((true, t) ∷ cs) h = absurd (cc)
checks-eq-nil ((false, t) ∷ cs) h = (refl, checks-eq-nil cs h)

++-eq-nil : {xs ys : List String} → xs ++ ys ≡ [] → (xs ≡ []) × (ys ≡ [])
++-eq-nil {xs = []} h = (refl, h)
++-eq-nil {xs = x ∷ xs} h = absurd (cc)

within : (low high : ℕ) (z : ℤ) → ltz z (pos low) || ltz (pos high) z ≡ false → IsWithin low high z
within low high (pos n) h = (n, refl, ground arith, ground arith)
within low high (negsuc n) h = absurd (ground arith)

nonempty : (s : GoString) → is_empty s ≡ false → s ≢ []
nonempty [] h = λ _. absurd (cc)
nonempty (c ∷ s) h = λ e. absurd (cc)

-- The settings of tokens and passwords that can be relied on.
abbrev pub IsSafeAuth : Auth → Type 0
IsSafeAuth a =
    (32 ≤ length a.jwt_secret)
    × (32 ≤ length a.refresh_secret)
    × (a.jwt_secret ≢ a.refresh_secret)
    × IsWithin 1 hour a.jwt_expiry
    × (ltz a.jwt_expiry a.refresh_expiry ≡ true)
    × IsWithin 10 31 a.bcrypt_cost

differ : (s t : GoString) → eqs s t ≡ false → s ≢ t
differ s t h = λ p. absurd (cc ((eqs_iff s t).1 p))

positive : (high : ℕ) (z : ℤ) → lez z (pos 0) || ltz (pos high) z ≡ false → IsWithin 1 high z
positive high (pos n) h = (n, refl, ground arith, ground arith)
positive high (negsuc n) h = absurd (ground arith)

auth_checks-pass : (a : Auth) → All (λ c. c.0 ≡ false) (auth_checks a) → IsSafeAuth a
auth_checks-pass a (jwt, (refresh, (same, (expiry, (longer, (cost, _)))))) = (
  ground arith,
  ground arith,
  differ a.jwt_secret a.refresh_secret same,
  positive hour a.jwt_expiry expiry,
  ground arith,
  within 10 31 a.bcrypt_cost cost,
)

-- The provider is one of two, and has what it needs.
abbrev pub HasStorage : Storage → Type 0
HasStorage s =
    ((s.provider ≡ codes "local") × (s.local_path ≢ []))
    ⊎ ((s.provider ≡ codes "s3") × (s.s3_bucket ≢ []) × (s.s3_region ≢ []))

storage_problems-eq-nil : (s : Storage) → storage_problems s ≡ [] → HasStorage s
unfolding storage_problems
storage_problems-eq-nil s h = elim (Bool-cases (eqs s.provider (codes "local"))) [
  | inl p ↦
      let (path, _) = checks-eq-nil ((is_empty s.local_path, _) ∷ []) (rw p at h) in
      inl ((eqs_iff s.provider (codes "local")).0 p, nonempty s.local_path path)
  | inr p ↦ elim (Bool-cases (eqs s.provider (codes "s3"))) [
    | inr q ↦ absurd (cc (rw (p, q) at h))
    | inl q ↦
        let (bucket, (region, _)) =
          checks-eq-nil ((is_empty s.s3_bucket, _) ∷ (is_empty s.s3_region, _) ∷ [])
            (rw (p, q) at h) in
        inr (
          (eqs_iff s.provider (codes "s3")).0 q,
          nonempty s.s3_bucket bucket,
          nonempty s.s3_region region,
        )
  ]
]

-- What else a production environment guarantees.
abbrev pub IsHardened : Config → Type 0
IsHardened c =
    All (λ o. o ≢ codes "*") c.cors.allowed_origins
    × (c.auth.refresh_cookie ≡ true → c.auth.cookie_secure ≡ true)
    × (is_example c.auth.jwt_secret ≡ false)
    × (is_example c.auth.refresh_secret ≡ false)

origin_checks-pass :
    (origins : List GoString)
    → All (λ c. c.0 ≡ false) (origin_checks origins)
    → All (λ o. o ≢ codes "*") origins
origin_checks-pass [] h = tt
origin_checks-pass (o ∷ origins) (first, rest) =
    (differ o (codes "*") first, origin_checks-pass origins rest)

production-pass :
    (c : Config)
    → is_production c.app ≡ true
    → cors_problems c ≡ []
    → production_problems c ≡ []
    → IsHardened c
unfolding cors_problems production_problems
production-pass c p origins others =
    let (cookie, (examples, _)) =
      checks-eq-nil
        ((c.auth.refresh_cookie && not c.auth.cookie_secure, _)
          ∷ (is_example c.auth.jwt_secret || is_example c.auth.refresh_secret, _)
          ∷ [])
        (rw p at others) in
    (
      origin_checks-pass c.cors.allowed_origins
          (checks-eq-nil (origin_checks c.cors.allowed_origins) (rw p at origins)),
      ground arith,
      ground arith,
      ground arith,
    )

-- A configuration that the program can be started with.
abbrev pub IsFit : Config → Type 0
IsFit c =
    (env_valid c.app.env ≡ true)
    × (c.app.frontend_url ≢ [])
    × IsWithin 1 65535 c.app.port
    × (c.db.url ≢ [])
    × (c.redis_url ≢ [])
    × IsSafeAuth c.auth
    × HasStorage c.storage
    × (is_production c.app ≡ true → IsHardened c)

accept-eq-ok :
    (c : Config) (ps : List String) {d : Config} → accept c ps ≡ ok d → (ps ≡ []) × (c ≡ d)
accept-eq-ok c [] h = (refl, cc)
accept-eq-ok c (p ∷ ps) h = absurd (cc)

problems-eq-nil : (c : Config) → problems c ≡ [] → IsFit c
unfolding problems
problems-eq-nil c h =
    let (app, rest) = ++-eq-nil h in
    let (auth, rest') = ++-eq-nil rest in
    let (storage, rest'') = ++-eq-nil rest' in
    let (cors, others) = ++-eq-nil rest'' in
    let (env, (frontend, (port, (db, (redis, _))))) = checks-eq-nil (app_checks c) app in
    (
      ground arith,
      nonempty c.app.frontend_url frontend,
      within 1 65535 c.app.port port,
      nonempty c.db.url db,
      nonempty c.redis_url redis,
      auth_checks-pass c.auth (checks-eq-nil (auth_checks c.auth) auth),
      storage_problems-eq-nil c.storage storage,
      λ p. production-pass c p cors others,
    )

-- Whatever the environment holds, a configuration that is loaded without an error has two different
-- secrets of at least 32 bytes, an access token that lives at most an hour and less than a refresh
-- token, a cost that bcrypt takes, a port, the addresses of both servers and a complete storage; in
-- production it allows no wildcard origin, no insecure refresh cookie and no secret of the examples.
pub load-IsFit : (e : Environment) {c : Config} → load e ≡ ok c → IsFit c
unfolding load
load-IsFit e h =
    let (clean, same) = accept-eq-ok (resolve e) (problems (resolve e)) h in
    subst IsFit same (problems-eq-nil (resolve e) clean)
