-- ===== src/Config.antt =====
-- app/config/config.go: the configuration, its loading from the environment and its validation. An int
-- and a duration, in nanoseconds, may be negative. What an environment holds, and how strconv and time
-- read a text, are parameters. `TrustHeader`, which nothing sets or reads, is left out.
pub mod Load
pub mod Laws
use wordotron_api.Prelude.{
  ℕ, String, Bool, true, false, not, ◌&&◌, ◌||◌, List, [], ◌∷◌, ◌++◌, length, ltb, any,
  if◌then◌else◌,
}
use wordotron_api.Prelude.Int.{ℤ, pos, ltz, lez}
use wordotron_api.Text.{GoString, codes, eqs, is_empty, contains, to_lower}
use wordotron_api.Models.{hour}

pub record App : Type 0 where
  pub env : GoString
  pub name : GoString
  pub port : ℤ
  pub frontend_url : GoString
  pub reset_password_path : GoString
  pub verify_email_path : GoString
  pub shutdown_timeout : ℤ
  pub body_limit_bytes : ℤ
  pub trusted_proxies : List GoString
  pub heartbeat_enabled : Bool
  pub heartbeat_interval : ℤ
  pub backend_url : GoString

pub record Log : Type 0 where
  pub level : GoString
  pub format : GoString

pub record Database : Type 0 where
  pub url : GoString
  pub max_conns : ℤ
  pub min_conns : ℤ
  pub max_conn_lifetime : ℤ
  pub max_conn_idle_time : ℤ

pub record Auth : Type 0 where
  pub jwt_secret : GoString
  pub jwt_expiry : ℤ
  pub refresh_secret : GoString
  pub refresh_expiry : ℤ
  pub issuer : GoString
  pub bcrypt_cost : ℤ
  pub password_reset_expiry : ℤ
  pub email_verification_expiry : ℤ
  pub refresh_cookie : Bool
  pub cookie_domain : GoString
  pub cookie_secure : Bool
  pub cookie_same_site : GoString

pub record Google : Type 0 where
  pub client_id : GoString
  pub client_secret : GoString
  pub redirect_url : GoString

-- `Google.Enabled`
unfoldable pub google_enabled : Google → Bool
google_enabled g =
    not (is_empty g.client_id) && not (is_empty g.client_secret) && not (is_empty g.redirect_url)

pub record OpenAi : Type 0 where
  pub api_key : GoString
  pub model : GoString
  pub base_url : GoString
  pub timeout : ℤ
  pub log_dir : GoString

-- `OpenAI.Enabled`
unfoldable pub open_ai_enabled : OpenAi → Bool
open_ai_enabled o = not (is_empty o.api_key)

pub record Cors : Type 0 where
  pub allowed_origins : List GoString
  pub allow_credentials : Bool

pub record RateLimit : Type 0 where
  pub enabled : Bool
  pub max : ℤ
  pub window : ℤ
  pub auth_max : ℤ
  pub auth_window : ℤ

pub record Storage : Type 0 where
  pub provider : GoString
  pub public_base_url : GoString
  pub local_path : GoString
  pub max_upload_bytes : ℤ
  pub s3_bucket : GoString
  pub s3_region : GoString
  pub s3_endpoint : GoString
  pub s3_access_key : GoString
  pub s3_secret_key : GoString
  pub s3_use_path_style : Bool

pub record Config : Type 0 where
  pub app : App
  pub log : Log
  pub db : Database
  pub redis_url : GoString
  pub auth : Auth
  pub google : Google
  pub open_ai : OpenAi
  pub cors : Cors
  pub limiter : RateLimit
  pub storage : Storage

abbrev pub env_production : GoString
env_production = codes "production"

unfoldable pub is_production : App → Bool
unfolding eqs
is_production a = eqs a.env env_production

-- `if wrong { problems = append(problems, text) }`, in turn.
unfoldable pub checks : List (Bool × String) → List String
checks [] = []
checks ((wrong, text) ∷ cs) = let rest = checks cs in if wrong then text ∷ rest else rest

unfoldable pub env_valid : GoString → Bool
unfolding eqs
env_valid e = eqs e (codes "development") || (eqs e (codes "testing") || eqs e env_production)

-- The switch on the provider.
unfoldable pub storage_problems : Storage → List String
unfolding eqs checks
storage_problems s =
    if eqs s.provider (codes "local")
    then checks
        ((is_empty s.local_path, "STORAGE_LOCAL_PATH is required for the local provider") ∷ [])
    else if eqs s.provider (codes "s3")
    then checks (
        (is_empty s.s3_bucket, "S3_BUCKET is required for the s3 provider")
        ∷ (is_empty s.s3_region, "S3_REGION is required for the s3 provider")
        ∷ [])
    else "STORAGE_PROVIDER must be local or s3" ∷ []

abbrev pub origin_checks : List GoString → List (Bool × String)
origin_checks [] = []
origin_checks (o ∷ origins) =
    (eqs o (codes "*"), "CORS_ALLOWED_ORIGINS must not contain '*' in production")
    ∷ origin_checks origins

abbrev pub is_example : GoString → Bool
is_example secret = contains (to_lower secret) (codes "change-me")

-- The checks of a production environment.
unfoldable pub production_problems : Config → List String
unfolding is_production eqs contains to_lower checks
production_problems c =
    if is_production c.app
    then checks (
        (
          c.auth.refresh_cookie && not c.auth.cookie_secure,
          "COOKIE_SECURE must be true in production when refresh cookies are enabled",
        )
        ∷ (
          is_example c.auth.jwt_secret || is_example c.auth.refresh_secret,
          "default example secrets must be replaced in production",
        )
        ∷ [])
    else []

-- The loop over the origins, in a production environment.
unfoldable pub cors_problems : Config → List String
unfolding is_production eqs checks
cors_problems c = if is_production c.app then checks (origin_checks c.cors.allowed_origins) else []

-- The checks on the secrets, the lifetimes and the cost.
abbrev pub auth_checks : Auth → List (Bool × String)
auth_checks a =
    (ltb (length a.jwt_secret) 32, "JWT_SECRET must be at least 32 characters")
    ∷ (ltb (length a.refresh_secret) 32, "REFRESH_SECRET must be at least 32 characters")
    ∷ (eqs a.jwt_secret a.refresh_secret, "JWT_SECRET and REFRESH_SECRET must differ")
    ∷ (lez a.jwt_expiry (pos 0) || ltz (pos hour) a.jwt_expiry, "JWT_EXPIRY must be > 0 and <= 1h")
    ∷ (lez a.refresh_expiry a.jwt_expiry, "REFRESH_EXPIRY must be greater than JWT_EXPIRY")
    ∷ (
      ltz a.bcrypt_cost (pos 10) || ltz (pos 31) a.bcrypt_cost,
      "BCRYPT_COST must be between 10 and 31",
    )
    ∷ []

-- The checks on the application and its servers.
abbrev pub app_checks : Config → List (Bool × String)
app_checks c =
    (not (env_valid c.app.env), "APP_ENV must be one of development|staging|production")
    ∷ (is_empty c.app.frontend_url, "FRONTEND_URL is required")
    ∷ (ltz c.app.port (pos 1) || ltz (pos 65535) c.app.port, "PORT must be between 1 and 65535")
    ∷ (is_empty c.db.url, "DATABASE_URL is required")
    ∷ (is_empty c.redis_url, "REDIS_URL is required")
    ∷ []

-- `Validate`: the configuration is accepted where there are no problems. Texts that quote a value are
-- given without it.
unfoldable pub problems : Config → List String
unfolding env_valid eqs checks storage_problems cors_problems production_problems
problems c =
    checks (app_checks c)
    ++ (checks (auth_checks c.auth)
        ++ (storage_problems c.storage ++ (cors_problems c ++ production_problems c)))
