-- ===== src/Config/Load.antt =====
-- `Load` of app/config/config.go, behind the reading of the .env file, and the getters that it uses.
use wordotron_api.Prelude.{
  ℕ, ◌*◌, ◌^◌, String, Bool, true, false, Option, List, [], ◌∷◌, ◌==◌, if◌then◌else◌, or_else,
}
use wordotron_api.Prelude.Int.{ℤ, pos, wrap}
use wordotron_api.Prelude.Exec.{Result, ok, err}
use wordotron_api.Text.{GoString, codes, is_empty, trim_space, trim_right, to_lower, before_byte}
use wordotron_api.Errors.{GoError, plain}
use wordotron_api.Models.{second, hour}
use wordotron_api.Config.{Config, problems}

-- os.Getenv, strconv.Atoi, strconv.ParseBool and time.ParseDuration; a text that does not parse is
-- `none`.
pub record Environment : Type 0 where
  pub getenv : GoString → GoString
  pub atoi : GoString → Option ℤ
  pub parse_bool : GoString → Option Bool
  pub parse_duration : GoString → Option ℤ

abbrev cons_first : ℕ → List GoString → List GoString
cons_first c [] = (c ∷ []) ∷ []
cons_first c (p ∷ parts) = (c ∷ p) ∷ parts

-- Split(s, sep), for a separator of one byte.
abbrev split_byte : ℕ → GoString → List GoString
split_byte b [] = [] ∷ []
split_byte b (c ∷ s) =
    let parts = split_byte b s in if c == b then [] ∷ parts else cons_first c parts

-- The parts that are not blank, trimmed.
abbrev keep_trimmed : List GoString → List GoString
keep_trimmed [] = []
keep_trimmed (p ∷ parts) =
    let rest = keep_trimmed parts in if is_empty (trim_space p) then rest else trim_space p ∷ rest

abbrev or_fallback : List GoString → List GoString → List GoString
or_fallback [] fallback = fallback
or_fallback (p ∷ parts) fallback = p ∷ parts

abbrev pub minutes : ℕ → ℤ
minutes n = pos (n * (60 * second))

-- `Load` behind `Validate`
abbrev pub accept : Config → List String → Result GoError Config
accept c [] = ok c
accept c (p ∷ ps) = err (plain "invalid configuration")

module _ (e : Environment) where
  abbrev pub raw : String → GoString
  raw key = trim_space (e.getenv (codes key))

  unfoldable pub get_string : String → GoString → GoString
  unfolding trim_space
  get_string key fallback = if is_empty (raw key) then fallback else raw key

  -- An inline comment is cut off: "8080 # http port".
  unfoldable pub get_int : String → ℤ → ℤ
  unfolding trim_space before_byte
  get_int key fallback =
      if is_empty (raw key)
      then fallback
      else or_else (e.atoi (trim_space (before_byte b'#' (raw key)))) fallback

  unfoldable pub get_bool : String → Bool → Bool
  unfolding trim_space
  get_bool key fallback =
      if is_empty (raw key) then fallback else or_else (e.parse_bool (raw key)) fallback

  unfoldable pub get_duration : String → ℤ → ℤ
  unfolding trim_space
  get_duration key fallback =
      if is_empty (raw key) then fallback else or_else (e.parse_duration (raw key)) fallback

  unfoldable pub get_string_slice : String → List GoString → List GoString
  unfolding trim_space
  get_string_slice key fallback =
      if is_empty (raw key)
      then fallback
      else or_fallback (keep_trimmed (split_byte b',' (raw key))) fallback

  -- The values, with their defaults.
  unfoldable pub resolve : Config
  unfolding get_string get_int get_bool get_duration get_string_slice trim_right to_lower
  resolve = record {
    app = record {
      env = get_string "APP_ENV" (codes "development");
      name = get_string "APP_NAME" (codes "backend-api");
      port = get_int "PORT" (pos 8080);
      frontend_url = trim_right b'/' (get_string "FRONTEND_URL" (codes "http://localhost:5173"));
      reset_password_path = get_string "RESET_PASSWORD_PATH" (codes "/reset-password");
      verify_email_path = get_string "VERIFY_EMAIL_PATH" (codes "/verify-email");
      shutdown_timeout = get_duration "SHUTDOWN_TIMEOUT" (pos (15 * second));
      body_limit_bytes = get_int "BODY_LIMIT_BYTES" (pos (4 * (1024 * 1024)));
      trusted_proxies = get_string_slice "TRUSTED_PROXIES" [];
      heartbeat_enabled = get_bool "ENABLE_HEARTBEAT" false;
      heartbeat_interval = get_duration "HEARTBEAT_INTERVAL" (minutes 12);
      backend_url = trim_right b'/' (get_string "BACKEND_URL" []);
    };
    log = record {
      level = get_string "LOG_LEVEL" (codes "info");
      format = get_string "LOG_FORMAT" (codes "json");
    };
    db = record {
      url = get_string "DATABASE_URL" [];
      max_conns = wrap (2 ^ 32) (get_int "DB_MAX_CONNS" (pos 20));
      min_conns = wrap (2 ^ 32) (get_int "DB_MIN_CONNS" (pos 2));
      max_conn_lifetime = get_duration "DB_MAX_CONN_LIFETIME" (pos hour);
      max_conn_idle_time = get_duration "DB_MAX_CONN_IDLE_TIME" (minutes 30);
    };
    redis_url = get_string "REDIS_URL" [];
    auth = record {
      jwt_secret = get_string "JWT_SECRET" [];
      jwt_expiry = get_duration "JWT_EXPIRY" (minutes 15);
      refresh_secret = get_string "REFRESH_SECRET" [];
      refresh_expiry = get_duration "REFRESH_EXPIRY" (pos (720 * hour));
      issuer = get_string "JWT_ISSUER" (codes "backend-api");
      bcrypt_cost = get_int "BCRYPT_COST" (pos 12);
      password_reset_expiry = get_duration "PASSWORD_RESET_EXPIRY" (pos hour);
      email_verification_expiry = get_duration "EMAIL_VERIFICATION_EXPIRY" (pos (24 * hour));
      refresh_cookie = get_bool "REFRESH_COOKIE_ENABLED" false;
      cookie_domain = get_string "COOKIE_DOMAIN" [];
      cookie_secure = get_bool "COOKIE_SECURE" true;
      cookie_same_site = get_string "COOKIE_SAMESITE" (codes "Strict");
    };
    google = record {
      client_id = get_string "GOOGLE_CLIENT_ID" [];
      client_secret = get_string "GOOGLE_CLIENT_SECRET" [];
      redirect_url = get_string "GOOGLE_REDIRECT_URL" [];
    };
    open_ai = record {
      api_key = get_string "OPENAI_API_KEY" [];
      model = get_string "OPENAI_MODEL" (codes "gpt-4o-mini");
      base_url = trim_right b'/' (get_string "OPENAI_BASE_URL" (codes "https://api.openai.com/v1"));
      timeout = get_duration "OPENAI_TIMEOUT" (pos (20 * second));
      log_dir = get_string "OPENAI_LOG_DIR" (codes "./.data/openai-logs");
    };
    cors = record {
      allowed_origins =
          get_string_slice "CORS_ALLOWED_ORIGINS" (codes "http://localhost:5173" ∷ []);
      allow_credentials = get_bool "CORS_ALLOW_CREDENTIALS" true;
    };
    limiter = record {
      enabled = get_bool "RATE_LIMIT_ENABLED" true;
      max = get_int "RATE_LIMIT_MAX" (pos 120);
      window = get_duration "RATE_LIMIT_WINDOW" (minutes 1);
      auth_max = get_int "AUTH_RATE_LIMIT_MAX" (pos 10);
      auth_window = get_duration "AUTH_RATE_LIMIT_WINDOW" (minutes 1);
    };
    storage = record {
      provider = to_lower (get_string "STORAGE_PROVIDER" (codes "local"));
      public_base_url =
          trim_right b'/'
            (get_string "STORAGE_PUBLIC_BASE_URL" (codes "http://localhost:8080/files"));
      local_path = get_string "STORAGE_LOCAL_PATH" (codes "./.data/uploads");
      max_upload_bytes = get_int "STORAGE_MAX_UPLOAD_BYTES" (pos (5 * (1024 * 1024)));
      s3_bucket = get_string "S3_BUCKET" [];
      s3_region = get_string "S3_REGION" (codes "us-east-1");
      s3_endpoint = get_string "S3_ENDPOINT" [];
      s3_access_key = get_string "S3_ACCESS_KEY_ID" [];
      s3_secret_key = get_string "S3_SECRET_ACCESS_KEY" [];
      s3_use_path_style = get_bool "S3_USE_PATH_STYLE" true;
    };
  }

  unfoldable pub load : Result GoError Config
  unfolding resolve problems
  load = accept resolve (problems resolve)
