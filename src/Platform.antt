-- ===== src/Platform.antt =====
-- internal/platform/config.go: the configuration from the environment.
pub mod Values
use peikonpurekkusu_account.Prelude.{
  ℕ, none, some, [], ◌∷◌, List, Option, String, if◌then◌else◌, ◌<>◌, str_eq, ◌*◌, ◌||◌,
}
use peikonpurekkusu_account.Prelude.Int.{ℤ, pos}
use peikonpurekkusu_account.Prelude.Decimal.{parse_int64, codes}

-- Durations are numbers of nanoseconds.
pub record Config : Type 0 where
  pub db_host : String
  pub db_port : ℤ
  pub db_user : String
  pub db_password : String
  pub db_name : String
  pub redis_cache_host : String
  pub redis_cache_port : ℤ
  pub redis_cache_password : String
  pub kafka_bootstrap : String
  pub schema_registry_url : String
  pub jwks_url : String
  pub http_port : ℤ
  pub grpc_port : ℤ
  pub hold_default_ttl : ℤ
  pub sweep_interval : ℤ
  pub reconcile_every : ℤ
  pub balance_cache_ttl : ℤ
  pub welcome_seed_minor : ℤ

abbrev pub or_else {ℓ} : {A : Type ℓ} → A → Option A → A
or_else def none = def
or_else def (some v) = v

-- `os.Getenv`, which gives "" for a name that is not set, and `time.ParseDuration`.
module _ (env : String → String) (parse_duration : String → Option ℤ) where
  unfoldable pub getenv : String → String → String
  getenv key def = if str_eq (env key) "" then def else env key

  unfoldable pub getint64 : String → ℤ → ℤ
  unfolding parse_int64
  getint64 key def =
      if str_eq (env key) "" then def else or_else def (parse_int64 (codes (env key)))

  -- An `int` has 64 bits, and `Atoi` reads what `ParseInt` reads in base 10.
  unfoldable pub getint : String → ℤ → ℤ
  unfolding parse_int64
  getint key def = if str_eq (env key) "" then def else or_else def (parse_int64 (codes (env key)))

  unfoldable pub getdur : String → ℤ → ℤ
  getdur key def = if str_eq (env key) "" then def else or_else def (parse_duration (env key))

  abbrev pub seconds : ℕ → ℤ
  seconds n = pos (n * 1000000000)

  -- The configuration, and the text of the error.
  unfoldable pub load : Config × Option String
  unfolding getenv getint getint64 getdur
  load =
      let cfg : Config = record {
        db_host = getenv "ACCOUNT_DB_HOST" "account-db";
        db_port = getint "ACCOUNT_DB_PORT" (pos 5432);
        db_user = env "ACCOUNT_DB_USER";
        db_password = env "ACCOUNT_DB_PASSWORD";
        db_name = env "ACCOUNT_DB_NAME";
        redis_cache_host = getenv "REDIS_CACHE_HOST" "redis-cache";
        redis_cache_port = getint "REDIS_CACHE_PORT" (pos 6379);
        redis_cache_password = env "REDIS_CACHE_PASSWORD";
        kafka_bootstrap = getenv "KAFKA_BOOTSTRAP_SERVERS" "kafka:19092";
        schema_registry_url =
            getenv "SCHEMA_REGISTRY_URL" "http://apicurio-registry:8080/apis/ccompat/v7";
        jwks_url = getenv "GATEWAY_JWKS_URL" "http://user-service:8080/.well-known/jwks.json";
        http_port = getint "HTTP_PORT" (pos 8080);
        grpc_port = getint "GRPC_PORT" (pos 9090);
        hold_default_ttl = getdur "HOLD_DEFAULT_TTL" (seconds 604800);
        sweep_interval = getdur "HOLD_SWEEP_INTERVAL" (seconds 30);
        reconcile_every = getdur "RECONCILE_INTERVAL" (seconds 600);
        balance_cache_ttl = getdur "BALANCE_CACHE_TTL" (seconds 5);
        welcome_seed_minor = getint64 "WELCOME_SEED_MINOR_UNITS" (pos 100000);
      } in
      (
        cfg,
        if str_eq cfg.db_user "" || (str_eq cfg.db_password "" || str_eq cfg.db_name "")
            then some "ACCOUNT_DB_USER/PASSWORD/NAME are required"
            else none,
      )

-- `fmt.Sprintf` with `%d`.
unfoldable pub dsn : (ℤ → String) → Config → String
dsn print c =
    "postgres://"
    <> (c.db_user
        <> (":"
            <> (c.db_password
                <> ("@"
                    <> (c.db_host
                        <> (":"
                            <> (print c.db_port <> ("/" <> (c.db_name <> "?sslmode=disable")))))))))
