-- ===== src/Config.antt =====
-- internal/config/config.go: the configuration from the environment. `os.Getenv` is a parameter
-- (the empty text for a variable that is not set), as are `time.ParseDuration` and `strconv.Atoi`.
pub mod Reading
pub mod Checks
mod Tests
use storemesh_user_service.Base.{ℕ, ◌*◌, Bool, true, false, not, ◌||◌, ◌++◌, ltb, if◌then◌else◌}
use storemesh_user_service.Base.Int.{ℤ, pos, leb_ℤ, ltb_ℤ}
use storemesh_user_service.Go.Text.{Text, text, ◌==◌, len, trim_space}
use storemesh_user_service.Go.Errors.{Error, other, wrap}
use storemesh_user_service.Go.Action.{Result, ok, err, map_result}
use storemesh_user_service.Go.Time.{Duration, seconds}

pub record Environment : Type 0 where
  pub getenv : Text → Text
  pub parse_duration : Text → Result Duration
  pub atoi : Text → Result ℤ

abbrev pub minute : ℕ
minute = 60_000_000_000

abbrev pub default_jwt_access_ttl : Duration
default_jwt_access_ttl = pos (30 * minute)

abbrev pub default_jwt_refresh_ttl : Duration
default_jwt_refresh_ttl = pos (7 * 24 * 60 * minute)

abbrev pub default_db_conn_lifetime : Duration
default_db_conn_lifetime = pos (5 * minute)

abbrev pub minimum_jwt_secret_length : ℕ
minimum_jwt_secret_length = 32

pub record Config : Type 0 where
  pub database_url : Text
  pub redis_url : Text
  pub grpc_port : Text
  pub http_port : Text
  pub environment : Text
  pub jwt_secret : Text
  pub jwt_issuer : Text
  pub jwt_audience : Text
  pub jwt_access_token_ttl : Duration
  pub jwt_refresh_token_ttl : Duration
  pub db_max_open_conns : ℤ
  pub db_max_idle_conns : ℤ
  pub db_conn_max_lifetime : Duration
  pub otlp_endpoint : Text
  pub service_name : Text
  pub service_version : Text

infixl 5 ◌>>=◌ ◌>>◌
abbrev pub ◌>>=◌ : {A B : Type 0} → Result A → (A → Result B) → Result B
ok a >>= f = f a
err e >>= f = err e

abbrev pub ◌>>◌ : {B : Type 0} → Result (Unit {0}) → Result B → Result B
m >> k = m >>= λ _. k

-- `if cond { return nil, fmt.Errorf(message) }`.
abbrev pub refuse_if : Bool → Text → Result (Unit {0})
refuse_if b m = if b then err (other m) else ok tt

module _ (env : Environment) where
  unfoldable pub required_string : Text → Result Text
  required_string name =
      if trim_space (env.getenv name) == text ""
      then err (other (name ++ text " is required"))
      else ok (trim_space (env.getenv name))

  unfoldable pub string_value : Text → Text → Text
  string_value name default_value =
      if trim_space (env.getenv name) == text ""
      then default_value
      else trim_space (env.getenv name)

  -- `fmt.Errorf("parse %s: %w", name, err)`.
  abbrev pub parse_error : Text → Error → Error
  parse_error name e = wrap (text "parse " ++ (name ++ text ": ")) e (text "")

  unfoldable pub duration_value : Text → Duration → Result Duration
  duration_value name default_value =
      if trim_space (env.getenv name) == text ""
      then ok default_value
      else map_result (parse_error name) (env.parse_duration (trim_space (env.getenv name)))

  unfoldable pub int_value : Text → ℤ → Result ℤ
  int_value name default_value =
      if trim_space (env.getenv name) == text ""
      then ok default_value
      else map_result (parse_error name) (env.atoi (trim_space (env.getenv name)))

  -- The parts of `Load`, in its order: the secret, the lifetimes of tokens, the pool of
  -- connections, the environment, the issuer and the audience.
  abbrev pub secret : Result Text
  secret = do
    jwt_secret ← required_string (text "JWT_SECRET")
    refuse_if (ltb (len jwt_secret) minimum_jwt_secret_length)
        (text "JWT_SECRET must contain at least 32 characters")
    ok jwt_secret

  abbrev pub token_ttls : Result (Duration × Duration)
  token_ttls = do
    access ← duration_value (text "JWT_ACCESS_TTL") default_jwt_access_ttl
    refresh ← duration_value (text "JWT_REFRESH_TTL") default_jwt_refresh_ttl
    refuse_if (leb_ℤ access (pos 0)) (text "JWT_ACCESS_TTL must be greater than zero")
    refuse_if (leb_ℤ refresh (pos 0)) (text "JWT_REFRESH_TTL must be greater than zero")
    refuse_if (leb_ℤ refresh access) (text "JWT_REFRESH_TTL must be greater than JWT_ACCESS_TTL")
    ok (access, refresh)

  abbrev pub pool : Result (ℤ × ℤ × Duration)
  pool = do
    max_open ← int_value (text "DB_MAX_OPEN_CONNS") (pos 25)
    max_idle ← int_value (text "DB_MAX_IDLE_CONNS") (pos 5)
    lifetime ← duration_value (text "DB_CONN_MAX_LIFETIME") default_db_conn_lifetime
    refuse_if (leb_ℤ max_open (pos 0)) (text "DB_MAX_OPEN_CONNS must be greater than zero")
    refuse_if (ltb_ℤ max_idle (pos 0)) (text "DB_MAX_IDLE_CONNS cannot be negative")
    refuse_if (ltb_ℤ max_open max_idle) (text "DB_MAX_IDLE_CONNS cannot exceed DB_MAX_OPEN_CONNS")
    refuse_if (leb_ℤ lifetime (pos 0)) (text "DB_CONN_MAX_LIFETIME must be greater than zero")
    ok (max_open, max_idle, lifetime)

  abbrev pub is_environment : Text → Bool
  is_environment t = t == text "development" || t == text "production" || t == text "test"

  abbrev pub checked_environment : Result Text
  checked_environment = do
    let environment = string_value (text "ENVIRONMENT") (text "development")
    refuse_if (not (is_environment environment))
        (text "ENVIRONMENT must be development, production, or test")
    ok environment

  abbrev pub issuer_audience : Result (Text × Text)
  issuer_audience = do
    let issuer = string_value (text "JWT_ISSUER") (text "storemesh-user-service")
    let audience = string_value (text "JWT_AUDIENCE") (text "storemesh-platform")
    refuse_if (trim_space issuer == text "") (text "JWT_ISSUER cannot be empty")
    refuse_if (trim_space audience == text "") (text "JWT_AUDIENCE cannot be empty")
    ok (issuer, audience)

  -- The composite literal at the end of `Load`.
  abbrev pub configuration :
      Text → Text → Duration → Duration → ℤ → ℤ → Duration → Text → Text → Text → Config
  configuration database_url jwt_secret access refresh max_open max_idle lifetime environment issuer
        audience =
      record {
        database_url = database_url;
        redis_url = string_value (text "REDIS_URL") (text "redis://localhost:6379");
        grpc_port = string_value (text "GRPC_PORT") (text "50051");
        http_port = string_value (text "HTTP_PORT") (text "8080");
        environment = environment;
        jwt_secret = jwt_secret;
        jwt_issuer = issuer;
        jwt_audience = audience;
        jwt_access_token_ttl = access;
        jwt_refresh_token_ttl = refresh;
        db_max_open_conns = max_open;
        db_max_idle_conns = max_idle;
        db_conn_max_lifetime = lifetime;
        otlp_endpoint = string_value (text "OTLP_ENDPOINT") (text "localhost:4317");
        service_name = string_value (text "SERVICE_NAME") (text "storemesh-user-service");
        service_version = string_value (text "SERVICE_VERSION") (text "1.0.0");
      }

  unfoldable pub load : Result Config
  load = do
    database_url ← required_string (text "DATABASE_URL")
    jwt_secret ← secret
    (access, refresh) ← token_ttls
    (max_open, max_idle, lifetime) ← pool
    environment ← checked_environment
    (issuer, audience) ← issuer_audience
    ok (
        configuration database_url jwt_secret access refresh max_open max_idle lifetime environment
          issuer audience)
