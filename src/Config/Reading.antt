-- ===== src/Config/Reading.antt =====
-- The configuration that an environment gives, and the limits on it.
use storemesh_user_service.Base.{◌≡◌, ◌≢◌, ◌≤◌, ◌⊎◌, inl, inr, ◌↔◌, arith}
use storemesh_user_service.Base.Int.{ℤ, pos, ◌≤ℤ◌, ◌<ℤ◌}
use storemesh_user_service.Go.Text.{Text, text, len, trim_space}
use storemesh_user_service.Go.Text.Laws.{eq_iff}
use storemesh_user_service.Go.Action.{Result, ok}
use storemesh_user_service.Go.Action.Laws.{Result-cases}
use storemesh_user_service.Go.Time.{Duration}
use storemesh_user_service.Config.{
  Environment, Config, string_value, duration_value, int_value, default_jwt_access_ttl,
  default_jwt_refresh_ttl, default_db_conn_lifetime,
}

-- The limits on a configuration.
pub record IsValid (c : Config) : Type 0 where
  pub database_given : c.database_url ≢ text ""
  pub secret_long : 32 ≤ len c.jwt_secret
  pub access_positive : pos 0 <ℤ c.jwt_access_token_ttl
  pub refresh_longer : c.jwt_access_token_ttl <ℤ c.jwt_refresh_token_ttl
  pub open_positive : pos 0 <ℤ c.db_max_open_conns
  pub idle_not_negative : pos 0 ≤ℤ c.db_max_idle_conns
  pub idle_within : c.db_max_idle_conns ≤ℤ c.db_max_open_conns
  pub lifetime_positive : pos 0 <ℤ c.db_conn_max_lifetime
  pub environment_known :
      (c.environment ≡ text "development")
      ⊎ ((c.environment ≡ text "production") ⊎ (c.environment ≡ text "test"))

module _ (env : Environment) where
  -- The value of a variable without the space around it; the empty text if it is not set.
  abbrev pub trimmed : Text → Text
  trimmed name = trim_space (env.getenv name)

  -- The default for a variable that is blank, and its trimmed value otherwise; and the same where
  -- the value is parsed.
  abbrev pub StringIs : Text → Text → Text → Type 0
  StringIs name default_value v =
      ((trimmed name ≡ text "") × (v ≡ default_value))
      ⊎ ((trimmed name ≢ text "") × (v ≡ trimmed name))

  abbrev pub ParsedIs : {A : Type 0} → (Text → Result A) → Text → A → A → Type 0
  ParsedIs parse name default_value v =
      ((trimmed name ≡ text "") × (v ≡ default_value))
      ⊎ ((trimmed name ≢ text "") × (parse (trimmed name) ≡ ok v))

  -- Each field is what its variable gives: durations in nanoseconds, by default 30 minutes, 7 days
  -- and 5 minutes.
  pub record IsRead (c : Config) : Type 0 where
    pub database_url : c.database_url ≡ trimmed (text "DATABASE_URL")
    pub jwt_secret : c.jwt_secret ≡ trimmed (text "JWT_SECRET")
    pub access_ttl :
        ParsedIs env.parse_duration
          (text "JWT_ACCESS_TTL")
          (pos 1_800_000_000_000)
          c.jwt_access_token_ttl
    pub refresh_ttl :
        ParsedIs env.parse_duration
          (text "JWT_REFRESH_TTL")
          (pos 604_800_000_000_000)
          c.jwt_refresh_token_ttl
    pub max_open : ParsedIs env.atoi (text "DB_MAX_OPEN_CONNS") (pos 25) c.db_max_open_conns
    pub max_idle : ParsedIs env.atoi (text "DB_MAX_IDLE_CONNS") (pos 5) c.db_max_idle_conns
    pub lifetime :
        ParsedIs env.parse_duration
          (text "DB_CONN_MAX_LIFETIME")
          (pos 300_000_000_000)
          c.db_conn_max_lifetime
    pub environment : StringIs (text "ENVIRONMENT") (text "development") c.environment
    pub issuer : StringIs (text "JWT_ISSUER") (text "storemesh-user-service") c.jwt_issuer
    pub audience : StringIs (text "JWT_AUDIENCE") (text "storemesh-platform") c.jwt_audience
    pub redis_url : StringIs (text "REDIS_URL") (text "redis://localhost:6379") c.redis_url
    pub grpc_port : StringIs (text "GRPC_PORT") (text "50051") c.grpc_port
    pub http_port : StringIs (text "HTTP_PORT") (text "8080") c.http_port
    pub otlp_endpoint : StringIs (text "OTLP_ENDPOINT") (text "localhost:4317") c.otlp_endpoint
    pub service_name : StringIs (text "SERVICE_NAME") (text "storemesh-user-service") c.service_name
    pub service_version : StringIs (text "SERVICE_VERSION") (text "1.0.0") c.service_version

  -- The same by the functions of the source.
  pub record Computed (c : Config) : Type 0 where
    pub database_url : c.database_url ≡ trim_space (env.getenv (text "DATABASE_URL"))
    pub jwt_secret : c.jwt_secret ≡ trim_space (env.getenv (text "JWT_SECRET"))
    pub access_ttl :
        duration_value env (text "JWT_ACCESS_TTL") default_jwt_access_ttl
        ≡ ok c.jwt_access_token_ttl
    pub refresh_ttl :
        duration_value env (text "JWT_REFRESH_TTL") default_jwt_refresh_ttl
        ≡ ok c.jwt_refresh_token_ttl
    pub max_open : int_value env (text "DB_MAX_OPEN_CONNS") (pos 25) ≡ ok c.db_max_open_conns
    pub max_idle : int_value env (text "DB_MAX_IDLE_CONNS") (pos 5) ≡ ok c.db_max_idle_conns
    pub lifetime :
        duration_value env (text "DB_CONN_MAX_LIFETIME") default_db_conn_lifetime
        ≡ ok c.db_conn_max_lifetime
    pub environment : c.environment ≡ string_value env (text "ENVIRONMENT") (text "development")
    pub issuer : c.jwt_issuer ≡ string_value env (text "JWT_ISSUER") (text "storemesh-user-service")
    pub audience :
        c.jwt_audience ≡ string_value env (text "JWT_AUDIENCE") (text "storemesh-platform")
    pub redis_url :
        c.redis_url ≡ string_value env (text "REDIS_URL") (text "redis://localhost:6379")
    pub grpc_port : c.grpc_port ≡ string_value env (text "GRPC_PORT") (text "50051")
    pub http_port : c.http_port ≡ string_value env (text "HTTP_PORT") (text "8080")
    pub otlp_endpoint :
        c.otlp_endpoint ≡ string_value env (text "OTLP_ENDPOINT") (text "localhost:4317")
    pub service_name :
        c.service_name ≡ string_value env (text "SERVICE_NAME") (text "storemesh-user-service")
    pub service_version :
        c.service_version ≡ string_value env (text "SERVICE_VERSION") (text "1.0.0")

  string_value_iff :
      (name default_value v : Text)
      → (v ≡ string_value env name default_value) ↔ StringIs name default_value v
  unfolding string_value
  string_value_iff name default_value v = ground (arith, eq_iff (trimmed name) (text ""))

  duration_value_iff :
      (name : Text) (default_value v : Duration)
      → (duration_value env name default_value ≡ ok v)
        ↔ ParsedIs env.parse_duration name default_value v
  unfolding duration_value
  duration_value_iff name default_value v =
      elim (Result-cases (env.parse_duration (trimmed name))) [
        | inl (d, p) ↦ ground (arith, eq_iff (trimmed name) (text ""))
        | inr (e, p) ↦ ground (arith, eq_iff (trimmed name) (text ""))
      ]

  int_value_iff :
      (name : Text) (default_value v : ℤ)
      → (int_value env name default_value ≡ ok v) ↔ ParsedIs env.atoi name default_value v
  unfolding int_value
  int_value_iff name default_value v = elim (Result-cases (env.atoi (trimmed name))) [
    | inl (n, p) ↦ ground (arith, eq_iff (trimmed name) (text ""))
    | inr (e, p) ↦ ground (arith, eq_iff (trimmed name) (text ""))
  ]

  pub Computed-IsRead : (c : Config) → Computed c → IsRead c
  Computed-IsRead c k = record {
    database_url = k.database_url;
    jwt_secret = k.jwt_secret;
    access_ttl = (duration_value_iff _ _ _).0 k.access_ttl;
    refresh_ttl = (duration_value_iff _ _ _).0 k.refresh_ttl;
    max_open = (int_value_iff _ _ _).0 k.max_open;
    max_idle = (int_value_iff _ _ _).0 k.max_idle;
    lifetime = (duration_value_iff _ _ _).0 k.lifetime;
    environment = (string_value_iff _ _ _).0 k.environment;
    issuer = (string_value_iff _ _ _).0 k.issuer;
    audience = (string_value_iff _ _ _).0 k.audience;
    redis_url = (string_value_iff _ _ _).0 k.redis_url;
    grpc_port = (string_value_iff _ _ _).0 k.grpc_port;
    http_port = (string_value_iff _ _ _).0 k.http_port;
    otlp_endpoint = (string_value_iff _ _ _).0 k.otlp_endpoint;
    service_name = (string_value_iff _ _ _).0 k.service_name;
    service_version = (string_value_iff _ _ _).0 k.service_version;
  }

  pub IsRead-Computed : (c : Config) → IsRead c → Computed c
  IsRead-Computed c k = record {
    database_url = k.database_url;
    jwt_secret = k.jwt_secret;
    access_ttl = (duration_value_iff _ _ _).1 k.access_ttl;
    refresh_ttl = (duration_value_iff _ _ _).1 k.refresh_ttl;
    max_open = (int_value_iff _ _ _).1 k.max_open;
    max_idle = (int_value_iff _ _ _).1 k.max_idle;
    lifetime = (duration_value_iff _ _ _).1 k.lifetime;
    environment = (string_value_iff _ _ _).1 k.environment;
    issuer = (string_value_iff _ _ _).1 k.issuer;
    audience = (string_value_iff _ _ _).1 k.audience;
    redis_url = (string_value_iff _ _ _).1 k.redis_url;
    grpc_port = (string_value_iff _ _ _).1 k.grpc_port;
    http_port = (string_value_iff _ _ _).1 k.http_port;
    otlp_endpoint = (string_value_iff _ _ _).1 k.otlp_endpoint;
    service_name = (string_value_iff _ _ _).1 k.service_name;
    service_version = (string_value_iff _ _ _).1 k.service_version;
  }
