-- ===== src/Config/Checks.antt =====
-- What `Load` accepts.
use storemesh_user_service.Base.{
  ◌≡◌, ◌≢◌, ◌≤◌, refl, sym, ap, subst, ◌⊎◌, inl, inr, ◌↔◌, false, arith, Bool-cases,
}
use storemesh_user_service.Base.Int.{ℤ, pos, ◌≤ℤ◌, ◌<ℤ◌}
use storemesh_user_service.Go.Text.{Text, text, ◌==◌, len, trim_space}
use storemesh_user_service.Go.Text.Laws.{eq_iff, trim_space_idem}
use storemesh_user_service.Go.Action.{ok}
use storemesh_user_service.Go.Action.Laws.{Result-cases}
use storemesh_user_service.Go.Time.{Duration}
use storemesh_user_service.Config.{
  Environment, Config, required_string, string_value, duration_value, int_value, secret, token_ttls,
  pool, checked_environment, issuer_audience, configuration, load, default_jwt_access_ttl,
  default_jwt_refresh_ttl, default_db_conn_lifetime, minimum_jwt_secret_length,
}
use storemesh_user_service.Config.Reading.{
  IsValid, IsRead, Computed, Computed-IsRead, IsRead-Computed,
}

module _ (env : Environment) where
  required_string_iff :
      (name v : Text)
      → (required_string env name ≡ ok v) ↔ ((v ≡ trim_space (env.getenv name)) × (v ≢ text ""))
  unfolding required_string
  required_string_iff name v =
      ground (arith, eq_iff (trim_space (env.getenv name)) (text ""), eq_iff v (text ""))

  secret_iff :
      (v : Text)
      → (secret env ≡ ok v)
        ↔ ((v ≡ trim_space (env.getenv (text "JWT_SECRET"))) × (minimum_jwt_secret_length ≤ len v))
  unfolding len required_string
  secret_iff v =
      let w = trim_space (env.getenv (text "JWT_SECRET")) in
      elim (Bool-cases (w == text "")) [
        | inl blank ↦ ground (arith, eq_iff w (text ""))
        | inr given ↦ ground arith
      ]

  token_ttls_iff :
      (a r : Duration)
      → (token_ttls env ≡ ok (a, r)) ↔ (
          (duration_value env (text "JWT_ACCESS_TTL") default_jwt_access_ttl ≡ ok a)
          × (duration_value env (text "JWT_REFRESH_TTL") default_jwt_refresh_ttl ≡ ok r)
          × (pos 0 <ℤ a)
          × (a <ℤ r))
  token_ttls_iff a r = ground arith

  pool_iff :
      (o i : ℤ) (l : Duration)
      → (pool env ≡ ok (o, i, l)) ↔ (
          (int_value env (text "DB_MAX_OPEN_CONNS") (pos 25) ≡ ok o)
          × (int_value env (text "DB_MAX_IDLE_CONNS") (pos 5) ≡ ok i)
          × (duration_value env (text "DB_CONN_MAX_LIFETIME") default_db_conn_lifetime ≡ ok l)
          × (pos 0 <ℤ o)
          × (pos 0 ≤ℤ i)
          × (i ≤ℤ o)
          × (pos 0 <ℤ l))
  pool_iff o i l = ground arith

  environment_iff :
      (e : Text)
      → (checked_environment env ≡ ok e) ↔ (
          (e ≡ string_value env (text "ENVIRONMENT") (text "development"))
          × ((e ≡ text "development") ⊎ ((e ≡ text "production") ⊎ (e ≡ text "test"))))
  environment_iff e =
      let v = string_value env (text "ENVIRONMENT") (text "development") in
      ground
        (arith, eq_iff v (text "development"), eq_iff v (text "production"), eq_iff v (text "test"))

  -- A value that is read is not blank, so the two checks on blank values never fire.
  string_value_given :
      (name d : Text)
      → (trim_space d == text "") ≡ false
      → (trim_space (string_value env name d) == text "") ≡ false
  unfolding string_value
  string_value_given name d h = elim (Bool-cases (trim_space (env.getenv name) == text "")) [
    | inl blank ↦ rw blank h
    | inr given ↦ rw (given, trim_space_idem (env.getenv name)) given
  ]

  issuer_audience_lem :
      issuer_audience env
      ≡ ok (
        string_value env (text "JWT_ISSUER") (text "storemesh-user-service"),
        string_value env (text "JWT_AUDIENCE") (text "storemesh-platform"),
      )
  unfolding trim_space ◌==◌
  issuer_audience_lem = rw (
    string_value_given (text "JWT_ISSUER") (text "storemesh-user-service") refl,
    string_value_given (text "JWT_AUDIENCE") (text "storemesh-platform") refl,
  )

  configuration_lem :
      (c : Config)
      → Computed env c
      → configuration env c.database_url c.jwt_secret c.jwt_access_token_ttl c.jwt_refresh_token_ttl
          c.db_max_open_conns c.db_max_idle_conns c.db_conn_max_lifetime c.environment
          (string_value env (text "JWT_ISSUER") (text "storemesh-user-service"))
          (string_value env (text "JWT_AUDIENCE") (text "storemesh-platform"))
        ≡ c
  configuration_lem c read = λ i. record {
    database_url = c.database_url;
    redis_url = sym read.redis_url i;
    grpc_port = sym read.grpc_port i;
    http_port = sym read.http_port i;
    environment = c.environment;
    jwt_secret = c.jwt_secret;
    jwt_issuer = sym read.issuer i;
    jwt_audience = sym read.audience i;
    jwt_access_token_ttl = c.jwt_access_token_ttl;
    jwt_refresh_token_ttl = c.jwt_refresh_token_ttl;
    db_max_open_conns = c.db_max_open_conns;
    db_max_idle_conns = c.db_max_idle_conns;
    db_conn_max_lifetime = c.db_conn_max_lifetime;
    otlp_endpoint = sym read.otlp_endpoint i;
    service_name = sym read.service_name i;
    service_version = sym read.service_version i;
  }

  -- What the parts of `Load` return makes a configuration that is read and valid.
  configured :
      {database_url jwt_secret environment : Text} {access refresh t : Duration} {o i : ℤ}
      → required_string env (text "DATABASE_URL") ≡ ok database_url
      → secret env ≡ ok jwt_secret
      → token_ttls env ≡ ok (access, refresh)
      → pool env ≡ ok (o, i, t)
      → checked_environment env ≡ ok environment
      → let c =
          configuration env database_url jwt_secret access refresh o i t environment
            (string_value env (text "JWT_ISSUER") (text "storemesh-user-service"))
            (string_value env (text "JWT_AUDIENCE") (text "storemesh-platform")) in
        Computed env c × IsValid c
  configured {database_url} {jwt_secret} {environment} {access} {refresh} {t} {o} {i} p q k l m =
      let db = (required_string_iff (text "DATABASE_URL") database_url).0 p in
      let key = (secret_iff jwt_secret).0 q in
      let ttls = (token_ttls_iff access refresh).0 k in
      let conns = (pool_iff o i t).0 l in
      let kind = (environment_iff environment).0 m in
      (
        record {
          database_url = db.0;
          jwt_secret = key.0;
          access_ttl = ttls.0;
          refresh_ttl = ttls.1;
          max_open = conns.0;
          max_idle = conns.1;
          lifetime = conns.2;
          environment = kind.0;
          issuer = refl;
          audience = refl;
          redis_url = refl;
          grpc_port = refl;
          http_port = refl;
          otlp_endpoint = refl;
          service_name = refl;
          service_version = refl;
        },
        record {
          database_given = db.1;
          secret_long = key.1;
          access_positive = ttls.2;
          refresh_longer = ttls.3;
          open_positive = conns.3;
          idle_not_negative = conns.4;
          idle_within = conns.5;
          lifetime_positive = conns.6;
          environment_known = kind.1;
        },
      )

  load-Computed_iff : (c : Config) → (load env ≡ ok c) ↔ (Computed env c × IsValid c)
  unfolding load
  load-Computed_iff c = (
    λ h. elim (Result-cases (required_string env (text "DATABASE_URL"))) [
      | inr (e, p) ↦ absurd (ground arith)
      | inl (database_url, p) ↦ elim (Result-cases (secret env)) [
        | inr (e, q) ↦ absurd (ground arith)
        | inl (jwt_secret, q) ↦ elim (Result-cases (token_ttls env)) [
          | inr (e, k) ↦ absurd (ground arith)
          | inl ((access, refresh), k) ↦ elim (Result-cases (pool env)) [
            | inr (e, l) ↦ absurd (ground arith)
            | inl ((o, i, t), l) ↦ elim (Result-cases (checked_environment env)) [
              | inr (e, m) ↦ absurd (ground arith)
              | inl (environment, m) ↦
                  let issuer =
                    string_value env (text "JWT_ISSUER") (text "storemesh-user-service") in
                  let audience =
                    string_value env (text "JWT_AUDIENCE") (text "storemesh-platform") in
                  let built =
                    configuration env database_url jwt_secret access refresh o i t environment
                      issuer audience in
                  let whole : load env ≡ ok built = rw (p, q, k, l, m, issuer_audience_lem) in
                  let same : built ≡ c = cc (whole, h) in
                  subst (λ d. Computed env d × IsValid d) same (configured p q k l m)
            ]
          ]
        ]
      ]
    ],
    λ (read, valid).
        let db =
          (required_string_iff (text "DATABASE_URL") c.database_url).1
            (read.database_url, valid.database_given) in
        let key = (secret_iff c.jwt_secret).1 (read.jwt_secret, valid.secret_long) in
        let ttls =
          (token_ttls_iff c.jwt_access_token_ttl c.jwt_refresh_token_ttl).1
            (read.access_ttl, read.refresh_ttl, valid.access_positive, valid.refresh_longer) in
        let conns = (pool_iff c.db_max_open_conns c.db_max_idle_conns c.db_conn_max_lifetime).1 (
          read.max_open, read.max_idle, read.lifetime, valid.open_positive, valid.idle_not_negative,
          valid.idle_within, valid.lifetime_positive,
        ) in
        let kind = (environment_iff c.environment).1 (read.environment, valid.environment_known) in
        rw (db, key, ttls, conns, kind, issuer_audience_lem) (ap ok (configuration_lem c read)),
  )

  -- `Load` returns the configuration `c`, and no error, if and only if every field of `c` is what the
  -- environment gives for it (the trimmed value of its variable or, where this is blank and the
  -- variable has a default, the default) and `c` is within the limits: a database URL, a secret of 32
  -- bytes or more, a positive lifetime of access tokens below the lifetime of refresh tokens, a
  -- positive number of open connections, idle connections between 0 and this number, a positive
  -- lifetime of connections, and a known environment.
  pub load_iff : (c : Config) → (load env ≡ ok c) ↔ (IsRead env c × IsValid c)
  load_iff c =
      let (from, to) = load-Computed_iff c in
      (
        λ h. (let (k, valid) = from h in (Computed-IsRead env c k, valid)),
        λ (read, valid). to (IsRead-Computed env c read, valid),
      )
