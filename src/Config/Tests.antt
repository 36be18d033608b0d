-- ===== src/Config/Tests.antt =====
-- `Load` on a concrete environment.
use storemesh_user_service.Base.{◌≡◌, refl, ◌↔◌, if◌then◌else◌}
use storemesh_user_service.Base.Int.{pos}
use storemesh_user_service.Go.Text.{Text, text, ◌==◌, trim_space, len}
use storemesh_user_service.Go.Errors.{other}
use storemesh_user_service.Go.Action.{Result, ok, err}
use storemesh_user_service.Go.Time.{Duration}
use storemesh_user_service.Config.{
  Environment, Config, load, required_string, duration_value, int_value, string_value,
}
use storemesh_user_service.Config.Reading.{IsRead, IsValid}
use storemesh_user_service.Config.Checks.{load_iff}

abbrev sample_secret : Text
sample_secret = text "0123456789abcdef0123456789abcdef"

abbrev sample_getenv : Text → Text
sample_getenv name =
    if name == text "DATABASE_URL"
    then text " postgres://db/users "
    else if name == text "JWT_SECRET"
    then sample_secret
    else if name == text "JWT_ACCESS_TTL"
    then text "15m"
    else if name == text "ENVIRONMENT"
    then text "production"
    else text ""

abbrev sample_parse_duration : Text → Result Duration
sample_parse_duration t =
    if t == text "15m" then ok (pos 900_000_000_000) else err (other (text "invalid duration"))

abbrev sample_environment : Environment
sample_environment = record {
  getenv = sample_getenv;
  parse_duration = sample_parse_duration;
  atoi = λ _. err (other (text "invalid syntax"));
}

abbrev sample_config : Config
sample_config = record {
  database_url = text "postgres://db/users";
  redis_url = text "redis://localhost:6379";
  grpc_port = text "50051";
  http_port = text "8080";
  environment = text "production";
  jwt_secret = sample_secret;
  jwt_issuer = text "storemesh-user-service";
  jwt_audience = text "storemesh-platform";
  jwt_access_token_ttl = pos 900_000_000_000;
  jwt_refresh_token_ttl = pos 604_800_000_000_000;
  db_max_open_conns = pos 25;
  db_max_idle_conns = pos 5;
  db_conn_max_lifetime = pos 300_000_000_000;
  otlp_endpoint = text "localhost:4317";
  service_name = text "storemesh-user-service";
  service_version = text "1.0.0";
}

load_test : load sample_environment ≡ ok sample_config
unfolding load required_string ◌==◌ trim_space len duration_value int_value string_value
load_test = refl

load_iff_example :
    (load sample_environment ≡ ok sample_config)
    ↔ (IsRead sample_environment sample_config × IsValid sample_config)
load_iff_example = load_iff sample_environment sample_config
