-- ===== src/Config.antt =====
-- internal/conf/conf.go: defaults, an optional file, and the environment.
mod Tests
pub mod Layers
use xiuxian.Base.{Bool, true, false, not, Option, none, some, String, if◌then◌else◌}
use xiuxian.Base.Int.{ℤ, pos}
use xiuxian.Base.Text.{str_eq, trim_space}
use xiuxian.Rules.Units.{Duration, nanos_per_second}
use Prim.Native.Nat.{◌*◌}

pub record Config : Type 0 where
  pub http_address : String
  pub grpc_address : String
  pub http_timeout : Duration
  pub grpc_timeout : Duration
  pub secure_cookie : Bool
  pub worker_token : String
  pub version : String
  pub allow_test_clock : Bool
  pub test_clock_start_millis : ℤ
  pub database_url : String
  pub redis_url : String

-- What configs/config.yaml holds under each key, if it is there and has the type that is asked for.
pub record FileConfig : Type 0 where
  pub http_address : Option String
  pub grpc_address : Option String
  pub http_timeout : Option String
  pub grpc_timeout : Option String
  pub secure_cookie : Option Bool
  pub worker_token : Option String
  pub version : Option String
  pub allow_test_clock : Option Bool
  pub test_clock_start_millis : Option ℤ
  pub database_url : Option String
  pub redis_url : Option String

-- os.Getenv: the empty text for a variable that is not set.
abbrev pub Environment : Type 0
Environment = String → String

abbrev pub half_minute : Duration
half_minute = pos (30 * nanos_per_second)

unfoldable pub defaults : Config
defaults = record {
  http_address = ":8080";
  grpc_address = ":9090";
  http_timeout = half_minute;
  grpc_timeout = half_minute;
  secure_cookie = true;
  worker_token = "";
  version = "dev";
  allow_test_clock = false;
  test_clock_start_millis = pos 0;
  database_url = "";
  redis_url = "";
}

-- A value of the file, if there is one.
unfoldable pub value_or {ℓ} : {A : Type ℓ} → Option A → A → A
value_or none old = old
value_or (some v) old = v

-- A text of the file, if there is one and it is not empty.
unfoldable pub text_or : Option String → String → String
text_or none old = old
text_or (some s) old = if not (str_eq s "") then s else old

unfoldable pub env_or_default : Environment → String → String → String
env_or_default env key fallback =
    let value = trim_space (env key) in if not (str_eq value "") then value else fallback

unfoldable pub secure_from_env : Environment → Bool → Bool
secure_from_env env old =
    if str_eq (env "COOKIE_SECURE") "false"
    then false
    else if str_eq (env "COOKIE_SECURE") "true"
    then true
    else old

-- if v := ...; v != "" { field = v }
unfoldable pub overridden : String → String → String
overridden v old = if not (str_eq v "") then v else old

-- time.ParseDuration, and what strconv.ParseInt(s, 10, 64) returns beside its error.
module _ (parse_duration : String → Option Duration) (parse_int : String → ℤ) where
  unfoldable pub duration_or : Option String → Duration → Duration
  duration_or none old = old
  duration_or (some s) old = if not (str_eq s "") then value_or (parse_duration s) old else old

  unfoldable pub apply_file_config : FileConfig → Config → Config
  apply_file_config file cfg = record {
    http_address = text_or file.http_address cfg.http_address;
    grpc_address = text_or file.grpc_address cfg.grpc_address;
    http_timeout = duration_or file.http_timeout cfg.http_timeout;
    grpc_timeout = duration_or file.grpc_timeout cfg.grpc_timeout;
    secure_cookie = value_or file.secure_cookie cfg.secure_cookie;
    worker_token = value_or file.worker_token cfg.worker_token;
    version = text_or file.version cfg.version;
    allow_test_clock = value_or file.allow_test_clock cfg.allow_test_clock;
    test_clock_start_millis = value_or file.test_clock_start_millis cfg.test_clock_start_millis;
    database_url = value_or file.database_url cfg.database_url;
    redis_url = value_or file.redis_url cfg.redis_url;
  }

  unfoldable pub env_int64 : Environment → String → ℤ
  env_int64 env key = parse_int (trim_space (env key))

  unfoldable pub override_from_env : Environment → Config → Config
  override_from_env env cfg = record cfg {
    http_address = overridden (env_or_default env "GAME_SERVER_ADDRESS" "") cfg.http_address;
    grpc_address = overridden (env_or_default env "GAME_SERVER_GRPC_ADDRESS" "") cfg.grpc_address;
    version = overridden (trim_space (env "APP_VERSION")) cfg.version;
    secure_cookie = secure_from_env env cfg.secure_cookie;
    worker_token = env "WORKER_TOKEN";
    allow_test_clock = str_eq (env "ALLOW_TEST_CLOCK") "true";
    test_clock_start_millis = env_int64 env "TEST_CLOCK_START_UNIX_MILLIS";
    database_url = trim_space (env "DATABASE_URL");
    redis_url = trim_space (env "REDIS_URL");
  }

  unfoldable pub file_layer : Option FileConfig → Config → Config
  file_layer none cfg = cfg
  file_layer (some file) cfg = apply_file_config file cfg

  -- Load, with the file if it can be read.
  unfoldable pub load : Option FileConfig → Environment → Config
  load file env = override_from_env env (file_layer file defaults)
