-- ===== src/Config/Tests.antt =====
-- An instance of what is proved of internal/conf/conf.go.
use xiuxian.Base.{true, Option, none, some, [], ◌∷◌, String, ◌≡◌, if◌then◌else◌}
use xiuxian.Base.Int.{ℤ, pos}
use xiuxian.Base.Text.{str_eq, trim_space}
use xiuxian.Rules.Units.{Duration}
use xiuxian.Config.{FileConfig, Environment, load}
use xiuxian.Config.Layers.{first_text, said, said_text, time_said, cookie_said, load-precedence}

abbrev duration : String → Option Duration
duration s = if str_eq s "5s" then some (pos 5_000_000_000) else none

abbrev number : String → ℤ
number s = pos 0

abbrev file : FileConfig
file = record {
  http_address = some ":80";
  grpc_address = some "";
  http_timeout = some "5s";
  grpc_timeout = some "soon";
  secure_cookie = none;
  worker_token = some "token";
  version = none;
  allow_test_clock = some true;
  test_clock_start_millis = none;
  database_url = some "postgres://db";
  redis_url = none;
}

abbrev environment : Environment
environment key =
    if str_eq key "GAME_SERVER_GRPC_ADDRESS"
    then ":90"
    else if str_eq key "APP_VERSION"
    then "2"
    else ""

load-precedence_example :
    let c = load duration number (some file) environment in
    (c.http_address
      ≡ first_text
          (trim_space (environment "GAME_SERVER_ADDRESS")
            ∷ said_text (some file) (λ f. f.http_address)
            ∷ [])
          ":8080")
    × (c.grpc_address
        ≡ first_text
            (trim_space (environment "GAME_SERVER_GRPC_ADDRESS")
              ∷ said_text (some file) (λ f. f.grpc_address)
              ∷ [])
            ":9090")
    × (c.version
        ≡ first_text
            (trim_space (environment "APP_VERSION") ∷ said_text (some file) (λ f. f.version) ∷ [])
            "dev")
    × (c.worker_token ≡ environment "WORKER_TOKEN")
    × (c.allow_test_clock ≡ str_eq (environment "ALLOW_TEST_CLOCK") "true")
    × (c.test_clock_start_millis ≡ number (trim_space (environment "TEST_CLOCK_START_UNIX_MILLIS")))
    × (c.database_url ≡ trim_space (environment "DATABASE_URL"))
    × (c.redis_url ≡ trim_space (environment "REDIS_URL"))
    × (c.http_timeout ≡ time_said duration (said (some file) (λ f. f.http_timeout)))
    × (c.grpc_timeout ≡ time_said duration (said (some file) (λ f. f.grpc_timeout)))
    × (c.secure_cookie
        ≡ cookie_said (environment "COOKIE_SECURE") (said (some file) (λ f. f.secure_cookie)))
load-precedence_example = load-precedence duration number (some file) environment
