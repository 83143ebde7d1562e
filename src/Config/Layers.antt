-- ===== src/Config/Layers.antt =====
-- Which layer of internal/conf/conf.go decides each value.
use xiuxian.Base.{
  Bool, true, false, Option, none, some, List, [], ◌∷◌, String, ◌≡◌, refl, ap, ◌∙◌, if◌then◌else◌,
  arith,
}
use xiuxian.Base.Int.{ℤ, pos}
use xiuxian.Base.Text.{str_eq, trim_space}
use xiuxian.Base.Dict.{str_eq_iff}
use xiuxian.Rules.Units.{Duration}
use xiuxian.Config.{
  FileConfig, Environment, half_minute, defaults, text_or, duration_or, apply_file_config,
  env_or_default, env_int64, value_or, secure_from_env, overridden, override_from_env, file_layer,
  load,
}

-- The first text that is not empty, or the last one.
abbrev pub first_text : List String → String → String
first_text [] last = last
first_text (s ∷ rest) last = if str_eq s "" then first_text rest last else s

-- What a file says under a key: nothing if there is no file.
abbrev pub said {ℓ} : {A : Type ℓ} → Option FileConfig → (FileConfig → Option A) → Option A
said none key = none
said (some file) key = key file

abbrev pub said_text : Option FileConfig → (FileConfig → Option String) → String
said_text file key = elim (said file key) [ none ↦ "" | some s ↦ s ]

-- The duration that a file gives, if it is one, else 30 seconds.
abbrev pub time_said : (String → Option Duration) → Option String → Duration
time_said parse_duration none = pos 30_000_000_000
time_said parse_duration (some s) =
    if str_eq s ""
    then pos 30_000_000_000
    else elim (parse_duration s) [ none ↦ pos 30_000_000_000 | some d ↦ d ]

-- COOKIE_SECURE, if it says true or false, else what the file says, else true.
abbrev pub cookie_said : String → Option Bool → Bool
cookie_said v file =
    if str_eq v "false"
    then false
    else if str_eq v "true"
    then true
    else elim file [ none ↦ true | some b ↦ b ]

-- What the source finds in a file's text, and in a text that should be a duration.
said_or-first :
    (v : String) (o : Option String) (d : String)
    → overridden v (text_or o d) ≡ first_text (v ∷ elim o [ none ↦ "" | some s ↦ s ] ∷ []) d
unfolding overridden text_or
said_or-first v none d = ground arith
said_or-first v (some s) d = ground arith

env-trim : (env : Environment) (key : String) → env_or_default env key "" ≡ trim_space (env key)
unfolding env_or_default
env-trim env key = ground (arith, str_eq_iff (trim_space (env key)) "")

cookie-said :
    (env : Environment) (o : Option Bool)
    → secure_from_env env (value_or o true) ≡ cookie_said (env "COOKIE_SECURE") o
unfolding secure_from_env value_or
cookie-said env none = refl
cookie-said env (some b) = refl

module _ (parse_duration : String → Option Duration) (parse_int : String → ℤ) where
  time-said :
      (o : Option String)
      → duration_or parse_duration parse_int o half_minute ≡ time_said parse_duration o
  unfolding duration_or value_or
  time-said none = refl
  time-said (some s) = ground arith

  -- The addresses and the version come from the environment, trimmed, if it has them, else from the
  -- file, else they are the defaults. The worker's token, the test clock, its start, and the
  -- addresses of the database and of Redis come from the environment alone, whatever the file says.
  -- The timeouts come from the file alone, if they are durations, else they are 30 seconds. The
  -- cookie is secure unless COOKIE_SECURE says false, or says neither false nor true and the file
  -- says that it is not.
  pub load-precedence :
      (file : Option FileConfig) (env : Environment)
      → let c = load parse_duration parse_int file env in
        (c.http_address
          ≡ first_text
              (trim_space (env "GAME_SERVER_ADDRESS") ∷ said_text file (λ f. f.http_address) ∷ [])
              ":8080")
        × (c.grpc_address
            ≡ first_text
                (trim_space (env "GAME_SERVER_GRPC_ADDRESS")
                  ∷ said_text file (λ f. f.grpc_address)
                  ∷ [])
                ":9090")
        × (c.version
            ≡ first_text
                (trim_space (env "APP_VERSION") ∷ said_text file (λ f. f.version) ∷ [])
                "dev")
        × (c.worker_token ≡ env "WORKER_TOKEN")
        × (c.allow_test_clock ≡ str_eq (env "ALLOW_TEST_CLOCK") "true")
        × (c.test_clock_start_millis ≡ parse_int (trim_space (env "TEST_CLOCK_START_UNIX_MILLIS")))
        × (c.database_url ≡ trim_space (env "DATABASE_URL"))
        × (c.redis_url ≡ trim_space (env "REDIS_URL"))
        × (c.http_timeout ≡ time_said parse_duration (said file (λ f. f.http_timeout)))
        × (c.grpc_timeout ≡ time_said parse_duration (said file (λ f. f.grpc_timeout)))
        × (c.secure_cookie ≡ cookie_said (env "COOKIE_SECURE") (said file (λ f. f.secure_cookie)))
  unfolding load override_from_env file_layer apply_file_config defaults env_int64 duration_or
      text_or secure_from_env value_or
  load-precedence none env = (
    ap (λ v. overridden v ":8080") (env-trim env _) ∙ said_or-first _ none ":8080",
    ap (λ v. overridden v ":9090") (env-trim env _) ∙ said_or-first _ none ":9090",
    said_or-first _ none "dev",
    refl,
    refl,
    refl,
    refl,
    refl,
    refl,
    refl,
    cookie-said env none,
  )
  load-precedence (some file) env = (
    ap (λ v. overridden v (text_or file.http_address ":8080")) (env-trim env _)
        ∙ said_or-first _ file.http_address ":8080",
    ap (λ v. overridden v (text_or file.grpc_address ":9090")) (env-trim env _)
        ∙ said_or-first _ file.grpc_address ":9090",
    said_or-first _ file.version "dev",
    refl,
    refl,
    refl,
    refl,
    refl,
    time-said file.http_timeout,
    time-said file.grpc_timeout,
    cookie-said env file.secure_cookie,
  )
