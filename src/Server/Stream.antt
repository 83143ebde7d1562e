-- ===== src/Server/Stream.antt =====
-- internal/service/http.go: the auxiliary HTTP handler. What is written to a response is a list.
use xiuxian.Base.{
  ℕ, Bool, true, false, ◌||◌, not, Option, none, some, List, [], ◌∷◌, ◌++◌, String, if◌then◌else◌,
}
use xiuxian.Base.Int.{ℤ, pos, ◌+ℤ◌, ltb_ℤ, int64}
use xiuxian.Base.Text.{str_eq, after_prefix}
use xiuxian.Rules.Units.{Time, of_millis}
use xiuxian.World.Host.{Host}
use xiuxian.World.Model.{World, Event, Error, unauthenticated, rate_limited}
use xiuxian.World.Log.{unix_milli}
use xiuxian.World.Action.{Result, ok, err, Call}
use xiuxian.Limit.{
  RateLimitPolicy, decided, invalid_policy, unavailable, allow, web_session_rate_limit,
  api_key_rate_limit,
}
use xiuxian.Server.Fault.{service_error}
use xiuxian.Server.Usecase.{
  use_events, use_settle_deadline, use_authenticate_api_key, use_authenticate_session,
}
use xiuxian.Server.Door.{Visit, Server}

-- The state of a dependency, and what healthz answers for the two.
pub data Health : Type 0 where
  disabled_health ok_health unavailable_health : Health

abbrev is_unavailable : Health → Bool
is_unavailable unavailable_health = true
is_unavailable h = false

unfoldable pub healthz_status : Health → Health → ℕ
healthz_status postgres redis = if is_unavailable postgres || is_unavailable redis then 503 else 200

-- dependencyHealthChecker.Health: whether each is configured, and whether its ping succeeds.
unfoldable pub health_of : (configured pings : Bool) → Health
health_of configured pings =
    if configured then if pings then ok_health else unavailable_health else disabled_health

-- An answer with a status and an error text, or what a handler makes of the request.
pub data Answer (A : Type 0) : Type 0 where
  served : A → Answer A
  error_answer : (status : ℕ) → (message : String) → Answer A

abbrev pub service_answer : {A : Type 0} → Error → Answer A
service_answer e = error_answer (service_error e).0 (service_error e).1

-- advanceClock: the test clock, if there is one, and the query's milliseconds, if they parse.
unfoldable pub advance_clock : Option Time → Option ℤ → Answer ℤ × Option Time
advance_clock none milliseconds = (error_answer 404 "test clock unavailable", none)
advance_clock (some now) none = (error_answer 400 "invalid milliseconds", some now)
advance_clock (some now) (some n) =
    if ltb_ℤ n (pos 0)
    then (error_answer 400 "invalid milliseconds", some now)
    else (served (unix_milli (now +ℤ int64 (of_millis n))), some (now +ℤ int64 (of_millis n)))

-- The body of /internal/deadlines/settle.
pub record DeadlineInput : Type 0 where
  pub role_id : String
  pub state_version : ℤ

module _ (host : Host) where
  abbrev pub Handling : Type 0 → Type 0
  Handling A = Server host → Answer A × Server host

  unfoldable pub settled_answer : Result Bool × World host → Server host → Answer Bool × Server host
  settled_answer (ok b, w) s = (served b, record s { world = w })
  settled_answer (err e, w) s = (service_answer e, record s { world = w })

  -- settleDeadline: the configured token, the provided one, and the body, if it decodes.
  unfoldable pub settle_deadline_http :
      Call host.float.F → String → String → Option DeadlineInput → Handling Bool
  settle_deadline_http call token provided none s =
      if str_eq token "" || not (str_eq provided token)
      then (error_answer 401 "worker authentication required", s)
      else (error_answer 400 "invalid JSON body", s)
  settle_deadline_http call token provided (some input) s =
      if str_eq token "" || not (str_eq provided token)
      then (error_answer 401 "worker authentication required", s)
      else settled_answer (use_settle_deadline host call input.role_id input.state_version s.world)
          s

  unfoldable pub allow_http :
      Bool
      → Visit host.float.F
      → String
      → String
      → RateLimitPolicy host.float.F
      → String
      → Handling String
  allow_http unlimited v scope subject policy k s =
      let (allowance, after) =
        allow host.float v.limit_redis v.limit_time scope subject policy s.buckets in
      if unlimited then (served k, s) else (
        elim allowance [
          | decided true ↦ served k
          | decided false ↦ service_answer rate_limited
          | invalid_policy ↦ error_answer 503 "rate limiter unavailable"
          | unavailable ↦ error_answer 503 "rate limiter unavailable"
        ],
        record s { buckets = after },
      )

  unfoldable pub bearer_answer :
      Bool → Visit host.float.F → String → Result String × World host → Handling String
  bearer_answer unlimited v key (ok k, w) s =
      allow_http unlimited v "api_key" key (api_key_rate_limit host.float) k
        (record s { world = w })
  bearer_answer unlimited v key (err e, w) s =
      (service_answer unauthenticated, record s { world = w })

  unfoldable pub by_bearer : Bool → Visit host.float.F → Option String → Handling String
  by_bearer unlimited v none s = (service_answer unauthenticated, s)
  by_bearer unlimited v (some key) s =
      bearer_answer unlimited v key (use_authenticate_api_key host v.key_call key s.world) s

  unfoldable pub cookie_answer :
      Bool
      → Visit host.float.F
      → String
      → Option String
      → Result String × World host
      → Handling String
  cookie_answer unlimited v token bearer (ok k, w) s =
      allow_http unlimited v "web_session" token (web_session_rate_limit host.float) k
        (record s { world = w })
  cookie_answer unlimited v token bearer (err e, w) s =
      by_bearer unlimited v bearer (record s { world = w })

  -- auth: the session cookie comes first here, then the key.
  unfoldable pub auth : Bool → Visit host.float.F → Option String → String → Handling String
  auth unlimited v none authorization s =
      by_bearer unlimited v (after_prefix "Bearer " authorization) s
  auth unlimited v (some token) authorization s =
      cookie_answer unlimited v token (after_prefix "Bearer " authorization)
        (use_authenticate_session host v.session_call token s.world) s

  -- after = event.ID for each event that is written
  unfoldable pub last_id : ℤ → List (Event host.float.F) → ℤ
  last_id after [] = after
  last_id after (e ∷ es) = last_id (pos e.id) es

  -- The rounds of eventsStream, each with the authority as it is then: the events written, until
  -- the rounds end or a read fails.
  unfoldable pub events_stream :
      String → ℤ → List (Call host.float.F × World host) → List (Event host.float.F)
  events_stream k after [] = []
  events_stream k after ((call, w) ∷ rounds) = elim (use_events host call k after (pos 100) w).0 [
    | err e ↦ []
    | ok es ↦ es ++ events_stream k (last_id after es) rounds
  ]
