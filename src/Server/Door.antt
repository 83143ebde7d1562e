-- ===== src/Server/Door.antt =====
-- Who asks and how often, of internal/service/world.go and internal/service/auth.go. A call answers
-- or fails, and leaves the server changed either way.
use xiuxian.Base.{true, false, not, Option, none, some, List, [], ◌∷◌, String, if◌then◌else◌}
use xiuxian.Base.Text.{◌⊕◌, str_eq, after_prefix, before_comma, trim_space}
use xiuxian.Rules.Units.{Time}
use xiuxian.World.Host.{Host}
use xiuxian.World.Model.{World}
use xiuxian.World.Action.{Result, Action, ok, err, Call}
use xiuxian.Limit.{
  RateLimitPolicy, Buckets, RedisAnswer, Allowance, decided, invalid_policy, unavailable, allow,
  web_session_rate_limit, api_key_rate_limit,
}
use xiuxian.Server.Fault.{
  Fault, map_error, error_unauthorized, error_rate_limited, error_rate_limit_unavailable,
}
use xiuxian.Server.Usecase.{use_authenticate_api_key, use_authenticate_session}

-- What the service reads of an HTTP request: X-Forwarded-For, RemoteAddr, the host that
-- net.SplitHostPort finds in it, and the cookie xiuxian_session.
pub record HttpRequest : Type 0 where
  pub forwarded_for : String
  pub remote_addr : String
  pub remote_host : Option String
  pub session_cookie : Option String

-- What the context of a call holds: the authorization header, if there is a transport (empty if it
-- has none), the values of the metadata's authorization, and the HTTP request, if it came by HTTP.
pub record Incoming : Type 0 where
  pub transport_header : Option String
  pub metadata_values : List String
  pub http : Option HttpRequest

-- What a call meets in turn: the authority, when it checks a key and a session and when it carries
-- out the command, and the limiter, with the time and Redis.
pub record Visit (F : Type 0) : Type 0 where
  pub key_call : Call F
  pub session_call : Call F
  pub command_call : Call F
  pub limit_time : Time
  pub limit_redis : RedisAnswer

pub data Reply (A : Type 0) : Type 0 where
  reply : A → Reply A
  fails : Fault → Reply A

-- What follows a call that has answered; a call that has failed ends the handler.
unfoldable pub pass_on {ℓ} :
    {S : Type ℓ} {A B : Type 0} → Reply A × S → (A → S → Reply B × S) → Reply B × S
pass_on (reply a, s) f = f a s
pass_on (fails e, s) f = (fails e, s)

infixl 5 ◌>>=◌
abbrev pub ◌>>=◌ {ℓ} :
    {S : Type ℓ} {A B : Type 0} → (S → Reply A × S) → (A → S → Reply B × S) → S → Reply B × S
◌>>=◌ m f s = pass_on (m s) f

abbrev pub answer {ℓ} : {S : Type ℓ} {A : Type 0} → A → S → Reply A × S
answer a s = (reply a, s)

abbrev pub refuse {ℓ} : {S : Type ℓ} {A : Type 0} → Fault → S → Reply A × S
refuse e s = (fails e, s)

module _ (host : Host) where
  pub record Server : Type 0 where
    pub world : World host
    pub buckets : Buckets host.float

  abbrev pub Handler : Type 0 → Type 0
  Handler A = Server → Reply A × Server

  -- A use case, with its error as mapError has it.
  unfoldable pub ask : {A : Type 0} → Action host A → Handler A
  ask act s =
      let (r, w) = act s.world in
      (elim r [ ok a ↦ reply a | err e ↦ fails (map_error e) ], record s { world = w })

  unfoldable pub limit_reply : Allowance → Reply (Unit {0})
  limit_reply (decided true) = reply tt
  limit_reply (decided false) = fails (error_rate_limited "rate limit exceeded")
  limit_reply invalid_policy = fails (error_rate_limit_unavailable "rate limiter unavailable")
  limit_reply unavailable = fails (error_rate_limit_unavailable "rate limiter unavailable")

  unfoldable pub enforce_rate_limit :
      Visit host.float.F → String → String → RateLimitPolicy host.float.F → Handler (Unit {0})
  enforce_rate_limit v scope subject policy s =
      let (allowance, after) =
        allow host.float v.limit_redis v.limit_time scope subject policy s.buckets in
      (limit_reply allowance, record s { buckets = after })

  unfoldable pub single_value : List String → String
  single_value (v ∷ []) = v
  single_value vs = ""

  unfoldable pub authorization_of : Incoming → String
  authorization_of i = elim i.transport_header [
    | some header ↦ header
    | none ↦ single_value i.metadata_values
  ]

  unfoldable pub cookie_of : Incoming → Option String
  cookie_of i = elim i.http [ none ↦ none | some r ↦ r.session_cookie ]

  unfoldable pub as_limited :
      Visit host.float.F → String → String → RateLimitPolicy host.float.F → String → Handler String
  as_limited v scope subject policy k = enforce_rate_limit v scope subject policy >>= λ _. answer k

  -- What a checked session or key leads to: a role within its limits, or the next credential.
  unfoldable pub after_session :
      Visit host.float.F → String → Result String × World host → Handler String
  after_session v token (ok k, w) s =
      as_limited v "web_session" token (web_session_rate_limit host.float) k
        (record s { world = w })
  after_session v token (err e, w) s =
      refuse (error_unauthorized "authentication required") (record s { world = w })

  unfoldable pub by_session : Visit host.float.F → Option String → Handler String
  by_session v none s = refuse (error_unauthorized "authentication required") s
  by_session v (some token) s =
      after_session v token (use_authenticate_session host v.session_call token s.world) s

  unfoldable pub after_key :
      Visit host.float.F → String → Option String → Result String × World host → Handler String
  after_key v key cookie (ok k, w) s =
      as_limited v "api_key" key (api_key_rate_limit host.float) k (record s { world = w })
  after_key v key cookie (err e, w) s = by_session v cookie (record s { world = w })

  -- A key that the authority accepts comes first, then the session cookie.
  unfoldable pub by_key : Visit host.float.F → Option String → Option String → Handler String
  by_key v none cookie s = by_session v cookie s
  by_key v (some key) cookie s =
      after_key v key cookie (use_authenticate_api_key host v.key_call key s.world) s

  unfoldable pub authenticate : Visit host.float.F → Incoming → Handler String
  authenticate v i = by_key v (after_prefix "Bearer " (authorization_of i)) (cookie_of i)

  unfoldable pub client_address : HttpRequest → String
  client_address r =
      let forwarded = trim_space (before_comma r.forwarded_for) in
      if not (str_eq forwarded "")
      then forwarded
      else elim r.remote_host [ some h ↦ h | none ↦ r.remote_addr ]

  unfoldable pub public_subject : Incoming → String → String
  public_subject i account = elim i.http [
    | none ↦ account
    | some r ↦ client_address r ⊕ "\0" ⊕ account
  ]

  unfoldable pub limit_public_auth :
      Visit host.float.F
      → Incoming
      → String
      → String
      → RateLimitPolicy host.float.F
      → Handler (Unit {0})
  limit_public_auth v i scope account policy =
      enforce_rate_limit v scope (public_subject i account) policy
