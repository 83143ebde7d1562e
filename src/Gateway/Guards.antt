-- ===== src/Gateway/Guards.antt =====
-- What cmd/mcp-gateway/main.go lets through.
use xiuxian.Base.{
  Bool, true, false, Option, none, some, String, ◌≡◌, ◌≢◌, refl, subst, if_cases, Option-cases,
  Bool-cases, inl, inr, ◌||◌, ◌&&◌, not,
}
use xiuxian.Base.Int.{ℤ, pos, ◌<ℤ◌, leb_ℤ, lt_of_leb_ℤ}
use xiuxian.Base.Float.{Float64}
use xiuxian.Base.Text.{str_eq, after_prefix}
use xiuxian.Rules.Units.{Time}
use xiuxian.Limit.{
  Buckets, RedisAnswer, Allowance, decided, invalid_policy, unavailable, allow, mcp_tool_rate_limit,
}
use xiuxian.Server.Message.{
  Message, state_message, bounds_message, talks_message, scan_message, move_message,
  direction_message, stop_message, transfer_message, seize_message, events_message, talk_message,
  respond_message, content_message, close_message,
}
use xiuxian.Gateway.{
  RpcRequest, Tool, get_game_rules, get_state, get_world_bounds, scan, move, move_direction, stop,
  recent_events, list_conversations, request_conversation, respond_conversation,
  send_conversation_message, close_conversation, transfer_cultivation, seize_cultivation,
  tool_requires_expectation, find_tool, all_tools, ServerCall, rules_call, world_call, Forward,
  rpc_error, sends, Arguments, move_call, with_whole, tool_call, expectation_of, guarded_call,
  known_call, call_tool_rpc,
}
use xiuxian.Gateway.Front.{
  Response, forwards, forward_response, limited_response, rpc_response, serve_http, health_response,
}

abbrev pub Positive : ℤ → ℤ → Type 0
Positive life version = (pos 0 <ℤ life) × (pos 0 <ℤ version)

-- A message that the gateway may send: a read of the role's own state, or a command with a positive
-- expectation; no registration, login, logout or change of keys.
abbrev pub IsGuarded : Message → Type 0
IsGuarded state_message = Unit {0}
IsGuarded bounds_message = Unit {0}
IsGuarded talks_message = Unit {0}
IsGuarded (events_message after limit) = Unit {0}
IsGuarded (scan_message life version) = Positive life version
IsGuarded (move_message key goal life version) = Positive life version
IsGuarded (direction_message key d speed life version) = Positive life version
IsGuarded (stop_message key life version) = Positive life version
IsGuarded (transfer_message target key amount life version) = Positive life version
IsGuarded (seize_message target key life version) = Positive life version
IsGuarded (talk_message target key life version) = Positive life version
IsGuarded (respond_message id key action life version) = Positive life version
IsGuarded (content_message id key content life version) = Positive life version
IsGuarded (close_message id key life version) = Positive life version
IsGuarded m = ⊥

abbrev pub IsGuardedCall : ServerCall → Type 0
IsGuardedCall rules_call = Unit {0}
IsGuardedCall (world_call m) = IsGuarded m

abbrev ForwardsGuarded : Forward → Type 0
ForwardsGuarded (rpc_error code message) = Unit {0}
ForwardsGuarded (sends c) = IsGuardedCall c

module _ (fl : Float64) where
  open fl use {F}

  move_call-guarded :
      (key : String) (x y : Option F) (life version : ℤ)
      → Positive life version
      → ForwardsGuarded (move_call fl key x y life version)
  unfolding move_call
  move_call-guarded key (some x) (some y) life version p = p
  move_call-guarded key none y life version p = tt
  move_call-guarded key (some x) none life version p = tt

  with_whole-guarded :
      (o : Option ℤ) (missing : String) (f : ℤ → Message)
      → ((n : ℤ) → IsGuarded (f n))
      → ForwardsGuarded (with_whole fl o missing f)
  unfolding with_whole
  with_whole-guarded none missing f h = tt
  with_whole-guarded (some n) missing f h = h n

  tool_call-guarded :
      (t : Tool) (a : Arguments fl) (key : String) (life version : ℤ)
      → (tool_requires_expectation t ≡ true → Positive life version)
      → ForwardsGuarded (tool_call fl t a key life version)
  unfolding tool_call tool_requires_expectation
  tool_call-guarded move a key life version h = move_call-guarded key _ _ life version (h refl)
  tool_call-guarded move_direction a key life version h = with_whole-guarded _ _ _ (λ n. h refl)
  tool_call-guarded transfer_cultivation a key life version h =
      with_whole-guarded _ _ _ (λ n. h refl)
  tool_call-guarded get_game_rules a key life version h = tt
  tool_call-guarded get_state a key life version h = tt
  tool_call-guarded get_world_bounds a key life version h = tt
  tool_call-guarded recent_events a key life version h = tt
  tool_call-guarded list_conversations a key life version h = tt
  tool_call-guarded scan a key life version h = h refl
  tool_call-guarded stop a key life version h = h refl
  tool_call-guarded request_conversation a key life version h = h refl
  tool_call-guarded respond_conversation a key life version h = h refl
  tool_call-guarded send_conversation_message a key life version h = h refl
  tool_call-guarded close_conversation a key life version h = h refl
  tool_call-guarded seize_cultivation a key life version h = h refl

  guarded_call-guarded :
      (t : Tool) (a : Arguments fl) (key : String) (life version : Option ℤ)
      → ForwardsGuarded (guarded_call fl t a key (expectation_of fl life version))
  unfolding guarded_call expectation_of
  guarded_call-guarded t a key none version = tt
  guarded_call-guarded t a key (some life) none = tt
  guarded_call-guarded t a key (some life) (some version) = elim (Bool-cases (leb_ℤ life (pos 0))) [
    | inl e ↦ rw e tt
    | inr e ↦ elim (Bool-cases (leb_ℤ version (pos 0))) [
      | inl d ↦ rw (e, d) tt
      | inr d ↦
          rw (e, d)
            (tool_call-guarded t a key life version
              (λ _. (lt_of_leb_ℤ life (pos 0) e, lt_of_leb_ℤ version (pos 0) d)))
    ]
  ]

  known_call-guarded : (o : Option Tool) (r : RpcRequest F) → ForwardsGuarded (known_call fl o r)
  unfolding known_call
  known_call-guarded none r = tt
  known_call-guarded (some t) r = elim (Bool-cases (tool_requires_expectation t)) [
    | inl e ↦ rw e (guarded_call-guarded t _ _ _ _)
    | inr e ↦ rw e (tool_call-guarded t _ _ _ _ (λ needs. cc))
  ]

  -- What a response that forwards a call must satisfy.
  abbrev RespondsGuarded : String → Allowance → Response fl → Type 0
  RespondsGuarded authorization allowance (forwards sent c) =
      (sent ≡ authorization)
      × (allowance ≡ decided true)
      × (after_prefix "Bearer xiu_" authorization ≢ none)
      × IsGuardedCall c
  RespondsGuarded authorization allowance r = Unit {0}

  forward_response-guarded :
      (authorization : String) (o : Forward)
      → after_prefix "Bearer xiu_" authorization ≢ none
      → ForwardsGuarded o
      → RespondsGuarded authorization (decided true) (forward_response fl authorization o)
  unfolding forward_response
  forward_response-guarded authorization (rpc_error code message) p h = tt
  forward_response-guarded authorization (sends c) p h = (refl, refl, p, h)

  limited_response-guarded :
      (allowance : Allowance) (authorization : String) (r : RpcRequest F)
      → after_prefix "Bearer xiu_" authorization ≢ none
      → RespondsGuarded authorization allowance (limited_response fl allowance authorization r)
  unfolding limited_response call_tool_rpc
  limited_response-guarded (decided true) authorization r p =
      forward_response-guarded authorization _ p (known_call-guarded (find_tool r.name all_tools) r)
  limited_response-guarded (decided false) authorization r p = tt
  limited_response-guarded invalid_policy authorization r p = tt
  limited_response-guarded unavailable authorization r p = tt

  abbrev budget : RedisAnswer → Time → String → Buckets fl → Allowance
  budget redis now authorization b =
      (allow fl redis now "mcp_tool" authorization (mcp_tool_rate_limit fl) b).0

  rpc_response-guarded :
      (redis : RedisAnswer) (now : Time) (authorization : String) (body : Option (RpcRequest F))
      (b : Buckets fl)
      → after_prefix "Bearer xiu_" authorization ≢ none
      → RespondsGuarded authorization
          (budget redis now authorization b)
          (rpc_response fl redis now authorization body b).0
  unfolding rpc_response
  rpc_response-guarded redis now authorization none b p = tt
  rpc_response-guarded redis now authorization (some r) b p =
      let P = λ (x : Response fl × Buckets fl).
        RespondsGuarded authorization (budget redis now authorization b) x.0 in
      if_cases P (str_eq r.method "initialize") _ _ tt (
        if_cases P (str_eq r.method "notifications/initialized") _ _ tt (
          if_cases P (str_eq r.method "tools/list") _ _ tt (
            if_cases P (str_eq r.method "tools/call") _ _
              (limited_response-guarded (budget redis now authorization b) authorization r p) tt)))

  health_response-guarded :
      (healthy : Option Bool) (authorization : String) (allowance : Allowance)
      → RespondsGuarded authorization allowance (health_response fl healthy)
  unfolding health_response
  health_response-guarded none authorization allowance = tt
  health_response-guarded (some true) authorization allowance = tt
  health_response-guarded (some false) authorization allowance = tt

  serve_http-responds :
      (redis : RedisAnswer) (now : Time) (healthy : Option Bool)
      (method path authorization : String) (body : Option (RpcRequest F)) (b : Buckets fl)
      → RespondsGuarded authorization
          (budget redis now authorization b)
          (serve_http fl redis now healthy method path authorization body b).0
  unfolding serve_http
  serve_http-responds redis now healthy method path authorization body b =
      let P = λ (x : Response fl × Buckets fl).
        RespondsGuarded authorization (budget redis now authorization b) x.0 in
      if_cases P (str_eq method "GET" && str_eq path "/healthz") _ _
        (health_response-guarded healthy authorization _)
        (if_cases P (not (str_eq method "POST") || not (str_eq path "/mcp")) _ _ tt
          (elim (Option-cases (after_prefix "Bearer xiu_" authorization)) [
            | inl e ↦ rw e tt
            | inr (rest, e) ↦ rw e (rpc_response-guarded redis now authorization body b (λ n. cc))
          ]))

  -- What the gateway forwards to the game server, whatever is sent to it: only calls with an
  -- authorization that starts as a role's key does, which it passes on as it is, and for which the
  -- budget of tool calls had a token; and of these only the rules, reads of the role's own state,
  -- and commands with a positive life number and state version.
  pub serve_http-guarded :
      (redis : RedisAnswer) (now : Time) (healthy : Option Bool)
      (method path authorization : String) (body : Option (RpcRequest F)) (b : Buckets fl)
      (sent : String) (c : ServerCall)
      → (serve_http fl redis now healthy method path authorization body b).0 ≡ forwards sent c
      → (sent ≡ authorization)
        × ((allow fl redis now "mcp_tool" authorization (mcp_tool_rate_limit fl) b).0
            ≡ decided true)
        × (after_prefix "Bearer xiu_" authorization ≢ none)
        × IsGuardedCall c
  serve_http-guarded redis now healthy method path authorization body b sent c e =
      subst (RespondsGuarded authorization (budget redis now authorization b)) e
        (serve_http-responds redis now healthy method path authorization body b)
