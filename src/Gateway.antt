-- ===== src/Gateway.antt =====
-- cmd/mcp-gateway/main.go: JSON-RPC tool calls, checked and forwarded to the game server.
mod Tests
pub mod Front
pub mod Tools
pub mod Schemas
pub mod Agrees
pub mod Guards
use xiuxian.Base.{
  ℕ, Bool, true, false, ◌&&◌, ◌||◌, not, Option, none, some, List, [], ◌∷◌, String, if◌then◌else◌,
}
use xiuxian.Base.Int.{ℤ, pos, negsuc, leb_ℤ}
use xiuxian.Base.Float.{Float64}
use xiuxian.Base.Dict.{Dict, lookup}
use xiuxian.Base.Text.{str_eq, after_prefix, trim_quotes, ◌⊕◌}
use xiuxian.Rules.Units.{Time}
use xiuxian.Limit.{
  Buckets, RedisAnswer, Allowance, decided, invalid_policy, unavailable, allow, mcp_tool_rate_limit,
}
use xiuxian.Server.Wire.{WireDirection, unspecified, wire_up, wire_down, wire_left, wire_right}
use xiuxian.Server.Message.{
  Message, state_message, bounds_message, talks_message, scan_message, move_message,
  direction_message, stop_message, transfer_message, seize_message, events_message, talk_message,
  respond_message, content_message, close_message,
}

-- What an argument of a tool holds.
pub data Argument (F : Type 0) : Type 0 where
  text_argument : String → Argument F
  number_value : F → Argument F
  other_argument : Argument F

-- The id stands as its JSON text.
pub record RpcRequest (F : Type 0) : Type 0 where
  pub id : String
  pub method : String
  pub name : String
  pub arguments : Dict (Argument F)

pub data Tool : Type 0 where
  get_game_rules get_state get_world_bounds scan move move_direction stop recent_events : Tool
  list_conversations request_conversation respond_conversation send_conversation_message : Tool
  close_conversation transfer_cultivation seize_cultivation : Tool

unfoldable pub tool_name : Tool → String
tool_name get_game_rules = "get_game_rules"
tool_name get_state = "get_state"
tool_name get_world_bounds = "get_world_bounds"
tool_name scan = "scan"
tool_name move = "move"
tool_name move_direction = "move_direction"
tool_name stop = "stop"
tool_name recent_events = "recent_events"
tool_name list_conversations = "list_conversations"
tool_name request_conversation = "request_conversation"
tool_name respond_conversation = "respond_conversation"
tool_name send_conversation_message = "send_conversation_message"
tool_name close_conversation = "close_conversation"
tool_name transfer_cultivation = "transfer_cultivation"
tool_name seize_cultivation = "seize_cultivation"

abbrev pub all_tools : List Tool
all_tools =
    get_game_rules ∷ get_state ∷ get_world_bounds ∷ scan ∷ move ∷ move_direction ∷ stop
    ∷ recent_events ∷ list_conversations ∷ request_conversation ∷ respond_conversation
    ∷ send_conversation_message ∷ close_conversation ∷ transfer_cultivation ∷ seize_cultivation ∷ []

-- The case of the switch on the tool's name.
unfoldable pub find_tool : String → List Tool → Option Tool
find_tool name [] = none
find_tool name (t ∷ ts) = if str_eq (tool_name t) name then some t else find_tool name ts

unfoldable pub tool_requires_expectation : Tool → Bool
tool_requires_expectation get_game_rules = false
tool_requires_expectation get_state = false
tool_requires_expectation get_world_bounds = false
tool_requires_expectation recent_events = false
tool_requires_expectation list_conversations = false
tool_requires_expectation t = true

-- What the gateway asks of the game server: the rules, or a message of WorldService.
pub data ServerCall : Type 0 where
  rules_call : ServerCall
  world_call : Message → ServerCall

-- What becomes of a tool call: an error of JSON-RPC, or a call of the server.
pub data Forward : Type 0 where
  rpc_error : ℤ → String → Forward
  sends : ServerCall → Forward

-- -32602
abbrev pub invalid_params : ℤ
invalid_params = negsuc 32601

unfoldable pub direction_named : String → WireDirection
direction_named s =
    if str_eq s "up"
    then wire_up
    else if str_eq s "down"
    then wire_down
    else if str_eq s "left"
    then wire_left
    else if str_eq s "right"
    then wire_right
    else unspecified

module _ (fl : Float64) where
  open fl use {F, of_int, mul, eq, whole_part, round, trunc}

  unfoldable pub text_of : Option (Argument F) → String
  text_of (some (text_argument s)) = s
  text_of a = ""

  unfoldable pub number_of : Option (Argument F) → Option F
  number_of (some (number_value x)) = some x
  number_of a = none

  unfoldable pub whole_of : Option F → Option ℤ
  whole_of none = none
  whole_of (some x) = if eq x (whole_part x) then some (trunc x) else none

  abbrev pub Arguments : Type 0
  Arguments = Dict (Argument F)

  unfoldable pub string_argument : Arguments → String → String
  string_argument arguments key = text_of (lookup key arguments)

  unfoldable pub direction_argument : Arguments → String → WireDirection
  direction_argument arguments key = direction_named (string_argument arguments key)

  unfoldable pub number_argument : Arguments → String → Option F
  number_argument arguments key = number_of (lookup key arguments)

  unfoldable pub integer_argument : Arguments → String → Option ℤ
  integer_argument arguments key = whole_of (number_argument arguments key)

  -- The given key, or one made of the request's id.
  unfoldable pub idempotency_key_of : RpcRequest F → String
  idempotency_key_of r =
      let key = string_argument r.arguments "idempotency_key" in
      if str_eq key "" then "mcp-" ⊕ trim_quotes r.id else key

  unfoldable pub move_call : String → Option F → Option F → ℤ → ℤ → Forward
  move_call key (some x) (some y) life version = sends (
      world_call (
        move_message key
          (some (record {
            x_milliunits = round (mul x (of_int (pos 1000)));
            y_milliunits = round (mul y (of_int (pos 1000)));
          }))
          life version))
  move_call key x y life version = rpc_error invalid_params "x and y are required"

  unfoldable pub with_whole : Option ℤ → String → (ℤ → Message) → Forward
  with_whole none missing f = rpc_error invalid_params missing
  with_whole (some n) missing f = sends (world_call (f n))

  -- The cases of the switch of callToolRPC.
  unfoldable pub tool_call : Tool → Arguments → String → ℤ → ℤ → Forward
  tool_call get_game_rules a key life version = sends rules_call
  tool_call get_state a key life version = sends (world_call state_message)
  tool_call get_world_bounds a key life version = sends (world_call bounds_message)
  tool_call scan a key life version = sends (world_call (scan_message life version))
  tool_call move a key life version =
      move_call key (number_argument a "x") (number_argument a "y") life version
  tool_call move_direction a key life version =
      with_whole (integer_argument a "speed") "speed is required"
        (λ speed. direction_message key (direction_argument a "direction") speed life version)
  tool_call stop a key life version = sends (world_call (stop_message key life version))
  tool_call recent_events a key life version = sends (world_call (events_message (pos 0) (pos 50)))
  tool_call list_conversations a key life version = sends (world_call talks_message)
  tool_call request_conversation a key life version =
      sends (world_call (talk_message (string_argument a "target_id") key life version))
  tool_call respond_conversation a key life version = sends (
      world_call (
        respond_message (string_argument a "conversation_id") key (string_argument a "action") life
          version))
  tool_call send_conversation_message a key life version = sends (
      world_call (
        content_message (string_argument a "conversation_id") key (string_argument a "content") life
          version))
  tool_call close_conversation a key life version =
      sends (world_call (close_message (string_argument a "conversation_id") key life version))
  tool_call transfer_cultivation a key life version =
      with_whole (integer_argument a "amount_minutes") "amount_minutes is required"
        (λ amount. transfer_message (string_argument a "target_id") key amount life version)
  tool_call seize_cultivation a key life version =
      sends (world_call (seize_message (string_argument a "target_id") key life version))

  -- expected_life_number and expected_state_version, both positive.
  unfoldable pub expectation_of : Option ℤ → Option ℤ → Option (ℤ × ℤ)
  expectation_of (some life) (some version) =
      if leb_ℤ life (pos 0) || leb_ℤ version (pos 0) then none else some (life, version)
  expectation_of life version = none

  unfoldable pub guarded_call : Tool → Arguments → String → Option (ℤ × ℤ) → Forward
  guarded_call t a key none =
      rpc_error invalid_params "expected_life_number and expected_state_version are required"
  guarded_call t a key (some (life, version)) = tool_call t a key life version

  unfoldable pub known_call : Option Tool → RpcRequest F → Forward
  known_call none r = rpc_error invalid_params "unknown tool"
  known_call (some t) r =
      let a = r.arguments in
      if tool_requires_expectation t
      then guarded_call t a (idempotency_key_of r) (
          expectation_of (integer_argument a "expected_life_number")
            (integer_argument a "expected_state_version"))
      else tool_call t a (idempotency_key_of r) (pos 0) (pos 0)

  unfoldable pub call_tool_rpc : RpcRequest F → Forward
  call_tool_rpc r = known_call (find_tool r.name all_tools) r
