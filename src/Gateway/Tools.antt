-- ===== src/Gateway/Tools.antt =====
-- The tools that cmd/mcp-gateway/main.go lists, with the schema of each one's input. Every schema has
-- additionalProperties false; the descriptions are left out.
use xiuxian.Base.{List, [], ◌∷◌, ◌++◌, String, map}
use xiuxian.Gateway.{
  Tool, get_game_rules, get_state, get_world_bounds, scan, move, move_direction, stop,
  recent_events, list_conversations, request_conversation, respond_conversation,
  send_conversation_message, close_conversation, transfer_cultivation, seize_cultivation, tool_name,
  all_tools,
}

-- An integer is at least 1.
pub data FieldKind : Type 0 where
  string_field number_field integer_field : FieldKind
  one_of : List String → FieldKind

pub record InputSchema : Type 0 where
  pub properties : List (String × FieldKind)
  pub required : List String

pub record ToolEntry : Type 0 where
  pub name : String
  pub schema : InputSchema

abbrev expectation_fields : List (String × FieldKind)
expectation_fields =
    ("expected_life_number", integer_field) ∷ ("expected_state_version", integer_field) ∷ []

abbrev expectation_names : List String
expectation_names = "expected_life_number" ∷ "expected_state_version" ∷ []

-- A schema of no fields.
abbrev no_fields : InputSchema
no_fields = record { properties = []; required = [] }

-- A schema with the fields of an expectation; `keyed` also has an idempotency key, never required.
abbrev expecting : List (String × FieldKind) → List String → InputSchema
expecting fields names = record {
  properties = expectation_fields ++ fields;
  required = expectation_names ++ names;
}

abbrev keyed : List (String × FieldKind) → List String → InputSchema
keyed fields names = expecting (fields ++ ("idempotency_key", string_field) ∷ []) names

abbrev pub schema_of : Tool → InputSchema
schema_of get_game_rules = no_fields
schema_of get_state = no_fields
schema_of get_world_bounds = no_fields
schema_of scan = expecting [] []
schema_of move = keyed (("x", number_field) ∷ ("y", number_field) ∷ []) ("x" ∷ "y" ∷ [])
schema_of move_direction =
    keyed
      (("direction", one_of ("up" ∷ "down" ∷ "left" ∷ "right" ∷ []))
        ∷ ("speed", integer_field)
        ∷ [])
      ("direction" ∷ "speed" ∷ [])
schema_of stop = keyed [] []
schema_of recent_events = no_fields
schema_of list_conversations = no_fields
schema_of request_conversation = keyed (("target_id", string_field) ∷ []) ("target_id" ∷ [])
schema_of respond_conversation =
    keyed
      (("conversation_id", string_field)
        ∷ ("action", one_of ("accept" ∷ "reject" ∷ "ignore" ∷ []))
        ∷ [])
      ("conversation_id" ∷ "action" ∷ [])
schema_of send_conversation_message =
    keyed (("conversation_id", string_field) ∷ ("content", string_field) ∷ [])
      ("conversation_id" ∷ "content" ∷ [])
schema_of close_conversation =
    keyed (("conversation_id", string_field) ∷ []) ("conversation_id" ∷ [])
schema_of transfer_cultivation =
    keyed (("target_id", string_field) ∷ ("amount_minutes", integer_field) ∷ [])
      ("target_id" ∷ "amount_minutes" ∷ [])
schema_of seize_cultivation = keyed (("target_id", string_field) ∷ []) ("target_id" ∷ [])

unfoldable pub tool_entry : Tool → ToolEntry
tool_entry t = record { name = tool_name t; schema = schema_of t }

unfoldable pub tools : List ToolEntry
tools = map tool_entry all_tools
