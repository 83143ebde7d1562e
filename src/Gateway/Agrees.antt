-- ===== src/Gateway/Agrees.antt =====
-- The schemas that cmd/mcp-gateway/main.go shows and the checks that it makes.
use xiuxian.Base.{Option, none, some, String, ◌≡◌, ◌≢◌, refl}
use xiuxian.Base.Int.{ℤ, pos, ◌<ℤ◌, leb_ℤ-false}
use xiuxian.Base.Float.{Float64}
use xiuxian.Base.Dict.{lookup}
use xiuxian.Gateway.{
  Argument, text_argument, number_value, other_argument, RpcRequest, Tool, get_game_rules,
  get_state, get_world_bounds, scan, move, move_direction, stop, recent_events, list_conversations,
  request_conversation, respond_conversation, send_conversation_message, close_conversation,
  transfer_cultivation, seize_cultivation, tool_name, all_tools, find_tool,
  tool_requires_expectation, ServerCall, world_call, sends, number_of, whole_of, Arguments,
  number_argument, integer_argument, idempotency_key_of, move_call, with_whole, tool_call,
  expectation_of, guarded_call, known_call, call_tool_rpc,
}
use xiuxian.Server.Message.{Message}
use xiuxian.Gateway.Tools.{tool_entry, number_field, integer_field, schema_of}
use xiuxian.Gateway.Schemas.{
  FieldOk, Accepts, IntegersFit, Truncates, FieldRead, Reads, fields_read,
}

module _ (fl : Float64) where
  open fl use {F, eq, le, lt, of_int, whole_part, trunc}

  number_ok :
      (o : Option (Argument F))
      → FieldOk fl number_field o
      → o ≢ none
      → (x : F) × (number_of fl o ≡ some x)
  unfolding number_of
  number_ok none h p = absurd (p refl)
  number_ok (some (number_value x)) h p = (x, refl)
  number_ok (some (text_argument s)) h p = absurd h
  number_ok (some other_argument) h p = absurd h

  integer_ok :
      (o : Option (Argument F))
      → FieldRead fl integer_field o
      → o ≢ none
      → (n : ℤ) × (whole_of fl (number_of fl o) ≡ some n) × (pos 0 <ℤ n)
  unfolding number_of whole_of
  integer_ok none h p = absurd (p refl)
  integer_ok (some (number_value x)) h p = (trunc x, rw h.0 refl, h.1)
  integer_ok (some (text_argument s)) h p = absurd h
  integer_ok (some other_argument) h p = absurd h

  expectation_ok :
      (a : Arguments fl)
      → FieldRead fl integer_field (lookup "expected_life_number" a)
      → FieldRead fl integer_field (lookup "expected_state_version" a)
      → lookup "expected_life_number" a ≢ none
      → lookup "expected_state_version" a ≢ none
      → (e : ℤ × ℤ) × (expectation_of fl
            (integer_argument fl a "expected_life_number")
            (integer_argument fl a "expected_state_version")
          ≡ some e)
  unfolding integer_argument number_argument expectation_of
  expectation_ok a l v pl pv =
      let (life, found_life, positive_life) = integer_ok (lookup "expected_life_number" a) l pl in
      let (version, found_version, positive_version) =
        integer_ok (lookup "expected_state_version" a) v pv in
      (
        (life, version),
        rw
            (
              found_life,
              found_version,
              leb_ℤ-false life (pos 0) positive_life,
              leb_ℤ-false version (pos 0) positive_version,
            )
            refl,
      )

  move_call-sends :
      (key : String) (x y : F) (life version : ℤ)
      → (c : ServerCall) × (move_call fl key (some x) (some y) life version ≡ sends c)
  unfolding move_call
  move_call-sends key x y life version = (_, refl)

  with_whole-sends :
      (o : Option ℤ) (n : ℤ) (missing : String) (f : ℤ → Message)
      → o ≡ some n
      → (c : ServerCall) × (with_whole fl o missing f ≡ sends c)
  unfolding with_whole
  with_whole-sends o n missing f e = (world_call (f n), rw e refl)

  -- A call that the schema accepts is sent, whatever its key and its expectation.
  tool_call-sends :
      (t : Tool) (a : Arguments fl) (key : String) (life version : ℤ)
      → Reads fl (schema_of t) a
      → (c : ServerCall) × (tool_call fl t a key life version ≡ sends c)
  unfolding tool_call number_argument integer_argument
  tool_call-sends move a key life version h =
      let (x, found_x) = number_ok (lookup "x" a) h.0.1.1.0 h.1.1.1.0 in
      let (y, found_y) = number_ok (lookup "y" a) h.0.1.1.1.0 h.1.1.1.1.0 in
      rw (found_x, found_y) (move_call-sends key x y life version)
  tool_call-sends move_direction a key life version h =
      let (n, found, positive) = integer_ok (lookup "speed" a) h.0.1.1.1.0 h.1.1.1.1.0 in
      with_whole-sends _ n _ _ found
  tool_call-sends transfer_cultivation a key life version h =
      let (n, found, positive) = integer_ok (lookup "amount_minutes" a) h.0.1.1.1.0 h.1.1.1.1.0 in
      with_whole-sends _ n _ _ found
  tool_call-sends get_game_rules a key life version h = (_, refl)
  tool_call-sends get_state a key life version h = (_, refl)
  tool_call-sends get_world_bounds a key life version h = (_, refl)
  tool_call-sends recent_events a key life version h = (_, refl)
  tool_call-sends list_conversations a key life version h = (_, refl)
  tool_call-sends scan a key life version h = (_, refl)
  tool_call-sends stop a key life version h = (_, refl)
  tool_call-sends request_conversation a key life version h = (_, refl)
  tool_call-sends respond_conversation a key life version h = (_, refl)
  tool_call-sends send_conversation_message a key life version h = (_, refl)
  tool_call-sends close_conversation a key life version h = (_, refl)
  tool_call-sends seize_cultivation a key life version h = (_, refl)

  find_tool-name : (t : Tool) → find_tool (tool_name t) all_tools ≡ some t
  unfolding find_tool tool_name
  find_tool-name get_game_rules = refl
  find_tool-name t = refl

  guarded_call-sends :
      (t : Tool) (a : Arguments fl) (key : String)
      → FieldRead fl integer_field (lookup "expected_life_number" a)
      → FieldRead fl integer_field (lookup "expected_state_version" a)
      → lookup "expected_life_number" a ≢ none
      → lookup "expected_state_version" a ≢ none
      → Reads fl (schema_of t) a
      → (c : ServerCall) × (guarded_call fl t a key (
            expectation_of fl
              (integer_argument fl a "expected_life_number")
              (integer_argument fl a "expected_state_version"))
          ≡ sends c)
  unfolding guarded_call
  guarded_call-sends t a key l v pl pv h =
      let (e, found) = expectation_ok a l v pl pv in rw found (tool_call-sends t a key e.0 e.1 h)

  known_call-sends :
      (t : Tool) (r : RpcRequest F)
      → Reads fl (schema_of t) r.arguments
      → (c : ServerCall) × (known_call fl (some t) r ≡ sends c)
  unfolding known_call tool_requires_expectation
  known_call-sends get_game_rules r h = tool_call-sends get_game_rules r.arguments _ _ _ h
  known_call-sends get_state r h = tool_call-sends get_state r.arguments _ _ _ h
  known_call-sends get_world_bounds r h = tool_call-sends get_world_bounds r.arguments _ _ _ h
  known_call-sends recent_events r h = tool_call-sends recent_events r.arguments _ _ _ h
  known_call-sends list_conversations r h = tool_call-sends list_conversations r.arguments _ _ _ h
  known_call-sends scan r h = guarded_call-sends scan r.arguments _ h.0.0 h.0.1.0 h.1.0 h.1.1.0 h
  known_call-sends move r h = guarded_call-sends move r.arguments _ h.0.0 h.0.1.0 h.1.0 h.1.1.0 h
  known_call-sends move_direction r h =
      guarded_call-sends move_direction r.arguments _ h.0.0 h.0.1.0 h.1.0 h.1.1.0 h
  known_call-sends stop r h = guarded_call-sends stop r.arguments _ h.0.0 h.0.1.0 h.1.0 h.1.1.0 h
  known_call-sends request_conversation r h =
      guarded_call-sends request_conversation r.arguments _ h.0.0 h.0.1.0 h.1.0 h.1.1.0 h
  known_call-sends respond_conversation r h =
      guarded_call-sends respond_conversation r.arguments _ h.0.0 h.0.1.0 h.1.0 h.1.1.0 h
  known_call-sends send_conversation_message r h =
      guarded_call-sends send_conversation_message r.arguments _ h.0.0 h.0.1.0 h.1.0 h.1.1.0 h
  known_call-sends close_conversation r h =
      guarded_call-sends close_conversation r.arguments _ h.0.0 h.0.1.0 h.1.0 h.1.1.0 h
  known_call-sends transfer_cultivation r h =
      guarded_call-sends transfer_cultivation r.arguments _ h.0.0 h.0.1.0 h.1.0 h.1.1.0 h
  known_call-sends seize_cultivation r h =
      guarded_call-sends seize_cultivation r.arguments _ h.0.0 h.0.1.0 h.1.0 h.1.1.0 h

  -- The gateway keeps what its tool list promises, for integers below 2^63: a call of a listed tool
  -- whose arguments the schema of its input accepts is sent to the game server, and not refused by
  -- the gateway, if converting a float64 from 1 on and below 2^63 to int64 gives a positive number.
  pub call_tool_rpc-sends :
      (t : Tool) (r : RpcRequest F)
      → r.name ≡ (tool_entry t).name
      → Accepts fl (tool_entry t).schema r.arguments
      → IntegersFit fl (tool_entry t).schema.properties r.arguments
      → Truncates fl
      → (c : ServerCall) × (call_tool_rpc fl r ≡ sends c)
  unfolding call_tool_rpc tool_entry known_call idempotency_key_of
  call_tool_rpc-sends t r e h fit truncates =
      let read = fields_read fl (schema_of t).properties r.arguments truncates h.0 fit in
      rw (e, find_tool-name t) (known_call-sends t r (read, h.1))
