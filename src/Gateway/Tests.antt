-- ===== src/Gateway/Tests.antt =====
-- Instances of what is proved of cmd/mcp-gateway/main.go.
use xiuxian.Base.{true, none, some, [], ◌∷◌, String, ◌≡◌, ◌≢◌, refl, arith}
use xiuxian.Base.Int.{le_of_leb_ℤ, ◌≤ℤ◌, ◌<ℤ◌, ℤ, pos, quot, rem, ◌*ℤ◌, ◌-ℤ◌, ◌+ℤ◌}
use xiuxian.Base.Dict.{lookup}
use xiuxian.Base.Text.{after_prefix, trim_quotes}
use xiuxian.Rules.Units.{seconds}
use xiuxian.Rules.Tests.{whole_numbers}
use xiuxian.Limit.{
  no_redis, decided, allow, mcp_tool_rate_limit, allow_in_memory, sound_policy, use_bucket,
  bucket_or_new, refill, spend, sweep,
}
use xiuxian.Server.Message.{move_message}
use xiuxian.Gateway.{
  known_call, find_tool, tool_name, tool_requires_expectation, guarded_call, tool_call, move_call,
  expectation_of, integer_argument, number_argument, number_of, whole_of, string_argument, text_of,
  idempotency_key_of, RpcRequest, number_value, ServerCall, world_call, sends, move, call_tool_rpc,
}
use xiuxian.Gateway.Front.{serve_http, rpc_response, limited_response, forward_response}
use xiuxian.Gateway.Tools.{tool_entry}
use xiuxian.Gateway.Agrees.{call_tool_rpc-sends}
use xiuxian.Gateway.Guards.{IsGuardedCall, serve_http-guarded}

-- A move to (3, 4).
abbrev move_request : RpcRequest ℤ
move_request = record {
  id = "1";
  method = "tools/call";
  name = "move";
  arguments =
      ("x", number_value (pos 3))
      ∷ ("y", number_value (pos 4))
      ∷ ("expected_life_number", number_value (pos 1))
      ∷ ("expected_state_version", number_value (pos 7))
      ∷ [];
}

one_or_more : (x : ℤ) → pos 1 ≤ℤ x → pos 0 <ℤ x
one_or_more x h = omega arith

call_tool_rpc-sends_example :
    (c : ServerCall) × (call_tool_rpc whole_numbers move_request ≡ sends c)
unfolding tool_entry lookup tool_name
call_tool_rpc-sends_example =
    call_tool_rpc-sends whole_numbers move move_request refl
      (
        ((refl, refl), ((refl, refl), (tt, (tt, (tt, tt))))),
        (
          (λ e. ground arith),
          ((λ e. ground arith), ((λ e. ground arith), ((λ e. ground arith), tt))),
        ),
      )
      (refl, (refl, (tt, (tt, (tt, tt)))))
      (λ x least below. one_or_more x (le_of_leb_ℤ (pos 1) x least))

abbrev move_sent : ServerCall
move_sent = world_call (
    move_message "mcp-1" (some (record { x_milliunits = pos 3000; y_milliunits = pos 4000 }))
      (pos 1) (pos 7))

abbrev key : String
key = "Bearer xiu_secret"

serve_http-guarded_example :
    (key ≡ key)
    × ((allow whole_numbers no_redis
          (pos 0)
          "mcp_tool"
          key
          (mcp_tool_rate_limit whole_numbers)
          []).0
        ≡ decided true)
    × (after_prefix "Bearer xiu_" key ≢ none)
    × IsGuardedCall move_sent
unfolding serve_http rpc_response limited_response forward_response call_tool_rpc known_call
    find_tool tool_name tool_requires_expectation guarded_call tool_call move_call expectation_of
    integer_argument number_argument number_of whole_of string_argument text_of idempotency_key_of
    trim_quotes after_prefix lookup allow allow_in_memory sound_policy use_bucket bucket_or_new
    refill spend sweep seconds quot rem ◌*ℤ◌ ◌-ℤ◌ ◌+ℤ◌
serve_http-guarded_example =
    serve_http-guarded whole_numbers no_redis (pos 0) none "POST" "/mcp" key (some move_request) []
      key move_sent refl
