-- ===== src/Server/Usecase.antt =====
-- WorldUsecase of internal/biz/world.go: a call is not made for a context that is done. The failures
-- that Register and Login log leave no trace in the world.
use xiuxian.Base.{Bool, Option, List, String, if◌then◌else◌}
use xiuxian.Base.Int.{ℤ}
use xiuxian.Rules.Units.{Position}
use xiuxian.Rules.Travel.{Direction}
use xiuxian.World.Host.{Host}
use xiuxian.World.Model.{
  State, Conversation, ConversationMessage, Event, CommandExpectation, cancelled_call,
}
use xiuxian.World.Action.{Action, err, Call}
use xiuxian.World.Moves.{move, move_direction, stop}
use xiuxian.World.Gifts.{transfer, seize}
use xiuxian.World.Scan.{ScanResult, scan}
use xiuxian.World.Talk.{
  request_conversation, respond_conversation, send_conversation_message, close_conversation,
  conversations,
}
use xiuxian.World.Accounts.{
  Bounds, register, login, authenticate_session, logout, authenticate_api_key, rotate_mcp_key,
  revoke_mcp_key, state, settle_deadline, events, bounds,
}

module _ (host : Host) (call : Call host.float.F) where
  -- if err := ctx.Err(); err != nil { return err }
  unfoldable pub under_context : {A : Type 0} → Action host A → Action host A
  under_context act s = if call.cancelled then (err cancelled_call, s) else act s

  abbrev pub use_register :
      String → Option String → String → String → String → Action host (String × State host.float.F)
  use_register salt fresh account password role_name =
      under_context (register host call salt fresh account password role_name)

  abbrev pub use_login : Option String → String → String → Action host (String × State host.float.F)
  use_login fresh account password = under_context (login host call fresh account password)

  abbrev pub use_authenticate_session : String → Action host String
  use_authenticate_session token = under_context (authenticate_session host call token)

  abbrev pub use_logout : String → Action host (Unit {0})
  use_logout token = under_context (logout host call token)

  abbrev pub use_authenticate_api_key : String → Action host String
  use_authenticate_api_key key = under_context (authenticate_api_key host call key)

  abbrev pub use_rotate_mcp_key : Option String → String → Action host String
  use_rotate_mcp_key fresh k = under_context (rotate_mcp_key host call fresh k)

  abbrev pub use_revoke_mcp_key : String → Action host (Unit {0})
  use_revoke_mcp_key k = under_context (revoke_mcp_key host call k)

  abbrev pub use_state : String → Action host (State host.float.F)
  use_state k = under_context (state host call k)

  abbrev pub use_settle_deadline : String → ℤ → Action host Bool
  use_settle_deadline k version = under_context (settle_deadline host call k version)

  abbrev pub use_move :
      String → String → Position → CommandExpectation → Action host (State host.float.F)
  use_move k key goal e = under_context (move host call k key goal e)

  abbrev pub use_move_direction :
      String → String → Direction → ℤ → CommandExpectation → Action host (State host.float.F)
  use_move_direction k key d speed e = under_context (move_direction host call k key d speed e)

  abbrev pub use_stop : String → String → CommandExpectation → Action host (State host.float.F)
  use_stop k key e = under_context (stop host call k key e)

  abbrev pub use_scan : String → CommandExpectation → Action host (ScanResult host.float.F)
  use_scan k e = under_context (scan host call k e)

  abbrev pub use_transfer :
      String → String → String → ℤ → CommandExpectation → Action host (State host.float.F)
  use_transfer k j key amount e = under_context (transfer host call k j key amount e)

  abbrev pub use_seize :
      String → String → String → CommandExpectation → Action host (State host.float.F)
  use_seize k j key e = under_context (seize host call k j key e)

  abbrev pub use_request_conversation :
      String → String → String → CommandExpectation → Action host Conversation
  use_request_conversation k j key e = under_context (request_conversation host call k j key e)

  abbrev pub use_respond_conversation :
      String → String → String → String → CommandExpectation → Action host Conversation
  use_respond_conversation k id key action e =
      under_context (respond_conversation host call k id key action e)

  abbrev pub use_send_conversation_message :
      String → String → String → String → CommandExpectation → Action host ConversationMessage
  use_send_conversation_message k id key content e =
      under_context (send_conversation_message host call k id key content e)

  abbrev pub use_close_conversation :
      String → String → String → CommandExpectation → Action host Conversation
  use_close_conversation k id key e = under_context (close_conversation host call k id key e)

  abbrev pub use_conversations : String → Action host (List Conversation)
  use_conversations k = under_context (conversations host call k)

  abbrev pub use_events : String → ℤ → ℤ → Action host (List (Event host.float.F))
  use_events k after limit = under_context (events host call k after limit)

  abbrev pub use_bounds : Action host (Bounds host.float.F)
  use_bounds = under_context (bounds host call)
