-- ===== src/Server/Message.antt =====
-- The calls of WorldService and AuthService, of internal/service/world.go and
-- internal/service/auth.go, as messages, and the request to the world authority that each asks for.
use xiuxian.Base.{Bool, Option, none, some, String, ◌≡◌}
use xiuxian.Base.Int.{ℤ}
use xiuxian.World.Host.{Host}
use xiuxian.World.Request.{
  Request, register_request, login_request, session_request, logout_request, api_key_request,
  rotate_request, revoke_request, state_request, events_request, bounds_request, move_request,
  direction_request, stop_request, scan_request, transfer_request, seize_request, talk_request,
  respond_request, message_request, close_request, talks_request,
}
use xiuxian.Server.Wire.{WirePosition, WireDirection, direction_from_proto, command_expectation}
use xiuxian.Server.Door.{Incoming, Visit, Reply, reply, fails, Server}
use xiuxian.Server.Handlers.{
  get_state, get_world_bounds, handle_scan, handle_move, handle_move_direction, handle_stop,
  transfer_cultivation, seize_cultivation, list_recent_events, list_conversations,
  handle_request_conversation, handle_respond_conversation, handle_send_conversation_message,
  handle_close_conversation, handle_register, handle_login, handle_logout, handle_rotate_mcp_key,
  handle_revoke_mcp_key,
}

pub data Message : Type 0 where
  state_message bounds_message talks_message : Message
  scan_message : (life version : ℤ) → Message
  move_message : (key : String) → Option WirePosition → (life version : ℤ) → Message
  direction_message : (key : String) → WireDirection → (speed life version : ℤ) → Message
  stop_message : (key : String) → (life version : ℤ) → Message
  transfer_message : (target key : String) → (amount life version : ℤ) → Message
  seize_message : (target key : String) → (life version : ℤ) → Message
  events_message : (after limit : ℤ) → Message
  talk_message : (target key : String) → (life version : ℤ) → Message
  respond_message : (id key action : String) → (life version : ℤ) → Message
  content_message : (id key content : String) → (life version : ℤ) → Message
  close_message : (id key : String) → (life version : ℤ) → Message
  register_message : Bool → (salt : String) → Option String → (account pass name : String) → Message
  login_message : Bool → Option String → (account pass : String) → Message
  logout_message : Bool → Message
  rotate_message : Option String → (expected : String) → Message
  revoke_message : (expected : String) → Message

module _ (host : Host) (v : Visit host.float.F) (i : Incoming) where
  -- The server after a message, whatever it has answered.
  unfoldable pub receive : Message → Server host → Server host
  receive state_message s = (get_state host v i s).1
  receive bounds_message s = (get_world_bounds host v i s).1
  receive talks_message s = (list_conversations host v i s).1
  receive (scan_message life version) s = (handle_scan host v i life version s).1
  receive (move_message key goal life version) s = (handle_move host v i key goal life version s).1
  receive (direction_message key d speed life version) s =
      (handle_move_direction host v i key d speed life version s).1
  receive (stop_message key life version) s = (handle_stop host v i key life version s).1
  receive (transfer_message target key amount life version) s =
      (transfer_cultivation host v i target key amount life version s).1
  receive (seize_message target key life version) s =
      (seize_cultivation host v i target key life version s).1
  receive (events_message after limit) s = (list_recent_events host v i after limit s).1
  receive (talk_message target key life version) s =
      (handle_request_conversation host v i target key life version s).1
  receive (respond_message id key action life version) s =
      (handle_respond_conversation host v i id key action life version s).1
  receive (content_message id key content life version) s =
      (handle_send_conversation_message host v i id key content life version s).1
  receive (close_message id key life version) s =
      (handle_close_conversation host v i id key life version s).1
  receive (register_message secure salt fresh account pass name) s =
      (handle_register host v i secure salt fresh account pass name s).1
  receive (login_message secure fresh account pass) s =
      (handle_login host v i secure fresh account pass s).1
  receive (logout_message secure) s = (handle_logout host v i secure s).1
  receive (rotate_message fresh expected) s = (handle_rotate_mcp_key host v i fresh expected s).1
  receive (revoke_message expected) s = (handle_revoke_mcp_key host v i expected s).1

-- A check of a credential.
abbrev pub IsCheck : Request → Type 0
IsCheck (session_request token) = Unit {0}
IsCheck (api_key_request key) = Unit {0}
IsCheck r = ⊥

-- The request that a message asks for, made as the role k; none for those that no role makes.
abbrev pub wish : Message → String → Option Request
wish state_message k = some (state_request k)
wish bounds_message k = some bounds_request
wish talks_message k = some (talks_request k)
wish (scan_message life version) k = some (scan_request k (command_expectation life version))
wish (move_message key none life version) k = none
wish (move_message key (some p) life version) k = some (
    move_request k key (record { x = p.x_milliunits; y = p.y_milliunits })
      (command_expectation life version))
wish (direction_message key d speed life version) k =
    some (direction_request k key (direction_from_proto d) speed (command_expectation life version))
wish (stop_message key life version) k =
    some (stop_request k key (command_expectation life version))
wish (transfer_message target key amount life version) k =
    some (transfer_request k target key amount (command_expectation life version))
wish (seize_message target key life version) k =
    some (seize_request k target key (command_expectation life version))
wish (events_message after limit) k = some (events_request k after limit)
wish (talk_message target key life version) k =
    some (talk_request k target key (command_expectation life version))
wish (respond_message id key action life version) k =
    some (respond_request k id key action (command_expectation life version))
wish (content_message id key content life version) k =
    some (message_request k id key content (command_expectation life version))
wish (close_message id key life version) k =
    some (close_request k id key (command_expectation life version))
wish (rotate_message fresh expected) k = some (rotate_request fresh k)
wish (revoke_message expected) k = some (revoke_request k)
wish m k = none

-- The request that a message without a role asks for, with the session cookie that came with it.
abbrev pub open_wish : Message → Option String → Option Request
open_wish (register_message secure salt fresh account pass name) cookie =
    some (register_request salt fresh account pass name)
open_wish (login_message secure fresh account pass) cookie = some (login_request fresh account pass)
open_wish (logout_message secure) (some token) = some (logout_request token)
open_wish m cookie = none

-- A role may have made the request: the credentials are its own.
abbrev pub MadeBy : Message → Reply String → Request → Type 0
MadeBy m (reply k) r = wish m k ≡ some r
MadeBy m (fails e) r = ⊥
