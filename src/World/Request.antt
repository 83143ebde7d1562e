-- ===== src/World/Request.antt =====
-- The calls that the handlers of internal/service make of the world authority of
-- internal/biz/core.go, each with its arguments, and histories of such calls.
use xiuxian.Base.{Option, List, [], ◌∷◌, String}
use xiuxian.Base.Int.{ℤ}
use xiuxian.Rules.Units.{Position}
use xiuxian.Rules.Travel.{Direction}
use xiuxian.World.Host.{Host}
use xiuxian.World.Model.{World, CommandExpectation}
use xiuxian.World.Action.{Call}
use xiuxian.World.Moves.{move, move_direction, stop}
use xiuxian.World.Gifts.{transfer, seize}
use xiuxian.World.Scan.{scan}
use xiuxian.World.Talk.{
  request_conversation, respond_conversation, send_conversation_message, close_conversation,
  conversations,
}
use xiuxian.World.Accounts.{
  register, login, authenticate_session, logout, authenticate_api_key, rotate_mcp_key,
  revoke_mcp_key, state, settle_deadline, events, bounds,
}

pub data Request : Type 0 where
  register_request : String → Option String → String → String → String → Request
  login_request : Option String → String → String → Request
  session_request : String → Request
  logout_request : String → Request
  api_key_request : String → Request
  rotate_request : Option String → String → Request
  revoke_request : String → Request
  state_request : String → Request
  deadline_request : String → ℤ → Request
  events_request : String → ℤ → ℤ → Request
  bounds_request : Request
  move_request : String → String → Position → CommandExpectation → Request
  direction_request : String → String → Direction → ℤ → CommandExpectation → Request
  stop_request : String → String → CommandExpectation → Request
  scan_request : String → CommandExpectation → Request
  transfer_request : String → String → String → ℤ → CommandExpectation → Request
  seize_request : String → String → String → CommandExpectation → Request
  talk_request : String → String → String → CommandExpectation → Request
  respond_request : String → String → String → String → CommandExpectation → Request
  message_request : String → String → String → String → CommandExpectation → Request
  close_request : String → String → String → CommandExpectation → Request
  talks_request : String → Request

module _ (host : Host) where
  -- The world after a request, whatever it has answered.
  unfoldable pub serve_one : Call host.float.F → Request → World host → World host
  serve_one call (register_request salt fresh account password name) s =
      (register host call salt fresh account password name s).1
  serve_one call (login_request fresh account password) s =
      (login host call fresh account password s).1
  serve_one call (session_request token) s = (authenticate_session host call token s).1
  serve_one call (logout_request token) s = (logout host call token s).1
  serve_one call (api_key_request key) s = (authenticate_api_key host call key s).1
  serve_one call (rotate_request fresh k) s = (rotate_mcp_key host call fresh k s).1
  serve_one call (revoke_request k) s = (revoke_mcp_key host call k s).1
  serve_one call (state_request k) s = (state host call k s).1
  serve_one call (deadline_request k version) s = (settle_deadline host call k version s).1
  serve_one call (events_request k after limit) s = (events host call k after limit s).1
  serve_one call bounds_request s = (bounds host call s).1
  serve_one call (move_request k key goal e) s = (move host call k key goal e s).1
  serve_one call (direction_request k key d desired e) s =
      (move_direction host call k key d desired e s).1
  serve_one call (stop_request k key e) s = (stop host call k key e s).1
  serve_one call (scan_request k e) s = (scan host call k e s).1
  serve_one call (transfer_request k j key minutes e) s = (transfer host call k j key minutes e s).1
  serve_one call (seize_request k j key e) s = (seize host call k j key e s).1
  serve_one call (talk_request k j key e) s = (request_conversation host call k j key e s).1
  serve_one call (respond_request k id key action e) s =
      (respond_conversation host call k id key action e s).1
  serve_one call (message_request k id key content e) s =
      (send_conversation_message host call k id key content e s).1
  serve_one call (close_request k id key e) s = (close_conversation host call k id key e s).1
  serve_one call (talks_request k) s = (conversations host call k s).1

  abbrev pub History : Type 0
  History = List (Call host.float.F × Request)

  -- The world after a history of requests, one after the other, as the mutex has them.
  unfoldable pub serve : History → World host → World host
  serve [] s = s
  serve ((call, request) ∷ h) s = serve h (serve_one call request s)
