-- ===== src/Server/Handlers.antt =====
-- The handlers of WorldService and AuthService, of internal/service/world.go and
-- internal/service/auth.go.
use xiuxian.Base.{Bool, not, Option, none, some, List, map, String, if◌then◌else◌}
use xiuxian.Base.Int.{ℤ, pos, negsuc}
use xiuxian.Base.Text.{str_eq, is_blank}
use xiuxian.Rules.Units.{Position}
use xiuxian.World.Host.{Host}
use xiuxian.World.Model.{Conversation, ConversationMessage}
use xiuxian.World.Action.{Action}
use xiuxian.Limit.{registration_rate_limit, login_rate_limit}
use xiuxian.Server.Fault.{error_target_required, error_bad_request, error_precondition_failed}
use xiuxian.Server.Usecase.{
  use_register, use_login, use_logout, use_rotate_mcp_key, use_revoke_mcp_key, use_state, use_move,
  use_move_direction, use_stop, use_scan, use_transfer, use_seize, use_request_conversation,
  use_respond_conversation, use_send_conversation_message, use_close_conversation,
  use_conversations, use_events, use_bounds,
}
use xiuxian.Server.Wire.{
  WirePosition, WireState, WireBounds, WireScan, WireEvent, WireDirection, direction_from_proto,
  command_expectation, wire_bounds, role_state, scan_response, wire_event,
}
use xiuxian.Server.Door.{
  Incoming, Visit, Handler, ◌>>=◌, answer, refuse, ask, authenticate, cookie_of, limit_public_auth,
}

-- A cookie that setSessionCookie sets: its value and its age in seconds, and whether it is Secure.
pub record SessionCookie : Type 0 where
  pub value : String
  pub max_age : ℤ
  pub secure : Bool

module _ (host : Host) (v : Visit host.float.F) (i : Incoming) where
  abbrev F : Type 0
  F = host.float.F

  -- authenticate, then a use case for the role.
  unfoldable pub as_role : {A : Type 0} → (String → Action host A) → Handler host A
  as_role act = authenticate host v i >>= λ k. ask host (act k)

  unfoldable pub then_reply : {A B : Type 0} → Handler host A → (A → B) → Handler host B
  then_reply m f = m >>= λ a. answer (f a)

  unfoldable pub get_state : Handler host WireState
  get_state = then_reply (as_role (use_state host v.command_call)) (role_state host.float)

  unfoldable pub get_world_bounds : Handler host WireBounds
  get_world_bounds =
      then_reply (as_role (λ _. use_bounds host v.command_call)) (wire_bounds host.float)

  unfoldable pub handle_scan : ℤ → ℤ → Handler host (WireScan F)
  handle_scan life version =
      then_reply (as_role (λ k. use_scan host v.command_call k (command_expectation life version)))
        (scan_response host.float)

  abbrev pub target_of : WirePosition → Position
  target_of p = record { x = p.x_milliunits; y = p.y_milliunits }

  unfoldable pub move_to : String → ℤ → ℤ → Option WirePosition → String → Handler host WireState
  move_to key life version none k = refuse (error_target_required "target is required")
  move_to key life version (some p) k =
      then_reply
        (ask host
          (use_move host v.command_call k key (target_of p) (command_expectation life version)))
        (role_state host.float)

  unfoldable pub handle_move : String → Option WirePosition → ℤ → ℤ → Handler host WireState
  handle_move key goal life version = authenticate host v i >>= λ k. move_to key life version goal k

  unfoldable pub handle_move_direction : String → WireDirection → ℤ → ℤ → ℤ → Handler host WireState
  handle_move_direction key d speed life version =
      then_reply
        (as_role (λ k.
          use_move_direction host v.command_call k key (direction_from_proto d) speed
            (command_expectation life version)))
        (role_state host.float)

  unfoldable pub handle_stop : String → ℤ → ℤ → Handler host WireState
  handle_stop key life version =
      then_reply
        (as_role (λ k. use_stop host v.command_call k key (command_expectation life version)))
        (role_state host.float)

  unfoldable pub transfer_cultivation : String → String → ℤ → ℤ → ℤ → Handler host WireState
  transfer_cultivation target key amount life version =
      then_reply
        (as_role (λ k.
          use_transfer host v.command_call k target key amount (command_expectation life version)))
        (role_state host.float)

  unfoldable pub seize_cultivation : String → String → ℤ → ℤ → Handler host WireState
  seize_cultivation target key life version =
      then_reply
        (as_role
          (λ k. use_seize host v.command_call k target key (command_expectation life version)))
        (role_state host.float)

  unfoldable pub list_recent_events : ℤ → ℤ → Handler host (List (WireEvent F))
  list_recent_events after limit =
      then_reply (as_role (λ k. use_events host v.command_call k after limit))
        (map (wire_event host.float))

  unfoldable pub list_conversations : Handler host (List Conversation)
  list_conversations = as_role (use_conversations host v.command_call)

  unfoldable pub handle_request_conversation : String → String → ℤ → ℤ → Handler host Conversation
  handle_request_conversation target key life version = as_role (λ k.
      use_request_conversation host v.command_call k target key (command_expectation life version))

  unfoldable pub handle_respond_conversation :
      String → String → String → ℤ → ℤ → Handler host Conversation
  handle_respond_conversation id key action life version = as_role (λ k.
      use_respond_conversation host v.command_call k id key action
        (command_expectation life version))

  unfoldable pub handle_send_conversation_message :
      String → String → String → ℤ → ℤ → Handler host ConversationMessage
  handle_send_conversation_message id key content life version = as_role (λ k.
      use_send_conversation_message host v.command_call k id key content
        (command_expectation life version))

  unfoldable pub handle_close_conversation : String → String → ℤ → ℤ → Handler host Conversation
  handle_close_conversation id key life version =
      as_role (λ k.
        use_close_conversation host v.command_call k id key (command_expectation life version))

  abbrev day_seconds : ℤ
  day_seconds = pos 86400

  -- setSessionCookie: none where the context has no HTTP response to write to.
  unfoldable pub session_cookie : Bool → String → ℤ → Option SessionCookie
  session_cookie secure token max_age = elim i.http [
    | none ↦ none
    | some _ ↦ some (record { value = token; max_age = max_age; secure = secure })
  ]

  unfoldable pub handle_register :
      Bool
      → String
      → Option String
      → String
      → String
      → String
      → Handler host (WireState × Option SessionCookie)
  handle_register secure salt fresh account password role_name =
      limit_public_auth host v i "registration" "" (registration_rate_limit host.float) >>= λ _.
      then_reply (ask host (use_register host v.command_call salt fresh account password role_name))
        (λ r. (role_state host.float r.1, session_cookie secure r.0 day_seconds))

  unfoldable pub handle_login :
      Bool → Option String → String → String → Handler host (WireState × Option SessionCookie)
  handle_login secure fresh account password =
      limit_public_auth host v i "login" account (login_rate_limit host.float) >>= λ _.
      then_reply (ask host (use_login host v.command_call fresh account password))
        (λ r. (role_state host.float r.1, session_cookie secure r.0 day_seconds))

  -- Without a cookie there is no session to end.
  unfoldable pub end_session : Option String → Handler host (Unit {0})
  end_session none = answer tt
  end_session (some token) = ask host (use_logout host v.command_call token)

  unfoldable pub handle_logout : Bool → Handler host (Option SessionCookie)
  handle_logout secure =
      then_reply (end_session (cookie_of host i)) (λ _. session_cookie secure "" (negsuc 0))

  -- The role that the caller expects to act for.
  unfoldable pub confirmed :
      {A : Type 0} → String → String → String → Handler host A → Handler host A
  confirmed expected k changed act s =
      if is_blank expected
      then refuse (error_bad_request "expected role id is required") s
      else if not (str_eq expected k)
      then refuse (error_precondition_failed changed) s
      else act s

  unfoldable pub handle_rotate_mcp_key : Option String → String → Handler host String
  handle_rotate_mcp_key fresh expected = authenticate host v i >>= λ k.
      confirmed expected k "browser role changed; refresh before rotating MCP key"
        (ask host (use_rotate_mcp_key host v.command_call fresh k))

  unfoldable pub handle_revoke_mcp_key : String → Handler host (Unit {0})
  handle_revoke_mcp_key expected = authenticate host v i >>= λ k.
      confirmed expected k "browser role changed; refresh before revoking MCP key"
        (ask host (use_revoke_mcp_key host v.command_call k))
