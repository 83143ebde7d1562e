-- ===== src/Server/Requests.antt =====
-- What any message to internal/service may do to the world.
use xiuxian.Base.{◌∙◌, Bool, none, some, String, ◌≡◌, ◌⊎◌, inl, inr, refl, Option, subst}
use xiuxian.World.Host.{Host}
use xiuxian.World.Model.{World}
use xiuxian.World.Request.{
  Request, register_request, login_request, logout_request, rotate_request, revoke_request,
  state_request, events_request, bounds_request, move_request, direction_request, stop_request,
  scan_request, transfer_request, seize_request, talk_request, respond_request, message_request,
  close_request, talks_request, serve_one,
}
use xiuxian.World.Action.{Action}
use xiuxian.Base.Int.{ℤ}
use xiuxian.Server.Usecase.{under_context}
use xiuxian.Server.Wire.{WirePosition, command_expectation, direction_from_proto}
use xiuxian.Server.Door.{
  Incoming, Visit, Reply, reply, fails, Server, Handler, authenticate, cookie_of, pass_on,
}
use xiuxian.Server.Handlers.{
  as_role, then_reply, get_state, get_world_bounds, handle_scan, move_to, handle_move,
  handle_move_direction, handle_stop, transfer_cultivation, seize_cultivation, list_recent_events,
  list_conversations, handle_request_conversation, handle_respond_conversation,
  handle_send_conversation_message, handle_close_conversation, handle_register, handle_login,
  end_session, handle_logout, handle_rotate_mcp_key, handle_revoke_mcp_key,
}
use xiuxian.Server.Message.{
  Message, state_message, bounds_message, talks_message, scan_message, move_message,
  direction_message, stop_message, transfer_message, seize_message, events_message, talk_message,
  respond_message, content_message, close_message, register_message, login_message, logout_message,
  rotate_message, revoke_message, MadeBy, wish, open_wish, receive,
}
use xiuxian.Server.Carried.{Checked-refl, Done, nothing, limit_public_auth-world}
use xiuxian.Server.Served.{
  Served, Done-weaker, Served-weaker, role-Served, ask-Done, then_reply-Served, then_reply-Done,
  confirmed-Done,
}

module _ (host : Host) (v : Visit host.float.F) (i : Incoming) where
  -- A request that a message may make: its own, as the role that the credentials stand for, or
  -- one that needs no role.
  abbrev pub Permitted : Message → Server host → Request → Type 0
  Permitted m s r =
      MadeBy m (authenticate host v i s).0 r ⊎ (open_wish m (cookie_of host i) ≡ some r)

  move_to-Done :
      (key : String) (life version : ℤ) (goal : Option WirePosition) (k : String) (t : Server host)
      → Done host
          (λ r. wish (move_message key goal life version) k ≡ some r)
          v.command_call
          t.world
          (move_to host v i key life version goal k t).1.world
  unfolding move_to serve_one
  move_to-Done key life version none k t = nothing refl
  move_to-Done key life version (some p) k t = then_reply-Done host v i _ _ t (
      ask-Done host v.command_call
        (move_request k key (record { x = p.x_milliunits; y = p.y_milliunits })
          (command_expectation life version))
        _ t refl)

  role_only :
      {A : Type 0} (m : Message) (req : String → Request) (act : String → Action host A)
      (s : Server host)
      → ((k : String) (w : World host)
          → (wish m k ≡ some (req k)) × ((act k w).1 ≡ serve_one host v.command_call (req k) w))
      → Served host
          (Permitted m s)
          v.command_call
          s.world
          (as_role host v i (λ k. under_context host v.command_call (act k)) s).1.world
  unfolding as_role
  role_only m req act s h =
      Served-weaker host (λ r p. inl p)
        (role-Served host v i m _ s (λ k t.
          Done-weaker host (λ r e. (h k t.world).0 ∙ e)
            (ask-Done host v.command_call (req k) (act k) t (h k t.world).1)))

  role_answer :
      {A B : Type 0} (m : Message) (req : String → Request) (act : String → Action host A)
      (f : A → B) (s : Server host)
      → ((k : String) (w : World host)
          → (wish m k ≡ some (req k)) × ((act k w).1 ≡ serve_one host v.command_call (req k) w))
      → Served host
          (Permitted m s)
          v.command_call
          s.world
          (then_reply host v i
            (as_role host v i (λ k. under_context host v.command_call (act k)))
            f
            s).1.world
  role_answer m req act f s h = then_reply-Served host v i _ f s (role_only m req act s h)

  limited_only :
      {A : Type 0} (m : Message) (s : Server host) (p : Reply (Unit {0}) × Server host)
      (act : Handler host A)
      → p.1.world ≡ s.world
      → ((t : Server host)
          → Done host
              (λ r. open_wish m (cookie_of host i) ≡ some r)
              v.command_call
              t.world
              (act t).1.world)
      → Served host (Permitted m s) v.command_call s.world (pass_on p (λ _. act)).1.world
  unfolding pass_on
  limited_only m s (reply a, t) act e h = record {
    between = s.world;
    checked = Checked-refl host s.world;
    done =
        Done-weaker host (λ r q. inr q)
          (subst
            (λ w.
              Done host (λ r. open_wish m (cookie_of host i) ≡ some r) v.command_call w
                (act t).1.world)
            e (h t));
  }
  limited_only m s (fails f, t) act e h = record {
    between = s.world;
    checked = Checked-refl host s.world;
    done = nothing e;
  }

  end_session-Done :
      (secure : Bool) (cookie : Option String) (s : Server host)
      → Done host
          (λ r. open_wish (logout_message secure) cookie ≡ some r)
          v.command_call
          s.world
          (end_session host v i cookie s).1.world
  unfolding end_session serve_one
  end_session-Done secure none s = nothing refl
  end_session-Done secure (some token) s =
      ask-Done host v.command_call (logout_request token) _ s refl

  -- Any message to the server leads from its world to the next by checks of credentials, and after
  -- them by nothing or by one request to the authority: the one that the message asks for, as the
  -- role that authentication answers for it; a registration, a login or a logout needs no role.
  pub receive-Served :
      (m : Message) (s : Server host)
      → Served host (Permitted m s) v.command_call s.world (receive host v i m s).world
  unfolding receive serve_one get_state get_world_bounds handle_scan handle_move
      handle_move_direction handle_stop transfer_cultivation seize_cultivation list_recent_events
      list_conversations handle_request_conversation handle_respond_conversation
      handle_send_conversation_message handle_close_conversation handle_register handle_login
      handle_logout handle_rotate_mcp_key handle_revoke_mcp_key
  receive-Served state_message s =
      role_answer state_message (λ k. state_request k) _ _ s (λ k w. (refl, refl))
  receive-Served bounds_message s =
      role_answer bounds_message (λ k. bounds_request) _ _ s (λ k w. (refl, refl))
  receive-Served talks_message s =
      role_only talks_message (λ k. talks_request k) _ s (λ k w. (refl, refl))
  receive-Served (scan_message life version) s =
      role_answer (scan_message life version)
        (λ k. scan_request k (command_expectation life version)) _ _ s (λ k w. (refl, refl))
  receive-Served (move_message key goal life version) s =
      Served-weaker host (λ r p. inl p)
        (role-Served host v i (move_message key goal life version) _ s
          (move_to-Done key life version goal))
  receive-Served (direction_message key d speed life version) s =
      role_answer (direction_message key d speed life version)
        (λ k.
          direction_request k key (direction_from_proto d) speed (command_expectation life version))
        _ _ s (λ k w. (refl, refl))
  receive-Served (stop_message key life version) s =
      role_answer (stop_message key life version)
        (λ k. stop_request k key (command_expectation life version)) _ _ s (λ k w. (refl, refl))
  receive-Served (transfer_message target key amount life version) s =
      role_answer (transfer_message target key amount life version)
        (λ k. transfer_request k target key amount (command_expectation life version)) _ _ s
        (λ k w. (refl, refl))
  receive-Served (seize_message target key life version) s =
      role_answer (seize_message target key life version)
        (λ k. seize_request k target key (command_expectation life version)) _ _ s
        (λ k w. (refl, refl))
  receive-Served (events_message after limit) s =
      role_answer (events_message after limit) (λ k. events_request k after limit) _ _ s
        (λ k w. (refl, refl))
  receive-Served (talk_message target key life version) s =
      role_only (talk_message target key life version)
        (λ k. talk_request k target key (command_expectation life version)) _ s
        (λ k w. (refl, refl))
  receive-Served (respond_message id key action life version) s =
      role_only (respond_message id key action life version)
        (λ k. respond_request k id key action (command_expectation life version)) _ s
        (λ k w. (refl, refl))
  receive-Served (content_message id key content life version) s =
      role_only (content_message id key content life version)
        (λ k. message_request k id key content (command_expectation life version)) _ s
        (λ k w. (refl, refl))
  receive-Served (close_message id key life version) s =
      role_only (close_message id key life version)
        (λ k. close_request k id key (command_expectation life version)) _ s (λ k w. (refl, refl))
  receive-Served (register_message secure salt fresh account pass name) s =
      limited_only (register_message secure salt fresh account pass name) s _ _
        (limit_public_auth-world host v i _ _ _ s)
        (λ t.
          then_reply-Done host v i _ _ t
            (ask-Done host v.command_call (register_request salt fresh account pass name) _ t refl))
  receive-Served (login_message secure fresh account pass) s =
      limited_only (login_message secure fresh account pass) s _ _
        (limit_public_auth-world host v i _ _ _ s)
        (λ t.
          then_reply-Done host v i _ _ t
            (ask-Done host v.command_call (login_request fresh account pass) _ t refl))
  receive-Served (logout_message secure) s = record {
    between = s.world;
    checked = Checked-refl host s.world;
    done =
        Done-weaker host (λ r q. inr q)
          (then_reply-Done host v i _ _ s (end_session-Done secure (cookie_of host i) s));
  }
  receive-Served (rotate_message fresh expected) s =
      Served-weaker host (λ r p. inl p)
        (role-Served host v i (rotate_message fresh expected) _ s (λ k t.
          confirmed-Done host v i expected k _ _ t
            (ask-Done host v.command_call (rotate_request fresh k) _ t refl)))
  receive-Served (revoke_message expected) s =
      Served-weaker host (λ r p. inl p)
        (role-Served host v i (revoke_message expected) _ s (λ k t.
          confirmed-Done host v i expected k _ _ t
            (ask-Done host v.command_call (revoke_request k) _ t refl)))
