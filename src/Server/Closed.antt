-- ===== src/Server/Closed.antt =====
-- What a message to internal/service does whose credentials are not accepted.
use xiuxian.Base.{
  Bool, Option, none, some, String, ◌≡◌, ◌⊎◌, refl, sym, ◌∙◌, ap, subst, inl, inr, arith,
}
use xiuxian.Base.Int.{negsuc}
use xiuxian.World.Host.{Host}
use xiuxian.World.Model.{World}
use xiuxian.World.Action.{Action}
use xiuxian.Server.Fault.{Fault}
use xiuxian.Server.Door.{
  Incoming, Visit, Reply, reply, fails, Server, Handler, pass_on, authenticate, cookie_of, ask,
  answer,
}
use xiuxian.Server.Handlers.{
  get_state, get_world_bounds, handle_scan, handle_move, handle_move_direction, handle_stop,
  transfer_cultivation, seize_cultivation, list_recent_events, list_conversations,
  handle_request_conversation, handle_respond_conversation, handle_send_conversation_message,
  handle_close_conversation, end_session, handle_logout, handle_rotate_mcp_key,
  handle_revoke_mcp_key, as_role, then_reply, session_cookie,
}
use xiuxian.Server.Message.{
  Message, state_message, bounds_message, talks_message, scan_message, move_message,
  direction_message, stop_message, transfer_message, seize_message, events_message, talk_message,
  respond_message, content_message, close_message, register_message, login_message, logout_message,
  rotate_message, revoke_message, open_wish, receive,
}
use xiuxian.World.Books.Sessions.{Expired, Expired-refl}
use xiuxian.Server.Expired.{authenticate-Expired}

module _ (host : Host) where
  pass_on-refused :
      {A B : Type 0} (p : Reply A × Server host) (f : A → Handler host B) (e : Fault)
      → p.0 ≡ fails e
      → pass_on p f ≡ (fails e, p.1)
  unfolding pass_on
  pass_on-refused (reply a, s) f e h = absurd (ground arith)
  pass_on-refused (fails x, s) f e h = let same : x ≡ e = cc in ap (λ y. (fails y, s)) same

  module _ (v : Visit host.float.F) (i : Incoming) (s : Server host) (e : Fault)
      (refused : (authenticate host v i s).0 ≡ fails e) where
    bind_refused :
        {B : Type 0} (f : String → Handler host B)
        → pass_on (authenticate host v i s) f ≡ (fails e, (authenticate host v i s).1)
    bind_refused f = pass_on-refused (authenticate host v i s) f e refused

    only_refused :
        {B : Type 0} (f : String → Handler host B)
        → (pass_on (authenticate host v i s) f).1.world ≡ (authenticate host v i s).1.world
    only_refused f = ap (λ r. r.1.world) (bind_refused f)

    reply_refused :
        {A B : Type 0} (act : String → Action host A) (g : A → B)
        → (then_reply host v i (as_role host v i act) g s).1.world
          ≡ (authenticate host v i s).1.world
    unfolding then_reply as_role
    reply_refused {A = A} {B = B} act g =
        ap (λ (r : Reply A × Server host). (pass_on r (λ a. answer (g a))).1.world)
          (bind_refused (λ k. ask host (act k)))
        ∙ ap (λ (r : Reply B × Server host). r.1.world)
            (pass_on-refused (fails e, (authenticate host v i s).1) (λ a. answer (g a)) e refl)

    logout_closed :
        (secure : Bool) (cookie : Option String)
        → open_wish (logout_message secure) cookie ≡ none
        → (then_reply host v i
            (end_session host v i cookie)
            (λ _. session_cookie host v i secure "" (negsuc 0))
            s).1.world
          ≡ s.world
    unfolding then_reply end_session pass_on
    logout_closed secure none h = refl
    logout_closed secure (some token) h = absurd (ground arith)

    receive-authenticate :
        (m : Message)
        → open_wish m (cookie_of host i) ≡ none
        → ((receive host v i m s).world ≡ (authenticate host v i s).1.world)
          ⊎ ((receive host v i m s).world ≡ s.world)
    unfolding receive get_state get_world_bounds handle_scan handle_move handle_move_direction
        handle_stop transfer_cultivation seize_cultivation list_recent_events list_conversations
        handle_request_conversation handle_respond_conversation handle_send_conversation_message
        handle_close_conversation handle_logout handle_rotate_mcp_key handle_revoke_mcp_key as_role
    receive-authenticate state_message h = inl (reply_refused _ _)
    receive-authenticate bounds_message h = inl (reply_refused _ _)
    receive-authenticate talks_message h = inl (only_refused _)
    receive-authenticate (scan_message life version) h = inl (reply_refused _ _)
    receive-authenticate (move_message key goal life version) h = inl (only_refused _)
    receive-authenticate (direction_message key d speed life version) h = inl (reply_refused _ _)
    receive-authenticate (stop_message key life version) h = inl (reply_refused _ _)
    receive-authenticate (transfer_message target key amount life version) h =
        inl (reply_refused _ _)
    receive-authenticate (seize_message target key life version) h = inl (reply_refused _ _)
    receive-authenticate (events_message after limit) h = inl (reply_refused _ _)
    receive-authenticate (talk_message target key life version) h = inl (only_refused _)
    receive-authenticate (respond_message id key action life version) h = inl (only_refused _)
    receive-authenticate (content_message id key content life version) h = inl (only_refused _)
    receive-authenticate (close_message id key life version) h = inl (only_refused _)
    receive-authenticate (register_message secure salt fresh account pass name) h =
        absurd (ground arith)
    receive-authenticate (login_message secure fresh account pass) h = absurd (ground arith)
    receive-authenticate (logout_message secure) h = inr (logout_closed secure (cookie_of host i) h)
    receive-authenticate (rotate_message fresh expected) h = inl (only_refused _)
    receive-authenticate (revoke_message expected) h = inl (only_refused _)

    either_Expired :
        (w : World host)
        → (w ≡ (authenticate host v i s).1.world) ⊎ (w ≡ s.world)
        → Expired host v.session_call.reading.clock_now (cookie_of host i) s.world w
    either_Expired w (inl same) =
        subst (Expired host v.session_call.reading.clock_now (cookie_of host i) s.world) (sym same)
          (authenticate-Expired host v i s)
    either_Expired w (inr same) =
        subst (Expired host v.session_call.reading.clock_now (cookie_of host i) s.world) (sym same)
          (Expired-refl host _ (cookie_of host i) s.world)

    -- A message that no accepted credentials came with, and that needs a role, changes nothing of the
    -- world but its sessions: a session can only go if it is that of the cookie that came with the
    -- message and is over at the time of the check; all others stay, and none comes.
    pub receive_refused :
        (m : Message)
        → open_wish m (cookie_of host i) ≡ none
        → Expired host v.session_call.reading.clock_now
            (cookie_of host i)
            s.world
            (receive host v i m s).world
    receive_refused m h = either_Expired _ (receive-authenticate m h)
