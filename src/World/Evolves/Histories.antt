-- ===== src/World/Evolves/Histories.antt =====
-- What holds of every history of requests to the world authority of internal/biz/core.go.
use xiuxian.Base.{ℕ, Option, List, [], ◌∷◌, String, ◌≡◌, subst, sym, refl, ap, ◌∙◌, ◌++◌}
use xiuxian.Base.Dict.{lookup}
use xiuxian.World.Host.{Host}
use xiuxian.World.Model.{World}
use xiuxian.World.Log.{log_of}
use xiuxian.World.Action.{Call}
use xiuxian.World.Accounts.{new_service}
use xiuxian.World.Request.{
  Request, register_request, login_request, session_request, logout_request, api_key_request,
  rotate_request, revoke_request, state_request, deadline_request, events_request, bounds_request,
  move_request, direction_request, stop_request, scan_request, transfer_request, seize_request,
  talk_request, respond_request, message_request, close_request, talks_request, History, serve_one,
  serve,
}
use xiuxian.World.Evolves.Basics.{Evolves, Evolves-refl, Evolves-trans, Numbered}
use xiuxian.World.Evolves.Actions.{StoreWorks}
use xiuxian.World.Evolves.Commands.{
  move-Evolving, move_direction-Evolving, stop-Evolving, transfer-Evolving, seize-Evolving,
}
use xiuxian.World.Evolves.Talks.{
  request_conversation-Evolving, respond_conversation-Evolving, send_conversation_message-Evolving,
  close_conversation-Evolving, conversations-Evolving,
}
use xiuxian.World.Evolves.Scans.{scan-Evolving}
use xiuxian.World.Evolves.Reads.{
  Fresh, Evolves-Fresh, new_service-Fresh, register-Growing, login-Evolving,
  authenticate_session-Evolving, logout-Evolving, authenticate_api_key-Evolving,
  rotate_mcp_key-Evolving, revoke_mcp_key-Evolving, state-Evolving, settle_deadline-Evolving,
  events-Evolving, bounds-Evolving,
}

module _ (host : Host) where
  -- The store works for every call of a history.
  abbrev pub AllWork : History host → Type 0
  AllWork [] = Unit {0}
  AllWork ((call, _) ∷ h) = StoreWorks call.save × AllWork h

  pub serve_one-Evolves :
      (call : Call host.float.F) (request : Request) (s : World host)
      → StoreWorks call.save
      → Fresh host s
      → Evolves host s (serve_one host call request s)
  unfolding serve_one
  serve_one-Evolves call (register_request salt fresh account password name) s w f =
      (register-Growing host call w salt fresh account password name).grows s f
  serve_one-Evolves call (login_request fresh account password) s w f =
      (login-Evolving host call w fresh account password).evolves s
  serve_one-Evolves call (session_request token) s w f =
      (authenticate_session-Evolving host call w token).evolves s
  serve_one-Evolves call (logout_request token) s w f =
      (logout-Evolving host call w token).evolves s
  serve_one-Evolves call (api_key_request key) s w f =
      (authenticate_api_key-Evolving host call w key).evolves s
  serve_one-Evolves call (rotate_request fresh k) s w f =
      (rotate_mcp_key-Evolving host call w fresh k).evolves s
  serve_one-Evolves call (revoke_request k) s w f =
      (revoke_mcp_key-Evolving host call w k).evolves s
  serve_one-Evolves call (state_request k) s w f = (state-Evolving host call w k).evolves s
  serve_one-Evolves call (deadline_request k version) s w f =
      (settle_deadline-Evolving host call w k version).evolves s
  serve_one-Evolves call (events_request k after limit) s w f =
      (events-Evolving host call w k after limit).evolves s
  serve_one-Evolves call bounds_request s w f = (bounds-Evolving host call w).evolves s
  serve_one-Evolves call (move_request k key goal e) s w f =
      (move-Evolving host call w k key goal e).evolves s
  serve_one-Evolves call (direction_request k key d desired e) s w f =
      (move_direction-Evolving host call w k key d desired e).evolves s
  serve_one-Evolves call (stop_request k key e) s w f =
      (stop-Evolving host call w k key e).evolves s
  serve_one-Evolves call (scan_request k e) s w f = (scan-Evolving host call w k e).evolves s
  serve_one-Evolves call (transfer_request k j key minutes e) s w f =
      (transfer-Evolving host call w k j key minutes e).evolves s
  serve_one-Evolves call (seize_request k j key e) s w f =
      (seize-Evolving host call w k j key e).evolves s
  serve_one-Evolves call (talk_request k j key e) s w f =
      (request_conversation-Evolving host call w k j key e).evolves s
  serve_one-Evolves call (respond_request k id key action e) s w f =
      (respond_conversation-Evolving host call w k id key action e).evolves s
  serve_one-Evolves call (message_request k id key content e) s w f =
      (send_conversation_message-Evolving host call w k id key content e).evolves s
  serve_one-Evolves call (close_request k id key e) s w f =
      (close_conversation-Evolving host call w k id key e).evolves s
  serve_one-Evolves call (talks_request k) s w f = (conversations-Evolving host call w k).evolves s

  serve-grows :
      (h : History host) (s : World host)
      → AllWork h
      → Fresh host s
      → Evolves host s (serve host h s)
  unfolding serve
  serve-grows [] s w f = Evolves-refl host s
  serve-grows ((call, request) ∷ h) s w f =
      let first = serve_one-Evolves call request s w.0 f in
      Evolves-trans host first
        (serve-grows h (serve_one host call request s) w.1 (Evolves-Fresh host s _ first f))

  abbrev pub world_after : List (Option ℕ) → History host → World host
  world_after entropy h = serve host h (new_service host entropy)

  reached-Fresh :
      (entropy : List (Option ℕ)) (h : History host)
      → AllWork h
      → Fresh host (world_after entropy h)
  reached-Fresh entropy h w =
      Evolves-Fresh host _ _ (serve-grows h _ w (new_service-Fresh host entropy))
        (new_service-Fresh host entropy)

  -- From a new service on, as long as the store works, whatever requests have been made and
  -- whatever the later ones are: the later requests only extend each event log, by events with
  -- numbers above all earlier ones and rising; they never shrink the bounds of the world; every
  -- role stays under its key, with its id, account and name, and with a life number and a state
  -- version that are not lower; and each new role has a key that was never given before.
  pub serve-Evolves :
      (entropy : List (Option ℕ)) (before after : History host)
      → AllWork before
      → AllWork after
      → Evolves host (world_after entropy before) (serve host after (world_after entropy before))
  serve-Evolves entropy before after b a =
      serve-grows after (world_after entropy before) a (reached-Fresh entropy before b)

  new_service-logs :
      (entropy : List (Option ℕ)) (id : String) → log_of host id (new_service host entropy) ≡ []
  unfolding new_service lookup
  new_service-logs entropy id = refl

  -- After any history of requests from a new service, with a store that works, the events of
  -- every log have strictly rising numbers, from 1 up to the service's event counter.
  pub serve-Numbered :
      (entropy : List (Option ℕ)) (h : History host)
      → AllWork h
      → (id : String)
      → Numbered 0 (world_after entropy h).event_sequence (log_of host id (world_after entropy h))
  unfolding new_service
  serve-Numbered entropy h w id =
      let grown = (serve-grows h _ w (new_service-Fresh host entropy)).logs_extend id in
      subst (Numbered 0 (world_after entropy h).event_sequence)
        (sym (grown.grown ∙ ap (λ l. l ++ grown.added) (new_service-logs entropy id)))
        grown.numbered
