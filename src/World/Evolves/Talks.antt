-- ===== src/World/Evolves/Talks.antt =====
-- The conversations of internal/biz/core.go let the world evolve.
use xiuxian.Base.{
  inl, Option, none, some, String, if_cases, if◌then◌else◌, sym, arith, refl, [], ◌+◌,
}
use xiuxian.Rules.Units.{Time}
use xiuxian.World.Host.{Host}
use xiuxian.World.Model.{World, Error, Conversation, ConversationStatus, CommandExpectation}
use xiuxian.World.Action.{Action, Call}
use xiuxian.World.Talk.{
  conversation_or, update_conversation, record_result, settle_parties, open_conversation,
  request_new, request_conversation, answer, choose, respond_conversation, post,
  send_conversation_message, close_now, close_conversation, conversations, last_from,
}
use mathlib.Core.List.{append-nil}
use xiuxian.World.Log.{log_of}
use xiuxian.World.Evolves.Basics.{
  Older-refl, Evolves, Evolves-trans, quiet-Evolves, append_event-Evolves,
}
use xiuxian.World.Evolves.Actions.{
  StoreWorks, Evolving, bind-Evolving, pure-Evolving, raise_if-Evolving, gets-Evolving,
  modify-Evolving, or_raise-Evolving, role_or-Evolving, expect-Evolving, now_for-Evolving,
  settle-Evolving, alive_or-Evolving, save-Evolving,
}

module _ (host : Host) where
  conversation_or-Evolving : (id : String) (e : Error) → Evolving host (conversation_or host id e)
  unfolding conversation_or
  conversation_or-Evolving id e = record { evolves = λ s. (or_raise-Evolving host _ e).evolves s }

  update_conversation-Evolves :
      (id : String) (f : Conversation → Conversation) (s : World host)
      → Evolves host s (update_conversation host id f s)
  unfolding update_conversation
  update_conversation-Evolves id f s =
      quiet-Evolves host s _ refl refl refl (omega arith) (omega arith) (omega arith) (omega arith)
        (omega arith)

  record_result-Evolves :
      (command id : String) (s : World host) → Evolves host s (record_result host command id s)
  unfolding record_result
  record_result-Evolves command id s =
      quiet-Evolves host s _ refl refl refl (omega arith) (omega arith) (omega arith) (omega arith)
        (omega arith)

  settle_parties-Evolving :
      (c : Conversation) (now : Time) → Evolving host (settle_parties host c now)
  unfolding settle_parties
  settle_parties-Evolving c now = bind-Evolving host (settle-Evolving host _ now) λ _.
      bind-Evolving host (settle-Evolving host _ now)
        λ _. bind-Evolving host (alive_or-Evolving host _ _) λ _. alive_or-Evolving host _ _

  open_conversation-Evolves :
      (k j command : String) (now : Time) (s : World host)
      → Evolves host s (open_conversation host k j command now s).1
  unfolding open_conversation
  open_conversation-Evolves k j command now s =
      Evolves-trans host
        (quiet-Evolves host s _ refl refl refl (omega arith) (omega arith) (omega arith)
          (omega arith) (omega arith))
        (Evolves-trans host (record_result-Evolves command _ _) (
          Evolves-trans host (append_event-Evolves host k now _ _ _ _)
            (append_event-Evolves host j now _ _ _ _)))

  -- Some and none let the world evolve.
  by_option :
      {A B : Type 0} (o : Option A) (f : A → Action host B) (m : Action host B)
      → ((a : A) → Evolving host (f a))
      → Evolving host m
      → Evolving host (elim o as (λ _. Action host B) [ some a ↦ f a | none ↦ m ])
  by_option none f m p q = q
  by_option (some a) f m p q = p a

  counted-Evolves :
      (s : World host) → Evolves host s (record s { event_sequence = s.event_sequence + 1 })
  counted-Evolves s = record {
    numbers_grow = omega arith;
    ids_grow = omega arith;
    min_x_falls = omega arith;
    max_x_grows = omega arith;
    min_y_falls = omega arith;
    max_y_grows = omega arith;
    logs_extend = λ id. record {
      added = [];
      grown = sym (append-nil (log_of host id s));
      numbered = omega arith;
    };
    roles_stay = λ k r e. (r, e, Older-refl r);
    roles_come = λ k e. inl e;
  }

  module _ (call : Call host.float.F) (works : StoreWorks call.save) where
    request_new-Evolving :
        (k j command : String) (e : CommandExpectation)
        → Evolving host (request_new host call k j command e)
    unfolding request_new
    request_new-Evolving k j command e = bind-Evolving host (role_or-Evolving host k _) λ _.
        bind-Evolving host (expect-Evolving host k e) λ _.
          bind-Evolving host (role_or-Evolving host j _) λ _.
            bind-Evolving host (raise_if-Evolving host _ _) λ _.
              bind-Evolving host (now_for-Evolving host call k) λ now.
                bind-Evolving host (settle-Evolving host k now) λ _.
                  bind-Evolving host (settle-Evolving host j now) λ _.
                    bind-Evolving host (alive_or-Evolving host k _) λ _.
                      bind-Evolving host (alive_or-Evolving host j _) λ _.
                        bind-Evolving host (raise_if-Evolving host _ _) λ _.
                          bind-Evolving host
                            (record { evolves = open_conversation-Evolves k j command now })
                            λ id.
                              bind-Evolving host (save-Evolving host call works)
                                λ _. conversation_or-Evolving id _

    pub request_conversation-Evolving :
        (k j key : String) (e : CommandExpectation)
        → Evolving host (request_conversation host call k j key e)
    unfolding request_conversation
    request_conversation-Evolving k j key e = bind-Evolving host (raise_if-Evolving host _ _) λ _.
        bind-Evolving host (gets-Evolving host _) λ done.
          bind-Evolving host (gets-Evolving host _) λ existing.
            if_cases (Evolving host) done _ _ (conversation_or-Evolving existing _)
              (request_new-Evolving k j _ e)

    answer-Evolving :
        (id command : String) (now : Time) (status : ConversationStatus)
        → Evolving host (answer host call id command now status)
    unfolding answer
    answer-Evolving id command now status =
        bind-Evolving host (modify-Evolving host _ (update_conversation-Evolves id _)) λ _.
          bind-Evolving host (modify-Evolving host _ (record_result-Evolves command id)) λ _.
            bind-Evolving host (conversation_or-Evolving id _) λ c.
              bind-Evolving host
                (modify-Evolving host _ (append_event-Evolves host c.requester_id now _ _ _))
                λ _. bind-Evolving host (save-Evolving host call works) λ _. pure-Evolving host c

    choose-Evolving :
        (id command : String) (now : Time) (action : String) (c : Conversation)
        → Evolving host (choose host call id command now action c)
    unfolding choose
    choose-Evolving id command now action c = bind-Evolving host (raise_if-Evolving host _ _) λ _.
        bind-Evolving host (or_raise-Evolving host _ _)
          λ status. answer-Evolving id command now status

    pub respond_conversation-Evolving :
        (k id key action : String) (e : CommandExpectation)
        → Evolving host (respond_conversation host call k id key action e)
    unfolding respond_conversation
    respond_conversation-Evolving k id key action e =
        bind-Evolving host (raise_if-Evolving host _ _) λ _.
          bind-Evolving host (conversation_or-Evolving id _) λ found.
            bind-Evolving host (raise_if-Evolving host _ _) λ _.
              bind-Evolving host (expect-Evolving host k e) λ _.
                bind-Evolving host (now_for-Evolving host call k) λ now.
                  bind-Evolving host (settle_parties-Evolving found now) λ _.
                    bind-Evolving host (conversation_or-Evolving id _) λ c.
                      bind-Evolving host (gets-Evolving host _) λ done.
                        if_cases (Evolving host) done _ _ (pure-Evolving host c)
                          (choose-Evolving id _ now action c)

    post-Evolving :
        (k id command content : String) (now : Time)
        → Evolving host (post host call k id command content now)
    unfolding post
    post-Evolving k id command content now = bind-Evolving host (gets-Evolving host _) λ number.
        bind-Evolving host (modify-Evolving host _ counted-Evolves) λ _.
          bind-Evolving host (modify-Evolving host _ (update_conversation-Evolves id _)) λ _.
            bind-Evolving host (modify-Evolving host _ (record_result-Evolves command id)) λ _.
              bind-Evolving host (conversation_or-Evolving id _) λ c.
                bind-Evolving host (modify-Evolving host _ (append_event-Evolves host _ now _ _ _))
                  λ _. bind-Evolving host (save-Evolving host call works) λ _. pure-Evolving host _

    pub send_conversation_message-Evolving :
        (k id key untrimmed : String) (e : CommandExpectation)
        → Evolving host (send_conversation_message host call k id key untrimmed e)
    unfolding send_conversation_message
    send_conversation_message-Evolving k id key untrimmed e =
        bind-Evolving host (raise_if-Evolving host _ _) λ _.
          bind-Evolving host (raise_if-Evolving host _ _) λ _.
            bind-Evolving host (conversation_or-Evolving id _) λ found.
              bind-Evolving host (raise_if-Evolving host _ _) λ _.
                bind-Evolving host (expect-Evolving host k e) λ _.
                  bind-Evolving host (now_for-Evolving host call k) λ now.
                    bind-Evolving host (settle_parties-Evolving found now) λ _.
                      bind-Evolving host (conversation_or-Evolving id _) λ c.
                        bind-Evolving host (gets-Evolving host _) λ done.
                          by_option (if done then last_from k c.messages else none) _ _
                            (pure-Evolving host) (post-Evolving k id _ _ now)

    close_now-Evolving :
        (id command : String) (now : Time) → Evolving host (close_now host call id command now)
    unfolding close_now
    close_now-Evolving id command now =
        bind-Evolving host (modify-Evolving host _ (update_conversation-Evolves id _)) λ _.
          bind-Evolving host (modify-Evolving host _ (record_result-Evolves command id)) λ _.
            bind-Evolving host (conversation_or-Evolving id _)
              λ c. bind-Evolving host (save-Evolving host call works) λ _. pure-Evolving host c

    pub close_conversation-Evolving :
        (k id key : String) (e : CommandExpectation)
        → Evolving host (close_conversation host call k id key e)
    unfolding close_conversation
    close_conversation-Evolving k id key e = bind-Evolving host (raise_if-Evolving host _ _) λ _.
        bind-Evolving host (conversation_or-Evolving id _) λ found.
          bind-Evolving host (raise_if-Evolving host _ _) λ _.
            bind-Evolving host (expect-Evolving host k e) λ _.
              bind-Evolving host (now_for-Evolving host call k) λ now.
                bind-Evolving host (settle_parties-Evolving found now) λ _.
                  bind-Evolving host (conversation_or-Evolving id _) λ c.
                    bind-Evolving host (gets-Evolving host _) λ done.
                      if_cases (Evolving host) done _ _ (pure-Evolving host c)
                        (close_now-Evolving id _ now)

    pub conversations-Evolving : (k : String) → Evolving host (conversations host call k)
    unfolding conversations
    conversations-Evolving k =
        bind-Evolving host (raise_if-Evolving host _ _)
          λ _. bind-Evolving host (role_or-Evolving host k _) λ _. gets-Evolving host _
