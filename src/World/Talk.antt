-- ===== src/World/Talk.antt =====
-- Conversations between roles, of internal/biz/core.go.
use xiuxian.Base.{
  ◌+◌, Bool, true, false, ◌||◌, not, Option, none, some, List, [], ◌∷◌, ◌++◌, String, if◌then◌else◌,
  ltb,
}
use xiuxian.Base.Int.{ℤ, ltb_ℤ}
use xiuxian.Base.Dict.{Dict, lookup, insert, adjust}
use xiuxian.Base.Text.{is_blank, trim_space, str_eq, str_len, ◌⊕◌, decimal}
use xiuxian.Base.Sort.{sort}
use xiuxian.Rules.Units.{Time}
use xiuxian.World.Host.{Host}
use xiuxian.World.Model.{
  World, Error, CommandExpectation, Conversation, ConversationMessage, ConversationStatus,
  requested, accepted, rejected, closed, idempotency_key, unauthenticated, not_found, not_alive,
  target_ineligible, forbidden, invalid, nil_dereference, cancelled_call, text, conversation_status,
}
use xiuxian.World.Log.{append_event, unix_milli}
use xiuxian.World.Action.{
  Action, ok, Call, ◌>>=◌, ◌>>◌, pure, raise_if, gets, modify, or_raise, role_or, expect, now_for,
  settle, alive_or, save,
}
use xiuxian.World.Gifts.{interaction_eligibility_for_states, name_of}

unfoldable pub is_requested : ConversationStatus → Bool
is_requested requested = true
is_requested accepted = false
is_requested rejected = false
is_requested closed = false

unfoldable pub is_accepted : ConversationStatus → Bool
is_accepted accepted = true
is_accepted requested = false
is_accepted rejected = false
is_accepted closed = false

unfoldable pub is_party : String → Conversation → Bool
is_party k c = str_eq c.requester_id k || str_eq c.recipient_id k

-- switch action
unfoldable pub response : String → Option ConversationStatus
response action =
    if str_eq action "accept"
    then some accepted
    else if str_eq action "reject"
    then some rejected
    else if str_eq action "ignore"
    then some requested
    else none

unfoldable pub set_status : ConversationStatus → ℤ → Conversation → Conversation
set_status status at c = record c { status = status; updated_at = at }

unfoldable pub add_message : ConversationMessage → ℤ → Conversation → Conversation
add_message m at c = record c { messages = c.messages ++ m ∷ []; updated_at = at }

-- The last message of a sender.
unfoldable pub last_from : String → List ConversationMessage → Option ConversationMessage
last_from k [] = none
last_from k (m ∷ ms) =
    let later = last_from k ms in
    elim later [ some l ↦ some l | none ↦ if str_eq m.sender_id k then some m else none ]

module _ (host : Host) where
  unfoldable pub conversation_command_key : String → String → String
  conversation_command_key k key = host.sha256_base64 (k ⊕ "\0" ⊕ key)

  -- s.conversationResults[commandKey], empty for none
  unfoldable pub result_id : String → World host → String
  result_id command s = elim (lookup command s.conversation_results) [ none ↦ "" | some id ↦ id ]

  unfoldable pub was_done : String → World host → Bool
  was_done command s = not (str_eq (result_id command s) "")

  unfoldable pub conversation_or : String → Error → Action host Conversation
  conversation_or id e s = or_raise (lookup id s.conversations) e s

  unfoldable pub update_conversation :
      String → (Conversation → Conversation) → World host → World host
  update_conversation id f s = record s { conversations = adjust id f s.conversations }

  unfoldable pub record_result : String → String → World host → World host
  record_result command id s = record s {
    conversation_results = insert command id s.conversation_results;
  }

  -- Both parties are settled, and must be alive.
  unfoldable pub settle_parties : Conversation → Time → Action host (Unit {0})
  settle_parties c now = do
    settle host c.requester_id now
    settle host c.recipient_id now
    alive_or host c.requester_id not_alive
    alive_or host c.recipient_id not_alive

  unfoldable pub new_conversation : String → String → String → Time → Conversation
  new_conversation id k j now = record {
    id = id;
    requester_id = k;
    recipient_id = j;
    status = requested;
    messages = [];
    created_at = unix_milli now;
    updated_at = unix_milli now;
  }

  unfoldable pub open_conversation :
      String → String → String → Time → World host → String × World host
  open_conversation k j command now s =
      let id = "conversation_" ⊕ decimal (s.next_id + 1) in
      let s1 : World host = record s {
        next_id = s.next_id + 1;
        conversations = insert id (new_conversation id k j now) s.conversations;
      } in
      let s2 = record_result command id s1 in
      let s3 =
        append_event host k now "conversation_requested" ("向" ⊕ name_of host j s ⊕ "请求交谈")
          (("conversation_id", text id) ∷ []) s2 in
      (
        id,
        append_event host j now "conversation_incoming" (name_of host k s ⊕ "请求交谈")
            (("conversation_id", text id) ∷ []) s3,
      )

  unfoldable pub request_new :
      Call host.float.F → String → String → String → CommandExpectation → Action host Conversation
  request_new call k j command e = do
    role_or host k unauthenticated
    expect host k e
    role_or host j not_found
    raise_if (str_eq j k) not_found
    now ← now_for host call k
    requester ← settle host k now
    recipient ← settle host j now
    alive_or host k not_alive
    alive_or host j target_ineligible
    let eligibility = interaction_eligibility_for_states host requester recipient
    raise_if (not eligibility.can_request_conversation) target_ineligible
    id ← λ s. let (id, s') = open_conversation k j command now s in (ok id, s')
    save host call
    conversation_or id nil_dereference

  unfoldable pub request_conversation :
      Call host.float.F → String → String → String → CommandExpectation → Action host Conversation
  request_conversation call k j key e = do
    raise_if (is_blank key) idempotency_key
    let command = conversation_command_key k key
    done ← gets (was_done command)
    existing ← gets (result_id command)
    if done then conversation_or existing nil_dereference else request_new call k j command e

  unfoldable pub answer :
      Call host.float.F → String → String → Time → ConversationStatus → Action host Conversation
  answer call id command now status = do
    modify (update_conversation id (set_status status (unix_milli now)))
    modify (record_result command id)
    c ← conversation_or id nil_dereference
    modify (
        append_event host c.requester_id now "conversation_responded" "交谈请求状态已更新"
          (("conversation_id", text id) ∷ ("status", conversation_status status) ∷ []))
    save host call
    pure c

  unfoldable pub choose :
      Call host.float.F → String → String → Time → String → Conversation → Action host Conversation
  choose call id command now action c = do
    raise_if (not (is_requested c.status)) forbidden
    status ← or_raise (response action) invalid
    answer call id command now status

  unfoldable pub respond_conversation :
      Call host.float.F
      → String
      → String
      → String
      → String
      → CommandExpectation
      → Action host Conversation
  respond_conversation call k id key action e = do
    raise_if (is_blank key) idempotency_key
    found ← conversation_or id not_found
    raise_if (not (str_eq found.recipient_id k)) forbidden
    expect host k e
    now ← now_for host call k
    settle_parties found now
    c ← conversation_or id nil_dereference
    let command = conversation_command_key k key
    done ← gets (was_done command)
    if done then pure c else choose call id command now action c

  unfoldable pub post :
      Call host.float.F → String → String → String → String → Time → Action host ConversationMessage
  post call k id command content now = do
    number ← gets (λ s. s.event_sequence + 1)
    modify (λ s. record s { event_sequence = s.event_sequence + 1 })
    let at = unix_milli now
    let message : ConversationMessage = record {
      id = number;
      sender_id = k;
      content = content;
      trusted = false;
      created_at = at;
    }
    modify (update_conversation id (add_message message at))
    modify (record_result command id)
    c ← conversation_or id nil_dereference
    let other = if str_eq c.requester_id k then c.recipient_id else c.requester_id
    modify (
        append_event host other now "conversation_message" "收到新的交谈消息"
          (("conversation_id", text id) ∷ []))
    save host call
    pure message

  unfoldable pub send_conversation_message :
      Call host.float.F
      → String
      → String
      → String
      → String
      → CommandExpectation
      → Action host ConversationMessage
  send_conversation_message call k id key untrimmed e = do
    raise_if (is_blank key) idempotency_key
    let content = trim_space untrimmed
    raise_if (str_eq content "" || ltb 4000 (str_len content)) invalid
    found ← conversation_or id not_found
    raise_if (not (is_accepted found.status) || not (is_party k found)) forbidden
    expect host k e
    now ← now_for host call k
    settle_parties found now
    c ← conversation_or id nil_dereference
    let command = conversation_command_key k key
    done ← gets (was_done command)
    elim (if done then last_from k c.messages else none) [
      | some message ↦ pure message
      | none ↦ post call k id command content now
    ]

  unfoldable pub close_now : Call host.float.F → String → String → Time → Action host Conversation
  close_now call id command now = do
    modify (update_conversation id (set_status closed (unix_milli now)))
    modify (record_result command id)
    c ← conversation_or id nil_dereference
    save host call
    pure c

  unfoldable pub close_conversation :
      Call host.float.F → String → String → String → CommandExpectation → Action host Conversation
  close_conversation call k id key e = do
    raise_if (is_blank key) idempotency_key
    found ← conversation_or id not_found
    raise_if (not (is_party k found)) forbidden
    expect host k e
    now ← now_for host call k
    settle_parties found now
    c ← conversation_or id nil_dereference
    let command = conversation_command_key k key
    done ← gets (was_done command)
    if done then pure c else close_now call id command now

  unfoldable pub parties_of : String → Dict Conversation → List Conversation
  parties_of k [] = []
  parties_of k ((id, c) ∷ cs) =
      let rest = parties_of k cs in if is_party k c then c ∷ rest else rest

  unfoldable pub newer : Conversation → Conversation → Bool
  newer a b = ltb_ℤ b.updated_at a.updated_at

  unfoldable pub conversations : Call host.float.F → String → Action host (List Conversation)
  conversations call k = do
    raise_if call.cancelled cancelled_call
    role_or host k unauthenticated
    gets (λ s. sort newer (parties_of k s.conversations))

-- The definitions of this file together, for a test that runs them.
unfoldable pub open_talk : Unit {0}
unfolding is_requested is_accepted is_party response set_status add_message last_from
    conversation_command_key result_id was_done conversation_or update_conversation record_result
    settle_parties new_conversation open_conversation request_new request_conversation answer choose
    respond_conversation post send_conversation_message close_now close_conversation parties_of
    newer conversations
open_talk = tt
