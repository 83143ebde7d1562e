-- ===== src/World/Snapshot.antt =====
-- internal/biz/snapshot.go: the snapshot of the world, its restoration, and what a failed save does.
-- A payload stands for its JSON text: encoding and decoding keep what has a type, and of the data of
-- an event, whose values have none, they make texts, float64 numbers, truth values and objects.
use xiuxian.Base.{
  ℕ, Bool, true, false, ◌&&◌, Option, none, some, List, [], ◌∷◌, String, if◌then◌else◌, map,
}
use xiuxian.Base.Int.{pos, leb_ℤ, eqb_ℤ}
use xiuxian.Base.Dict.{Dict, insert}
use xiuxian.Rules.Units.{Coordinate}
use xiuxian.World.Host.{Host}
use xiuxian.World.Model.{
  World, Role, Account, Session, Opportunity, Conversation, ConversationStatus, requested, accepted,
  rejected, closed, State, Event, Value, text, whole, real, flag, place, conversation_status,
  object, initial_world_max_x, current_rules,
}

-- serviceSnapshot; the sessions go by the hexadecimal text of their hash.
pub record Snapshot (F : Type 0) : Type 0 where
  pub accounts : Dict Account
  pub role_names : Dict String
  pub roles : Dict Role
  pub sessions : Dict Session
  pub idempotency : Dict (Dict (State F))
  pub events : Dict (List (Event F))
  pub opportunities : Dict Opportunity
  pub conversations : Dict Conversation
  pub conversation_results : Dict String
  pub event_sequence : ℕ
  pub min_x : Coordinate
  pub max_x : Coordinate
  pub min_y : Coordinate
  pub max_y : Coordinate
  pub next_id : ℕ

-- What a failed save finds when it loads the store again: an error, nothing, or a payload, which may
-- not decode.
pub data Reload (F : Type 0) : Type 0 where
  load_failed : Reload F
  empty : Reload F
  committed : Option (Snapshot F) → Reload F

-- What the durable store does with a save: there is none, it saves, or it refuses. A world that does
-- not encode, which has a float64 that is no number, is not saved either: the error leaves the world
-- as it is, like a refused save that cannot load the store again.
pub data SaveOutcome (F : Type 0) : Type 0 where
  disabled : SaveOutcome F
  saved : SaveOutcome F
  refused : Reload F → SaveOutcome F

unfoldable pub with_current_rules : String × Role → String × Role
with_current_rules (k, role) = (k, record role { rule_version = current_rules })

unfoldable pub status_text : ConversationStatus → String
status_text requested = "requested"
status_text accepted = "accepted"
status_text rejected = "rejected"
status_text closed = "closed"

module _ (host : Host) where
  -- json.Unmarshal of what json.Marshal makes of a value, into an `any`.
  unfoldable pub reread : Value host.float.F → Value host.float.F
  reread (text s) = text s
  reread (whole n) = real (host.float.of_int n)
  reread (real x) = real x
  reread (flag b) = flag b
  reread (place p) = object (("x", p.x) ∷ ("y", p.y) ∷ [])
  reread (conversation_status status) = text (status_text status)
  reread (object fields) = object fields

  unfoldable pub reread_data : Dict (Value host.float.F) → Dict (Value host.float.F)
  reread_data = map (λ d. (d.0, reread d.1))

  unfoldable pub reread_event : Event host.float.F → Event host.float.F
  reread_event e = record e { payload = reread_data e.payload }

  unfoldable pub reread_logs : Dict (List (Event host.float.F)) → Dict (List (Event host.float.F))
  reread_logs = map (λ l. (l.0, map reread_event l.1))

  unfoldable pub hex_sessions : Dict Session → Dict Session
  hex_sessions = map (λ e. (host.hex e.0, e.1))

  -- The payload of persistLocked.
  unfoldable pub take_snapshot : World host → Snapshot host.float.F
  take_snapshot s = record {
    accounts = s.accounts;
    role_names = s.role_names;
    roles = s.roles;
    sessions = hex_sessions s.sessions;
    idempotency = s.idempotency;
    events = s.events;
    opportunities = s.opportunities;
    conversations = s.conversations;
    conversation_results = s.conversation_results;
    event_sequence = s.event_sequence;
    min_x = s.min_x;
    max_x = s.max_x;
    min_y = s.min_y;
    max_y = s.max_y;
    next_id = s.next_id;
  }

  -- The sessions read so far, and whether all were read.
  unfoldable pub decode_sessions : Dict Session → Dict Session → Bool × Dict Session
  decode_sessions [] done = (true, done)
  decode_sessions ((encoded, value) ∷ rest) done = elim (host.unhex encoded) [
    | none ↦ (false, done)
    | some hash ↦ decode_sessions rest (insert hash value done)
  ]

  -- The start of the world as old snapshots have it is a single point.
  unfoldable pub restored_max_x : Snapshot host.float.F → Coordinate
  restored_max_x p =
      if eqb_ℤ p.min_x (pos 0)
        && leb_ℤ p.max_x (pos 1)
        && eqb_ℤ p.min_y (pos 0)
        && eqb_ℤ p.max_y (pos 0)
      then initial_world_max_x
      else p.max_x

  unfoldable pub restore_rest : Snapshot host.float.F → World host → World host
  restore_rest p s = record s {
    role_names = p.role_names;
    roles = map with_current_rules p.roles;
    idempotency = p.idempotency;
    events = reread_logs p.events;
    opportunities = p.opportunities;
    conversations = p.conversations;
    conversation_results = p.conversation_results;
    event_sequence = p.event_sequence;
    min_x = p.min_x;
    max_x = restored_max_x p;
    min_y = p.min_y;
    max_y = p.max_y;
    next_id = p.next_id;
  }

  -- restoreLocked: a session that does not decode leaves the accounts and some sessions restored.
  unfoldable pub restore : Option (Snapshot host.float.F) → World host → Bool × World host
  restore none s = (false, s)
  restore (some p) s =
      let (complete, sessions) = decode_sessions p.sessions [] in
      let s' : World host = record s { accounts = p.accounts; sessions = sessions } in
      if complete then (true, restore_rest p s') else (false, s')

  unfoldable pub reset_state : World host → World host
  reset_state s = record {
    accounts = [];
    role_names = [];
    roles = [];
    sessions = [];
    idempotency = [];
    events = [];
    opportunities = [];
    conversations = [];
    conversation_results = [];
    event_sequence = 0;
    min_x = pos 0;
    max_x = initial_world_max_x;
    min_y = pos 0;
    max_y = pos 0;
    next_id = 0;
    entropy = s.entropy;
  }

  unfoldable pub after_reload : Reload host.float.F → World host → World host
  after_reload load_failed s = s
  after_reload empty s = reset_state s
  after_reload (committed payload) s = (restore payload s).1

  -- persistLocked: whether the store has saved, and the world then.
  unfoldable pub persist : SaveOutcome host.float.F → World host → Bool × World host
  persist disabled s = (true, s)
  persist saved s = (true, s)
  persist (refused reload) s = (false, after_reload reload s)

-- The definitions of this file together, for a test that runs them.
unfoldable pub open_snapshot : Unit {0}
unfolding with_current_rules status_text reread reread_data reread_event reread_logs hex_sessions
    take_snapshot decode_sessions restored_max_x restore_rest restore reset_state after_reload
    persist
open_snapshot = tt
