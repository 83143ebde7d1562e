-- ===== src/Store/Mirror.antt =====
-- mirrorNormalizedState of internal/data/postgres.go.
use xiuxian.Base.{ℕ, zero, suc, Option, none, some, List, [], ◌∷◌, String, if◌then◌else◌, ◌==◌}
use xiuxian.Base.Int.{pos, ◌+ℤ◌, eqb_ℤ}
use xiuxian.Base.Dict.{Dict, lookup, insert, erase}
use xiuxian.Base.Text.{str_eq}
use xiuxian.Rules.Units.{Time}
use xiuxian.Rules.Travel.{Trajectory, TrajectoryMode, direction, mode_or_target}
use xiuxian.World.Model.{Role, Account, Opportunity, Conversation, ConversationMessage, Event}
use xiuxian.Store.{
  PersistedWorld, AccountRow, RoleRow, LifeRow, TrajectoryRow, OpportunityRow, ConversationRow,
  Database, Session,
}

-- none for an error: the transaction is rolled back.
abbrev pub Tx : Type 0 → Type 0
Tx F = Session F → Option (Session F)

infixl 5 ◌>>>◌
unfoldable pub ◌>>>◌ {ℓ} : {S : Type ℓ} → (S → Option S) → (S → Option S) → S → Option S
◌>>>◌ m n s = elim (m s) [ none ↦ none | some s' ↦ n s' ]

abbrev pub optional : String → Option String
optional s = if str_eq s "" then none else some s

abbrev pub optional_time : Time → Option Time
optional_time t = if eqb_ℤ t (pos 0) then none else some t

-- ON CONFLICT (id) DO NOTHING, on a table that goes by a number.
unfoldable pub insert_new {ℓ} : {A : Type ℓ} → (A → ℕ) → A → List A → List A
insert_new id_of row [] = row ∷ []
insert_new id_of row (r ∷ rows) =
    if id_of r == id_of row then r ∷ rows else r ∷ insert_new id_of row rows

unfoldable pub account_row : String → Account → Option AccountRow → AccountRow
account_row id account none = record {
  account_identifier = id;
  password_hash = account.password_hash;
}
account_row id account (some old) = record old { password_hash = account.password_hash }

unfoldable pub role_row : String → Role → RoleRow
role_row account_id role = record {
  account_id = account_id;
  name = role.name;
  life_number = role.life_number;
  status = role.status;
  mcp_key_hash = optional role.mcp_key_hash;
  state_version = role.state_version;
  rule_version = role.rule_version;
}

-- ON CONFLICT (id) DO UPDATE: the account and the name stay.
unfoldable pub merged_role : String → Role → Option RoleRow → RoleRow
merged_role account_id role none = role_row account_id role
merged_role account_id role (some old) = record (role_row account_id role) {
  account_id = old.account_id;
  name = old.name;
}

unfoldable pub life_row : Role → LifeRow
life_row role = record {
  life_started_at = role.life_started_at;
  cultivation_millis = role.cultivation_base;
  cultivation_at = role.cultivation_at;
  last_settled_at = role.last_settled_at;
  next_death_at = optional_time role.next_death_at;
  position = role.position;
  state_version = role.state_version;
}

unfoldable pub trajectory_row : Role → Trajectory → TrajectoryMode → TrajectoryRow
trajectory_row role t direction = record {
  mode = direction;
  start = t.start;
  target = none;
  direction = some t.heading;
  started_at = t.started_at;
  speed_basis = t.speed;
  desired_speed = some t.desired_speed;
  cultivation_basis = role.trajectory_cultivation;
  state_version = role.state_version;
}
trajectory_row role t mode = record {
  mode = mode;
  start = t.start;
  target = some t.goal;
  direction = none;
  started_at = t.started_at;
  speed_basis = t.speed;
  desired_speed = none;
  cultivation_basis = role.trajectory_cultivation;
  state_version = role.state_version;
}

unfoldable pub opportunity_row : Opportunity → Option OpportunityRow → OpportunityRow
opportunity_row o none = record {
  total_cultivation_millis = o.cultivation;
  converted_cultivation_millis = o.credited;
  level = o.level;
  sense_radius = o.sense_radius;
  position = o.position;
  status = o.status;
  bound_role_id = optional o.bound_role_id;
  bound_at = if str_eq o.bound_role_id "" then none else some o.bound_at;
  state_version = pos 1;
}
opportunity_row o (some old) = record old {
  converted_cultivation_millis = o.credited;
  status = o.status;
  bound_role_id = optional o.bound_role_id;
  bound_at = if str_eq o.bound_role_id "" then none else some o.bound_at;
  state_version = old.state_version +ℤ pos 1;
}

unfoldable pub conversation_row : Conversation → Option ConversationRow → ConversationRow
conversation_row c none = record {
  requester_role_id = c.requester_id;
  recipient_role_id = c.recipient_id;
  status = c.status;
  created_at = c.created_at;
  updated_at = c.updated_at;
}
conversation_row c (some old) = record old { status = c.status; updated_at = c.updated_at }

-- ON CONFLICT DO NOTHING, by role and key.
unfoldable pub keep_record : String → String → Option String → Dict String → Dict String
keep_record key response none records = insert key response records
keep_record key response (some old) records = records

module _ {F : Type 0} where
  -- A statement, unless it is one too many.
  unfoldable pub after_statement : Option ℕ → Database F → Option (Session F)
  after_statement none db = some (record { db = db; patience = none })
  after_statement (some zero) db = none
  after_statement (some (suc n)) db = some (record { db = db; patience = some n })

  unfoldable pub exec : (Database F → Database F) → Tx F
  exec f s = after_statement s.patience (f s.db)

  -- The statements of a range statement, one after the other.
  unfoldable pub each {ℓ} : {A : Type ℓ} → (A → Tx F) → List A → Tx F
  each f [] s = some s
  each f (a ∷ as') s = elim (f a s) [ none ↦ none | some s' ↦ each f as' s' ]

  unfoldable pub put_account : String → Account → Database F → Database F
  put_account id account db = record db {
    accounts = insert id (account_row id account (lookup id db.accounts)) db.accounts;
  }

  unfoldable pub put_role : String → Role → Database F → Database F
  put_role account_id role db = record db {
    roles = insert role.id (merged_role account_id role (lookup role.id db.roles)) db.roles;
  }

  unfoldable pub put_life : Role → Database F → Database F
  put_life role db = record db { lives = insert role.id (life_row role) db.lives }

  unfoldable pub put_trajectory : Role → Option Trajectory → Database F → Database F
  put_trajectory role none db = record db { trajectories = erase role.id db.trajectories }
  put_trajectory role (some t) db = record db {
    trajectories = insert role.id (trajectory_row role t (mode_or_target t.mode)) db.trajectories;
  }

  -- The statements for an account and its role.
  unfoldable pub mirror_role : String → Account → Role → Tx F
  mirror_role id account role =
      exec (put_account id account)
      >>> exec (put_role id role)
      >>> exec (put_life role)
      >>> exec (put_trajectory role role.trajectory)

  -- An account whose role is missing has the zero role, which the checks of the table refuse.
  unfoldable pub mirror_account : Dict Role → String × Account → Tx F
  mirror_account roles (id, account) s = elim (lookup account.role_id roles) [
    | none ↦ none
    | some role ↦ mirror_role id account role s
  ]

  unfoldable pub mirror_opportunity : String × Opportunity → Tx F
  mirror_opportunity (_, o) = exec λ db. record db {
    opportunities = insert o.id (opportunity_row o (lookup o.id db.opportunities)) db.opportunities;
  }

  unfoldable pub mirror_message : String → ConversationMessage → Tx F
  mirror_message conversation_id m = exec λ db. record db {
    messages =
        insert_new (λ r. r.id)
          (record {
            id = m.id;
            conversation_id = conversation_id;
            sender_role_id = m.sender_id;
            content = m.content;
            created_at = m.created_at;
          })
          db.messages;
  }

  unfoldable pub mirror_conversation : String × Conversation → Tx F
  mirror_conversation (_, c) =
      exec (λ db. record db {
        conversations =
            insert c.id (conversation_row c (lookup c.id db.conversations)) db.conversations;
      })
      >>> each (mirror_message c.id) c.messages

  unfoldable pub mirror_event : String → Event F → Tx F
  mirror_event role_id e = exec λ db. record db {
    events =
        insert_new (λ r. r.id)
          (record {
            id = e.id;
            role_id = role_id;
            life_number = e.life_number;
            event_type = e.kind;
            payload = e.payload;
            created_at = e.created_at;
          })
          db.events;
  }

  unfoldable pub mirror_events : String × List (Event F) → Tx F
  mirror_events (role_id, es) = each (mirror_event role_id) es

  abbrev pub records_of : String → Database F → Dict String
  records_of role_id db = elim (lookup role_id db.records) [ none ↦ [] | some rs ↦ rs ]

  unfoldable pub mirror_record : String → String × String → Tx F
  mirror_record role_id (key, response) = exec λ db. record db {
    records =
        insert role_id
          (keep_record key response (lookup key (records_of role_id db)) (records_of role_id db))
          db.records;
  }

  unfoldable pub mirror_records : String × Dict String → Tx F
  mirror_records (role_id, records) = each (mirror_record role_id) records

  -- The tables of opportunities, conversations, events and records.
  unfoldable pub mirror_rest : PersistedWorld F → Tx F
  mirror_rest w =
      each mirror_opportunity w.opportunities
      >>> each mirror_conversation w.conversations
      >>> each mirror_events w.events
      >>> each mirror_records w.idempotency

  unfoldable pub mirror_normalized_state : PersistedWorld F → Tx F
  mirror_normalized_state w = each (mirror_account w.roles) w.accounts >>> mirror_rest w
