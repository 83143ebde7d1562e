-- ===== src/Store.antt =====
-- internal/data/postgres.go: the tables that a save writes, and the transaction that it runs. A table
-- is a list of its rows by their key; outbox, whose ids are serial, a list in the order of its ids.
mod Tests
pub mod Mirror
pub mod Save
pub mod Keeps
pub mod Rows
pub mod Saved
pub mod Succeeds
pub mod Changed
use xiuxian.Base.{ℕ, Bool, Option, none, some, List, [], ◌∷◌, String}
use xiuxian.Base.Int.{ℤ}
use xiuxian.Base.Dict.{Dict}
use xiuxian.Rules.Units.{Time, Position, Cultivation, Coordinate}
use xiuxian.Rules.Travel.{TrajectoryMode, Direction}
use xiuxian.World.Model.{
  Role, RoleStatus, Account, Opportunity, OpportunityStatus, Conversation, ConversationStatus,
  Event, Value,
}

-- persistedWorld. The JSON of an event's data and of an idempotency record stands as its value and
-- its text; of a role, an opportunity and a conversation the store reads some of the fields.
pub record PersistedWorld (F : Type 0) : Type 0 where
  pub accounts : Dict Account
  pub roles : Dict Role
  pub opportunities : Dict Opportunity
  pub conversations : Dict Conversation
  pub events : Dict (List (Event F))
  pub idempotency : Dict (Dict String)

pub record AccountRow : Type 0 where
  pub account_identifier : String
  pub password_hash : String

pub record RoleRow : Type 0 where
  pub account_id : String
  pub name : String
  pub life_number : ℤ
  pub status : RoleStatus
  -- null for a role without a key
  pub mcp_key_hash : Option String
  pub state_version : ℤ
  pub rule_version : ℤ

pub record LifeRow : Type 0 where
  pub life_started_at : Time
  pub cultivation_millis : Cultivation
  pub cultivation_at : Time
  pub last_settled_at : Time
  pub next_death_at : Option Time
  pub position : Position
  pub state_version : ℤ

pub record TrajectoryRow : Type 0 where
  pub mode : TrajectoryMode
  pub start : Position
  pub target : Option Position
  pub direction : Option Direction
  pub started_at : Time
  pub speed_basis : ℤ
  pub desired_speed : Option ℤ
  pub cultivation_basis : Cultivation
  pub state_version : ℤ

pub record OpportunityRow : Type 0 where
  pub total_cultivation_millis : Cultivation
  pub converted_cultivation_millis : Cultivation
  pub level : ℕ
  pub sense_radius : Coordinate
  pub position : Position
  pub status : OpportunityStatus
  pub bound_role_id : Option String
  pub bound_at : Option Time
  pub state_version : ℤ

pub record ConversationRow : Type 0 where
  pub requester_role_id : String
  pub recipient_role_id : String
  pub status : ConversationStatus
  pub created_at : ℤ
  pub updated_at : ℤ

pub record MessageRow : Type 0 where
  pub id : ℕ
  pub conversation_id : String
  pub sender_role_id : String
  pub content : String
  pub created_at : ℤ

pub record EventRow (F : Type 0) : Type 0 where
  pub id : ℕ
  pub role_id : String
  pub life_number : ℤ
  pub event_type : String
  pub payload : Dict (Value F)
  pub created_at : ℤ

pub record OutboxRow : Type 0 where
  pub id : ℕ
  pub state_version : ℕ
  pub attempts : ℕ
  pub completed : Bool

-- The one row of world_snapshots.
pub record SnapshotRow : Type 0 where
  pub payload : String
  pub state_version : ℕ

pub record Database (F : Type 0) : Type 0 where
  pub snapshot : Option SnapshotRow
  pub accounts : Dict AccountRow
  pub roles : Dict RoleRow
  pub lives : Dict LifeRow
  pub trajectories : Dict TrajectoryRow
  pub opportunities : Dict OpportunityRow
  pub conversations : Dict ConversationRow
  pub messages : List MessageRow
  pub events : List (EventRow F)
  pub records : Dict (Dict String)
  pub outbox : List OutboxRow
  -- the last id that outbox has given
  pub outbox_id : ℕ

-- A statement of a transaction may fail, which ends it: how many more succeed, or none for no limit.
pub record Session (F : Type 0) : Type 0 where
  pub db : Database F
  pub patience : Option ℕ
