-- ===== src/World/Model.antt =====
-- The data of internal/biz/core.go. A role, an opportunity or a conversation that the source reaches
-- by a pointer is reached by its key in the map that owns it.
use xiuxian.Base.{ℕ, Bool, Option, String, List}
use xiuxian.Base.Int.{ℤ, pos}
use xiuxian.Base.Dict.{Dict}
use xiuxian.Rules.Units.{Cultivation, Coordinate, Time, Position}
use xiuxian.Rules.Travel.{Trajectory, TrajectoryMode, Direction}
use xiuxian.World.Host.{Host}

pub data Error : Type 0 where
  conflict invalid unauthenticated not_alive idempotency_key not_found forbidden : Error
  target_ineligible rate_limited stale_command : Error
  -- Failures of bcrypt, of the random source and of the store, a nil dereference, a done context.
  hash_failure token_failure store_failure nil_dereference cancelled_call : Error

pub record CommandExpectation : Type 0 where
  pub life_number : ℤ
  pub state_version : ℤ

pub data RoleStatus : Type 0 where
  alive pending_reincarnation : RoleStatus

pub data OpportunityStatus : Type 0 where
  unplaced unclaimed bound consumed discarded : OpportunityStatus

pub data ConversationStatus : Type 0 where
  requested accepted rejected closed : ConversationStatus

pub data MovementState : Type 0 where
  idle moving : MovementState

pub record Role : Type 0 where
  pub id : String
  pub account : String
  pub name : String
  pub life_number : ℤ
  pub status : RoleStatus
  pub life_started_at : Time
  pub cultivation_base : Cultivation
  pub cultivation_at : Time
  pub last_settled_at : Time
  pub position : Position
  pub trajectory : Option Trajectory
  pub trajectory_cultivation : Cultivation
  pub state_version : ℤ
  pub rule_version : ℤ
  -- the zero time for none
  pub next_death_at : Time
  pub last_scan_at : Time
  -- empty for the zero hash
  pub mcp_key_hash : String
  -- empty for none
  pub bound_opportunity_id : String

pub record Account : Type 0 where
  pub password_hash : String
  pub role_id : String

pub record Session : Type 0 where
  pub role_id : String
  pub expires_at : Time

pub record Opportunity : Type 0 where
  pub id : String
  pub position : Position
  pub level : ℕ
  pub cultivation : Cultivation
  pub sense_radius : Coordinate
  pub status : OpportunityStatus
  pub bound_role_id : String
  pub bound_at : Time
  pub available_at : Time
  pub credited : Cultivation
  pub death_position : Position

pub record ConversationMessage : Type 0 where
  pub id : ℕ
  pub sender_id : String
  pub content : String
  pub trusted : Bool
  pub created_at : ℤ

pub record Conversation : Type 0 where
  pub id : String
  pub requester_id : String
  pub recipient_id : String
  pub status : ConversationStatus
  pub messages : List ConversationMessage
  pub created_at : ℤ
  pub updated_at : ℤ

pub record PublicPosition (F : Type 0) : Type 0 where
  pub x : F
  pub y : F

-- What an event's map[string]any holds; an object is what JSON makes of a struct of numbers.
pub data Value (F : Type 0) : Type 0 where
  text : String → Value F
  whole : ℤ → Value F
  real : F → Value F
  flag : Bool → Value F
  place : PublicPosition F → Value F
  conversation_status : ConversationStatus → Value F
  object : List (String × F) → Value F

pub record Event (F : Type 0) : Type 0 where
  pub id : ℕ
  pub kind : String
  pub message : String
  pub created_at : ℤ
  pub life_number : ℤ
  pub payload : Dict (Value F)

pub record State (F : Type 0) : Type 0 where
  pub id : String
  pub name : String
  pub life_number : ℤ
  pub status : RoleStatus
  pub cultivation : F
  pub realm_level : ℕ
  pub realm : String
  pub age_seconds : F
  pub lifespan_seconds : F
  pub speed : ℤ
  pub sense_radius : ℤ
  pub position : PublicPosition F
  pub movement_state : MovementState
  -- none for "idle"
  pub movement_mode : Option TrajectoryMode
  pub movement_direction : Direction
  pub movement_speed_setting : ℤ
  pub actual_movement_speed : ℤ
  pub state_version : ℤ
  pub rule_version : ℤ

-- The service, without its mutex, clock and store, which are arguments of the calls. `entropy` is
-- what crypto/rand has yet to deliver: numbers, of which rand.Int takes the remainder, and errors.
pub record Service (F : Type 0) : Type 0 where
  pub accounts : Dict Account
  pub role_names : Dict String
  pub roles : Dict Role
  pub sessions : Dict Session
  pub idempotency : Dict (Dict (State F))
  pub events : Dict (List (Event F))
  pub opportunities : Dict Opportunity
  pub conversations : Dict Conversation
  pub conversation_results : Dict String
  pub event_sequence : ℕ
  pub min_x : Coordinate
  pub max_x : Coordinate
  pub min_y : Coordinate
  pub max_y : Coordinate
  pub next_id : ℕ
  pub entropy : List (Option ℕ)

-- The world of a host.
abbrev pub World : Host → Type 0
World host = Service host.float.F

abbrev pub initial_world_max_x : Coordinate
initial_world_max_x = pos 1000

-- rules.Version
abbrev pub current_rules : ℤ
current_rules = pos 4
