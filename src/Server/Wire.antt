-- ===== src/Server/Wire.antt =====
-- The messages of internal/service/world.go. A text that a message copies from an enumeration stands
-- as that enumeration's value, and the JSON of an event's data as the data.
use xiuxian.Base.{ℕ, Bool, Option, none, some, List, map, String}
use xiuxian.Base.Int.{ℤ, pos}
use xiuxian.Base.Dict.{Dict}
use xiuxian.Base.Float.{Float64}
use xiuxian.Rules.Travel.{TrajectoryMode, Direction, up, down, left, right, undirected}
use xiuxian.World.Model.{
  RoleStatus, MovementState, State, PublicPosition, Event, Value, CommandExpectation,
}
use xiuxian.World.Scan.{ScanRole, OpportunitySignal, ScanResult}
use xiuxian.World.Accounts.{Bounds}

pub record WirePosition : Type 0 where
  pub x_milliunits : ℤ
  pub y_milliunits : ℤ

pub record WireState : Type 0 where
  pub id : String
  pub name : String
  pub life_number : ℤ
  pub status : RoleStatus
  pub cultivation_millis : ℤ
  pub realm_level : ℕ
  pub realm_name : String
  pub age_millis : ℤ
  pub lifespan_millis : ℤ
  pub speed : ℤ
  pub sense_radius : ℤ
  pub position : WirePosition
  pub movement_state : MovementState
  pub state_version : ℤ
  pub rule_version : ℤ
  pub movement_mode : Option TrajectoryMode
  pub movement_direction : Direction
  pub movement_speed_setting : ℤ
  pub actual_movement_speed : ℤ

pub record WireBounds : Type 0 where
  pub min_x_milliunits : ℤ
  pub max_x_milliunits : ℤ
  pub min_y_milliunits : ℤ
  pub max_y_milliunits : ℤ

pub record WireScanRole (F : Type 0) : Type 0 where
  pub id : String
  pub name : String
  pub realm : String
  pub status : RoleStatus
  pub distance : F
  pub can_transfer : Bool
  pub can_seize : Bool
  pub can_request_conversation : Bool
  pub position : Option WirePosition

pub record WireScan (F : Type 0) : Type 0 where
  pub roles : List (WireScanRole F)
  pub opportunities : List (OpportunitySignal F)
  pub has_more : Bool
  pub truncated_roles : ℕ
  pub truncated_opportunities : ℕ

pub record WireEvent (F : Type 0) : Type 0 where
  pub id : ℕ
  pub kind : String
  pub message : String
  pub created_at_unix_millis : ℤ
  pub life_number : ℤ
  pub data_json : Dict (Value F)

pub data WireDirection : Type 0 where
  unspecified wire_up wire_down wire_left wire_right : WireDirection

unfoldable pub direction_from_proto : WireDirection → Direction
direction_from_proto wire_up = up
direction_from_proto wire_down = down
direction_from_proto wire_left = left
direction_from_proto wire_right = right
direction_from_proto unspecified = undirected

unfoldable pub command_expectation : ℤ → ℤ → CommandExpectation
command_expectation life version = record { life_number = life; state_version = version }

module _ (fl : Float64) where
  open fl use {F, of_int, mul, round}

  unfoldable pub milliunits : F → ℤ
  milliunits value = round (mul value (of_int (pos 1000)))

  unfoldable pub proto_position : PublicPosition F → WirePosition
  proto_position p = record { x_milliunits = milliunits p.x; y_milliunits = milliunits p.y }

  unfoldable pub wire_bounds : Bounds F → WireBounds
  wire_bounds b = record {
    min_x_milliunits = milliunits b.min_x;
    max_x_milliunits = milliunits b.max_x;
    min_y_milliunits = milliunits b.min_y;
    max_y_milliunits = milliunits b.max_y;
  }

  unfoldable pub role_state : State F → WireState
  role_state s = record {
    id = s.id;
    name = s.name;
    life_number = s.life_number;
    status = s.status;
    cultivation_millis = round (mul s.cultivation (of_int (pos 60000)));
    realm_level = s.realm_level;
    realm_name = s.realm;
    age_millis = round (mul s.age_seconds (of_int (pos 1000)));
    lifespan_millis = round (mul s.lifespan_seconds (of_int (pos 1000)));
    speed = s.speed;
    sense_radius = s.sense_radius;
    position = proto_position s.position;
    movement_state = s.movement_state;
    state_version = s.state_version;
    rule_version = s.rule_version;
    movement_mode = s.movement_mode;
    movement_direction = s.movement_direction;
    movement_speed_setting = s.movement_speed_setting;
    actual_movement_speed = s.actual_movement_speed;
  }

  optional_position : Option (PublicPosition F) → Option WirePosition
  optional_position none = none
  optional_position (some p) = some (proto_position p)

  unfoldable pub scan_role_entry : ScanRole F → WireScanRole F
  unfolding optional_position
  scan_role_entry role = record {
    id = role.id;
    name = role.name;
    realm = role.realm;
    status = role.status;
    distance = role.distance;
    can_transfer = role.can_transfer;
    can_seize = role.can_seize;
    can_request_conversation = role.can_request_conversation;
    position = optional_position role.position;
  }

  unfoldable pub scan_response : ScanResult F → WireScan F
  scan_response r = record {
    roles = map scan_role_entry r.roles;
    opportunities = r.opportunities;
    has_more = r.has_more;
    truncated_roles = r.truncated_roles;
    truncated_opportunities = r.truncated_opportunities;
  }

  unfoldable pub wire_event : Event F → WireEvent F
  wire_event e = record {
    id = e.id;
    kind = e.kind;
    message = e.message;
    created_at_unix_millis = e.created_at;
    life_number = e.life_number;
    data_json = e.payload;
  }
