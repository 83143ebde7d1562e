-- ===== src/World/Moves.antt =====
-- The commands of movement of internal/biz/core.go: Move, MoveDirection and Stop.
use xiuxian.Base.{Bool, true, false, ◌||◌, not, none, some, String}
use xiuxian.Base.Int.{ℤ, pos, ◌+ℤ◌, ltb_ℤ, leb_ℤ}
use xiuxian.Base.Text.{is_blank}
use xiuxian.Rules.Units.{Cultivation, Position, Time, origin, units}
use xiuxian.Rules.Realms.{realm_for}
use xiuxian.Rules.Travel.{
  Trajectory, target, direction, Direction, undirected, up, down, left, right,
}
use xiuxian.World.Host.{Host}
use xiuxian.World.Model.{
  Role, State, CommandExpectation, invalid, unauthenticated, not_alive, idempotency_key,
}
use xiuxian.World.Log.{update_role}
use xiuxian.World.Place.{expand_bounds}
use xiuxian.World.Bond.{cultivation_at_key}
use xiuxian.World.Action.{
  Action, Call, ◌>>=◌, ◌>>◌, raise_if, gets, modify, role_or, expect, now_for, settle, alive_or,
  replay, conclude,
}

unfoldable pub valid_direction : Direction → Bool
valid_direction up = true
valid_direction down = true
valid_direction left = true
valid_direction right = true
valid_direction undirected = false

unfoldable pub set_out : Position → Trajectory → Cultivation → Role → Role
set_out p t c role = record role {
  position = p;
  trajectory = some t;
  trajectory_cultivation = c;
  state_version = role.state_version +ℤ pos 1;
}

unfoldable pub halt : Position → Role → Role
halt p role = record role {
  position = p;
  trajectory = none;
  trajectory_cultivation = pos 0;
  state_version = role.state_version +ℤ pos 1;
}

unfoldable pub toward : Position → Position → Time → Cultivation → Trajectory
toward p goal now c = record {
  mode = target;
  start = p;
  goal = goal;
  heading = undirected;
  started_at = now;
  speed = (realm_for c).speed;
  desired_speed = pos 0;
}

unfoldable pub heading_for : Position → Direction → Time → Cultivation → ℤ → Trajectory
heading_for p d now c desired = record {
  mode = direction;
  start = p;
  goal = origin;
  heading = d;
  started_at = now;
  speed = (realm_for c).speed;
  desired_speed = desired;
}

module _ (host : Host) where
  unfoldable pub position_of_state : State host.float.F → Position
  position_of_state state = record {
    x = units host.float state.position.x;
    y = units host.float state.position.y;
  }

  -- What Move does once it is not a repetition.
  unfoldable pub move_command :
      Call host.float.F
      → String
      → String
      → Position
      → CommandExpectation
      → Action host (State host.float.F)
  move_command call k key goal e = do
    expect host k e
    now ← now_for host call k
    current ← settle host k now
    alive_or host k not_alive
    c ← gets (cultivation_at_key host k now)
    let p = position_of_state current
    modify (update_role host k (set_out p (toward p goal now c) c))
    conclude host call k key now

  unfoldable pub move :
      Call host.float.F
      → String
      → String
      → Position
      → CommandExpectation
      → Action host (State host.float.F)
  move call k key goal e = do
    raise_if (is_blank key) idempotency_key
    role_or host k unauthenticated
    replay host k key (move_command call k key goal e)

  unfoldable pub move_direction_command :
      Call host.float.F
      → String
      → String
      → Direction
      → ℤ
      → CommandExpectation
      → Action host (State host.float.F)
  move_direction_command call k key d desired e = do
    raise_if (not (valid_direction d) || leb_ℤ desired (pos 0)) invalid
    expect host k e
    now ← now_for host call k
    current ← settle host k now
    alive_or host k not_alive
    c ← gets (cultivation_at_key host k now)
    raise_if (ltb_ℤ (realm_for c).speed desired) invalid
    let p = position_of_state current
    modify (update_role host k (set_out p (heading_for p d now c desired) c))
    conclude host call k key now

  unfoldable pub move_direction :
      Call host.float.F
      → String
      → String
      → Direction
      → ℤ
      → CommandExpectation
      → Action host (State host.float.F)
  move_direction call k key d desired e = do
    raise_if (is_blank key) idempotency_key
    role_or host k unauthenticated
    replay host k key (move_direction_command call k key d desired e)

  unfoldable pub stop_command :
      Call host.float.F → String → String → CommandExpectation → Action host (State host.float.F)
  stop_command call k key e = do
    expect host k e
    now ← now_for host call k
    current ← settle host k now
    alive_or host k not_alive
    let p = position_of_state current
    modify (update_role host k (halt p))
    modify (expand_bounds host p)
    conclude host call k key now

  unfoldable pub stop :
      Call host.float.F → String → String → CommandExpectation → Action host (State host.float.F)
  stop call k key e = do
    raise_if (is_blank key) idempotency_key
    role_or host k unauthenticated
    replay host k key (stop_command call k key e)

-- The definitions of this file together, for a test that runs them.
unfoldable pub open_moves : Unit {0}
unfolding valid_direction set_out halt toward heading_for position_of_state move_command move
    move_direction_command move_direction stop_command stop
open_moves = tt
