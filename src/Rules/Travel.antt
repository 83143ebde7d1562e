-- ===== src/Rules/Travel.antt =====
-- Movement in internal/rules/rules.go: trajectories, PositionAfterDistance and TravelDistance.
use xiuxian.Base.{ℕ, zero, suc, ◌+◌, Bool, true, false, ◌&&◌, ◌||◌, ltb, if◌then◌else◌}
use xiuxian.Base.Int.{ℤ, pos, ◌+ℤ◌, ◌-ℤ◌, ltb_ℤ, leb_ℤ}
use xiuxian.Base.Float.{Float64}
use xiuxian.Rules.Units.{
  Cultivation, Coordinate, Duration, Time, Position, same_position, milliseconds, seconds,
  coordinate_scale,
}
use xiuxian.Rules.Realms.{Realm, realm_at, realm_for, top_level}

-- `unset` is the empty string, which old snapshots hold.
pub data TrajectoryMode : Type 0 where
  unset target direction : TrajectoryMode

-- `undirected` is the empty string, or any other that names no direction.
pub data Direction : Type 0 where
  undirected up down left right : Direction

pub record Trajectory : Type 0 where
  pub mode : TrajectoryMode
  pub start : Position
  pub goal : Position
  pub heading : Direction
  pub started_at : Time
  pub speed : ℤ
  pub desired_speed : ℤ

abbrev pub mode_or_target : TrajectoryMode → TrajectoryMode
mode_or_target unset = target
mode_or_target target = target
mode_or_target direction = direction

unfoldable pub advance : Direction → Position → Coordinate → Position
advance up start d = record start { y = start.y +ℤ d }
advance down start d = record start { y = start.y -ℤ d }
advance left start d = record start { x = start.x -ℤ d }
advance right start d = record start { x = start.x +ℤ d }
advance undirected start d = start

-- The speed on a segment: the realm's, or a lower one that the role has set.
unfoldable pub effective_speed : ℤ → ℤ → ℤ
effective_speed natural desired =
    if ltb_ℤ (pos 0) desired && ltb_ℤ desired natural then desired else natural

unfoldable pub segment_millis : Realm → Cultivation → ℤ → ℤ
segment_millis realm cultivation remaining =
    let to_threshold = (realm_at (realm.level + 1)).threshold -ℤ cultivation in
    if ltb realm.level top_level && ltb_ℤ to_threshold remaining then to_threshold else remaining

module _ (fl : Float64) where
  open fl use {F, of_int, add, mul, div, hypot, le, eq, round}

  unfoldable pub toward_target : Trajectory → F → Position × Bool
  toward_target t travelled =
      let dx = of_int (t.goal.x -ℤ t.start.x) in
      let dy = of_int (t.goal.y -ℤ t.start.y) in
      let whole = hypot dx dy in
      let scaled = mul travelled (of_int (pos coordinate_scale)) in
      let ratio = div scaled whole in
      if eq whole (of_int (pos 0)) || le whole scaled then (t.goal, true) else (
        record { x = t.start.x +ℤ round (mul dx ratio); y = t.start.y +ℤ round (mul dy ratio) },
        false,
      )

  unfoldable pub along : TrajectoryMode → Trajectory → F → Position × Bool
  unfolding advance toward_target
  along direction t travelled =
      (advance t.heading t.start (round (mul travelled (of_int (pos coordinate_scale)))), false)
  along unset t travelled = toward_target t travelled
  along target t travelled = toward_target t travelled

  unfoldable pub position_after_distance : Trajectory → F → Position × Bool
  unfolding along
  position_after_distance t travelled = along (mode_or_target t.mode) t travelled

  unfoldable pub position_at : Trajectory → Time → Position × Bool
  unfolding position_after_distance seconds same_position
  position_at t now =
      if leb_ℤ t.speed (pos 0) || leb_ℤ now t.started_at
      then (t.start, same_position t.start t.goal)
      else position_after_distance t (mul (seconds fl (now -ℤ t.started_at)) (of_int t.speed))

  -- The loop, on fuel: the distance so far, and the milliseconds that are left.
  unfoldable pub travel_loop : ℕ → Cultivation → ℤ → ℤ → F → F × ℤ
  unfolding effective_speed segment_millis
  travel_loop zero cultivation remaining desired distance = (distance, remaining)
  travel_loop (suc fuel) cultivation remaining desired distance =
      let realm = realm_for cultivation in
      let segment = segment_millis realm cultivation remaining in
      let speed = effective_speed realm.speed desired in
      let rest =
        travel_loop fuel (cultivation +ℤ segment) (remaining -ℤ segment) desired
          (add distance (div (mul (of_int speed) (of_int segment)) (of_int (pos 1000)))) in
      if ltb_ℤ (pos 0) remaining then rest else (distance, remaining)

  -- There are 32 realms, and each segment but the last enters a higher one.
  abbrev pub travel_fuel : ℕ
  travel_fuel = 32

  unfoldable pub travel_distance : Cultivation → Duration → ℤ → F
  unfolding travel_loop
  travel_distance cultivation elapsed desired =
      if leb_ℤ elapsed (pos 0)
      then of_int (pos 0)
      else (travel_loop travel_fuel cultivation (milliseconds elapsed) desired (of_int (pos 0))).0

  unfoldable pub natural_travel_distance : Cultivation → Duration → F
  unfolding travel_distance
  natural_travel_distance cultivation elapsed = travel_distance cultivation elapsed (pos 0)
