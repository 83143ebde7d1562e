-- ===== src/World/Settle.antt =====
-- stateLocked of internal/biz/core.go: a role is brought up to a time (legacy reincarnation, crossings
-- with opportunities, movement, deaths, opportunities), and its public state is computed.
use xiuxian.Base.{
  ℕ, zero, suc, Bool, true, false, ◌&&◌, not, Option, none, some, [], ◌∷◌, String, if◌then◌else◌,
  ◌==◌,
}
use xiuxian.Base.Int.{ℤ, pos, pos_part, ◌+ℤ◌, ◌-ℤ◌, ltb_ℤ, leb_ℤ, eqb_ℤ}
use xiuxian.Base.Dict.{lookup}
use xiuxian.Rules.Units.{
  Cultivation, Duration, Position, Time, origin, seconds, cultivation_points, coordinate_units,
}
use xiuxian.Rules.Realms.{realm_for}
use xiuxian.Rules.Life.{derive_life, next_natural_death_after}
use xiuxian.Rules.Travel.{
  Trajectory, undirected, mode_or_target, position_after_distance, travel_distance,
}
use xiuxian.World.Host.{Host}
use xiuxian.World.Model.{
  World, Role, alive, pending_reincarnation, State, PublicPosition, MovementState, idle, moving,
  real,
}
use xiuxian.World.Log.{update_role, of_role, append_event}
use xiuxian.World.Place.{expand_bounds}
use xiuxian.World.Bond.{
  is_alive, cultivation_of, settle_opportunity, claim_opportunity, rebase_trajectory,
}
use xiuxian.World.Fate.{kill, reincarnate}
use xiuxian.World.Crossing.{settle_world_crossings}

-- The local variables of stateLocked that its branches change.
pub record Locals : Type 0 where
  pub age : Duration
  pub position : Position
  pub movement : MovementState

-- now.Sub(role.LifeStartedAt), at least 0
unfoldable pub age_of : Role → Time → Duration
age_of role now = let age = now -ℤ role.life_started_at in if ltb_ℤ age (pos 0) then pos 0 else age

unfoldable pub arrive : Position → Role → Role
arrive p role = record role {
  position = p;
  trajectory = none;
  trajectory_cultivation = pos 0;
  state_version = role.state_version +ℤ pos 1;
}

unfoldable pub bump : Role → Role
bump role = record role { state_version = role.state_version +ℤ pos 1 }

-- Natural death is due: the loop's condition.
unfoldable pub death_due : Role → Time → Bool
death_due role now =
    is_alive role.status && not (eqb_ℤ role.next_death_at (pos 0)) && leb_ℤ role.next_death_at now

module _ (host : Host) where
  abbrev pub public_position : Position → PublicPosition host.float.F
  public_position p = record {
    x = coordinate_units host.float p.x;
    y = coordinate_units host.float p.y;
  }

  -- Where a trajectory has led by a time, and whether it has arrived.
  unfoldable pub travelled : Role → Trajectory → Time → Position × Bool
  travelled role t now =
      position_after_distance host.float t (
        travel_distance host.float role.trajectory_cultivation (now -ℤ t.started_at)
          t.desired_speed)

  unfoldable pub follow_path :
      String → Time → Position × Bool → World host → World host × Position × MovementState
  follow_path k now (p, true) s = (
    append_event host k now "movement_arrived" "已抵达目标位置"
        (("x", real (coordinate_units host.float p.x))
          ∷ ("y", real (coordinate_units host.float p.y))
          ∷ [])
        (expand_bounds host p (update_role host k (arrive p) s)),
    p,
    idle,
  )
  follow_path k now (p, false) s = (expand_bounds host p s, p, moving)

  unfoldable pub follow : String → Time → World host → World host × Position × MovementState
  follow k now s =
      of_role host k s (s, origin, idle)
        λ role. elim role.status [
          | pending_reincarnation ↦ (s, role.position, idle)
          | alive ↦ elim role.trajectory [
            | none ↦ (s, role.position, idle)
            | some t ↦ follow_path k now (travelled role t now) s
          ]
        ]

  -- Where a role dies at a time.
  unfoldable pub death_position : Role → Time → Position
  death_position role at = elim role.trajectory [
    | none ↦ role.position
    | some t ↦ (travelled role t at).0
  ]

  unfoldable pub postpone : Time → Cultivation → Duration → Role → Role
  postpone at c age role = record role { next_death_at = at +ℤ next_natural_death_after c age }

  unfoldable pub after_death : String → Time → World host → Locals
  after_death k now s =
      of_role host k s (record { age = pos 0; position = origin; movement = idle })
        λ role. record { age = age_of role now; position = role.position; movement = idle }

  -- One round of the loop, at the role as the settled opportunity leaves it.
  unfoldable pub face_death : String → Time → Time → World host → Locals → World host × Locals
  face_death k now at s locals =
      of_role host k s (s, locals)
        λ role.
          let c = cultivation_of host role at s in
          let age = at -ℤ role.life_started_at in
          let dead = kill host k at c (death_position role at) "lifespan" true s in
          if (derive_life c age).alive
          then (update_role host k (postpone at c age) s, locals)
          else (dead, after_death k now dead)

  -- for role.Status == RoleAlive && … && !now.Before(role.NextDeathAt)
  unfoldable pub death_loop : ℕ → String → Time → World host → Locals → World host × Locals
  death_loop zero k now s locals = (s, locals)
  death_loop (suc fuel) k now s locals =
      of_role host k s (s, locals)
        λ role.
          let at = role.next_death_at in
          let (s', locals') = face_death k now at (settle_opportunity host k at s) locals in
          let rest = death_loop fuel k now s' locals' in
          if death_due role now then rest else (s, locals)

  -- Each round moves the natural death by a nanosecond at least.
  unfoldable pub death_rounds : String → Time → World host → ℕ
  death_rounds k now s = of_role host k s 0 λ role. suc (pos_part (now -ℤ role.next_death_at))

  -- The realm has changed since the trajectory was begun.
  unfoldable pub outgrown : Option Trajectory → Role → Cultivation → Bool
  outgrown none role c = false
  outgrown (some t) role c =
      not ((realm_for c).level == (realm_for role.trajectory_cultivation).level)

  -- A role that is alive claims what lies where it stands and is credited.
  unfoldable pub prosper : String → Time → Position → World host → World host
  prosper k now p s0 =
      let s = settle_opportunity host k now (claim_opportunity host k p now s0) in
      of_role host k s s λ role.
        let c = cultivation_of host role now s in
        if outgrown role.trajectory role c
        then update_role host k bump (rebase_trajectory host k p now c s)
        else s

  unfoldable pub prosper_if_alive : String → Time → Position → World host → World host
  prosper_if_alive k now p s =
      of_role host k s s
        λ role. elim role.status [ alive ↦ prosper k now p s | pending_reincarnation ↦ s ]

  unfoldable pub touch : Time → Role → Role
  touch now role = record role { last_settled_at = now }

  unfoldable pub actual_speed : ℤ → ℤ → ℤ
  actual_speed setting natural =
      if ltb_ℤ (pos 0) setting && ltb_ℤ setting natural then setting else natural

  -- The State that stateLocked returns.
  unfoldable pub describe : Role → Cultivation → Duration → Locals → State host.float.F
  describe role c age locals =
      let realm = (derive_life c age).realm in
      let moves : Option Trajectory = elim role.status [
        | alive ↦ role.trajectory
        | pending_reincarnation ↦ none
      ] in
      record {
        id = role.id;
        name = role.name;
        life_number = role.life_number;
        status = role.status;
        cultivation = cultivation_points host.float c;
        realm_level = realm.level;
        realm = realm.name;
        age_seconds = seconds host.float age;
        lifespan_seconds = seconds host.float realm.lifespan;
        speed = realm.speed;
        sense_radius = realm.sense_radius;
        position = public_position locals.position;
        movement_state = locals.movement;
        movement_mode = elim moves [ none ↦ none | some t ↦ some (mode_or_target t.mode) ];
        movement_direction = elim moves [ none ↦ undirected | some t ↦ t.heading ];
        movement_speed_setting = elim moves [ none ↦ pos 0 | some t ↦ t.desired_speed ];
        actual_movement_speed = elim moves [
          | none ↦ pos 0
          | some t ↦ actual_speed t.desired_speed realm.speed
        ];
        state_version = role.state_version;
        rule_version = role.rule_version;
      }

  unfoldable pub describe_role : Role → Time → Locals → World host → State host.float.F
  describe_role role now locals s = elim role.status [
    | alive ↦ describe role (cultivation_of host role now s) locals.age locals
    | pending_reincarnation ↦ describe role (pos 0) (pos 0) locals
  ]

  -- What happens to the world before the state is described, and the locals by then.
  unfoldable pub settle_steps : String → Time → World host → World host × Locals
  settle_steps k now s0 =
      let s1 = settle_world_crossings host now (reincarnate host k now s0) in
      let age = of_role host k s1 (pos 0) λ role. age_of role now in
      let (s2, p, movement) = follow k now s1 in
      let (s3, locals) =
        death_loop (death_rounds k now s2) k now s2
          (record { age = age; position = p; movement = movement }) in
      (prosper_if_alive k now locals.position s3, locals)

  -- stateLocked. A missing role, which the callers exclude, is a nil dereference.
  unfoldable pub state_of : String → Time → World host → Option (State host.float.F) × World host
  state_of k now s0 =
      let (s, locals) = settle_steps k now s0 in
      elim (lookup k s.roles) [
        | none ↦ (none, s)
        | some role ↦ (some (describe_role role now locals s), update_role host k (touch now) s)
      ]

-- The definitions of this file together, for a test that runs them.
unfoldable pub open_settle : Unit {0}
unfolding age_of arrive bump death_due travelled follow_path follow death_position postpone
    after_death face_death death_loop death_rounds outgrown prosper prosper_if_alive touch
    actual_speed describe describe_role settle_steps state_of
open_settle = tt
