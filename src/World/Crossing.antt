-- ===== src/World/Crossing.antt =====
-- Where a trajectory meets an opportunity, and when, of internal/biz/core.go.
use xiuxian.Base.{
  ℕ, Bool, false, ◌&&◌, ◌||◌, not, Option, none, some, List, [], ◌∷◌, ◌++◌, String, if◌then◌else◌,
}
use xiuxian.Base.Int.{pos, pos_part, ◌+ℤ◌, ◌-ℤ◌, ◌*ℤ◌, ltb_ℤ, leb_ℤ, eqb_ℤ}
use xiuxian.Base.Float.{Float64}
use xiuxian.Base.Bisect.{bisect}
use xiuxian.Base.Dict.{Dict, lookup}
use xiuxian.Base.Text.{str_eq, str_lt}
use xiuxian.Base.Sort.{sort}
use xiuxian.Rules.Units.{Cultivation, Coordinate, Position, Time, distance, milliseconds, of_millis}
use xiuxian.Rules.Travel.{
  Trajectory, TrajectoryMode, unset, target, direction, mode_or_target, Direction, undirected, up,
  down, left, right, travel_distance,
}
use xiuxian.World.Host.{Host}
use xiuxian.World.Model.{World, Role, Opportunity}
use xiuxian.World.Bond.{is_alive, is_unclaimed, bind_opportunity}

pub record OpportunityCrossing : Type 0 where
  pub role : String
  pub opportunity : String
  pub opportunity_id : String
  pub role_id : String
  pub at : Time

unfoldable pub min_coordinate : Coordinate → Coordinate → Coordinate
min_coordinate a b = if ltb_ℤ a b then a else b

unfoldable pub max_coordinate : Coordinate → Coordinate → Coordinate
max_coordinate a b = if ltb_ℤ b a then a else b

-- The position lies on the ray from the start in a direction.
unfoldable pub on_ray : Direction → Position → Position → Bool
on_ray up start p = not (not (eqb_ℤ p.x start.x) || ltb_ℤ p.y start.y)
on_ray down start p = not (not (eqb_ℤ p.x start.x) || ltb_ℤ start.y p.y)
on_ray left start p = not (not (eqb_ℤ p.y start.y) || ltb_ℤ start.x p.x)
on_ray right start p = not (not (eqb_ℤ p.y start.y) || ltb_ℤ p.x start.x)
on_ray undirected start p = false

-- The position lies on the segment from the start to the goal.
unfoldable pub on_segment : Position → Position → Position → Bool
on_segment start goal p =
    let dx = goal.x -ℤ start.x in
    let dy = goal.y -ℤ start.y in
    let px = p.x -ℤ start.x in
    let py = p.y -ℤ start.y in
    not (
      not (eqb_ℤ (dx *ℤ py) (dy *ℤ px))
      || ltb_ℤ p.x (min_coordinate start.x goal.x)
      || ltb_ℤ (max_coordinate start.x goal.x) p.x
      || ltb_ℤ p.y (min_coordinate start.y goal.y)
      || ltb_ℤ (max_coordinate start.y goal.y) p.y)

unfoldable pub on_path : TrajectoryMode → Trajectory → Position → Bool
on_path direction t p = on_ray t.heading t.start p
on_path target t p = on_segment t.start t.goal p
on_path unset t p = on_segment t.start t.goal p

module _ (fl : Float64) where
  open fl use {F, le, lt}

  unfoldable pub trajectory_distance_to_position : Trajectory → Position → Option F
  trajectory_distance_to_position t p =
      if on_path (mode_or_target t.mode) t p then some (distance fl t.start p) else none

  -- The distance covered some milliseconds after the start.
  unfoldable pub covered : Trajectory → Cultivation → ℕ → F
  covered t c millis = travel_distance fl c (of_millis (pos millis)) t.desired_speed

  -- A millisecond, up to a latest time, at which a distance is covered: the first, if it stays covered.
  unfoldable pub trajectory_time_at_distance : Trajectory → Cultivation → F → Time → Option Time
  trajectory_time_at_distance t c d no_later_than =
      let max_millis = milliseconds (no_later_than -ℤ t.started_at) in
      let millis =
        bisect (pos_part max_millis) (λ mid. le d (covered t c mid)) 0 (pos_part max_millis) in
      if ltb_ℤ max_millis (pos 0)
      then none
      else if lt (covered t c (pos_part max_millis)) d
      then none
      else some (t.started_at +ℤ of_millis (pos millis))

module _ (host : Host) where
  -- From the last settlement, or the start if that is later.
  unfoldable pub crossing_from : Role → Trajectory → Time
  crossing_from role t =
      if ltb_ℤ role.last_settled_at t.started_at then t.started_at else role.last_settled_at

  -- Up to now, or the natural death if that is earlier.
  unfoldable pub crossing_to : Role → Time → Time
  crossing_to role now =
      if not (eqb_ℤ role.next_death_at (pos 0)) && ltb_ℤ role.next_death_at now
      then role.next_death_at
      else now

  unfoldable pub crossing_at : Role → Trajectory → Time → Opportunity → Option Time
  crossing_at role t now o =
      let from = crossing_from role t in
      let to = crossing_to role now in
      elim (trajectory_distance_to_position host.float t o.position) [
        | none ↦ none
        | some d ↦
            elim (trajectory_time_at_distance host.float t role.trajectory_cultivation d to) [
              | none ↦ none
              | some at ↦
                  if leb_ℤ at from
                    || ltb_ℤ to at
                    || not (eqb_ℤ o.available_at (pos 0)) && ltb_ℤ at o.available_at
                  then none
                  else some at
            ]
      ]

  unfoldable pub crossings_with :
      String → Role → Trajectory → Time → Dict Opportunity → List OpportunityCrossing
  crossings_with k role t now [] = []
  crossings_with k role t now ((oid, o) ∷ os) =
      let rest = crossings_with k role t now os in
      let found : List OpportunityCrossing = elim (crossing_at role t now o) [
        | none ↦ rest
        | some at ↦
            record {
              role = k;
              opportunity = oid;
              opportunity_id = o.id;
              role_id = role.id;
              at = at;
            }
            ∷ rest
      ] in
      if is_unclaimed o.status then found else rest

  unfoldable pub crossings_of : String → Role → Time → Dict Opportunity → List OpportunityCrossing
  crossings_of k role now os = elim role.trajectory [
    | none ↦ []
    | some t ↦
        if not (is_alive role.status) || not (str_eq role.bound_opportunity_id "")
        then []
        else if leb_ℤ (crossing_to role now) (crossing_from role t)
        then []
        else crossings_with k role t now os
  ]

  unfoldable pub all_crossings : Dict Role → Time → Dict Opportunity → List OpportunityCrossing
  all_crossings [] now os = []
  all_crossings ((k, role) ∷ roles) now os =
      crossings_of k role now os ++ all_crossings roles now os

  -- By time, then opportunity, then role.
  unfoldable pub earlier : OpportunityCrossing → OpportunityCrossing → Bool
  earlier a b =
      if not (eqb_ℤ a.at b.at)
      then ltb_ℤ a.at b.at
      else if not (str_eq a.opportunity_id b.opportunity_id)
      then str_lt a.opportunity_id b.opportunity_id
      else str_lt a.role_id b.role_id

  unfoldable pub bind_crossing : OpportunityCrossing → World host → World host
  bind_crossing c s = elim (lookup c.role s.roles) [
    | none ↦ s
    | some role ↦ elim (lookup c.opportunity s.opportunities) [
      | none ↦ s
      | some o ↦
          if not (is_alive role.status)
            || not (str_eq role.bound_opportunity_id "")
            || not (is_unclaimed o.status)
          then s
          else bind_opportunity host c.role c.opportunity c.at s
    ]
  ]

  unfoldable pub bind_crossings : List OpportunityCrossing → World host → World host
  bind_crossings [] s = s
  bind_crossings (c ∷ cs) s = bind_crossings cs (bind_crossing c s)

  unfoldable pub settle_world_crossings : Time → World host → World host
  settle_world_crossings now s =
      bind_crossings (sort earlier (all_crossings s.roles now s.opportunities)) s

-- The definitions of this file together, for a test that runs them.
unfoldable pub open_crossing : Unit {0}
unfolding min_coordinate max_coordinate on_ray on_segment on_path trajectory_distance_to_position
    covered trajectory_time_at_distance crossing_from crossing_to crossing_at crossings_with
    crossings_of all_crossings earlier bind_crossing bind_crossings settle_world_crossings
open_crossing = tt
