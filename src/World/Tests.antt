-- ===== src/World/Tests.antt =====
-- A host with decimal fractions for float64, a small world, and runs of the world authority of
-- internal/biz/core.go on it.
mod Instances
use xiuxian.Base.{ℕ, ◌*◌, ◌^◌, ◌≡◌, refl, false, none, some, [], ◌∷◌, String, leb, if◌then◌else◌}
use xiuxian.Base.Int.{
  ℤ, pos, pos_part, ◌+ℤ◌, ◌-ℤ◌, ◌*ℤ◌, quot, ltb_ℤ, leb_ℤ, eqb_ℤ, rem, scale, int64,
}
use xiuxian.Base.Float.{Float64}
use xiuxian.Base.Bisect.{bisect}
use xiuxian.Base.Dict.{lookup, erase, insert, adjust, keys}
use xiuxian.Base.Text.{str_eq, trim_space, is_blank, digits_onto, decimal}
use xiuxian.Rules.Units.{
  Time, origin, points_of_int, same_position, seconds, points, cultivation_points, units,
  coordinate_units, distance, first_units, last_units, integer_grid_range,
}
use xiuxian.Rules.Travel.{
  right, undirected, target, direction, advance, effective_speed, segment_millis, toward_target,
  along, position_after_distance, position_at, travel_loop, travel_distance,
  natural_travel_distance,
}
use xiuxian.Base.Sort.{insert_sorted, sort}
use xiuxian.Rules.Life.{derive_life, next_death_loop, next_natural_death_after, validate_transfer}
use xiuxian.Rules.Realms.{realms, realm_at, threshold_above, realm_index, realm_for}
use xiuxian.Rules.Reward.{converted_cultivation, interaction_eligibility_for, can_sense_opportunity}
use xiuxian.World.Host.{Host, absent}
use xiuxian.World.Model.{World, Role, State, CommandExpectation, alive, idle, moving}
use xiuxian.World.Snapshot.{saved}
use xiuxian.World.Action.{Call, Result, ok}
use xiuxian.World.Accounts.{new_service, new_role}
use xiuxian.World.Place.{open_place}
use xiuxian.World.Log.{open_log}
use xiuxian.World.Bond.{open_bond}
use xiuxian.World.Fate.{open_fate}
use xiuxian.World.Crossing.{open_crossing}
use xiuxian.World.Settle.{open_settle}
use xiuxian.World.Snapshot.{open_snapshot, refused, load_failed}
use xiuxian.World.Action.{open_action}
use xiuxian.World.Moves.{open_moves, move, move_direction, stop}
use xiuxian.World.Gifts.{open_gifts, transfer, seize}
use xiuxian.World.Books.Pages.{later}

-- Everything that a command runs.
unfoldable pub open_everything : Unit {0}
unfolding new_service new_role open_place open_log open_bond open_fate open_crossing open_settle
    open_snapshot open_action open_moves open_gifts bisect lookup insert erase adjust keys ◌+ℤ◌ ◌-ℤ◌
    ◌*ℤ◌ quot rem scale int64 insert_sorted sort trim_space is_blank digits_onto decimal derive_life
    next_death_loop next_natural_death_after validate_transfer realms realm_at threshold_above
    realm_index realm_for converted_cultivation interaction_eligibility_for can_sense_opportunity
    advance effective_speed segment_millis toward_target along position_after_distance position_at
    travel_loop travel_distance natural_travel_distance points_of_int same_position seconds points
    cultivation_points units coordinate_units distance first_units last_units integer_grid_range
open_everything = tt

-- Numbers in units of 1 / 60,000,000.
abbrev unit : ℕ
unit = 60_000_000

abbrev integer_root : ℕ → ℕ
integer_root n = bisect 64 (λ m. leb n (m * m)) 0 (2 ^ 60)

abbrev pub fractions : Float64
fractions = record {
  F = ℤ;
  of_int = λ n. n *ℤ pos unit;
  add = λ a b. a +ℤ b;
  sub = λ a b. a -ℤ b;
  mul = λ a b. quot (a *ℤ b) unit;
  div = λ a b. quot (a *ℤ pos unit) (pos_part b);
  hypot = λ a b. pos (integer_root (pos_part (a *ℤ a +ℤ b *ℤ b)));
  min = λ a b. if ltb_ℤ b a then b else a;
  le = leb_ℤ;
  lt = ltb_ℤ;
  eq = eqb_ℤ;
  whole_part = λ a. quot a unit *ℤ pos unit;
  round = λ a. quot (a +ℤ pos 30_000_000) unit;
  trunc = λ a. quot a unit;
}

abbrev pub test_host : Host
test_host = record {
  float = fractions;
  sha256 = λ s. s;
  sha256_base64 = λ s. s;
  hex = λ s. s;
  unhex = λ s. some s;
  bcrypt = λ salt s. some s;
  bcrypt_matches = str_eq;
}

abbrev pub day_one : Time
day_one = pos 63_000_000_000_000_000_000

abbrev pub call_at : Time → Call ℤ
call_at t = record {
  reading = record { clock_now = t; database = absent };
  save = saved;
  cancelled = false;
}

-- Two roles at the origin, with ten points each.
abbrev pub rich : String → Role
rich id = record (new_role id "" id day_one) { cultivation_base = pos 600_000 }

abbrev pub two_roles : World test_host
two_roles = record (new_service test_host []) { roles = ("a", rich "a") ∷ ("b", rich "b") ∷ [] }

abbrev three_roles : World test_host
three_roles = record two_roles {
  roles = ("a", rich "a") ∷ ("c", record (rich "c") { cultivation_base = pos 60_000_000 }) ∷ [];
}

abbrev pub fresh_role : CommandExpectation
fresh_role = record { life_number = pos 1; state_version = pos 1 }

abbrev pub now_is : Call ℤ
now_is = call_at (day_one +ℤ pos 60_000_000_000)

abbrev paid : Result (State ℤ) × World test_host
paid = transfer test_host now_is "a" "b" "first" (pos 5) fresh_role two_roles

abbrev robbed : Result (State ℤ) × World test_host
robbed = seize test_host now_is "c" "a" "rob" fresh_role three_roles

abbrev moved : Result (State ℤ) × World test_host
moved = move test_host now_is "a" "go" (record { x = pos 3000; y = pos 4000 }) fresh_role two_roles

abbrev headed : Result (State ℤ) × World test_host
headed = move_direction test_host now_is "a" "east" right (pos 2) fresh_role two_roles

abbrev halted : Result (State ℤ) × World test_host
halted = stop test_host now_is "a" "halt" fresh_role two_roles

abbrev paid_state : State ℤ
paid_state = record {
  id = "a";
  name = "a";
  life_number = pos 1;
  status = alive;
  cultivation = pos 360_000_000;
  realm_level = 3;
  realm = "炼气后期";
  age_seconds = pos 3_600_000_000;
  lifespan_seconds = pos 432_000_000_000;
  speed = pos 5;
  sense_radius = pos 25;
  position = record { x = pos 0; y = pos 0 };
  movement_state = idle;
  movement_mode = none;
  movement_direction = undirected;
  movement_speed_setting = pos 0;
  actual_movement_speed = pos 0;
  state_version = pos 2;
  rule_version = pos 4;
}

abbrev robbed_state : State ℤ
robbed_state = record {
  id = "c";
  name = "c";
  life_number = pos 1;
  status = alive;
  cultivation = pos 60_720_000_000;
  realm_level = 14;
  realm = "化神中期";
  age_seconds = pos 3_600_000_000;
  lifespan_seconds = pos 2_808_000_000_000;
  speed = pos 987;
  sense_radius = pos 974_169;
  position = record { x = pos 0; y = pos 0 };
  movement_state = idle;
  movement_mode = none;
  movement_direction = undirected;
  movement_speed_setting = pos 0;
  actual_movement_speed = pos 0;
  state_version = pos 2;
  rule_version = pos 4;
}

abbrev halted_state : State ℤ
halted_state = record {
  id = "a";
  name = "a";
  life_number = pos 1;
  status = alive;
  cultivation = pos 660_000_000;
  realm_level = 4;
  realm = "筑基初期";
  age_seconds = pos 3_600_000_000;
  lifespan_seconds = pos 648_000_000_000;
  speed = pos 8;
  sense_radius = pos 64;
  position = record { x = pos 0; y = pos 0 };
  movement_state = idle;
  movement_mode = none;
  movement_direction = undirected;
  movement_speed_setting = pos 0;
  actual_movement_speed = pos 0;
  state_version = pos 2;
  rule_version = pos 4;
}

abbrev moved_state : State ℤ
moved_state = record halted_state {
  movement_state = moving;
  movement_mode = some target;
  actual_movement_speed = pos 8;
}

abbrev headed_state : State ℤ
headed_state = record halted_state {
  movement_state = moving;
  movement_mode = some direction;
  movement_direction = right;
  movement_speed_setting = pos 2;
  actual_movement_speed = pos 2;
}

-- Five points have gone from the one to the other.
paid_runs : paid ≡ (ok paid_state, paid.1)
unfolding open_everything
paid_runs = refl

robbed_runs : robbed ≡ (ok robbed_state, robbed.1)
unfolding open_everything
robbed_runs = refl

moved_runs : moved ≡ (ok moved_state, moved.1)
unfolding open_everything
moved_runs = refl

headed_runs : headed ≡ (ok headed_state, headed.1)
unfolding open_everything
headed_runs = refl

halted_runs : halted ≡ (ok halted_state, halted.1)
unfolding open_everything
halted_runs = refl

-- A second command an hour later, with an expectation that is stale, while the store fails.
abbrev later_call : Call ℤ
later_call = record (call_at (day_one +ℤ pos 3_600_000_000_000)) { save = refused load_failed }

abbrev stale : CommandExpectation
stale = record { life_number = pos 9; state_version = pos 9 }
