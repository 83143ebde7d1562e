-- ===== src/Rules/Reward.antt =====
-- Opportunities and eligibility in internal/rules/rules.go.
use xiuxian.Base.{ℕ, Bool, ◌&&◌, ◌||◌, ltb, if◌then◌else◌}
use xiuxian.Base.Int.{pos, ◌+ℤ◌, ◌-ℤ◌, ◌*ℤ◌, leb_ℤ, quot, int64}
use xiuxian.Base.Float.{Float64}
use xiuxian.Rules.Units.{Cultivation, Coordinate, Duration, Position, milliseconds, nanos_per_hour}
use xiuxian.Rules.Realms.{Realm}
use Prim.Native.Nat.{◌*◌}

abbrev pub opportunity_duration : Duration
opportunity_duration = pos (24 * nanos_per_hour)

-- 24h in milliseconds
abbrev pub opportunity_millis : ℕ
opportunity_millis = 86_400_000

-- The product is one of int64 values, and wraps.
unfoldable pub converted_cultivation : Cultivation → Duration → Cultivation
unfolding int64 ◌*ℤ◌
converted_cultivation total elapsed =
    if leb_ℤ total (pos 0) || leb_ℤ elapsed (pos 0)
    then pos 0
    else if leb_ℤ opportunity_duration elapsed
    then total
    else quot (int64 (total *ℤ milliseconds elapsed)) opportunity_millis

pub record InteractionEligibility : Type 0 where
  pub can_transfer : Bool
  pub can_seize : Bool
  pub can_request_conversation : Bool

module _ (fl : Float64) where
  open fl use {F, of_int, hypot, le}

  unfoldable pub interaction_eligibility_for : F → Realm → Realm → InteractionEligibility
  interaction_eligibility_for distance actor target = record {
    can_transfer = le distance (of_int actor.speed);
    can_seize = le distance (of_int (pos 1)) && ltb target.level actor.level;
    can_request_conversation = le distance (of_int actor.sense_radius);
  }

  unfoldable pub can_sense_opportunity : Position → Coordinate → Position → Coordinate → Bool
  can_sense_opportunity role role_radius opportunity opportunity_radius =
      le (hypot (of_int (role.x -ℤ opportunity.x)) (of_int (role.y -ℤ opportunity.y)))
        (of_int (role_radius +ℤ opportunity_radius))
