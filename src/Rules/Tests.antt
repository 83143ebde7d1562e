-- ===== src/Rules/Tests.antt =====
-- Instances of what is proved of internal/rules/rules.go.
use xiuxian.Base.{ℕ, ◌≡◌, ◌≤◌, ◌<◌, ◌↔◌, true, not, some, arith, if◌then◌else◌}
use xiuxian.Base.Int.{pos, ◌-ℤ◌, ◌≤ℤ◌, ◌<ℤ◌}
use xiuxian.Base.Int.{ℤ, ◌+ℤ◌, pos_part, ◌*ℤ◌, quot, leb_ℤ, ltb_ℤ, eqb_ℤ}
use xiuxian.Base.Float.{Float64}
use xiuxian.Rules.Travel.{travel_loop, travel_fuel}
use xiuxian.Rules.Journey.{travel_loop_ends}
use xiuxian.Rules.Units.{Duration, nanos_per_hour, integer_grid_range}
use xiuxian.Rules.Realms.{realm_at, realm_for}
use xiuxian.Rules.Life.{
  death_fuel, derive_life, next_death_loop, next_natural_death_after, validate_transfer,
}
use xiuxian.Rules.Reward.{converted_cultivation}
use xiuxian.Rules.Table.{IsLevelOf, realm_for-IsLevelOf}
use xiuxian.Rules.Death.{IsFirstDeath, next_natural_death_after-IsFirstDeath}
use xiuxian.Rules.Eligible.{validate_transfer_iff}
use xiuxian.Rules.Convert.{
  share, exact_share, converted_exact, converted_cultivation_mono, converted_cultivation_overflow,
}
use xiuxian.Rules.Grid.{IsGridOf, integer_grid_range-IsGridOf}

next_natural_death_after-IsFirstDeath_example :
    (d : Duration) × (next_death_loop death_fuel (pos 600_000) (pos nanos_per_hour) (pos 0)
      ≡ some d)
    × (next_natural_death_after (pos 600_000) (pos nanos_per_hour) ≡ d)
    × IsFirstDeath (pos 600_000) (pos nanos_per_hour) d
next_natural_death_after-IsFirstDeath_example =
    next_natural_death_after-IsFirstDeath (pos 600_000) (pos nanos_per_hour) (omega arith)

realm_for-IsLevelOf_example :
    (l : ℕ) × (realm_for (pos 600_000) ≡ realm_at l) × IsLevelOf (pos 600_000) l
realm_for-IsLevelOf_example = realm_for-IsLevelOf (pos 600_000)

validate_transfer_iff_example :
    let v = validate_transfer (pos 600_000) (pos 300_000) (pos nanos_per_hour) in
    let post = pos 600_000 -ℤ pos 300_000 in
    ((v.allowed ≡ true) ↔ (
      (pos 0 <ℤ pos 300_000)
      × (pos 300_000 ≤ℤ pos 600_000)
      × (pos nanos_per_hour ≤ℤ (realm_for post).lifespan)))
    × (v.allowed ≡ true
        → v.death_after_transfer ≡ not (derive_life post (pos nanos_per_hour)).alive)
validate_transfer_iff_example =
    validate_transfer_iff (pos 600_000) (pos 300_000) (pos nanos_per_hour)

converted_exact_example :
    converted_cultivation (pos 600_000) (pos nanos_per_hour) ≡ pos (share 600_000 nanos_per_hour)
converted_exact_example = converted_exact 600_000 nanos_per_hour (omega arith)

converted_cultivation_mono_example :
    let conv = λ (t : ℕ). converted_cultivation (pos 600_000) (pos t) in
    (pos 0 ≤ℤ conv 5)
    × (conv 5 ≤ℤ conv nanos_per_hour)
    × (conv nanos_per_hour ≤ℤ pos 600_000)
    × (86_400_000_000_000 ≤ nanos_per_hour → conv nanos_per_hour ≡ pos 600_000)
converted_cultivation_mono_example =
    converted_cultivation_mono 600_000 5 nanos_per_hour (omega arith) (omega arith)

converted_cultivation_overflow_example :
    (converted_cultivation (pos 200_000_000_000) (pos 50_000_000_000_000) ≤ℤ pos 0)
    × (0 < exact_share 200_000_000_000 50_000_000_000_000)
converted_cultivation_overflow_example =
    converted_cultivation_overflow 200_000_000_000 50_000_000_000_000 (omega arith) (omega arith)
      (omega arith)

integer_grid_range-IsGridOf_example :
    IsGridOf (pos 1_500) (pos 9_999) (integer_grid_range (pos 1_500) (pos 9_999))
integer_grid_range-IsGridOf_example = integer_grid_range-IsGridOf (pos 1_500) (pos 9_999)

-- Whole numbers, with division rounded toward zero, for float64.
abbrev pub whole_numbers : Float64
whole_numbers = record {
  F = ℤ;
  of_int = λ n. n;
  add = λ a b. a +ℤ b;
  sub = λ a b. a -ℤ b;
  mul = λ a b. a *ℤ b;
  div = λ a b. quot a (pos_part b);
  hypot = λ a b. a +ℤ b;
  min = λ a b. if ltb_ℤ b a then b else a;
  le = leb_ℤ;
  lt = ltb_ℤ;
  eq = eqb_ℤ;
  whole_part = λ a. a;
  round = λ a. a;
  trunc = λ a. a;
}

travel_loop_ends_example :
    (travel_loop whole_numbers
      (travel_fuel whole_numbers)
      (pos 100_000)
      (pos 900_000)
      (pos 2)
      (pos 0)).1
    ≡ pos 0
travel_loop_ends_example =
    travel_loop_ends whole_numbers (pos 100_000) (pos 900_000) (pos 2) (pos 0) (omega arith)
      (omega arith)
