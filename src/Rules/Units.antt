-- ===== src/Rules/Units.antt =====
-- Quantities of internal/rules/rules.go. Cultivation counts milliseconds of natural cultivation, a
-- coordinate thousandths of a world unit; a duration counts nanoseconds and an instant nanoseconds
-- since Go's zero time, as time.Duration and time.Time do.
use xiuxian.Base.{ℕ, Bool, ◌&&◌, if◌then◌else◌}
use xiuxian.Base.Int.{ℤ, pos, ◌+ℤ◌, ◌-ℤ◌, ltb_ℤ, eqb_ℤ, quot, rem, scale}
use xiuxian.Base.Float.{Float64}

abbrev pub Cultivation : Type 0
Cultivation = ℤ

abbrev pub Coordinate : Type 0
Coordinate = ℤ

abbrev pub Duration : Type 0
Duration = ℤ

abbrev pub Time : Type 0
Time = ℤ

abbrev pub cultivation_units_per_point : ℕ
cultivation_units_per_point = 60_000

abbrev pub coordinate_scale : ℕ
coordinate_scale = 1_000

abbrev pub nanos_per_milli : ℕ
nanos_per_milli = 1_000_000

abbrev pub nanos_per_second : ℕ
nanos_per_second = 1_000_000_000

abbrev pub nanos_per_hour : ℕ
nanos_per_hour = 3_600_000_000_000

-- Duration.Milliseconds
abbrev pub milliseconds : Duration → ℤ
milliseconds d = quot d nanos_per_milli

-- time.Duration(n) * time.Millisecond
abbrev pub of_millis : ℤ → Duration
of_millis n = scale nanos_per_milli n

-- Points at an integral argument, whose float64 product is exact.
unfoldable pub points_of_int : ℤ → Cultivation
unfolding scale
points_of_int n = scale cultivation_units_per_point n

pub record Position : Type 0 where
  pub x : Coordinate
  pub y : Coordinate

abbrev pub origin : Position
origin = record { x = pos 0; y = pos 0 }

-- ==
unfoldable pub same_position : Position → Position → Bool
same_position p q = eqb_ℤ p.x q.x && eqb_ℤ p.y q.y

module _ (fl : Float64) where
  open fl use {F, of_int, add, mul, div, hypot, round}

  -- Duration.Seconds
  unfoldable pub seconds : Duration → F
  seconds d =
      add (of_int (quot d nanos_per_second))
        (div (of_int (rem d nanos_per_second)) (of_int (pos nanos_per_second)))

  unfoldable pub points : F → Cultivation
  points value = round (mul value (of_int (pos cultivation_units_per_point)))

  unfoldable pub cultivation_points : Cultivation → F
  cultivation_points c = div (of_int c) (of_int (pos cultivation_units_per_point))

  unfoldable pub units : F → Coordinate
  units value = round (mul value (of_int (pos coordinate_scale)))

  unfoldable pub coordinate_units : Coordinate → F
  coordinate_units c = div (of_int c) (of_int (pos coordinate_scale))

  unfoldable pub distance : Position → Position → F
  distance a b =
      div (hypot (of_int (a.x -ℤ b.x)) (of_int (a.y -ℤ b.y))) (of_int (pos coordinate_scale))

-- The multiples of 1000 between two coordinates: the first, the last and their number.
pub record GridRange : Type 0 where
  pub first : Coordinate
  pub last : Coordinate
  pub count : ℤ

abbrev pub empty_range : GridRange
empty_range = record { first = pos 0; last = pos 0; count = pos 0 }

unfoldable pub first_units : Coordinate → ℤ
first_units minimum =
    if ltb_ℤ (pos 0) (rem minimum coordinate_scale)
    then quot minimum coordinate_scale +ℤ pos 1
    else quot minimum coordinate_scale

unfoldable pub last_units : Coordinate → ℤ
last_units maximum =
    if ltb_ℤ (rem maximum coordinate_scale) (pos 0)
    then quot maximum coordinate_scale -ℤ pos 1
    else quot maximum coordinate_scale

unfoldable pub integer_grid_range : Coordinate → Coordinate → GridRange
integer_grid_range minimum maximum =
    if ltb_ℤ maximum minimum
    then empty_range
    else if ltb_ℤ (last_units maximum) (first_units minimum)
    then empty_range
    else record {
      first = scale coordinate_scale (first_units minimum);
      last = scale coordinate_scale (last_units maximum);
      count = last_units maximum -ℤ first_units minimum +ℤ pos 1;
    }
