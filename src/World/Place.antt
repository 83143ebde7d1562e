-- ===== src/World/Place.antt =====
-- Random positions, the bounds of the world and the placing of opportunities, of
-- internal/biz/core.go.
use xiuxian.Base.{
  ℕ, ◌%◌, Bool, true, ◌&&◌, ◌||◌, Option, none, some, List, [], ◌∷◌, String, if◌then◌else◌,
}
use xiuxian.Base.Int.{
  ℤ, pos, negsuc, pos_part, ◌+ℤ◌, ◌-ℤ◌, ◌*ℤ◌, ltb_ℤ, leb_ℤ, eqb_ℤ, quot, rem, scale,
}
use xiuxian.Base.Dict.{Dict, lookup, adjust}
use xiuxian.Base.Text.{str_lt}
use xiuxian.Base.Sort.{sort}
use xiuxian.Rules.Units.{Coordinate, Position, integer_grid_range, coordinate_scale}
use xiuxian.World.Host.{Host}
use xiuxian.World.Model.{
  World, Opportunity, OpportunityStatus, unplaced, unclaimed, bound, consumed, discarded,
}

-- The grid positions of a rectangle, numbered column by column, and the number that is left out.
pub record Board : Type 0 where
  pub first_x : Coordinate
  pub first_y : Coordinate
  pub count_x : ℤ
  pub count_y : ℤ
  -- -1 for none
  pub excluded : ℤ
  -- how many positions are left
  pub total : ℤ

unfoldable pub board_of : Coordinate → Coordinate → Coordinate → Coordinate → Position → Board
board_of min_x max_x min_y max_y ex =
    let gx = integer_grid_range min_x max_x in
    let gy = integer_grid_range min_y max_y in
    let listed =
      leb_ℤ gx.first ex.x
      && leb_ℤ ex.x max_x
      && leb_ℤ gy.first ex.y
      && leb_ℤ ex.y max_y
      && eqb_ℤ (rem (ex.x -ℤ gx.first) coordinate_scale) (pos 0)
      && eqb_ℤ (rem (ex.y -ℤ gy.first) coordinate_scale) (pos 0) in
    record {
      first_x = gx.first;
      first_y = gy.first;
      count_x = gx.count;
      count_y = gy.count;
      excluded =
          if listed
          then quot (ex.x -ℤ gx.first) coordinate_scale *ℤ gy.count
            +ℤ quot (ex.y -ℤ gy.first) coordinate_scale
          else negsuc 0;
      total = if listed then gx.count *ℤ gy.count -ℤ pos 1 else gx.count *ℤ gy.count;
    }

-- The position with a number among those that are left.
unfoldable pub nth_position : Board → ℤ → Position
nth_position b chosen =
    let index =
      if leb_ℤ (pos 0) b.excluded && leb_ℤ b.excluded chosen then chosen +ℤ pos 1 else chosen in
    record {
      x = b.first_x +ℤ scale coordinate_scale (quot index (pos_part b.count_y));
      y = b.first_y +ℤ scale coordinate_scale (rem index (pos_part b.count_y));
    }

module _ (host : Host) where
  unfoldable pub take_draw : ℕ → List (Option ℕ) → World host → Option ℕ × World host
  take_draw span [] s = (none, s)
  take_draw span (none ∷ rest) s = (none, record s { entropy = rest })
  take_draw span (some n ∷ rest) s = (some (n % span), record s { entropy = rest })

  -- rand.Int(rand.Reader, span): a number below the span, or an error
  unfoldable pub draw : ℕ → World host → Option ℕ × World host
  draw span s = take_draw span s.entropy s

  unfoldable pub random_coordinate :
      Coordinate → Coordinate → World host → Option Coordinate × World host
  random_coordinate minimum maximum s =
      let span = maximum -ℤ minimum +ℤ pos 1 in
      let (drawn, s') = draw (pos_part span) s in
      if leb_ℤ span (pos 1)
      then (some minimum, s)
      else (elim drawn [ none ↦ none | some n ↦ some (minimum +ℤ pos n) ], s')

  unfoldable pub random_integer_position_excluding :
      Coordinate
      → Coordinate
      → Coordinate
      → Coordinate
      → Position
      → World host
      → Option Position × World host
  random_integer_position_excluding min_x max_x min_y max_y excluded s =
      let b = board_of min_x max_x min_y max_y excluded in
      let (drawn, s') = draw (pos_part b.total) s in
      if eqb_ℤ b.count_x (pos 0) || eqb_ℤ b.count_y (pos 0)
      then (none, s)
      else if leb_ℤ b.total (pos 0)
      then (none, s)
      else (elim drawn [ none ↦ none | some n ↦ some (nth_position b (pos n)) ], s')

  unfoldable pub put_at : Position → Opportunity → Opportunity
  put_at p o = record o { position = p; status = unclaimed }

  unfoldable pub place_found : String → Option Position × World host → World host
  place_found id (none, s) = s
  place_found id (some p, s) = record s { opportunities = adjust id (put_at p) s.opportunities }

  unfoldable pub place_if_unplaced :
      OpportunityStatus → String → Opportunity → World host → World host
  place_if_unplaced unplaced id o s =
      place_found id
        (random_integer_position_excluding s.min_x s.max_x s.min_y s.max_y o.death_position s)
  place_if_unplaced unclaimed id o s = s
  place_if_unplaced bound id o s = s
  place_if_unplaced consumed id o s = s
  place_if_unplaced discarded id o s = s

  unfoldable pub place_opportunity : String → World host → World host
  place_opportunity id s = elim (lookup id s.opportunities) [
    | none ↦ s
    | some o ↦ place_if_unplaced o.status id o s
  ]

  unfoldable pub unplaced_ids : Dict Opportunity → List String
  unplaced_ids [] = []
  unplaced_ids ((id, o) ∷ rest) =
      let ids = unplaced_ids rest in elim o.status [ unplaced ↦ id ∷ ids | _ ↦ ids ]

  unfoldable pub place_each : List String → World host → World host
  place_each [] s = s
  place_each (id ∷ ids) s = place_each ids (place_opportunity id s)

  unfoldable pub place_unplaced_opportunities : World host → World host
  place_unplaced_opportunities s = place_each (sort str_lt (unplaced_ids s.opportunities)) s

  unfoldable pub widen : Position → World host → World host
  widen p s = record s {
    min_x = if ltb_ℤ p.x s.min_x then p.x else s.min_x;
    max_x = if ltb_ℤ s.max_x p.x then p.x else s.max_x;
    min_y = if ltb_ℤ p.y s.min_y then p.y else s.min_y;
    max_y = if ltb_ℤ s.max_y p.y then p.y else s.max_y;
  }

  -- Whether one of the four tests sets `changed`.
  unfoldable pub outside : Position → World host → Bool
  outside p s =
      if ltb_ℤ p.x s.min_x
      then true
      else if ltb_ℤ s.max_x p.x
      then true
      else if ltb_ℤ p.y s.min_y
      then true
      else ltb_ℤ s.max_y p.y

  unfoldable pub expand_bounds : Position → World host → World host
  expand_bounds p s = if outside p s then place_unplaced_opportunities (widen p s) else widen p s

-- The definitions of this file together, for a test that runs them.
unfoldable pub open_place : Unit {0}
unfolding board_of nth_position take_draw draw random_coordinate random_integer_position_excluding
    put_at place_found place_if_unplaced place_opportunity unplaced_ids place_each
    place_unplaced_opportunities widen outside expand_bounds
open_place = tt
