-- ===== src/World/Books/Moments.antt =====
-- When a trajectory reaches a distance: trajectoryTimeAtDistance of internal/biz/core.go.
use xiuxian.Base.{
  ℕ, suc, ◌≤◌, ◌≡◌, ◌⊎◌, inl, inr, refl, true, false, none, some, arith, dec_lt, Bool-cases,
}
use xiuxian.Base.Int.{pos, pos_part, ◌+ℤ◌, ◌-ℤ◌, ◌<ℤ◌, ltb_ℤ, lt_of_ltb_ℤ}
use xiuxian.Base.Float.{Float64}
use xiuxian.Base.Bisect.{bisect, Turns, bisect-Turns}
use xiuxian.Rules.Units.{Cultivation, Time, milliseconds, of_millis}
use xiuxian.Rules.Travel.{Trajectory}
use xiuxian.World.Crossing.{covered, trajectory_time_at_distance}

module _ (fl : Float64) where
  -- A millisecond, up to a latest one, at which the trajectory reaches a distance: it has covered it
  -- then, or, at the latest, has not covered less; and a millisecond before it has not.
  pub record IsCrossing (t : Trajectory) (c : Cultivation) (d : fl.F) (latest : ℕ) (at : Time)
      : Type 0 where
    pub millis : ℕ
    pub at_millis : at ≡ t.started_at +ℤ of_millis (pos millis)
    pub in_time : millis ≤ latest
    pub reached :
        (fl.le d (covered fl t c millis) ≡ true)
        ⊎ ((millis ≡ latest) × (fl.lt (covered fl t c latest) d ≡ false))
    pub not_before : (k : ℕ) → suc k ≡ millis → fl.le d (covered fl t c k) ≡ false

  Turns-IsCrossing :
      (t : Trajectory) (c : Cultivation) (d : fl.F) (latest millis : ℕ)
      → fl.lt (covered fl t c latest) d ≡ false
      → Turns (λ k. fl.le d (covered fl t c k)) 0 latest millis
      → IsCrossing t c d latest (t.started_at +ℤ of_millis (pos millis))
  Turns-IsCrossing t c d latest millis enough turns = record {
    millis = millis;
    at_millis = refl;
    in_time = turns.below;
    reached = elim (dec_lt millis latest) [
      | yes early ↦ inl (turns.holds early)
      | no late ↦ inr (omega (arith, turns.below), enough)
    ];
    not_before = λ k h. turns.fails k (omega arith) h;
  }

  -- trajectoryTimeAtDistance, whatever the distances that the trajectory covers: it finds no time if
  -- the latest one lies before the start, or if less than the distance is covered by then; or else
  -- it finds a crossing, a millisecond up to the latest one at which the distance is covered, or at
  -- the latest one not less than it, and which is the start or follows a millisecond at which the
  -- distance is not covered.
  pub trajectory_time_at_distance-IsCrossing :
      (t : Trajectory) (c : Cultivation) (d : fl.F) (no_later_than : Time)
      → let max_millis = milliseconds (no_later_than -ℤ t.started_at) in
        let latest = pos_part max_millis in
        let found = trajectory_time_at_distance fl t c d no_later_than in
        ((found ≡ none) × ((max_millis <ℤ pos 0) ⊎ (fl.lt (covered fl t c latest) d ≡ true)))
        ⊎ ((at : Time) × (found ≡ some at) × IsCrossing t c d latest at)
  unfolding trajectory_time_at_distance
  trajectory_time_at_distance-IsCrossing t c d no_later_than =
      let max_millis = milliseconds (no_later_than -ℤ t.started_at) in
      let latest = pos_part max_millis in
      elim (Bool-cases (ltb_ℤ max_millis (pos 0))) [
        | inl early ↦ inl (rw early refl, inl (lt_of_ltb_ℤ max_millis (pos 0) early))
        | inr late ↦ elim (Bool-cases (fl.lt (covered fl t c latest) d)) [
          | inl short ↦ inl (rw (late, short) refl, inr short)
          | inr enough ↦ inr (
            t.started_at
                +ℤ of_millis (pos (bisect latest (λ k. fl.le d (covered fl t c k)) 0 latest)),
            rw (late, enough) refl,
            Turns-IsCrossing t c d latest _ enough
                (bisect-Turns latest _ 0 latest (omega arith) (omega arith)),
          )
        ]
      ]
