-- ===== src/Rules/Journey.antt =====
-- The loop of TravelDistance in internal/rules/rules.go ends.
use xiuxian.Base.{
  ℕ, zero, suc, ◌+◌, ◌≤◌, ◌<◌, ◌≡◌, refl, ap, ◌∙◌, inl, inr, true, false, arith, Bool-cases, ltb,
  ltb→lt, ◌⊎◌, subst,
}
use xiuxian.Base.Int.{ℤ, pos, ◌+ℤ◌, ◌-ℤ◌, ◌≤ℤ◌, ◌<ℤ◌, ltb_ℤ, int_laws, lt_of_ltb_ℤ, le_of_ltb_ℤ}
use xiuxian.Base.Float.{Float64}
use xiuxian.Rules.Units.{Cultivation}
use xiuxian.Rules.Realms.{realm_at, realm_for}
use xiuxian.Rules.Travel.{segment_millis, effective_speed, travel_loop, travel_fuel}
use xiuxian.Rules.Table.{IsLevelOf, realm_for-IsLevelOf, realm_for_unique, level-realm_at}
use xiuxian.Rules.Death.{entered}

module _ (fl : Float64) where
  at_rest :
      (fuel : ℕ) (c : Cultivation) (desired : ℤ) (d : fl.F)
      → (travel_loop fl fuel c (pos 0) desired d).1 ≡ pos 0
  unfolding travel_loop
  at_rest zero c desired d = refl
  at_rest (suc fuel) c desired d = refl

  -- A segment ends at the next threshold, or with the journey.
  segment_cases :
      (c : Cultivation) (m : ℤ) (l : ℕ)
      → l < 32
      → realm_for c ≡ realm_at l
      → ((l < 31)
          × ((realm_at (l + 1)).threshold -ℤ c <ℤ m)
          × (segment_millis (realm_for c) c m ≡ (realm_at (l + 1)).threshold -ℤ c))
        ⊎ (segment_millis (realm_for c) c m ≡ m)
  unfolding segment_millis
  segment_cases c m l table e = elim (Bool-cases (ltb l 31)) [
    | inr top ↦ inr (rw (e, level-realm_at l table, top) refl)
    | inl low ↦ elim (Bool-cases (ltb_ℤ ((realm_at (l + 1)).threshold -ℤ c) m)) [
      | inr last ↦ inr (rw (e, level-realm_at l table, low, last) refl)
      | inl more ↦
          inl
            (ltb→lt l 31 low, lt_of_ltb_ℤ _ m more, rw (e, level-realm_at l table, low, more) refl)
    ]
  ]

  onward :
      (fuel : ℕ) (c : Cultivation) (m desired : ℤ) (d : fl.F)
      → ltb_ℤ (pos 0) m ≡ true
      → (t : fl.F) × (travel_loop fl (suc fuel) c m desired d
          ≡ travel_loop fl fuel
              (c +ℤ segment_millis (realm_for c) c m)
              (m -ℤ segment_millis (realm_for c) c m)
              desired
              t)
  unfolding travel_loop
  onward fuel c m desired d go = (
    fl.add d (
        fl.div
          (fl.mul (fl.of_int (effective_speed (realm_for c).speed desired))
            (fl.of_int (segment_millis (realm_for c) c m)))
          (fl.of_int (pos 1000))),
    rw (go, travel_loop) refl,
  )

  resting :
      (fuel : ℕ) (c : Cultivation) (m desired : ℤ) (d : fl.F)
      → pos 0 ≤ℤ m
      → ltb_ℤ (pos 0) m ≡ false
      → (travel_loop fl (suc fuel) c m desired d).1 ≡ pos 0
  unfolding travel_loop
  resting fuel c m desired d n still =
      let le = le_of_ltb_ℤ (pos 0) m still in rw (still, travel_loop) (omega int_laws)

  last_step :
      (fuel : ℕ) (c : Cultivation) (m s desired : ℤ) (t : fl.F)
      → s ≡ m
      → (travel_loop fl fuel (c +ℤ s) (m -ℤ s) desired t).1 ≡ pos 0
  last_step fuel c m s desired t e =
      let zero_left : m -ℤ s ≡ pos 0 = rw e (omega int_laws) in
      rw zero_left (at_rest fuel (c +ℤ s) desired t)

  -- The rest of the journey, if it does so from the next threshold on, ends.
  abbrev Ends : ℕ → Type 0
  Ends fuel =
      (c : Cultivation) (m desired : ℤ) (d : fl.F) (l : ℕ)
      → IsLevelOf c l
      → realm_for c ≡ realm_at l
      → pos 0 ≤ℤ c
      → pos 0 ≤ℤ m
      → 31 ≤ l + fuel
      → (travel_loop fl (suc fuel) c m desired d).1 ≡ pos 0

  higher :
      (fuel : ℕ) (c : Cultivation) (m s desired : ℤ) (t : fl.F) (l : ℕ)
      → ((f : ℕ) → fuel ≡ suc f → Ends f)
      → IsLevelOf c l
      → pos 0 ≤ℤ c
      → 31 ≤ l + fuel
      → l < 31
      → (realm_at (l + 1)).threshold -ℤ c <ℤ m
      → s ≡ (realm_at (l + 1)).threshold -ℤ c
      → (travel_loop fl fuel (c +ℤ s) (m -ℤ s) desired t).1 ≡ pos 0
  higher zero c m s desired t l on level h enough lt more e = absurd (omega arith)
  higher (suc fuel) c m s desired t l on level h enough lt more e =
      let up = level.next_above (l + 1) (omega arith) (omega arith) in
      let nonneg : pos 0 ≤ℤ (realm_at (l + 1)).threshold = omega arith in
      let there : c +ℤ s ≡ (realm_at (l + 1)).threshold = rw e (omega int_laws) in
      let left : pos 0 ≤ℤ m -ℤ s = rw e (omega int_laws) in
      rw there (
        on fuel refl (realm_at (l + 1)).threshold (m -ℤ s) desired t (l + 1) (entered l lt)
          (realm_for_unique _ (l + 1) nonneg (entered l lt)) nonneg left (omega arith))

  step-Ends : (fuel : ℕ) → ((f : ℕ) → fuel ≡ suc f → Ends f) → Ends fuel
  step-Ends fuel on c m desired d l level e h n enough = elim (Bool-cases (ltb_ℤ (pos 0) m)) [
    | inr still ↦ resting fuel c m desired d n still
    | inl go ↦
        let (t, step) = onward fuel c m desired d go in
        ap (λ r. r.1) step ∙ elim (segment_cases c m l level.in_table e) [
          | inr done ↦ last_step fuel c m _ desired t done
          | inl (lt, more, s) ↦ higher fuel c m _ desired t l on level h enough lt more s
        ]
  ]

  -- Each round but the last enters a higher realm.
  journey : (fuel : ℕ) → Ends fuel
  journey zero = step-Ends zero (λ f e. absurd (omega arith))
  journey (suc fuel) = step-Ends (suc fuel) (λ f e. subst Ends (omega arith) (journey fuel))

  -- The loop of TravelDistance, from a cultivation and a time that are not negative, ends: no
  -- millisecond is left after as many rounds as there are realms, at whatever speed is desired.
  pub travel_loop_ends :
      (c : Cultivation) (m desired : ℤ) (d : fl.F)
      → pos 0 ≤ℤ c
      → pos 0 ≤ℤ m
      → (travel_loop fl (travel_fuel fl) c m desired d).1 ≡ pos 0
  travel_loop_ends c m desired d h n =
      let (l, e, level) = realm_for-IsLevelOf c in
      journey 31 c m desired d l level e h n (omega arith)
