-- ===== src/Rules/Death.antt =====
-- NextNaturalDeathAfter of internal/rules/rules.go finds the first instant of natural cultivation at
-- which the lifespan of the realm then reached is used up.
use xiuxian.Base.{
  ℕ, zero, suc, ◌+◌, ◌≤◌, ◌<◌, ◌≡◌, sym, ◌∙◌, ap, inl, inr, Bool, true, false, arith, ◌==◌,
  if◌then◌else◌, Bool-cases, some,
}
use xiuxian.Base.Int.{
  ℤ, pos, ◌+ℤ◌, ◌-ℤ◌, ◌≤ℤ◌, ◌<ℤ◌, ltb_ℤ, leb_ℤ, int_laws, ltb_ℤ-true, ltb_ℤ-false, le_of_leb_ℤ,
  lt_of_leb_ℤ, le_of_ltb_ℤ, lt_of_ltb_ℤ,
}
use xiuxian.Rules.Units.{Cultivation, Duration, milliseconds, of_millis}
use xiuxian.Rules.Realms.{realm_at, realm_for, top_level}
use xiuxian.Rules.Life.{derive_life, death_fuel, next_death_loop, next_natural_death_after}
use xiuxian.Rules.Table.{
  IsLevelOf, realm_for-IsLevelOf, realm_for_unique, level-realm_at, threshold_rises, threshold_step,
}

abbrev alive_at : Cultivation → Duration → Duration → Bool
alive_at c age t = (derive_life (c +ℤ milliseconds t) (age +ℤ t)).alive

-- After d the role is dead, and at every instant before it is alive, with the cultivation and the
-- age that have come naturally.
pub record IsFirstDeath (c : Cultivation) (age d : ℤ) : Type 0 where
  pub nonneg : pos 0 ≤ℤ d
  pub alive_before : (t : ℤ) → pos 0 ≤ℤ t → t <ℤ d → alive_at c age t ≡ true
  pub dead_at : alive_at c age d ≡ false

-- Within one realm life ends with that realm's lifespan.
module _ (c c' : Cultivation) (l : ℕ) (level : IsLevelOf c l) (nonneg : pos 0 ≤ℤ c)
    (later : c ≤ℤ c') (below : (k : ℕ) → l < k → k < 32 → c' <ℤ (realm_at k).threshold) where
  same_realm : realm_for c' ≡ realm_at l
  same_realm = realm_for_unique c' l (omega arith) (record {
    in_table = level.in_table;
    reached = λ h. omega (arith, level.reached nonneg);
    next_above = below;
  })

  alive-same_realm : (age : ℤ) → (derive_life c' age).alive ≡ ltb_ℤ age (realm_at l).lifespan
  unfolding derive_life
  alive-same_realm age = rw same_realm

below_next :
    (c' : Cultivation) (l : ℕ)
    → (l < 31 → c' <ℤ (realm_at (l + 1)).threshold)
    → (k : ℕ) → l < k
    → k < 32
    → c' <ℤ (realm_at k).threshold
below_next c' l h k a b = omega (arith, h (omega arith), threshold_rises (l + 1) k (omega arith) b)

abbrev Loop : ℕ → Cultivation → ℤ → ℤ → Type 0
Loop fuel c age elapsed =
    (d : ℤ) × (next_death_loop fuel c age elapsed ≡ some (elapsed +ℤ d)) × IsFirstDeath c age d

-- The rest of the lifespan passes within the realm.
ends_here :
    (c : Cultivation) (age : ℤ) (l : ℕ)
    → IsLevelOf c l
    → pos 0 ≤ℤ c
    → pos 0 ≤ℤ (realm_at l).lifespan -ℤ age
    → (l < 31 → (realm_at l).lifespan -ℤ age <ℤ of_millis ((realm_at (l + 1)).threshold -ℤ c))
    → IsFirstDeath c age ((realm_at l).lifespan -ℤ age)
ends_here c age l level h n below = record {
  nonneg = n;
  alive_before = λ t a b.
      alive-same_realm c _ l level h (omega int_laws)
        (below_next _ l (λ lt. omega (int_laws, below lt))) (age +ℤ t)
      ∙ ltb_ℤ-true (age +ℤ t) (realm_at l).lifespan (omega int_laws);
  dead_at =
      alive-same_realm c _ l level h (omega int_laws)
        (below_next _ l (λ lt. omega (int_laws, below lt))) _
      ∙ ltb_ℤ-false (age +ℤ ((realm_at l).lifespan -ℤ age)) (realm_at l).lifespan (omega int_laws);
}

abbrev breakthrough : ℕ → Cultivation → Duration
breakthrough l c = of_millis ((realm_at (l + 1)).threshold -ℤ c)

-- The later part of an interval, in milliseconds and in nanoseconds.
shift :
    (c : Cultivation) (age t : ℤ) (l : ℕ)
    → pos 0 ≤ℤ (realm_at (l + 1)).threshold -ℤ c
    → breakthrough l c ≤ℤ t
    → alive_at
        (c +ℤ milliseconds (breakthrough l c))
        (age +ℤ breakthrough l c)
        (t -ℤ breakthrough l c)
      ≡ alive_at c age t
unfolding derive_life
shift c age t l h le =
    let e : c +ℤ milliseconds (breakthrough l c) +ℤ milliseconds (t -ℤ breakthrough l c)
        ≡ c +ℤ milliseconds t =
      omega int_laws in
    let e' : age +ℤ breakthrough l c +ℤ (t -ℤ breakthrough l c) ≡ age +ℤ t = omega int_laws in
    rw (e, e')

-- The next realm is entered within the lifespan.
goes_on :
    (c : Cultivation) (age d : ℤ) (l : ℕ)
    → IsLevelOf c l
    → pos 0 ≤ℤ c
    → l < 31
    → breakthrough l c ≤ℤ (realm_at l).lifespan -ℤ age
    → IsFirstDeath (c +ℤ milliseconds (breakthrough l c)) (age +ℤ breakthrough l c) d
    → IsFirstDeath c age (breakthrough l c +ℤ d)
goes_on c age d l level h lt fits first =
    let up = level.next_above (l + 1) (omega arith) (omega arith) in
    record {
      nonneg = omega (int_laws, first.nonneg);
      alive_before = λ t a b. elim (Bool-cases (ltb_ℤ t (breakthrough l c))) [
        | inl early ↦
            let q = lt_of_ltb_ℤ t (breakthrough l c) early in
            alive-same_realm c _ l level h (omega int_laws) (below_next _ l (λ _. omega int_laws))
              (age +ℤ t)
            ∙ ltb_ℤ-true (age +ℤ t) (realm_at l).lifespan (omega int_laws)
        | inr late ↦
            let q = le_of_ltb_ℤ t (breakthrough l c) late in
            sym (shift c age t l (omega int_laws) q)
            ∙ first.alive_before (t -ℤ breakthrough l c) (omega int_laws) (omega int_laws)
      ];
      dead_at =
          let e : breakthrough l c +ℤ d -ℤ breakthrough l c ≡ d = omega int_laws in
          sym (
            shift c age (breakthrough l c +ℤ d) l (omega int_laws) (omega (int_laws, first.nonneg)))
          ∙ rw e first.dead_at;
    }

after_breakthrough :
    (c : Cultivation) (l : ℕ) → c +ℤ milliseconds (breakthrough l c) ≡ (realm_at (l + 1)).threshold
after_breakthrough c l = omega int_laws

pub entered : (l : ℕ) → l < 31 → IsLevelOf (realm_at (l + 1)).threshold (l + 1)
entered l lt = record {
  in_table = omega arith;
  reached = λ h. omega arith;
  next_above = λ k a b.
      omega (
        arith,
        threshold_step (l + 1) (omega arith),
        threshold_rises (l + 1 + 1) k (omega arith) b,
      );
}

-- One round of the loop at a known level.
loop_round :
    (fuel : ℕ) (c : Cultivation) (age elapsed : ℤ) (l : ℕ)
    → IsLevelOf c l
    → realm_for c ≡ realm_at l
    → next_death_loop (suc fuel) c age elapsed ≡ (
        let until_death = (realm_at l).lifespan -ℤ age in
        if leb_ℤ until_death (pos 0)
        then some elapsed
        else if l == top_level
        then some (elapsed +ℤ until_death)
        else if ltb_ℤ until_death (breakthrough l c)
        then some (elapsed +ℤ until_death)
        else next_death_loop fuel
            (realm_at (l + 1)).threshold
            (age +ℤ breakthrough l c)
            (elapsed +ℤ breakthrough l c))
unfolding next_death_loop
loop_round fuel c age elapsed l level e =
    rw (e, level-realm_at l level.in_table, after_breakthrough c l)

-- The lifespan is used up already.
past :
    (c : Cultivation) (age : ℤ) (l : ℕ)
    → realm_for c ≡ realm_at l
    → (realm_at l).lifespan -ℤ age ≤ℤ pos 0
    → IsFirstDeath c age (pos 0)
unfolding derive_life
past c age l e h =
    let ec : c +ℤ milliseconds (pos 0) ≡ c = omega int_laws in
    record {
      nonneg = omega arith;
      alive_before = λ t a b. absurd (omega arith);
      dead_at = rw (ec, e) (ltb_ℤ-false (age +ℤ pos 0) (realm_at l).lifespan (omega int_laws));
    }

-- The round that the loop makes when neither test ends it.
Loop-again :
    (fuel : ℕ) (c : Cultivation) (age elapsed : ℤ) (l : ℕ)
    → IsLevelOf c l
    → pos 0 ≤ℤ c
    → l < 31
    → breakthrough l c ≤ℤ (realm_at l).lifespan -ℤ age
    → Loop fuel (realm_at (l + 1)).threshold (age +ℤ breakthrough l c) (elapsed +ℤ breakthrough l c)
    → (d : ℤ) × (next_death_loop fuel
          (realm_at (l + 1)).threshold
          (age +ℤ breakthrough l c)
          (elapsed +ℤ breakthrough l c)
        ≡ some (elapsed +ℤ d))
      × IsFirstDeath c age d
Loop-again fuel c age elapsed l level h lt fits (d, e, first) =
    let sum : elapsed +ℤ breakthrough l c +ℤ d ≡ elapsed +ℤ (breakthrough l c +ℤ d) =
      omega int_laws in
    (
      breakthrough l c +ℤ d,
      rw (← sum) e,
      goes_on c age d l level h lt fits (rw (after_breakthrough c l) first),
    )

-- One round, given what the next one does.
Loop-step :
    (fuel : ℕ) (c : Cultivation) (age elapsed : ℤ) (l : ℕ)
    → IsLevelOf c l
    → realm_for c ≡ realm_at l
    → pos 0 ≤ℤ c
    → (l < 31
        → Loop fuel
            (realm_at (l + 1)).threshold
            (age +ℤ breakthrough l c)
            (elapsed +ℤ breakthrough l c))
    → Loop (suc fuel) c age elapsed
Loop-step fuel c age elapsed l level e h next =
    rw (loop_round fuel c age elapsed l level e) (elim (Bool-cases (leb_ℤ until (pos 0))) [
      | inl over ↦
          let none_left : elapsed ≡ elapsed +ℤ pos 0 = omega int_laws in
          (pos 0, rw over (ap some none_left), past c age l e (le_of_leb_ℤ until (pos 0) over))
      | inr more ↦ elim (Bool-cases (l == top_level)) [
        | inl top ↦ (
          until,
          rw (more, top),
          ends_here c age l level h (omega (arith, lt_of_leb_ℤ until (pos 0) more))
              (λ lt. absurd (ground arith)),
        )
        | inr lower ↦ elim (Bool-cases (ltb_ℤ until (breakthrough l c))) [
          | inl stays ↦ (
            until,
            rw (more, lower, stays),
            ends_here c age l level h (omega (arith, lt_of_leb_ℤ until (pos 0) more))
                (λ lt. lt_of_ltb_ℤ until (breakthrough l c) stays),
          )
          | inr passes ↦
              let lt : l < 31 = let t = level.in_table in ground arith in
              let fits = le_of_ltb_ℤ until (breakthrough l c) passes in
              rw (more, lower, passes) (Loop-again fuel c age elapsed l level h lt fits (next lt))
        ]
      ]
    ])
  where
    until : ℤ
    until = (realm_at l).lifespan -ℤ age

-- Each round enters a higher realm, so that 32 of them are enough.
walk-Loop :
    (fuel : ℕ) (c : Cultivation) (age elapsed : ℤ) (l : ℕ)
    → IsLevelOf c l
    → realm_for c ≡ realm_at l
    → pos 0 ≤ℤ c
    → 31 ≤ l + fuel
    → Loop (suc fuel) c age elapsed
walk-Loop zero c age elapsed l level e h enough =
    Loop-step zero c age elapsed l level e h (λ lt. absurd (omega arith))
walk-Loop (suc fuel) c age elapsed l level e h enough =
    Loop-step (suc fuel) c age elapsed l level e h λ lt.
      let up = level.next_above (l + 1) (omega arith) (omega arith) in
      let nonneg : pos 0 ≤ℤ (realm_at (l + 1)).threshold = omega arith in
      walk-Loop fuel (realm_at (l + 1)).threshold (age +ℤ breakthrough l c)
        (elapsed +ℤ breakthrough l c) (l + 1) (entered l lt)
        (realm_for_unique _ (l + 1) nonneg (entered l lt)) nonneg (omega arith)

-- NextNaturalDeathAfter terminates and returns the first instant at which natural cultivation, of a
-- cultivation that is not negative, finds the role dead: the role is alive at every instant before
-- it, and dead at it.
pub next_natural_death_after-IsFirstDeath :
    (c : Cultivation) (age : Duration)
    → pos 0 ≤ℤ c
    → (d : Duration) × (next_death_loop death_fuel c age (pos 0) ≡ some d)
      × (next_natural_death_after c age ≡ d)
      × IsFirstDeath c age d
unfolding next_natural_death_after
next_natural_death_after-IsFirstDeath c age h =
    let (l, e, level) = realm_for-IsLevelOf c in
    let (d, r, first) = walk-Loop 31 c age (pos 0) l level e h (omega arith) in
    let sum : pos 0 +ℤ d ≡ d = omega int_laws in
    let r' : next_death_loop death_fuel c age (pos 0) ≡ some d = rw sum at r in
    (d, r', rw (r', next_natural_death_after), first)
