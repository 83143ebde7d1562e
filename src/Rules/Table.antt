-- ===== src/Rules/Table.antt =====
-- What the realm table gives RealmFor: the realm of a cultivation is the highest one whose
-- threshold it has reached.
use xiuxian.Base.{
  ℕ, zero, suc, ◌+◌, ◌-◌, ◌≤◌, ◌<◌, ◌≡◌, refl, inl, inr, Bool, true, false, ◌&&◌, arith, ◌==◌,
  Bool-cases, dec_lt,
}
use xiuxian.Base.Bisect.{bisect-Splits, Splits, Upward}
use xiuxian.Base.Int.{pos, ◌≤ℤ◌, ◌<ℤ◌, ltb_ℤ, int_laws}
use xiuxian.Rules.Units.{Cultivation}
use xiuxian.Rules.Realms.{realm_at, realm_for, realm_index, threshold_above}

-- Over the few rows of the table, check every row by evaluation.
every_row : (ℕ → Bool) → ℕ → Bool
every_row test zero = true
every_row test (suc rows) = every_row test rows && test rows

every_row_lem :
    (test : ℕ → Bool) (rows k : ℕ) → k < rows → every_row test rows ≡ true → test k ≡ true
unfolding every_row
every_row_lem test zero k below all = absurd (omega arith)
every_row_lem test (suc rows) k below all = ground (every_row_lem test rows k, arith)

levels_table : every_row (λ k. (realm_at k).level == k) 32 ≡ true
unfolding every_row realm_at
levels_table = refl

-- The row at index i is that of level i.
pub level-realm_at : (k : ℕ) → k < 32 → (realm_at k).level ≡ k
level-realm_at k h =
    let e : ((realm_at k).level == k) ≡ true = every_row_lem _ 32 k h levels_table in ground arith

rising_table : every_row (λ k. ltb_ℤ (realm_at k).threshold (realm_at (k + 1)).threshold) 31 ≡ true
unfolding every_row realm_at
rising_table = refl

pub threshold_step : (k : ℕ) → k < 31 → (realm_at k).threshold <ℤ (realm_at (k + 1)).threshold
threshold_step k h =
    let e : ltb_ℤ (realm_at k).threshold (realm_at (k + 1)).threshold ≡ true =
      every_row_lem _ 31 k h rising_table in
    ground arith

-- Thresholds rise along the table.
pub threshold_mono : (a d : ℕ) → a + d < 32 → (realm_at a).threshold ≤ℤ (realm_at (a + d)).threshold
threshold_mono a zero h = let e : a + 0 ≡ a = omega arith in rw e (omega arith)
threshold_mono a (suc d) h =
    let e : a + suc d ≡ a + d + 1 = omega arith in
    rw e (omega (arith, threshold_mono a d (omega arith), threshold_step (a + d) (omega arith)))

pub threshold_rises : (a b : ℕ) → a ≤ b → b < 32 → (realm_at a).threshold ≤ℤ (realm_at b).threshold
threshold_rises a b h k =
    let e : b ≡ a + (b - a) = omega arith in rw e (threshold_mono a (b - a) (omega arith))

threshold_above-Upward : (c : Cultivation) → Upward (threshold_above c) 32
unfolding threshold_above
threshold_above-Upward c a b h k t = ground (arith, threshold_rises a b h k)

-- The level l is that of cultivation c: no higher threshold is reached, and its own is unless c is
-- negative.
pub record IsLevelOf (c : Cultivation) (l : ℕ) : Type 0 where
  pub in_table : l < 32
  pub reached : (pos 0 ≤ℤ c) → (realm_at l).threshold ≤ℤ c
  pub next_above : (k : ℕ) → l < k → k < 32 → c <ℤ (realm_at k).threshold

at_zero : (realm_at 0).threshold ≤ℤ pos 0
unfolding realm_at
at_zero = omega arith

realm_index-Splits : (c : Cultivation) → Splits (threshold_above c) 0 32 (realm_index c)
unfolding realm_index
realm_index-Splits c =
    bisect-Splits 32 (threshold_above c) 0 32 (threshold_above-Upward c) (omega arith) (omega arith)

above_index : (c : Cultivation) (k : ℕ) → realm_index c ≤ k → k < 32 → c <ℤ (realm_at k).threshold
unfolding threshold_above
above_index c k h lt =
    let s = realm_index-Splits c in
    let t : threshold_above c k ≡ true =
      threshold_above-Upward c (realm_index c) k h lt (s.holds (omega arith)) in
    ground arith

below_index : (c : Cultivation) (k : ℕ) → k < realm_index c → (realm_at k).threshold ≤ℤ c
unfolding threshold_above
below_index c k h =
    let s = realm_index-Splits c in
    let t : threshold_above c k ≡ false = s.fails k (omega arith) h in ground arith

-- RealmFor finds the row of the level that the cultivation has reached.
pub realm_for-IsLevelOf : (c : Cultivation) → (l : ℕ) × (realm_for c ≡ realm_at l) × IsLevelOf c l
unfolding realm_for
realm_for-IsLevelOf c = elim (Bool-cases (realm_index c == 0)) [
  | inl z ↦ (
    0,
    rw (z, realm_for),
    record {
      in_table = omega arith;
      reached = λ h. omega (int_laws, at_zero);
      next_above = λ k a b. above_index c k (ground arith) b;
    },
  )
  | inr nz ↦ (
    realm_index c - 1,
    rw (nz, realm_for),
    record {
      in_table = let s = realm_index-Splits c in ground (arith, s.below);
      reached = λ h. below_index c (realm_index c - 1) (ground arith);
      next_above = λ k a b. above_index c k (omega arith) b;
    },
  )
]

-- The level is determined by the thresholds around the cultivation.
pub realm_for_unique :
    (c : Cultivation) (l : ℕ) → pos 0 ≤ℤ c → IsLevelOf c l → realm_for c ≡ realm_at l
realm_for_unique c l h v =
    let (m, e, w) = realm_for-IsLevelOf c in
    elim (dec_lt l m) [
      | yes lt ↦ absurd (omega (arith, v.next_above m lt w.in_table, w.reached h))
      | no ge ↦ elim (dec_lt m l) [
        | yes lt ↦ absurd (omega (arith, w.next_above l lt v.in_table, v.reached h))
        | no le ↦ let same : m ≡ l = omega arith in rw (e, same)
      ]
    ]
