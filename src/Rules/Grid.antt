-- ===== src/Rules/Grid.antt =====
-- IntegerGridRange of internal/rules/rules.go lists exactly the grid coordinates of an interval.
use xiuxian.Base.{◌≡◌, inl, inr, arith, Bool-cases}
use xiuxian.Base.Int.{
  ℤ, pos, ◌+ℤ◌, ◌-ℤ◌, ◌≤ℤ◌, ◌<ℤ◌, ltb_ℤ, scale, rem, int_laws, lt_of_ltb_ℤ, le_of_ltb_ℤ,
}
use xiuxian.Rules.Units.{
  Coordinate, GridRange, empty_range, integer_grid_range, first_units, last_units, coordinate_scale,
}

-- first_units is the least k with minimum ≤ 1000 k, and last_units the greatest with 1000 k ≤ maximum.
pub first_units_least :
    (m k : ℤ)
    → (m ≤ℤ scale coordinate_scale (first_units m))
      × (m ≤ℤ scale coordinate_scale k → first_units m ≤ℤ k)
unfolding first_units
first_units_least m k = elim (Bool-cases (ltb_ℤ (pos 0) (rem m coordinate_scale))) [
  | inl up ↦
      let h = lt_of_ltb_ℤ (pos 0) (rem m coordinate_scale) up in
      rw (up, first_units) (omega int_laws, λ le. omega int_laws)
  | inr down ↦
      let h = le_of_ltb_ℤ (pos 0) (rem m coordinate_scale) down in
      rw (down, first_units) (omega int_laws, λ le. omega int_laws)
]

pub last_units_greatest :
    (m k : ℤ)
    → (scale coordinate_scale (last_units m) ≤ℤ m)
      × (scale coordinate_scale k ≤ℤ m → k ≤ℤ last_units m)
unfolding last_units
last_units_greatest m k = elim (Bool-cases (ltb_ℤ (rem m coordinate_scale) (pos 0))) [
  | inl up ↦
      let h = lt_of_ltb_ℤ (rem m coordinate_scale) (pos 0) up in
      rw (up, last_units) (omega int_laws, λ le. omega int_laws)
  | inr down ↦
      let h = le_of_ltb_ℤ (rem m coordinate_scale) (pos 0) down in
      rw (down, last_units) (omega int_laws, λ le. omega int_laws)
]

-- The grid coordinates first, first + 1000, … , last are those of the interval, and count is their
-- number, 0 if there are none.
pub record IsGridOf (minimum maximum : Coordinate) (g : GridRange) : Type 0 where
  pub count_nonneg : pos 0 ≤ℤ g.count
  pub sound :
      pos 0 <ℤ g.count
      → (minimum ≤ℤ g.first)
        × (g.last ≤ℤ maximum)
        × (scale coordinate_scale g.count ≡ g.last -ℤ g.first +ℤ pos coordinate_scale)
        × (rem g.first coordinate_scale ≡ pos 0)
  pub complete :
      (k : ℤ)
      → minimum ≤ℤ scale coordinate_scale k
      → scale coordinate_scale k ≤ℤ maximum
      → (pos 0 <ℤ g.count)
        × (g.first ≤ℤ scale coordinate_scale k)
        × (scale coordinate_scale k ≤ℤ g.last)

empty-IsGridOf :
    (m n : Coordinate)
    → ((k : ℤ) → m ≤ℤ scale coordinate_scale k → scale coordinate_scale k ≤ℤ n → ⊥)
    → IsGridOf m n empty_range
empty-IsGridOf m n none_in = record {
  count_nonneg = omega arith;
  sound = λ h. absurd (omega arith);
  complete = λ k a b. absurd (none_in k a b);
}

full-IsGridOf :
    (m n : Coordinate)
    → first_units m ≤ℤ last_units n
    → IsGridOf m n (record {
      first = scale coordinate_scale (first_units m);
      last = scale coordinate_scale (last_units n);
      count = last_units n -ℤ first_units m +ℤ pos 1;
    })
full-IsGridOf m n h = record {
  count_nonneg = omega int_laws;
  sound = λ _. (
    (first_units_least m (pos 0)).0,
    (last_units_greatest n (pos 0)).0,
    omega int_laws,
    omega int_laws,
  );
  complete = λ k a b.
      let lo = (first_units_least m k).1 a in
      let hi = (last_units_greatest n k).1 b in (omega int_laws, omega int_laws, omega int_laws);
}

-- IntegerGridRange lists exactly the multiples of 1000 between its arguments, however they lie.
pub integer_grid_range-IsGridOf :
    (minimum maximum : Coordinate) → IsGridOf minimum maximum (integer_grid_range minimum maximum)
unfolding integer_grid_range
integer_grid_range-IsGridOf m n = elim (Bool-cases (ltb_ℤ n m)) [
  | inl none_left ↦
      let h = lt_of_ltb_ℤ n m none_left in
      rw (none_left, integer_grid_range) (empty-IsGridOf m n λ k a b. omega int_laws)
  | inr some_left ↦ elim (Bool-cases (ltb_ℤ (last_units n) (first_units m))) [
    | inl gap ↦
        let h = lt_of_ltb_ℤ (last_units n) (first_units m) gap in
        rw (some_left, gap, integer_grid_range)
          (empty-IsGridOf m n
            λ k a b. omega (arith, (first_units_least m k).1 a, (last_units_greatest n k).1 b))
    | inr met ↦
        let h = le_of_ltb_ℤ (last_units n) (first_units m) met in
        rw (some_left, met, integer_grid_range) (full-IsGridOf m n h)
  ]
]
