-- ===== src/World/Books/Cells.antt =====
-- The numbering of grid positions of randomIntegerPositionExcluding in internal/biz/core.go.
use Prim.Native.Nat.{◌*◌}
use native.Mathlib.Nat.{div-lt_iff_lt-mul, div-add-mod'}
use xiuxian.Base.{
  ℕ, ◌+◌, ◌/◌, ◌%◌, ◌<◌, ◌≡◌, ◌≢◌, refl, ap, sym, inl, inr, Bool, true, ◌&&◌, arith, if◌then◌else◌,
  Bool-cases, ◌⊎◌,
}
use xiuxian.Base.Int.{
  ℤ, pos, pos_part, neg_part, ◌+ℤ◌, ◌-ℤ◌, ◌*ℤ◌, ◌≤ℤ◌, ◌<ℤ◌, int_laws, leb_ℤ, eqb_ℤ, quot, rem,
  scale, le_of_leb_ℤ, lt_of_leb_ℤ, leb_ℤ-true,
}
use xiuxian.Rules.Units.{Coordinate, GridRange, Position, coordinate_scale}
use xiuxian.Rules.Grid.{IsGridOf}

-- A number below a product splits into a row and a column.
pub row_below : (i rows columns : ℕ) → 0 < columns → i < rows * columns → i / columns < rows
row_below i rows columns h l = (div-lt_iff_lt-mul h).1 l

-- The row and the column determine the number.
pub number_of : (i a b columns : ℕ) → i / columns ≡ a → i % columns ≡ b → i ≡ a * columns + b
number_of i a b columns e f = rw (sym e, sym f) (sym (div-add-mod' i columns))

-- The number that is drawn, moved past the one that is left out.
unfoldable pub index_of : ℤ → ℕ → ℤ
index_of e n = if leb_ℤ (pos 0) e && leb_ℤ e (pos n) then pos n +ℤ pos 1 else pos n

pub record Index (e : ℤ) (n : ℕ) : Type 0 where
  pub i : ℕ
  pub is : index_of e n ≡ pos i
  pub free : pos i ≢ e
  pub near : (i ≡ n) ⊎ ((i ≡ n + 1) × (pos 0 ≤ℤ e) × (e ≤ℤ pos n))

pub index_lem : (e : ℤ) (n : ℕ) → Index e n
unfolding index_of
index_lem e n = elim (Bool-cases (leb_ℤ (pos 0) e)) [
  | inr low ↦ record {
    i = n;
    is = rw (low, index_of) refl;
    free = λ same.
        let l = lt_of_leb_ℤ (pos 0) e low in
        let a = ap pos_part same in let b = ap neg_part same in absurd (omega arith);
    near = inl refl;
  }
  | inl up ↦ elim (Bool-cases (leb_ℤ e (pos n))) [
    | inr high ↦ record {
      i = n;
      is = rw (up, high, index_of) refl;
      free = λ same.
          let l = lt_of_leb_ℤ e (pos n) high in
          let a = ap pos_part same in let b = ap neg_part same in absurd (omega arith);
      near = inl refl;
    }
    | inl past ↦ record {
      i = n + 1;
      is = rw (up, past, index_of) (omega int_laws);
      free = λ same.
          let l = le_of_leb_ℤ e (pos n) past in
          let a = ap pos_part same in let b = ap neg_part same in absurd (omega arith);
      near = inr (refl, le_of_leb_ℤ (pos 0) e up, le_of_leb_ℤ e (pos n) past);
    }
  ]
]

pub product_pos : (a b : ℕ) → pos a *ℤ pos b ≡ pos (a * b)
unfolding ◌*ℤ◌
product_pos a b = grind arith

pub quot_nat : (i k : ℕ) → quot (pos i) k ≡ pos (i / k)
unfolding quot
quot_nat i k = ground arith

pub rem_nat : (i k : ℕ) → rem (pos i) k ≡ pos (i % k)
unfolding rem
rem_nat i k = ground arith

back : (f s : ℤ) → f +ℤ s -ℤ f ≡ s
back f s = omega int_laws

quot_scaled : (k : ℕ) → quot (scale coordinate_scale (pos k)) coordinate_scale ≡ pos k
quot_scaled k = omega int_laws

rem_scaled : (k : ℕ) → rem (scale coordinate_scale (pos k)) coordinate_scale ≡ pos 0
rem_scaled k = omega int_laws

-- The position in a column and a row of a grid.
unfoldable pub cell : GridRange → GridRange → ℕ → ℕ → Position
cell gx gy qx qy = record {
  x = gx.first +ℤ scale coordinate_scale (pos qx);
  y = gy.first +ℤ scale coordinate_scale (pos qy);
}

-- Whether a position is one of the grid, and its number there, as board_of finds them.
unfoldable pub listed : GridRange → GridRange → Coordinate → Coordinate → Position → Bool
listed gx gy max_x max_y p =
    leb_ℤ gx.first p.x
    && leb_ℤ p.x max_x
    && leb_ℤ gy.first p.y
    && leb_ℤ p.y max_y
    && eqb_ℤ (rem (p.x -ℤ gx.first) coordinate_scale) (pos 0)
    && eqb_ℤ (rem (p.y -ℤ gy.first) coordinate_scale) (pos 0)

unfoldable pub numbered : GridRange → GridRange → Position → ℤ
numbered gx gy p =
    quot (p.x -ℤ gx.first) coordinate_scale *ℤ gy.count +ℤ quot (p.y -ℤ gy.first) coordinate_scale

-- A line of the grid lies in the interval.
pub line_in :
    (lo hi : Coordinate) (g : GridRange) (q : ℕ)
    → IsGridOf lo hi g
    → pos q <ℤ g.count
    → (g.first ≤ℤ g.first +ℤ scale coordinate_scale (pos q))
      × (lo ≤ℤ g.first +ℤ scale coordinate_scale (pos q))
      × (g.first +ℤ scale coordinate_scale (pos q) ≤ℤ hi)
      × (rem (g.first +ℤ scale coordinate_scale (pos q)) coordinate_scale ≡ pos 0)
line_in lo hi g q grid h =
    let (left, right, size, on) = grid.sound (omega arith) in
    let size_pos = ap pos_part size in
    let size_neg = ap neg_part size in
    let on_pos = ap pos_part on in
    let on_neg = ap neg_part on in (omega int_laws, omega int_laws, omega int_laws, omega int_laws)

pub listed-cell :
    (a b c d : Coordinate) (gx gy : GridRange) (qx qy : ℕ)
    → IsGridOf a b gx
    → IsGridOf c d gy
    → pos qx <ℤ gx.count
    → pos qy <ℤ gy.count
    → listed gx gy b d (cell gx gy qx qy) ≡ true
unfolding listed cell
listed-cell a b c d gx gy qx qy x y hx hy =
    let (x0, x1, x2, x3) = line_in a b gx qx x hx in
    let (y0, y1, y2, y3) = line_in c d gy qy y hy in
    rw
      (
        leb_ℤ-true _ _ x0,
        leb_ℤ-true _ _ x2,
        leb_ℤ-true _ _ y0,
        leb_ℤ-true _ _ y2,
        back gx.first (scale coordinate_scale (pos qx)),
        back gy.first (scale coordinate_scale (pos qy)),
        rem_scaled qx,
        rem_scaled qy,
      )
      refl

pub numbered-cell :
    (gx gy : GridRange) (qx qy cy : ℕ)
    → gy.count ≡ pos cy
    → numbered gx gy (cell gx gy qx qy) ≡ pos (qx * cy + qy)
unfolding numbered cell
numbered-cell gx gy qx qy cy e =
    rw
      (
        back gx.first (scale coordinate_scale (pos qx)),
        back gy.first (scale coordinate_scale (pos qy)),
        quot_scaled qx,
        quot_scaled qy,
        e,
        product_pos qx cy,
      )
      (omega int_laws)
