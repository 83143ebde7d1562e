-- ===== src/World/Books/Chance.antt =====
-- The random positions of internal/biz/core.go.
use Prim.Native.Nat.{◌*◌}
use native.Mathlib.Nat.{mod-lt}
use xiuxian.Base.{
  ℕ, ◌/◌, ◌%◌, ◌<◌, ◌≡◌, ◌≢◌, refl, ap, sym, ◌∙◌, inl, inr, Bool, true, false, ◌||◌, arith,
  if◌then◌else◌, Bool-cases, subst, Option, none, some, List, [], ◌∷◌,
}
use xiuxian.Base.Int.{
  ℤ, pos, negsuc, pos_part, neg_part, ◌+ℤ◌, ◌-ℤ◌, ◌*ℤ◌, ◌≤ℤ◌, ◌<ℤ◌, int_laws, leb_ℤ, eqb_ℤ, quot,
  rem, scale, lt_of_leb_ℤ,
}
use xiuxian.Rules.Units.{Coordinate, GridRange, Position, coordinate_scale, integer_grid_range}
use xiuxian.Rules.Grid.{integer_grid_range-IsGridOf}
use xiuxian.World.Host.{Host}
use xiuxian.World.Model.{World}
use xiuxian.World.Place.{
  Board, board_of, nth_position, take_draw, draw, random_integer_position_excluding,
}
use xiuxian.World.Books.Cells.{
  row_below, number_of, index_of, Index, index_lem, product_pos, quot_nat, rem_nat, cell, listed,
  numbered, line_in, listed-cell, numbered-cell,
}

-- A position that a draw may place an opportunity on: on the grid, within the bounds, and not the
-- excluded one.
pub record IsFree (a b c d : Coordinate) (ex p : Position) : Type 0 where
  pub right_of : a ≤ℤ p.x
  pub left_of : p.x ≤ℤ b
  pub above : c ≤ℤ p.y
  pub below : p.y ≤ℤ d
  pub column : rem p.x coordinate_scale ≡ pos 0
  pub row : rem p.y coordinate_scale ≡ pos 0
  pub other : p ≢ ex

at_number :
    (gx gy : GridRange) (t : ℤ) (i cy : ℕ)
    → t ≡ pos i
    → gy.count ≡ pos cy
    → ◌≡◌ {A = Position}
        (record {
          x = gx.first +ℤ scale coordinate_scale (quot t (pos_part gy.count));
          y = gy.first +ℤ scale coordinate_scale (rem t (pos_part gy.count));
        })
        (cell gx gy (i / cy) (i % cy))
unfolding cell
at_number gx gy t i cy h e = rw (h, e, quot_nat i cy, rem_nat i cy) refl

module _ (a b c d : Coordinate) (ex : Position) where
  abbrev gx : GridRange
  gx = integer_grid_range a b

  abbrev gy : GridRange
  gy = integer_grid_range c d

  excluded_is :
      (board_of a b c d ex).excluded ≡ (if listed gx gy b d ex then numbered gx gy ex else negsuc 0)
  unfolding board_of listed numbered
  excluded_is = refl

  total_is :
      (board_of a b c d ex).total
      ≡ (if listed gx gy b d ex then gx.count *ℤ gy.count -ℤ pos 1 else gx.count *ℤ gy.count)
  unfolding board_of listed
  total_is = refl

  nth-cell :
      (n cy : ℕ) (ix : Index (board_of a b c d ex).excluded n)
      → gy.count ≡ pos cy
      → nth_position (board_of a b c d ex) (pos n) ≡ cell gx gy (ix.i / cy) (ix.i % cy)
  unfolding nth_position index_of board_of
  nth-cell n cy ix e = at_number gx gy _ ix.i cy ix.is e

  cell-ne :
      (cy n : ℕ) (ix : Index (board_of a b c d ex).excluded n)
      → pos (ix.i / cy) <ℤ gx.count
      → pos (ix.i % cy) <ℤ gy.count
      → gy.count ≡ pos cy
      → cell gx gy (ix.i / cy) (ix.i % cy) ≢ ex
  cell-ne cy n ix hx hy e same =
      let there =
        listed-cell a b c d gx gy (ix.i / cy) (ix.i % cy) (integer_grid_range-IsGridOf a b)
          (integer_grid_range-IsGridOf c d) hx hy in
      let code =
        numbered-cell gx gy (ix.i / cy) (ix.i % cy) cy e
        ∙ ap pos (sym (number_of ix.i (ix.i / cy) (ix.i % cy) cy refl refl)) in
      ix.free (
        sym (
          excluded_is
          ∙ subst (λ p. (if listed gx gy b d p then numbered gx gy p else negsuc 0) ≡ pos ix.i) same
              (rw there code)))

  bounded :
      (cx cy n : ℕ) (ix : Index (board_of a b c d ex).excluded n)
      → gx.count ≡ pos cx
      → gy.count ≡ pos cy
      → n < pos_part (board_of a b c d ex).total
      → ix.i < cx * cy
  bounded cx cy n ix ea eb h =
      let size : gx.count *ℤ gy.count ≡ pos (cx * cy) = rw (ea, eb) (product_pos cx cy) in
      elim (Bool-cases (listed gx gy b d ex)) [
        | inl yes_listed ↦
            let total : (board_of a b c d ex).total ≡ pos (cx * cy) -ℤ pos 1 =
              total_is ∙ rw (yes_listed, size) refl in
            let parts = ap pos_part total in
            elim ix.near [ inl e ↦ omega int_laws | inr (e, _, _) ↦ omega int_laws ]
        | inr not_listed ↦
            let total : (board_of a b c d ex).total ≡ pos (cx * cy) =
              total_is ∙ rw (not_listed, size) refl in
            let parts = ap pos_part total in
            let none_out : (board_of a b c d ex).excluded ≡ negsuc 0 =
              excluded_is ∙ rw not_listed refl in
            let left_pos = ap pos_part none_out in
            let left_neg = ap neg_part none_out in
            elim ix.near [ inl e ↦ omega int_laws | inr (e, low, _) ↦ absurd (omega arith) ]
      ]

  nth_position-IsFree :
      (n : ℕ)
      → pos 0 <ℤ gx.count
      → pos 0 <ℤ gy.count
      → n < pos_part (board_of a b c d ex).total
      → IsFree a b c d ex (nth_position (board_of a b c d ex) (pos n))
  unfolding cell
  nth_position-IsFree n hx hy h =
      let cx = pos_part gx.count in
      let cy = pos_part gy.count in
      let ea : gx.count ≡ pos cx = omega int_laws in
      let eb : gy.count ≡ pos cy = omega int_laws in
      let ix = index_lem (board_of a b c d ex).excluded n in
      let i = ix.i in
      let some_rows : 0 < cy = omega arith in
      let column = row_below i cx cy some_rows (bounded cx cy n ix ea eb h) in
      let row = mod-lt i some_rows in
      let in_x : pos (i / cy) <ℤ gx.count =
        subst (λ z. pos (i / cy) <ℤ z) (sym ea) (omega (arith, column)) in
      let in_y : pos (i % cy) <ℤ gy.count =
        subst (λ z. pos (i % cy) <ℤ z) (sym eb) (omega (arith, row)) in
      let (_, x1, x2, x3) = line_in a b gx (i / cy) (integer_grid_range-IsGridOf a b) in_x in
      let (_, y1, y2, y3) = line_in c d gy (i % cy) (integer_grid_range-IsGridOf c d) in_y in
      subst (IsFree a b c d ex) (sym (nth-cell n cy ix eb)) (record {
        right_of = x1;
        left_of = x2;
        above = y1;
        below = y2;
        column = x3;
        row = y3;
        other = cell-ne cy n ix in_x in_y eb;
      })

module _ (host : Host) where
  some-injective : (m n : ℕ) → Option.some m ≡ some n → m ≡ n
  some-injective m n e = cc

  same_place : (p q : Position) → Option.some p ≡ some q → p ≡ q
  same_place p q e = cc

  taken :
      (span n : ℕ) (l : List (Option ℕ)) (s : World host)
      → 0 < span
      → (take_draw host span l s).0 ≡ some n
      → n < span
  unfolding take_draw
  taken span n [] s h e = cc
  taken span n (none ∷ l) s h e = cc
  taken span n (some m ∷ l) s h e =
      subst (λ k. k < span) (some-injective (m % span) n e) (mod-lt m h)

  drawn_position :
      (bd : Board) (o : Option ℕ) (p : Position)
      → (elim o as (λ _. Option Position) [ none ↦ none | some n ↦ some (nth_position bd (pos n)) ])
        ≡ some p
      → (n : ℕ) × (o ≡ some n) × (nth_position bd (pos n) ≡ p)
  drawn_position bd none p e = cc
  drawn_position bd (some n) p e = (n, refl, same_place _ p e)

  decided :
      (b b' : Bool) (o : Option Position) (s t : World host) (p : Position)
      → (let r : Option Position × World host =
            if b then (none, s) else if b' then (none, s) else (o, t) in
          r.0 ≡ some p)
      → (b ≡ false) × (b' ≡ false) × (o ≡ some p)
  decided true b' o s t p e = cc
  decided false true o s t p e = cc
  decided false false o s t p e = (refl, refl, e)

  positive : (t : ℤ) → pos 0 <ℤ t → 0 < pos_part t
  positive t h = omega arith

  both_positive :
      (m n : ℤ)
      → pos 0 ≤ℤ m
      → pos 0 ≤ℤ n
      → (eqb_ℤ m (pos 0) || eqb_ℤ n (pos 0)) ≡ false
      → (pos 0 <ℤ m) × (pos 0 <ℤ n)
  both_positive m n h k e = ground arith

  -- A position that randomIntegerPositionExcluding returns, whatever the random source delivers,
  -- lies on the grid and within the bounds, and is not the excluded position.
  pub random_position-IsFree :
      (a b c d : Coordinate) (ex p : Position) (s : World host)
      → (random_integer_position_excluding host a b c d ex s).0 ≡ some p
      → IsFree a b c d ex p
  unfolding random_integer_position_excluding draw board_of
  random_position-IsFree a b c d ex p s e =
      let bd = board_of a b c d ex in
      let (some_left, left, found) = decided _ (leb_ℤ bd.total (pos 0)) _ s _ p e in
      let more = lt_of_leb_ℤ bd.total (pos 0) left in
      let (n, drawn, place) = drawn_position bd _ p found in
      let room = taken (pos_part bd.total) n s.entropy s (positive bd.total more) drawn in
      let (hx, hy) =
        both_positive (integer_grid_range a b).count (integer_grid_range c d).count
          (integer_grid_range-IsGridOf a b).count_nonneg
          (integer_grid_range-IsGridOf c d).count_nonneg some_left in
      subst (IsFree a b c d ex) place (nth_position-IsFree a b c d ex n hx hy room)
