-- ===== src/Base/Int.antt =====
-- Go's signed integers, as integers over the native numbers. Sums, orders, multiples and quotients
-- go through the two parts of an integer, which are numbers that `omega` reads.
use xiuxian.Base.Tests.{ltb, leb, if◌then◌else◌, lt→ltb, ltb→lt, leb→le}
use Prim.Native.Nat.{ℕ, suc, ◌+◌, ◌-◌, ◌*◌, ◌/◌, ◌%◌, ◌≤◌, ◌<◌, ◌^◌}
use mathlib.Core.Path.{◌≡◌, refl}
use mathlib.Core.Logic.{◌⊎◌, inl, inr}
use mathlib.Core.Bool.{Bool, true, false, ◌&&◌}
use native.Mathlib.Omega.{arith}

-- `negsuc n` is -(n + 1).
pub data ℤ : Type 0 where
  pos : ℕ → ℤ
  negsuc : ℕ → ℤ

abbrev pub pos_part : ℤ → ℕ
pos_part (pos n) = n
pos_part (negsuc n) = 0

abbrev pub neg_part : ℤ → ℕ
neg_part (pos n) = 0
neg_part (negsuc n) = suc n

-- a - b, as an integer.
abbrev pub sub_ℕ : ℕ → ℕ → ℤ
sub_ℕ a b = if leb b a then pos (a - b) else negsuc (b - a - 1)

infixl 65 ◌+ℤ◌ ◌-ℤ◌
infixl 70 ◌*ℤ◌
infix 50 ◌≤ℤ◌ ◌<ℤ◌
unfoldable pub ◌+ℤ◌ : ℤ → ℤ → ℤ
a +ℤ b = sub_ℕ (pos_part a + pos_part b) (neg_part a + neg_part b)

unfoldable pub ◌-ℤ◌ : ℤ → ℤ → ℤ
a -ℤ b = sub_ℕ (pos_part a + neg_part b) (neg_part a + pos_part b)

unfoldable pub ◌*ℤ◌ : ℤ → ℤ → ℤ
a *ℤ b =
    sub_ℕ (pos_part a * pos_part b + neg_part a * neg_part b)
      (pos_part a * neg_part b + neg_part a * pos_part b)

abbrev pub ◌≤ℤ◌ : ℤ → ℤ → Type 0
a ≤ℤ b = pos_part a + neg_part b ≤ pos_part b + neg_part a

abbrev pub ◌<ℤ◌ : ℤ → ℤ → Type 0
a <ℤ b = pos_part a + neg_part b < pos_part b + neg_part a

abbrev pub ltb_ℤ : ℤ → ℤ → Bool
ltb_ℤ a b = ltb (pos_part a + neg_part b) (pos_part b + neg_part a)

abbrev pub leb_ℤ : ℤ → ℤ → Bool
leb_ℤ a b = leb (pos_part a + neg_part b) (pos_part b + neg_part a)

abbrev pub eqb_ℤ : ℤ → ℤ → Bool
eqb_ℤ a b = leb_ℤ a b && leb_ℤ b a

-- The parts of a quotient and of a remainder by a positive number: Go truncates toward zero, and
-- the remainder has the sign of the dividend.
unfoldable pub quot : ℤ → ℕ → ℤ
quot a k = sub_ℕ (pos_part a / k) (neg_part a / k)

unfoldable pub rem : ℤ → ℕ → ℤ
rem a k = sub_ℕ (pos_part a % k) (neg_part a % k)

-- a * k for a constant k.
unfoldable pub scale : ℕ → ℤ → ℤ
scale k a = sub_ℕ (k * pos_part a) (k * neg_part a)

-- One lemma for each operation lets `omega` work with the operations shut, at any depth.
pub +ℤ_parts :
    (a b : ℤ)
    → pos_part (a +ℤ b) + neg_part a + neg_part b ≡ neg_part (a +ℤ b) + pos_part a + pos_part b
unfolding ◌+ℤ◌
+ℤ_parts a b = ground arith

pub -ℤ_parts :
    (a b : ℤ)
    → pos_part (a -ℤ b) + neg_part a + pos_part b ≡ neg_part (a -ℤ b) + pos_part a + neg_part b
unfolding ◌-ℤ◌
-ℤ_parts a b = ground arith

-- At most one part of an integer is positive.
pub parts_disjoint : (a : ℤ) → (pos_part a ≡ 0) ⊎ (neg_part a ≡ 0)
parts_disjoint (pos n) = inr refl
parts_disjoint (negsuc n) = inl refl

pub quot_parts :
    (a : ℤ) (k : ℕ)
    → (pos_part (quot a k) ≡ pos_part a / k) × (neg_part (quot a k) ≡ neg_part a / k)
unfolding quot
quot_parts (pos n) k = ground arith
quot_parts (negsuc n) k = ground arith

pub rem_parts :
    (a : ℤ) (k : ℕ) → (pos_part (rem a k) ≡ pos_part a % k) × (neg_part (rem a k) ≡ neg_part a % k)
unfolding rem
rem_parts (pos n) k = ground arith
rem_parts (negsuc n) k = ground arith

pub scale_parts :
    (k : ℕ) (a : ℤ)
    → (pos_part (scale k a) ≡ k * pos_part a) × (neg_part (scale k a) ≡ k * neg_part a)
unfolding scale
scale_parts k (pos n) = ground arith
scale_parts k (negsuc n) = ground arith

pub eq_of_parts : (a b : ℤ) → pos_part a + neg_part b ≡ pos_part b + neg_part a → a ≡ b
eq_of_parts a b h = ground arith

-- The value that an int64 holds after an operation whose exact result is `a`: `a` modulo 2^64,
-- between -2^63 and 2^63 - 1.
abbrev wrap_up : ℕ → ℤ
wrap_up n = if ltb n (2 ^ 63) then pos n else negsuc (2 ^ 64 - 1 - n)

unfoldable pub int64 : ℤ → ℤ
int64 (pos n) = wrap_up (n % 2 ^ 64)
int64 (negsuc n) = wrap_up (2 ^ 64 - 1 - n % 2 ^ 64)

-- In range nothing wraps.
pub int64_of_small : (n : ℕ) → n < 2 ^ 63 → int64 (pos n) ≡ pos n
unfolding int64
int64_of_small n h = ground arith

-- In the next 2^63 values it is negative.
pub int64_wraps : (n : ℕ) → 2 ^ 63 ≤ n → n < 2 ^ 64 → int64 (pos n) ≡ negsuc (2 ^ 64 - 1 - n)
unfolding int64
int64_wraps n h k = ground arith

pub ruleset int_laws =
    (arith, +ℤ_parts, -ℤ_parts, eq_of_parts, quot_parts, rem_parts, scale_parts, parts_disjoint)

-- The tests decide the orders.
pub ltb_ℤ-true : (a b : ℤ) → a <ℤ b → ltb_ℤ a b ≡ true
ltb_ℤ-true a b h = lt→ltb _ _ h

pub ltb_ℤ-false : (a b : ℤ) → b ≤ℤ a → ltb_ℤ a b ≡ false
ltb_ℤ-false a b h = ground arith

pub lt_of_ltb_ℤ : (a b : ℤ) → ltb_ℤ a b ≡ true → a <ℤ b
lt_of_ltb_ℤ a b h = ltb→lt _ _ h

pub le_of_ltb_ℤ : (a b : ℤ) → ltb_ℤ a b ≡ false → b ≤ℤ a
le_of_ltb_ℤ a b h = ground arith

pub leb_ℤ-true : (a b : ℤ) → a ≤ℤ b → leb_ℤ a b ≡ true
leb_ℤ-true a b h = ground arith

pub leb_ℤ-false : (a b : ℤ) → b <ℤ a → leb_ℤ a b ≡ false
leb_ℤ-false a b h = ground arith

pub le_of_leb_ℤ : (a b : ℤ) → leb_ℤ a b ≡ true → a ≤ℤ b
le_of_leb_ℤ a b h = leb→le _ _ h

pub lt_of_leb_ℤ : (a b : ℤ) → leb_ℤ a b ≡ false → b <ℤ a
lt_of_leb_ℤ a b h = ground arith
