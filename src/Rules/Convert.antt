-- ===== src/Rules/Convert.antt =====
-- ConvertedCultivation of internal/rules/rules.go: the linear conversion of an opportunity.
use xiuxian.Base.{ℕ, ◌-◌, ◌*◌, ◌/◌, ◌^◌, ◌≤◌, ◌<◌, ◌≡◌, ◌||◌, arith, if◌then◌else◌, leb, dec_lt}
use xiuxian.Base.Int.{
  pos, ◌*ℤ◌, ◌≤ℤ◌, leb_ℤ, quot, int64, int64_of_small, int64_wraps, quot_parts, negsuc,
}
use xiuxian.Rules.Units.{milliseconds, nanos_per_milli}
use xiuxian.Rules.Reward.{converted_cultivation, opportunity_millis}

product : (total millis : ℕ) → pos total *ℤ pos millis ≡ pos (total * millis)
unfolding ◌*ℤ◌
product total millis = ground arith

millis : (elapsed : ℕ) → milliseconds (pos elapsed) ≡ pos (elapsed / nanos_per_milli)
unfolding quot
millis elapsed = ground arith

-- What the exact formula gives.
abbrev pub exact_share : ℕ → ℕ → ℕ
exact_share total elapsed = total * (elapsed / 1_000_000) / 86_400_000

abbrev one_day : ℕ
one_day = 86_400_000_000_000

-- The branches of the code at arguments that are not negative.
converted_lem :
    (total elapsed : ℕ)
    → converted_cultivation (pos total) (pos elapsed) ≡ (
        if leb_ℤ (pos total) (pos 0) || leb_ℤ (pos elapsed) (pos 0)
        then pos 0
        else if leb_ℤ (pos one_day) (pos elapsed)
        then pos total
        else quot (int64 (pos (total * (elapsed / 1_000_000)))) opportunity_millis)
unfolding converted_cultivation
converted_lem total elapsed = rw (millis elapsed, product total (elapsed / 1_000_000))

product_le : (total millis : ℕ) → millis ≤ 86_400_000 → total * millis ≤ total * 86_400_000
product_le total millis h = grind arith

-- The part of the total that belongs to a span of time.
abbrev pub share : ℕ → ℕ → ℕ
share total elapsed = if leb one_day elapsed then total else exact_share total elapsed

quot_pos : (n k : ℕ) → quot (pos n) k ≡ pos (n / k)
unfolding quot
quot_pos n k = ground arith

product_zero : (total elapsed : ℕ) → elapsed ≡ 0 → total * (elapsed / 1_000_000) ≡ 0
product_zero total elapsed h = grind arith

product_none : (total elapsed : ℕ) → total ≡ 0 → total * (elapsed / 1_000_000) ≡ 0
product_none total elapsed h = grind arith

product_mono : (total a b : ℕ) → a ≤ b → total * a ≤ total * b
product_mono total a b h = grind arith

share_le : (total elapsed : ℕ) → share total elapsed ≤ total
share_le total elapsed = ground (arith, product_le total (elapsed / 1_000_000))

-- Below a product of 2^63 the code computes the exact share, and all of it from 24 hours on.
pub converted_exact :
    (total elapsed : ℕ)
    → total * 86_400_000 < 2 ^ 63
    → converted_cultivation (pos total) (pos elapsed) ≡ pos (share total elapsed)
converted_exact total elapsed h = elim (dec_lt elapsed one_day) [
  | yes lt ↦
      let small : total * (elapsed / 1_000_000) < 2 ^ 63 =
        omega (arith, product_le total (elapsed / 1_000_000) (omega arith)) in
      rw (converted_lem total elapsed, int64_of_small _ small, quot_pos)
        (ground (arith, product_zero total elapsed, product_none total elapsed))
  | no ge ↦ rw (converted_lem total elapsed) (ground arith)
]

share_mono : (total a b : ℕ) → a ≤ b → share total a ≤ share total b
share_mono total a b h =
    let p : total * (a / 1_000_000) ≤ total * (b / 1_000_000) =
      product_mono total (a / 1_000_000) (b / 1_000_000) (omega arith) in
    ground (arith, product_le total (a / 1_000_000), product_le total (b / 1_000_000))

-- While the product of the total and a day stays below 2^63, the cultivation that an opportunity has
-- given grows with time from 0 to the total, never beyond it, and is the total from 24 hours on.
pub converted_cultivation_mono :
    (total a b : ℕ)
    → total * 86_400_000 < 2 ^ 63
    → a ≤ b
    → let conv = λ (t : ℕ). converted_cultivation (pos total) (pos t) in
      (pos 0 ≤ℤ conv a)
      × (conv a ≤ℤ conv b)
      × (conv b ≤ℤ pos total)
      × (one_day ≤ b → conv b ≡ pos total)
converted_cultivation_mono total a b h le =
    rw (converted_exact total a h, converted_exact total b h)
      (
        omega arith,
        omega (arith, share_mono total a b le),
        omega (arith, share_le total b),
        λ d. ground arith,
      )

-- From a product of 2^63 on, and below 2^64, the product wraps to a negative number: before the day
-- is over the code gives nothing, or less than nothing, where the exact share is positive.
pub converted_cultivation_overflow :
    (total elapsed : ℕ)
    → elapsed < one_day
    → 2 ^ 63 ≤ total * (elapsed / 1_000_000)
    → total * (elapsed / 1_000_000) < 2 ^ 64
    → (converted_cultivation (pos total) (pos elapsed) ≤ℤ pos 0) × (0 < exact_share total elapsed)
converted_cultivation_overflow total elapsed lt over under = (
  rw (converted_lem total elapsed, int64_wraps _ over under)
      (ground (
        arith,
        quot_parts (negsuc (2 ^ 64 - 1 - total * (elapsed / 1_000_000))) opportunity_millis,
        product_none total elapsed,
        product_zero total elapsed,
      )),
  omega arith,
)
