-- ===== src/Base/Bisect.antt =====
-- The binary search of Go's sort.Search, a loop over [low, high) on fuel. The loop of
-- trajectoryTimeAtDistance in internal/biz/core.go has the same form.
use xiuxian.Base.{
  ℕ, zero, suc, ◌+◌, ◌-◌, ◌/◌, ◌≤◌, ◌<◌, ◌≡◌, Bool, true, false, inl, inr, arith, ltb, Bool-cases,
  dec_lt,
}

-- for low < high { mid := low + (high-low)/2; if f(mid) { high = mid } else { low = mid + 1 } }
unfoldable pub bisect : ℕ → (ℕ → Bool) → ℕ → ℕ → ℕ
bisect zero f low high = low
bisect (suc fuel) f low high =
    let mid = low + (high - low) / 2 in
    elim (ltb low high) [
      | true ↦ elim (f mid) [ true ↦ bisect fuel f low mid | false ↦ bisect fuel f (mid + 1) high ]
      | false ↦ low
    ]

-- The loop ends at a point where `f` holds, if it does so at `high`, and below which it fails.
pub record Splits (f : ℕ → Bool) (low high r : ℕ) : Type 0 where
  pub above : low ≤ r
  pub below : r ≤ high
  pub holds : r < high → f r ≡ true
  pub fails : (k : ℕ) → low ≤ k → k < r → f k ≡ false

-- What holds stays true further up, below `high`.
abbrev pub Upward : (ℕ → Bool) → ℕ → Type 0
Upward f high = (a b : ℕ) → a ≤ b → b < high → f a ≡ true → f b ≡ true

Splits-here : (f : ℕ → Bool) (low high : ℕ) → high ≤ low → low ≤ high → Splits f low high low
Splits-here f low high h le = record {
  above = omega arith;
  below = le;
  holds = λ lt. absurd (omega arith);
  fails = λ k a b. absurd (omega arith);
}

Splits-left :
    (f : ℕ → Bool) (low mid high r : ℕ)
    → f mid ≡ true
    → mid < high
    → Splits f low mid r
    → Splits f low high r
Splits-left f low mid high r e h s = record {
  above = s.above;
  below = omega arith;
  holds = λ lt. elim (dec_lt r mid) [
    | yes p ↦ s.holds p
    | no p ↦ let same : r ≡ mid = omega (arith, s.below) in rw same e
  ];
  fails = s.fails;
}

fails_upto :
    (f : ℕ → Bool) (mid high k : ℕ)
    → Upward f high
    → mid < high
    → f mid ≡ false
    → k ≤ mid
    → f k ≡ false
fails_upto f mid high k up lt e h = elim (Bool-cases (f k)) [
  | inl t ↦ absurd (cc (up k mid h lt t))
  | inr t ↦ t
]

Splits-right :
    (f : ℕ → Bool) (low mid high r : ℕ)
    → Upward f high
    → f mid ≡ false
    → low ≤ mid
    → mid < high
    → Splits f (mid + 1) high r
    → Splits f low high r
Splits-right f low mid high r up e h lt s = record {
  above = omega (arith, s.above);
  below = s.below;
  holds = s.holds;
  fails = λ k a b. elim (dec_lt mid k) [
    | yes p ↦ s.fails k (omega arith) b
    | no p ↦ fails_upto f mid high k up lt e (omega arith)
  ];
}

pub bisect-Splits :
    (fuel : ℕ) (f : ℕ → Bool) (low high : ℕ)
    → Upward f high
    → high - low ≤ fuel
    → low ≤ high
    → Splits f low high (bisect fuel f low high)
unfolding bisect
bisect-Splits zero f low high up h le = Splits-here f low high (omega arith) le
bisect-Splits (suc fuel) f low high up h le =
    let mid = low + (high - low) / 2 in
    elim (Bool-cases (ltb low high)) [
      | inl more ↦ elim (Bool-cases (f mid)) [
        | inl t ↦
            rw (more, t, bisect)
              (let lt : mid < high = ground arith in
                Splits-left f low mid high _ t lt (
                  bisect-Splits fuel f low mid (λ a b p q. up a b p (omega arith)) (omega arith)
                    (omega arith)))
        | inr t ↦
            rw (more, t, bisect)
              (Splits-right f low mid high _ up t (omega arith) (ground arith)
                (bisect-Splits fuel f (mid + 1) high up (ground arith) (ground arith)))
      ]
      | inr done ↦ rw (done, bisect) (Splits-here f low high (ground arith) le)
    ]

-- Where the loop ends, whatever `f` is: where `f` holds, or at `high`, and just after a point where it
-- fails, or at `low`.
pub record Turns (f : ℕ → Bool) (low high r : ℕ) : Type 0 where
  pub above : low ≤ r
  pub below : r ≤ high
  pub holds : r < high → f r ≡ true
  pub fails : (k : ℕ) → low ≤ k → suc k ≡ r → f k ≡ false

Turns-here : (f : ℕ → Bool) (low high : ℕ) → high ≤ low → low ≤ high → Turns f low high low
Turns-here f low high h le = record {
  above = omega arith;
  below = le;
  holds = λ lt. absurd (omega arith);
  fails = λ k a b. absurd (omega arith);
}

Turns-left :
    (f : ℕ → Bool) (low mid high r : ℕ)
    → f mid ≡ true
    → mid < high
    → Turns f low mid r
    → Turns f low high r
Turns-left f low mid high r e h s = record {
  above = s.above;
  below = omega (arith, s.below);
  holds = λ lt. elim (dec_lt r mid) [
    | yes p ↦ s.holds p
    | no p ↦ let same : r ≡ mid = omega (arith, s.below) in rw same e
  ];
  fails = s.fails;
}

Turns-right :
    (f : ℕ → Bool) (low mid high r : ℕ)
    → f mid ≡ false
    → low ≤ mid
    → Turns f (mid + 1) high r
    → Turns f low high r
Turns-right f low mid high r e h s = record {
  above = omega (arith, s.above);
  below = s.below;
  holds = s.holds;
  fails = λ k a b. elim (dec_lt mid k) [
    | yes p ↦ s.fails k (omega arith) b
    | no p ↦ let same : k ≡ mid = omega (arith, s.above) in rw same e
  ];
}

pub bisect-Turns :
    (fuel : ℕ) (f : ℕ → Bool) (low high : ℕ)
    → high - low ≤ fuel
    → low ≤ high
    → Turns f low high (bisect fuel f low high)
unfolding bisect
bisect-Turns zero f low high h le = Turns-here f low high (omega arith) le
bisect-Turns (suc fuel) f low high h le =
    let mid = low + (high - low) / 2 in
    elim (Bool-cases (ltb low high)) [
      | inl more ↦ elim (Bool-cases (f mid)) [
        | inl t ↦
            rw (more, t, bisect)
              (Turns-left f low mid high _ t (ground arith)
                (bisect-Turns fuel f low mid (ground arith) (omega arith)))
        | inr t ↦
            rw (more, t, bisect)
              (Turns-right f low mid high _ t (omega arith)
                (bisect-Turns fuel f (mid + 1) high (ground arith) (ground arith)))
      ]
      | inr done ↦ rw (done, bisect) (Turns-here f low high (ground arith) le)
    ]
