-- ===== src/Limit/Sweep.antt =====
-- The sweep of memoryRateLimiter.allow in internal/data/ratelimit.go forgets only buckets that would
-- be full.
use xiuxian.Base.{true, false, Option, none, some, ◌≡◌, refl, inl, inr, arith, Bool-cases}
use xiuxian.Base.Int.{ℤ, pos, ◌+ℤ◌, ◌-ℤ◌, ◌≤ℤ◌, int_laws}
use xiuxian.Base.Float.{Float64}
use xiuxian.Rules.Units.{Time, seconds}
use xiuxian.Limit.{RateLimitPolicy, MemoryBucket, one, bucket_or_new, refill, spend, use_bucket}

module _ (fl : Float64) where
  open fl use {F, of_int, add, sub, mul, min, lt, le}

  abbrev pub NonNegative : F → Type 0
  NonNegative x = le (of_int (pos 0)) x ≡ true

  -- What the sweep relies on: no time gives no tokens, and after the ttl a bucket is full; what is
  -- not negative stays so under the limiter's arithmetic.
  pub record FillsUp (policy : RateLimitPolicy F) : Type 0 where
    pub no_time : lt (of_int (pos 0)) (seconds fl (pos 0)) ≡ false
    pub long_time : (d : ℤ) → policy.ttl ≤ℤ d → lt (of_int (pos 0)) (seconds fl d) ≡ true
    pub full :
        (tokens : F) (d : ℤ)
        → policy.ttl ≤ℤ d
        → NonNegative tokens
        → min policy.burst (add tokens (mul (seconds fl d) policy.rate_per_second)) ≡ policy.burst
    pub starts : NonNegative policy.burst
    pub filled :
        (tokens elapsed : F)
        → lt (of_int (pos 0)) elapsed ≡ true
        → NonNegative tokens
        → NonNegative (min policy.burst (add tokens (mul elapsed policy.rate_per_second)))
    pub spent :
        (tokens : F)
        → lt tokens (one fl) ≡ false
        → NonNegative tokens
        → NonNegative (sub tokens (one fl))

  -- A bucket as the limiter leaves it behind.
  pub record IsKept (policy : RateLimitPolicy F) (clock : Time) (b : MemoryBucket F) : Type 0 where
    pub nonnegative : NonNegative b.tokens
    pub past : b.last ≤ℤ clock
    pub outlives : b.last +ℤ policy.ttl ≤ℤ b.expires_at

  minus_self : (t : ℤ) → t -ℤ t ≡ pos 0
  minus_self t = omega int_laws

  -- An expired bucket serves as a new one.
  pub use_bucket-expired :
      (policy : RateLimitPolicy F) (now : Time) (b : MemoryBucket F)
      → FillsUp policy
      → IsKept policy now b
      → b.expires_at ≤ℤ now
      → use_bucket fl policy now (some b) ≡ use_bucket fl policy now none
  unfolding use_bucket bucket_or_new refill spend
  use_bucket-expired policy now b f k e =
      let late : policy.ttl ≤ℤ now -ℤ b.last = omega int_laws in
      rw (minus_self now, f.no_time, f.long_time _ late, f.full _ _ late k.nonnegative) refl

  refill-IsKept :
      (policy : RateLimitPolicy F) (now : Time) (b : MemoryBucket F)
      → FillsUp policy
      → NonNegative b.tokens
      → b.last ≤ℤ now
      → NonNegative (refill fl policy now b).tokens × ((refill fl policy now b).last ≤ℤ now)
  unfolding refill
  refill-IsKept policy now b f n p =
      elim (Bool-cases (lt (of_int (pos 0)) (seconds fl (now -ℤ b.last)))) [
        | inl e ↦ rw e (f.filled _ _ e n, omega arith)
        | inr e ↦ rw e (n, p)
      ]

  spend-IsKept :
      (policy : RateLimitPolicy F) (now : Time) (b : MemoryBucket F)
      → FillsUp policy
      → NonNegative b.tokens
      → b.last ≤ℤ now
      → IsKept policy now (spend fl policy now b).1
  unfolding spend
  spend-IsKept policy now b f n p = elim (Bool-cases (lt b.tokens (one fl))) [
    | inl e ↦ rw e (record { nonnegative = n; past = p; outlives = omega int_laws })
    | inr e ↦ rw e (record { nonnegative = f.spent _ e n; past = p; outlives = omega int_laws })
  ]

  pub use_bucket-IsKept :
      (policy : RateLimitPolicy F) (now : Time) (found : Option (MemoryBucket F))
      → FillsUp policy
      → ((b : MemoryBucket F) → found ≡ some b → IsKept policy now b)
      → IsKept policy now (use_bucket fl policy now found).1
  unfolding use_bucket bucket_or_new
  use_bucket-IsKept policy now none f k =
      let fresh : MemoryBucket F = record {
        tokens = policy.burst;
        last = now;
        expires_at = pos 0;
      } in
      let r = refill-IsKept policy now fresh f f.starts (omega arith) in
      spend-IsKept policy now (refill fl policy now fresh) f r.0 r.1
  use_bucket-IsKept policy now (some b) f k =
      let r = refill-IsKept policy now b f (k b refl).nonnegative (k b refl).past in
      spend-IsKept policy now (refill fl policy now b) f r.0 r.1
