-- ===== src/Limit.antt =====
-- internal/data/ratelimit.go and internal/biz/ratelimit.go: a token bucket for each scope and
-- subject, in memory, or in Redis, whose script is a parameter.
mod Tests
pub mod Live
pub mod Sweep
pub mod Forever
pub mod Burst
use xiuxian.Base.{
  Bool, true, false, ◌||◌, not, Option, none, some, [], ◌∷◌, String, if◌then◌else◌, ◌*◌,
}
use xiuxian.Base.Int.{ℤ, pos, ◌+ℤ◌, ◌-ℤ◌, ltb_ℤ, eqb_ℤ}
use xiuxian.Base.Float.{Float64}
use xiuxian.Base.Dict.{Dict, lookup, insert}
use xiuxian.Base.Text.{◌⊕◌}
use xiuxian.Rules.Units.{Time, Duration, seconds, nanos_per_second}

pub record RateLimitPolicy (F : Type 0) : Type 0 where
  pub rate_per_second : F
  pub burst : F
  pub ttl : Duration

pub record MemoryBucket (F : Type 0) : Type 0 where
  pub tokens : F
  pub last : Time
  pub expires_at : Time

-- What the script answers in Redis: there is no Redis, the call fails, or a number.
pub data RedisAnswer : Type 0 where
  no_redis : RedisAnswer
  redis_fails : RedisAnswer
  redis_answers : ℤ → RedisAnswer

-- What Allow returns: an error for a policy that makes no sense or for a failing Redis.
pub data Allowance : Type 0 where
  decided : Bool → Allowance
  invalid_policy unavailable : Allowance

abbrev pub minute : Duration
minute = pos (60 * nanos_per_second)

-- scope + "\x00" + subject
abbrev pub bucket_key : String → String → String
bucket_key scope subject = scope ⊕ "\0" ⊕ subject

module _ (fl : Float64) where
  open fl use {F, of_int, add, sub, mul, div, min, lt, le}

  abbrev pub Buckets : Type 0
  Buckets = Dict (MemoryBucket F)

  abbrev pub one : F
  one = of_int (pos 1)

  -- delete every bucket with !bucket.expiresAt.After(now)
  unfoldable pub sweep : Time → Buckets → Buckets
  sweep now [] = []
  sweep now ((k, b) ∷ rest) =
      if ltb_ℤ now b.expires_at then (k, b) ∷ sweep now rest else sweep now rest

  unfoldable pub bucket_or_new : Option (MemoryBucket F) → RateLimitPolicy F → Time → MemoryBucket F
  bucket_or_new none policy now = record { tokens = policy.burst; last = now; expires_at = pos 0 }
  bucket_or_new (some b) policy now = b

  unfoldable pub refill : RateLimitPolicy F → Time → MemoryBucket F → MemoryBucket F
  refill policy now b =
      let elapsed = seconds fl (now -ℤ b.last) in
      if lt (of_int (pos 0)) elapsed
      then record b {
        tokens = min policy.burst (add b.tokens (mul elapsed policy.rate_per_second));
        last = now;
      }
      else b

  -- A token is taken if there is a whole one; either way the bucket lives for another ttl.
  unfoldable pub spend : RateLimitPolicy F → Time → MemoryBucket F → Bool × MemoryBucket F
  spend policy now b =
      if lt b.tokens one
      then (false, record b { expires_at = now +ℤ policy.ttl })
      else (true, record b { tokens = sub b.tokens one; expires_at = now +ℤ policy.ttl })

  -- The decision on a bucket, and the bucket after it.
  unfoldable pub use_bucket :
      RateLimitPolicy F → Time → Option (MemoryBucket F) → Bool × MemoryBucket F
  use_bucket policy now found =
      spend policy now (refill policy now (bucket_or_new found policy now))

  unfoldable pub allow_in_memory :
      String → String → RateLimitPolicy F → Time → Buckets → Bool × Buckets
  allow_in_memory scope subject policy now buckets =
      let swept = sweep now buckets in
      let key = bucket_key scope subject in
      let (allowed, bucket) = use_bucket policy now (lookup key swept) in
      (allowed, insert key bucket swept)

  unfoldable pub sound_policy : RateLimitPolicy F → Bool
  sound_policy policy = not (le policy.rate_per_second (of_int (pos 0)) || lt policy.burst one)

  unfoldable pub allow :
      RedisAnswer → Time → String → String → RateLimitPolicy F → Buckets → Allowance × Buckets
  allow redis now scope subject policy buckets =
      let (decision, after) = allow_in_memory scope subject policy now buckets in
      if not (sound_policy policy) then (invalid_policy, buckets) else elim redis [
        | no_redis ↦ (decided decision, after)
        | redis_fails ↦ (unavailable, buckets)
        | redis_answers n ↦ (decided (eqb_ℤ n (pos 1)), buckets)
      ]

  abbrev pub registration_rate_limit : RateLimitPolicy F
  registration_rate_limit = record {
    rate_per_second = div one (of_int (pos 5));
    burst = of_int (pos 3);
    ttl = minute;
  }

  abbrev pub login_rate_limit : RateLimitPolicy F
  login_rate_limit = record {
    rate_per_second = div one (of_int (pos 2));
    burst = of_int (pos 5);
    ttl = minute;
  }

  abbrev pub web_session_rate_limit : RateLimitPolicy F
  web_session_rate_limit = record {
    rate_per_second = of_int (pos 10);
    burst = of_int (pos 20);
    ttl = minute;
  }

  abbrev pub api_key_rate_limit : RateLimitPolicy F
  api_key_rate_limit = record { rate_per_second = one; burst = of_int (pos 5); ttl = minute }

  abbrev pub mcp_tool_rate_limit : RateLimitPolicy F
  mcp_tool_rate_limit = record { rate_per_second = one; burst = of_int (pos 5); ttl = minute }
