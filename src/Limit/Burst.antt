-- ===== src/Limit/Burst.antt =====
-- How many calls the limiter of internal/data/ratelimit.go lets through at one instant.
use xiuxian.Base.{
  ◌≤◌, ◌^◌, arith, ℕ, zero, suc, Bool, true, false, List, [], ◌∷◌, String, ◌≡◌, refl, ap,
}
use xiuxian.Base.Int.{pos, ◌+ℤ◌, ◌-ℤ◌, ◌<ℤ◌, int_laws, ltb_ℤ, ltb_ℤ-true}
use xiuxian.Base.Float.{Float64}
use xiuxian.Base.Dict.{lookup, insert, str_eq_refl}
use xiuxian.Rules.Units.{Time, seconds}
use xiuxian.Limit.{
  RateLimitPolicy, Buckets, bucket_key, one, sweep, bucket_or_new, refill, spend, use_bucket,
  allow_in_memory,
}

module _ (fl : Float64) where
  open fl use {F, of_int, sub, lt}

  -- No time gives no tokens, and whole tokens count down to 0, as float64 does up to 2^53.
  pub record CountsDown : Type 0 where
    pub no_time : lt (of_int (pos 0)) (seconds fl (pos 0)) ≡ false
    pub enough : (n : ℕ) → suc n ≤ 2 ^ 53 → lt (of_int (pos (suc n))) (one fl) ≡ false
    pub none_left : lt (of_int (pos 0)) (one fl) ≡ true
    pub one_less : (n : ℕ) → suc n ≤ 2 ^ 53 → sub (of_int (pos (suc n))) (one fl) ≡ of_int (pos n)

  -- The first n of m calls.
  abbrev pub first_of : ℕ → ℕ → List Bool
  first_of n zero = []
  first_of zero (suc m) = false ∷ first_of zero m
  first_of (suc n) (suc m) = true ∷ first_of n m

  -- The answers to m calls for one subject, all at one time.
  unfoldable pub calls_at : ℕ → String → String → RateLimitPolicy F → Time → Buckets fl → List Bool
  calls_at zero scope subject policy now buckets = []
  calls_at (suc m) scope subject policy now buckets =
      let (allowed, after) = allow_in_memory fl scope subject policy now buckets in
      allowed ∷ calls_at m scope subject policy now after

  module _ (policy : RateLimitPolicy F) (scope subject : String) (now : Time) (c : CountsDown)
      (lasts : pos 0 <ℤ policy.ttl) where
    abbrev holding : ℕ → Buckets fl
    holding n =
        (
          bucket_key scope subject,
          record { tokens = of_int (pos n); last = now; expires_at = now +ℤ policy.ttl },
        )
        ∷ []

    minus_self : now -ℤ now ≡ pos 0
    minus_self = omega int_laws

    alive_now : ltb_ℤ now (now +ℤ policy.ttl) ≡ true
    alive_now = ltb_ℤ-true now (now +ℤ policy.ttl) (omega int_laws)

    calls_at-holding :
        (n m : ℕ) → n ≤ 2 ^ 53 → calls_at m scope subject policy now (holding n) ≡ first_of n m
    unfolding calls_at allow_in_memory use_bucket sweep bucket_or_new refill spend lookup insert
    calls_at-holding n zero h = refl
    calls_at-holding zero (suc m) h =
        rw (alive_now, str_eq_refl (bucket_key scope subject), minus_self, c.no_time, c.none_left)
          (ap (λ l. false ∷ l) (calls_at-holding zero m (omega arith)))
    calls_at-holding (suc n) (suc m) h =
        rw
          (
            alive_now,
            str_eq_refl (bucket_key scope subject),
            minus_self,
            c.no_time,
            c.enough n h,
            c.one_less n h,
          )
          (ap (λ l. true ∷ l) (calls_at-holding n m (omega arith)))

    -- Of any number of calls for one subject at one instant, to a limiter without buckets, exactly
    -- the first ones are let through, as many as the policy's burst: if the burst is a whole
    -- number of at most 2^53, the ttl is positive, no time gives no tokens, and whole tokens up to
    -- 2^53 count down.
    pub calls_at-burst :
        (n m : ℕ)
        → n ≤ 2 ^ 53
        → policy.burst ≡ of_int (pos n)
        → calls_at m scope subject policy now [] ≡ first_of n m
    unfolding calls_at allow_in_memory use_bucket sweep bucket_or_new refill spend lookup insert
    calls_at-burst n zero h e = refl
    calls_at-burst zero (suc m) h e =
        simp (e, minus_self, c.no_time, c.none_left)
          (ap (λ l. false ∷ l) (calls_at-holding zero m (omega arith)))
    calls_at-burst (suc n) (suc m) h e =
        simp (e, minus_self, c.no_time, c.enough n h, c.one_less n h)
          (ap (λ l. true ∷ l) (calls_at-holding n m (omega arith)))
