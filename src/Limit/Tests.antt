-- ===== src/Limit/Tests.antt =====
-- Instances of what is proved of internal/data/ratelimit.go.
use xiuxian.Base.{
  ℕ, ◌+◌, ◌*◌, ◌/◌, ◌-◌, ◌≤◌, List, [], ◌∷◌, ◌≡◌, refl, arith, ltb, leb, ◌==◌, if◌then◌else◌,
}
use xiuxian.Base.Int.{ℤ, pos, negsuc, pos_part, ◌≤ℤ◌, ◌+ℤ◌, quot, rem, int_laws}
use xiuxian.Base.Float.{Float64}
use xiuxian.Rules.Units.{Time, seconds}
use xiuxian.Limit.{RateLimitPolicy, minute, api_key_rate_limit, allow_in_memory}
use xiuxian.Limit.Sweep.{FillsUp}
use xiuxian.Limit.Forever.{Ask, allow_forever, decisions, allow_in_memory-refines}
use xiuxian.Limit.Burst.{CountsDown, first_of, calls_at, calls_at-burst}

-- Numbers that are never negative, for float64.
abbrev counts : Float64
counts = record {
  F = ℕ;
  of_int = λ n. pos_part n;
  add = λ a b. a + b;
  sub = λ a b. a - b;
  mul = λ a b. a * b;
  div = λ a b. a / b;
  hypot = λ a b. a + b;
  min = λ a b. if ltb b a then b else a;
  le = leb;
  lt = ltb;
  eq = ◌==◌;
  whole_part = λ a. a;
  round = λ a. pos a;
  trunc = λ a. pos a;
}

abbrev policy : RateLimitPolicy ℕ
policy = api_key_rate_limit counts

counts_down : CountsDown counts
unfolding seconds quot rem
counts_down = record {
  no_time = refl;
  enough = λ n h. ground arith;
  none_left = refl;
  one_less = λ n h. omega arith;
}

after_minute : (d : ℤ) → minute ≤ℤ d → 60 ≤ seconds counts d
unfolding seconds quot rem
after_minute (pos n) h = ground arith
after_minute (negsuc n) h = ground arith

counts_fill : FillsUp counts policy
unfolding seconds quot rem
counts_fill = record {
  no_time = refl;
  long_time = λ d h. ground (arith, after_minute d h);
  full = λ tokens d h nonneg. ground (arith, after_minute d h);
  starts = refl;
  filled = λ tokens elapsed h nonneg. ground arith;
  spent = λ tokens h nonneg. ground arith;
}

abbrev day : Time
day = pos 63_000_000_000_000_000_000

-- Two subjects; the second one's bucket is swept before its second call.
abbrev asks : List Ask
asks =
    record { scope = "mcp_tool"; subject = "a"; at = day }
    ∷ record { scope = "mcp_tool"; subject = "b"; at = day }
    ∷ record { scope = "mcp_tool"; subject = "a"; at = day +ℤ pos 90_000_000_000 }
    ∷ record { scope = "mcp_tool"; subject = "b"; at = day +ℤ pos 90_000_000_000 }
    ∷ []

allow_in_memory-refines_example :
    decisions counts (allow_in_memory counts) (λ k. policy) asks []
    ≡ decisions counts (allow_forever counts) (λ k. policy) asks []
allow_in_memory-refines_example =
    allow_in_memory-refines counts (λ k. policy) (λ k. counts_fill) day asks
      (omega arith, (omega arith, (omega int_laws, (omega arith, tt))))

calls_at-burst_example : calls_at counts 8 "mcp_tool" "a" policy day [] ≡ first_of counts 5 8
calls_at-burst_example =
    calls_at-burst counts policy "mcp_tool" "a" day counts_down (omega arith) 5 8 (omega arith) refl
