-- ===== src/Limit/Forever.antt =====
-- The limiter of internal/data/ratelimit.go against one that never forgets a bucket, over any
-- sequence of calls.
use xiuxian.Base.{
  Bool, Option, none, some, List, [], ◌∷◌, String, ◌≡◌, refl, ap, sym, subst, inl, inr, arith,
  Bool-cases,
}
use mathlib.Core.Path.{ap₂}
use text.Mathlib.TextEquality.{eq_iff}
use xiuxian.Base.Int.{◌≤ℤ◌, ltb_ℤ, le_of_ltb_ℤ}
use xiuxian.Base.Float.{Float64}
use xiuxian.Base.Dict.{lookup, insert, lookup-insert}
use xiuxian.Base.Text.{str_eq}
use xiuxian.Rules.Units.{Time}
use xiuxian.Limit.{
  RateLimitPolicy, MemoryBucket, Buckets, bucket_key, sweep, use_bucket, allow_in_memory,
}
use xiuxian.Limit.Live.{
  DistinctKeys, insert-DistinctKeys, live_only, sweep-DistinctKeys, lookup-sweep,
}
use xiuxian.Limit.Sweep.{FillsUp, IsKept, use_bucket-expired, use_bucket-IsKept}

-- A call of the limiter: scope, subject and the time.
pub record Ask : Type 0 where
  pub scope : String
  pub subject : String
  pub at : Time

module _ (fl : Float64) where
  open fl use {F}

  -- The same limiter without its sweep: every subject keeps its bucket for good.
  unfoldable pub allow_forever :
      String → String → RateLimitPolicy F → Time → Buckets fl → Bool × Buckets fl
  allow_forever scope subject policy now buckets =
      let key = bucket_key scope subject in
      let (allowed, bucket) = use_bucket fl policy now (lookup key buckets) in
      (allowed, insert key bucket buckets)

  -- The decisions of a limiter on a sequence of calls, the policy given by the key.
  unfoldable pub decisions :
      (String → String → RateLimitPolicy F → Time → Buckets fl → Bool × Buckets fl)
      → (String → RateLimitPolicy F)
      → List Ask
      → Buckets fl
      → List Bool
  decisions limiter policy [] buckets = []
  decisions limiter policy (a ∷ asks) buckets =
      let (allowed, after) =
        limiter a.scope a.subject (policy (bucket_key a.scope a.subject)) a.at buckets in
      allowed ∷ decisions limiter policy asks after

  -- The clock does not go back.
  abbrev pub InOrder : Time → List Ask → Type 0
  InOrder clock [] = Unit {0}
  InOrder clock (a ∷ asks) = (clock ≤ℤ a.at) × InOrder a.at asks

  -- A bucket of the one limiter stands for one of the other: the same, or forgotten and expired.
  data StandsFor (clock : Time) : Option (MemoryBucket F) → Option (MemoryBucket F) → Type 0 where
    same : {o : Option (MemoryBucket F)} → StandsFor clock o o
    forgotten : {b : MemoryBucket F} → b.expires_at ≤ℤ clock → StandsFor clock none (some b)

  record Refines (policy : String → RateLimitPolicy F) (clock : Time) (m forever : Buckets fl)
      : Type 0 where
    distinct : DistinctKeys m
    stands : (k : String) → StandsFor clock (lookup k m) (lookup k forever)
    kept :
        (k : String) (b : MemoryBucket F) → lookup k forever ≡ some b → IsKept fl (policy k) clock b

  StandsFor-live :
      (clock now : Time) (o p : Option (MemoryBucket F))
      → clock ≤ℤ now
      → StandsFor clock o p
      → StandsFor now (live_only fl now o) p
  unfolding live_only
  StandsFor-live clock now none none h same = same
  StandsFor-live clock now (some b) (some b') h same = elim (Bool-cases (ltb_ℤ now b.expires_at)) [
    | inl e ↦ rw e same
    | inr e ↦ rw e (forgotten (le_of_ltb_ℤ now b.expires_at e))
  ]
  StandsFor-live clock now (some b) none h x = elim x [ ]
  StandsFor-live clock now none (some b) h (forgotten e) = forgotten (omega arith)

  use_bucket-StandsFor :
      (policy : RateLimitPolicy F) (now : Time) (o p : Option (MemoryBucket F))
      → FillsUp fl policy
      → StandsFor now o p
      → ((b : MemoryBucket F) → p ≡ some b → IsKept fl policy now b)
      → use_bucket fl policy now o ≡ use_bucket fl policy now p
  use_bucket-StandsFor policy now o p f same k = refl
  use_bucket-StandsFor policy now none (some b) f (forgotten e) k =
      sym (use_bucket-expired fl policy now b f (k b refl) e)

  IsKept-later :
      (policy : RateLimitPolicy F) (clock now : Time) (b : MemoryBucket F)
      → clock ≤ℤ now
      → IsKept fl policy clock b
      → IsKept fl policy now b
  IsKept-later policy clock now b h k = record {
    nonnegative = k.nonnegative;
    past = omega arith;
    outlives = k.outlives;
  }

  StandsFor-insert :
      (clock : Time) (key k : String) (b : MemoryBucket F) (m forever : Buckets fl)
      → ((j : String) → StandsFor clock (lookup j m) (lookup j forever))
      → StandsFor clock (lookup k (insert key b m)) (lookup k (insert key b forever))
  StandsFor-insert clock key k b m forever h = elim (Bool-cases (str_eq key k)) [
    | inl e ↦ rw (lookup-insert key k b m, lookup-insert key k b forever, e) same
    | inr e ↦ rw (lookup-insert key k b m, lookup-insert key k b forever, e) (h k)
  ]

  IsKept-insert :
      (policy : String → RateLimitPolicy F) (now : Time) (key k : String) (b c : MemoryBucket F)
      (m : Buckets fl)
      → IsKept fl (policy key) now b
      → ((a : MemoryBucket F) → lookup k m ≡ some a → IsKept fl (policy k) now a)
      → lookup k (insert key b m) ≡ some c
      → IsKept fl (policy k) now c
  IsKept-insert policy now key k b c m h others e = elim (Bool-cases (str_eq key k)) [
    | inl same_key ↦
        let found : b ≡ c = ground (arith, lookup-insert key k b m) in
        subst (λ j. IsKept fl (policy j) now c) ((eq_iff key k).0 same_key)
          (subst (λ a. IsKept fl (policy key) now a) found h)
    | inr other ↦ others c (ground (arith, lookup-insert key k b m))
  ]

  module _ (policy : String → RateLimitPolicy F) (fills : (k : String) → FillsUp fl (policy k))
      (clock : Time) (scope subject : String) (now : Time) (later : clock ≤ℤ now)
      (m forever : Buckets fl) (r : Refines policy clock m forever) where
    abbrev key : String
    key = bucket_key scope subject

    stands_now : (k : String) → StandsFor now (lookup k (sweep fl now m)) (lookup k forever)
    stands_now k =
        rw (lookup-sweep fl k now m r.distinct) (StandsFor-live clock now _ _ later (r.stands k))

    IsKept-now :
        (k : String) (b : MemoryBucket F) → lookup k forever ≡ some b → IsKept fl (policy k) now b
    IsKept-now k b e = IsKept-later (policy k) clock now b later (r.kept k b e)

    same_use :
        use_bucket fl (policy key) now (lookup key (sweep fl now m))
        ≡ use_bucket fl (policy key) now (lookup key forever)
    same_use =
        use_bucket-StandsFor (policy key) now _ _ (fills key) (stands_now key) (IsKept-now key)

    allow-decision :
        (allow_in_memory fl scope subject (policy key) now m).0
        ≡ (allow_forever scope subject (policy key) now forever).0
    unfolding allow_in_memory allow_forever
    allow-decision = ap (λ u. u.0) same_use

    allow-Refines :
        Refines policy now
          (allow_in_memory fl scope subject (policy key) now m).1
          (allow_forever scope subject (policy key) now forever).1
    unfolding allow_in_memory allow_forever
    allow-Refines = record {
      distinct = insert-DistinctKeys _ _ _ (sweep-DistinctKeys fl now m r.distinct);
      stands = λ k. rw same_use (StandsFor-insert now _ k _ _ _ stands_now);
      kept = λ k b e.
          IsKept-insert policy now key k _ b forever
            (use_bucket-IsKept fl (policy key) now (lookup key forever) (fills key)
              (IsKept-now key))
            (IsKept-now k) e;
    }

  decisions-refined :
      (policy : String → RateLimitPolicy F)
      → ((k : String) → FillsUp fl (policy k))
      → (asks : List Ask) (clock : Time) (m forever : Buckets fl) → InOrder clock asks
      → Refines policy clock m forever
      → decisions (allow_in_memory fl) policy asks m ≡ decisions allow_forever policy asks forever
  unfolding decisions
  decisions-refined policy fills [] clock m forever o r = refl
  decisions-refined policy fills (a ∷ asks) clock m forever o r =
      let d = allow-decision policy fills clock a.scope a.subject a.at o.0 m forever r in
      let n = allow-Refines policy fills clock a.scope a.subject a.at o.0 m forever r in
      ap₂ ◌∷◌ d (decisions-refined policy fills asks a.at _ _ o.1 n)

  nothing-Refines :
      (policy : String → RateLimitPolicy F) (clock : Time) → Refines policy clock [] []
  unfolding lookup
  nothing-Refines policy clock = record {
    distinct = tt;
    stands = λ k. same;
    kept = λ k b e. absurd (ground arith);
  }

  -- The sweep never changes a decision. Where, for the policy of each key, a bucket that has been
  -- left alone for the ttl is full again and no arithmetic makes a count of tokens negative, the
  -- limiter answers any sequence of calls, at times that do not go back, as one that never forgets
  -- a bucket.
  pub allow_in_memory-refines :
      (policy : String → RateLimitPolicy F)
      → ((k : String) → FillsUp fl (policy k))
      → (clock : Time) (asks : List Ask) → InOrder clock asks
      → decisions (allow_in_memory fl) policy asks [] ≡ decisions allow_forever policy asks []
  allow_in_memory-refines policy fills clock asks o =
      decisions-refined policy fills asks clock [] [] o (nothing-Refines policy clock)
