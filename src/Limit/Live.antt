-- ===== src/Limit/Live.antt =====
-- The buckets that the sweep of internal/data/ratelimit.go leaves.
use xiuxian.Base.{
  Option, none, some, String, [], ◌∷◌, ◌≡◌, refl, arith, if◌then◌else◌, Bool-cases, inl, inr,
}
use text.Mathlib.TextEquality.{eq_iff}
use xiuxian.Base.Int.{ltb_ℤ}
use xiuxian.Base.Float.{Float64}
use xiuxian.Base.Dict.{Dict, lookup, insert, lookup-insert}
use xiuxian.Base.Text.{str_eq}
use xiuxian.Rules.Units.{Time}
use xiuxian.Limit.{MemoryBucket, Buckets, sweep}

module _ {ℓ} {V : Type ℓ} where
  -- No key is listed twice.
  abbrev pub DistinctKeys : Dict V → Type ℓ
  DistinctKeys [] = Unit
  DistinctKeys ((k, v) ∷ rest) = (lookup k rest ≡ none) × DistinctKeys rest

  pub insert-DistinctKeys :
      (k : String) (v : V) (m : Dict V) → DistinctKeys m → DistinctKeys (insert k v m)
  unfolding insert lookup
  insert-DistinctKeys k v [] d = (refl, tt)
  insert-DistinctKeys k v ((j, u) ∷ m) d = elim (Bool-cases (str_eq j k)) [
    | inl e ↦ rw e d
    | inr e ↦ rw e (
      ground (arith, lookup-insert k j v m, eq_iff k j, eq_iff j k),
      insert-DistinctKeys k v m d.1,
    )
  ]

module _ (fl : Float64) where
  open fl use {F}

  unfoldable pub live_only : Time → Option (MemoryBucket F) → Option (MemoryBucket F)
  live_only now none = none
  live_only now (some b) = if ltb_ℤ now b.expires_at then some b else none

  pub sweep-none :
      (k : String) (now : Time) (m : Buckets fl)
      → lookup k m ≡ none
      → lookup k (sweep fl now m) ≡ none
  unfolding lookup sweep
  sweep-none k now [] e = refl
  sweep-none k now ((j, b) ∷ m) e = ground (arith, sweep-none k now m)

  pub sweep-DistinctKeys :
      (now : Time) (m : Buckets fl) → DistinctKeys m → DistinctKeys (sweep fl now m)
  unfolding sweep lookup
  sweep-DistinctKeys now [] d = tt
  sweep-DistinctKeys now ((j, b) ∷ m) d = elim (Bool-cases (ltb_ℤ now b.expires_at)) [
    | inl e ↦ rw e (sweep-none j now m d.0, sweep-DistinctKeys now m d.1)
    | inr e ↦ rw e (sweep-DistinctKeys now m d.1)
  ]

  pub lookup-sweep :
      (k : String) (now : Time) (m : Buckets fl)
      → DistinctKeys m
      → lookup k (sweep fl now m) ≡ live_only now (lookup k m)
  unfolding lookup sweep live_only
  lookup-sweep k now [] d = refl
  lookup-sweep k now ((j, b) ∷ m) d =
      ground (arith, lookup-sweep k now m d.1, sweep-none k now m, eq_iff j k)
