-- ===== src/Base/Order.antt =====
-- The order of sort.Strings, and that the insertion sort sorts.
use Prim.Native.Nat.{Ordering}
use Prim.Native.String.{compare}
use Prim.Native.String.compare
use xiuxian.Base.{Bool, true, false, List, [], ◌∷◌, String, ◌≡◌, arith, inl, inr, Bool-cases}
use xiuxian.Base.Text.{str_lt}
use xiuxian.Base.Sort.{insert_sorted, sort}

-- A text that comes before another one comes after it the other way round.
compare_lt : (s t : String) → compare s t ≡ Ordering.lt → compare t s ≡ Ordering.gt
compare_lt String.[] String.[] e = absurd (ground (arith, compare.nil-nil))
compare_lt String.[] (String.◌∷◌ d t) e = compare.cons-nil d t
compare_lt (String.◌∷◌ c s) String.[] e = absurd (ground (arith, compare.cons-nil c s))
compare_lt (String.◌∷◌ c s) (String.◌∷◌ d t) e =
    ground (arith, compare.cons-cons c d s t, compare.cons-cons d c t s, compare_lt s t)

pub str_lt-asym : (s t : String) → str_lt s t ≡ true → str_lt t s ≡ false
str_lt-asym s t e = ground (arith, compare_lt s t)

module _ {ℓ} {A : Type ℓ} (less : A → A → Bool) where
  -- No entry is less than the one before it.
  abbrev pub Ordered : List A → Type 0
  Ordered [] = Unit {0}
  Ordered (x ∷ []) = Unit {0}
  Ordered (x ∷ y ∷ rest) = (less y x ≡ false) × Ordered (y ∷ rest)

  module _ (asym : (x y : A) → less x y ≡ true → less y x ≡ false) where
    below_head :
        (a x y : A) (xs : List A)
        → less x a ≡ true
        → less y x ≡ false
        → Ordered (insert_sorted less a (y ∷ xs))
        → Ordered (x ∷ insert_sorted less a (y ∷ xs))
    unfolding insert_sorted
    below_head a x y xs e h = elim (Bool-cases (less y a)) [
      | inl f ↦ rw f (λ o. (h, o))
      | inr f ↦ rw f (λ o. (asym x a e, o))
    ]

    insert_sorted-Ordered : (a : A) (xs : List A) → Ordered xs → Ordered (insert_sorted less a xs)
    unfolding insert_sorted
    insert_sorted-Ordered a [] o = tt
    insert_sorted-Ordered a (x ∷ []) o = elim (Bool-cases (less x a)) [
      | inl e ↦ rw e (asym x a e, tt)
      | inr e ↦ rw e (e, tt)
    ]
    insert_sorted-Ordered a (x ∷ y ∷ xs) o = elim (Bool-cases (less x a)) [
      | inr e ↦ rw e (e, o)
      | inl e ↦ rw e (below_head a x y xs e o.0 (insert_sorted-Ordered a (y ∷ xs) o.1))
    ]

    pub sort-Ordered : (xs : List A) → Ordered (sort less xs)
    unfolding sort
    sort-Ordered [] = tt
    sort-Ordered (x ∷ xs) = insert_sorted-Ordered x (sort less xs) (sort-Ordered xs)
