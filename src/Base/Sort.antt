-- ===== src/Base/Sort.antt =====
-- sort.Slice and sort.Strings: insertion sort by the `less` of the call. Where no two entries are
-- equal for `less`, the sorted order is the only one.
use xiuxian.Base.{Bool, List, [], ◌∷◌, if◌then◌else◌}

module _ {ℓ} {A : Type ℓ} (less : A → A → Bool) where
  unfoldable pub insert_sorted : A → List A → List A
  insert_sorted a [] = a ∷ []
  insert_sorted a (b ∷ bs) = if less b a then b ∷ insert_sorted a bs else a ∷ b ∷ bs

  unfoldable pub sort : List A → List A
  unfolding insert_sorted
  sort [] = []
  sort (a ∷ as') = insert_sorted a (sort as')
