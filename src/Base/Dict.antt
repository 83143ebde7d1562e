-- ===== src/Base/Dict.antt =====
-- A Go map with string keys, as a list of its entries. A range statement visits them in the order
-- of the list; since the order of Go's is not specified, the order of the list stands for any.
use text.Mathlib.TextEquality.{eq_iff}
use text.Mathlib.TextPositions.{eq_refl}
use xiuxian.Base.{
  ◌≡◌, refl, ◌≢◌, true, false, List, [], ◌∷◌, Option, none, some, String, arith, if◌then◌else◌, map,
  ◌↔◌,
}
use xiuxian.Base.Text.{str_eq}

abbrev pub Dict {ℓ} : Type ℓ → Type ℓ
Dict V = List (String × V)

pub str_eq_iff : (s t : String) → (str_eq s t ≡ true) ↔ (s ≡ t)
str_eq_iff s t = eq_iff s t

pub str_eq_refl : (s : String) → str_eq s s ≡ true
str_eq_refl s = eq_refl s

pub str_eq_ne : (s t : String) → s ≢ t → str_eq s t ≡ false
str_eq_ne s t h = ground (arith, str_eq_iff s t)

module _ {ℓ} {V : Type ℓ} where
  -- m[k], with `none` for a missing key
  unfoldable pub lookup : String → Dict V → Option V
  lookup k [] = none
  lookup k ((j, v) ∷ rest) = if str_eq j k then some v else lookup k rest

  -- m[k] = v
  unfoldable pub insert : String → V → Dict V → Dict V
  insert k v [] = (k, v) ∷ []
  insert k v ((j, u) ∷ rest) = if str_eq j k then (j, v) ∷ rest else (j, u) ∷ insert k v rest

  -- delete(m, k)
  unfoldable pub erase : String → Dict V → Dict V
  erase k [] = []
  erase k ((j, v) ∷ rest) = if str_eq j k then rest else (j, v) ∷ erase k rest

  -- A change of the value that m[k] points to.
  unfoldable pub adjust : String → (V → V) → Dict V → Dict V
  adjust k f [] = []
  adjust k f ((j, v) ∷ rest) = if str_eq j k then (j, f v) ∷ rest else (j, v) ∷ adjust k f rest

  unfoldable pub keys : Dict V → List String
  keys rest = map (λ e. e.0) rest

  pub lookup-insert :
      (k j : String) (v : V) (rest : Dict V)
      → lookup j (insert k v rest) ≡ (if str_eq k j then some v else lookup j rest)
  unfolding lookup insert
  lookup-insert k j v [] = refl
  lookup-insert k j v ((a, u) ∷ rest) =
      ground (arith, lookup-insert k j v rest, eq_iff a j, eq_iff a k, eq_iff k j)

  pub lookup-insert_self :
      (k : String) (v : V) (rest : Dict V) → lookup k (insert k v rest) ≡ some v
  lookup-insert_self k v rest = ground (arith, lookup-insert k k v rest, eq_iff k k)

  pub lookup-insert_ne :
      (k j : String) (v : V) (rest : Dict V) → k ≢ j → lookup j (insert k v rest) ≡ lookup j rest
  lookup-insert_ne k j v rest h = ground (arith, lookup-insert k j v rest, eq_iff k j)

  pub lookup-adjust_self :
      (k : String) (f : V → V) (rest : Dict V) (v : V)
      → lookup k rest ≡ some v
      → lookup k (adjust k f rest) ≡ some (f v)
  unfolding lookup adjust
  lookup-adjust_self k f [] v e = ground arith
  lookup-adjust_self k f ((a, u) ∷ rest) v e = ground (arith, lookup-adjust_self k f rest v)

  pub lookup-adjust-none :
      (k j : String) (f : V → V) (rest : Dict V)
      → lookup j rest ≡ none
      → lookup j (adjust k f rest) ≡ none
  unfolding lookup adjust
  lookup-adjust-none k j f [] e = refl
  lookup-adjust-none k j f ((a, u) ∷ rest) e = ground (arith, lookup-adjust-none k j f rest)

  pub lookup-adjust_ne :
      (k j : String) (f : V → V) (rest : Dict V)
      → k ≢ j
      → lookup j (adjust k f rest) ≡ lookup j rest
  unfolding lookup adjust
  lookup-adjust_ne k j f [] h = refl
  lookup-adjust_ne k j f ((a, u) ∷ rest) h =
      ground (arith, eq_iff k j, eq_iff a k, eq_iff a j, lookup-adjust_ne k j f rest h)

  pub lookup-erase-none :
      (k j : String) (rest : Dict V) → lookup j rest ≡ none → lookup j (erase k rest) ≡ none
  unfolding lookup erase
  lookup-erase-none k j [] e = refl
  lookup-erase-none k j ((a, u) ∷ rest) e = ground (arith, lookup-erase-none k j rest)

  pub lookup-erase_ne :
      (k j : String) (rest : Dict V) → k ≢ j → lookup j (erase k rest) ≡ lookup j rest
  unfolding lookup erase
  lookup-erase_ne k j [] h = refl
  lookup-erase_ne k j ((a, u) ∷ rest) h =
      ground (arith, eq_iff k j, eq_iff a k, eq_iff a j, lookup-erase_ne k j rest h)
