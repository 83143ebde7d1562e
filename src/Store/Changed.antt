-- ===== src/Store/Changed.antt =====
-- The roles that a save of internal/data/postgres.go locks.
use xiuxian.Base.{
  Bool, true, false, ◌&&◌, ◌||◌, not, Option, none, some, List, [], ◌∷◌, ◌++◌, String, ◌≡◌, refl,
  sym, ◌∙◌, ap, arith, inl, inr, Bool-cases, if◌then◌else◌,
}
use xiuxian.Base.Int.{eqb_ℤ}
use xiuxian.Base.Dict.{Dict, lookup, str_eq_iff}
use xiuxian.Base.Text.{str_eq, str_lt}
use xiuxian.Base.Order.{Ordered, sort-Ordered, str_lt-asym}
use xiuxian.Base.Sort.{insert_sorted, sort}
use xiuxian.World.Model.{Role}
use xiuxian.Store.Save.{is_changed, changed_from, is_missing, gone_from, changed_ids}

abbrev pub has : String → List String → Bool
has k [] = false
has k (x ∷ xs) = str_eq x k || has k xs

-- No role is listed twice.
abbrev pub Distinct : Dict Role → Type 0
Distinct [] = Unit {0}
Distinct ((k, r) ∷ rest) = (lookup k rest ≡ none) × Distinct rest

-- A role is new, or gone, or has another version.
abbrev pub differs : Option Role → Option Role → Bool
differs none none = false
differs none (some r) = true
differs (some q) none = true
differs (some q) (some r) = not (eqb_ℤ q.state_version r.state_version)

has-append : (k : String) (xs ys : List String) → has k (xs ++ ys) ≡ (has k xs || has k ys)
has-append k [] ys = refl
has-append k (x ∷ xs) ys = ground (arith, has-append k xs ys)

has-insert_sorted :
    (less : String → String → Bool) (k x : String) (xs : List String)
    → has k (insert_sorted less x xs) ≡ (str_eq x k || has k xs)
unfolding insert_sorted
has-insert_sorted less k x [] = refl
has-insert_sorted less k x (y ∷ ys) = ground (arith, has-insert_sorted less k x ys)

has-sort :
    (less : String → String → Bool) (k : String) (xs : List String)
    → has k (sort less xs) ≡ has k xs
unfolding sort
has-sort less k [] = refl
has-sort less k (x ∷ xs) =
    has-insert_sorted less k x (sort less xs) ∙ ap (λ b. str_eq x k || b) (has-sort less k xs)

-- What the first loop finds of a role of the next world.
abbrev changed_at : Option Role → Option Role → Bool
changed_at old none = false
changed_at old (some r) = is_changed r old

lookup-cons_self :
    (j k : String) (r : Role) (m : Dict Role) → str_eq j k ≡ true → lookup k ((j, r) ∷ m) ≡ some r
unfolding lookup
lookup-cons_self j k r m e = ground arith

lookup-cons_other :
    (j k : String) (r : Role) (m : Dict Role)
    → str_eq j k ≡ false
    → lookup k ((j, r) ∷ m) ≡ lookup k m
unfolding lookup
lookup-cons_other j k r m e = ground arith

has-if :
    (k j : String) (c : Bool) (xs : List String)
    → has k (if c then j ∷ xs else xs) ≡ ((c && str_eq j k) || has k xs)
has-if k j true xs = refl
has-if k j false xs = refl

head_only : (c b h : Bool) → b ≡ true → h ≡ false → ((c && b) || h) ≡ c
head_only c b h e f = ground arith

tail_only : (c b h : Bool) → b ≡ false → ((c && b) || h) ≡ h
tail_only c b h e = ground arith

has-changed_from :
    (k : String) (current next : Dict Role)
    → Distinct next
    → has k (changed_from current next) ≡ changed_at (lookup k current) (lookup k next)
unfolding changed_from lookup
has-changed_from k current [] d = refl
has-changed_from k current ((j, r) ∷ next) d =
    let more = has-changed_from k current next d.1 in
    elim (Bool-cases (str_eq j k)) [
      | inl e ↦
          let same : j ≡ k = (str_eq_iff j k).0 e in
          let absent : lookup k next ≡ none = ap (λ x. lookup x next) (sym same) ∙ d.0 in
          has-if k j (is_changed r (lookup j current)) (changed_from current next)
          ∙ head_only (is_changed r (lookup j current)) (str_eq j k)
              (has k (changed_from current next)) e
              (more ∙ ap (changed_at (lookup k current)) absent)
          ∙ ap (λ x. is_changed r (lookup x current)) same
          ∙ ap (changed_at (lookup k current)) (sym (lookup-cons_self j k r next e))
      | inr e ↦
          has-if k j (is_changed r (lookup j current)) (changed_from current next)
          ∙ tail_only (is_changed r (lookup j current)) (str_eq j k)
              (has k (changed_from current next)) e
          ∙ more
          ∙ ap (changed_at (lookup k current)) (sym (lookup-cons_other j k r next e))
    ]

gone_here :
    (c b h m n : Bool) → b ≡ true → h ≡ (m && not n) → c ≡ m → ((c && b) || h) ≡ (m && not false)
gone_here c b h m n e f g = ground arith

has-gone_from :
    (k : String) (next current : Dict Role)
    → has k (gone_from next current)
      ≡ (is_missing (lookup k next) && not (is_missing (lookup k current)))
unfolding gone_from lookup
has-gone_from k next [] = ground arith
has-gone_from k next ((j, r) ∷ current) =
    let more = has-gone_from k next current in
    let now = λ (o : Option Role). is_missing (lookup k next) && not (is_missing o) in
    elim (Bool-cases (str_eq j k)) [
      | inl e ↦
          let same : j ≡ k = (str_eq_iff j k).0 e in
          has-if k j (is_missing (lookup j next)) (gone_from next current)
          ∙ gone_here (is_missing (lookup j next)) (str_eq j k) (has k (gone_from next current))
              (is_missing (lookup k next)) (is_missing (lookup k current)) e more
              (ap (λ x. is_missing (lookup x next)) same)
          ∙ ap now (sym (lookup-cons_self j k r current e))
      | inr e ↦
          has-if k j (is_missing (lookup j next)) (gone_from next current)
          ∙ tail_only (is_missing (lookup j next)) (str_eq j k) (has k (gone_from next current)) e
          ∙ more
          ∙ ap now (sym (lookup-cons_other j k r current e))
    ]

either :
    (old new : Option Role)
    → (changed_at old new || (is_missing new && not (is_missing old))) ≡ differs old new
unfolding is_changed
either none none = refl
either none (some r) = refl
either (some q) none = refl
either (some q) (some r) = ground arith

-- The roles that a save locks are in order, and they are exactly those that are new in the next world,
-- gone from it, or of another version there, if the next world lists no role twice.
pub changed_ids-differs :
    (k : String) (current next : Dict Role)
    → Distinct next
    → Ordered str_lt (changed_ids current next)
      × (has k (changed_ids current next) ≡ differs (lookup k current) (lookup k next))
unfolding changed_ids
changed_ids-differs k current next d = (
  sort-Ordered str_lt str_lt-asym _,
  has-sort str_lt k _
      ∙ has-append k _ _
      ∙ ap (λ b. b || has k (gone_from next current)) (has-changed_from k current next d)
      ∙ ap (λ b. changed_at (lookup k current) (lookup k next) || b) (has-gone_from k next current)
      ∙ either (lookup k current) (lookup k next),
)
