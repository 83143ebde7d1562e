-- ===== src/World/Evolves/Placed.antt =====
-- What expandBounds of internal/biz/core.go leaves as it is.
use xiuxian.Base.{
  ◌≡◌, ◌⊎◌, refl, sym, ◌∙◌, ap, inl, inr, ◌||◌, Option, none, some, List, [], ◌∷◌, String, ℕ,
  Bool-cases, Option-cases, if_cases, subst,
}
use xiuxian.Base.Int.{pos, leb_ℤ, eqb_ℤ}
use xiuxian.Base.Dict.{
  Dict, lookup, adjust, lookup-adjust_self, lookup-adjust_ne, lookup-adjust-none, str_eq_iff,
}
use xiuxian.Base.Text.{str_eq}
use xiuxian.Rules.Units.{Coordinate, Position}
use xiuxian.World.Host.{Host}
use xiuxian.World.Model.{World, Opportunity, OpportunityStatus, unplaced, unclaimed}
use xiuxian.World.Place.{
  board_of, draw, take_draw, random_integer_position_excluding, put_at, place_found,
  place_if_unplaced, place_opportunity, place_each, place_unplaced_opportunities, widen, outside,
  expand_bounds,
}
use xiuxian.World.Evolves.Basics.{Evolves}
use xiuxian.World.Evolves.Steps.{Contains, expand_bounds-Contains}

-- An opportunity is as it was, or it had no place and has one: nothing else of it has changed.
abbrev pub SameButPlaced : Opportunity → Opportunity → Type 0
SameButPlaced o o' =
    (o' ≡ o)
    ⊎ ((o.status ≡ unplaced)
        × ((p : Position) × (o' ≡ record o { position = p; status = unclaimed })))

SameButPlaced-trans :
    (a b c : Opportunity) → SameButPlaced a b → SameButPlaced b c → SameButPlaced a c
SameButPlaced-trans a b c (inl same) h = subst (λ x. SameButPlaced x c) same h
SameButPlaced-trans a b c (inr placed) (inl same) =
    subst (λ x. SameButPlaced a x) (sym same) (inr placed)
SameButPlaced-trans a b c (inr (free, (p, put))) (inr (again, _)) =
    absurd (cc (ap (λ (x : Opportunity). x.status) (sym put) ∙ again))

module _ (host : Host) where
  abbrev moved_to : World host → World host → World host
  moved_to s t = record s {
    opportunities = t.opportunities;
    entropy = t.entropy;
    min_x = t.min_x;
    max_x = t.max_x;
    min_y = t.min_y;
    max_y = t.max_y;
  }

  -- The second world has other bounds, has drawn from the random source, and has placed
  -- opportunities that had no place; all else is as in the first.
  pub record Placed (s t : World host) : Type 0 where
    pub rest : t ≡ moved_to s t
    pub opportunities_stay :
        (id : String) (o : Opportunity)
        → lookup id s.opportunities ≡ some o
        → (o' : Opportunity) × (lookup id t.opportunities ≡ some o') × SameButPlaced o o'
    pub none_come :
        (id : String) → lookup id s.opportunities ≡ none → lookup id t.opportunities ≡ none

  Placed-same :
      (s t : World host) → t ≡ moved_to s t → t.opportunities ≡ s.opportunities → Placed s t
  Placed-same s t rest same = record {
    rest = rest;
    opportunities_stay = λ id o e. (o, ap (lookup id) same ∙ e, inl refl);
    none_come = λ id e. ap (lookup id) same ∙ e;
  }

  Placed-refl : (s : World host) → Placed s s
  Placed-refl s = Placed-same s s refl refl

  Placed-trans : (s t u : World host) → Placed s t → Placed t u → Placed s u
  Placed-trans s t u p q = record {
    rest = q.rest ∙ ap (λ w. moved_to w u) p.rest;
    opportunities_stay = λ id o e.
        let (b, eb, first) = p.opportunities_stay id o e in
        let (c, ec, second) = q.opportunities_stay id b eb in
        (c, ec, SameButPlaced-trans o b c first second);
    none_come = λ id e. q.none_come id (p.none_come id e);
  }

  -- The search of a place touches the random source alone.
  take_draw-same :
      (span : ℕ) (l : List (Option ℕ)) (s : World host)
      → let t = (take_draw host span l s).1 in
        (t ≡ moved_to s t) × (t.opportunities ≡ s.opportunities)
  unfolding take_draw
  take_draw-same span [] s = (refl, refl)
  take_draw-same span (none ∷ l) s = (refl, refl)
  take_draw-same span (some n ∷ l) s = (refl, refl)

  random-same :
      (a b c d : Coordinate) (p : Position) (s : World host)
      → let t = (random_integer_position_excluding host a b c d p s).1 in
        (t ≡ moved_to s t) × (t.opportunities ≡ s.opportunities)
  unfolding random_integer_position_excluding draw
  random-same a b c d p s =
      let n = board_of a b c d p in
      elim (Bool-cases (eqb_ℤ n.count_x (pos 0) || eqb_ℤ n.count_y (pos 0))) [
        | inl e ↦ rw (e, random_integer_position_excluding) (refl, refl)
        | inr e ↦ elim (Bool-cases (leb_ℤ n.total (pos 0))) [
          | inl e' ↦ rw (e, e', random_integer_position_excluding) (refl, refl)
          | inr e' ↦ rw (e, e', random_integer_position_excluding) (take_draw-same _ s.entropy s)
        ]
      ]

  put_stays :
      (id j : String) (p : Position) (o a : Opportunity) (l : Dict Opportunity)
      → lookup id l ≡ some o
      → o.status ≡ unplaced
      → lookup j l ≡ some a
      → (b : Opportunity) × (lookup j (adjust id (put_at host p) l) ≡ some b) × SameButPlaced a b
  unfolding put_at
  put_stays id j p o a l e free ea = elim (Bool-cases (str_eq id j)) [
    | inl t ↦
        let same : id ≡ j = (str_eq_iff id j).0 t in
        let here : some o ≡ some a = sym e ∙ ap (λ k. lookup k l) same ∙ ea in
        let one : o ≡ a = cc in
        (
          put_at host p a,
          subst (λ k. lookup j (adjust k (put_at host p) l) ≡ some (put_at host p a)) (sym same)
              (lookup-adjust_self j (put_at host p) l a ea),
          inr (subst (λ (x : Opportunity). x.status ≡ unplaced) one free, (p, refl)),
        )
    | inr f ↦ (
      a,
      lookup-adjust_ne id j (put_at host p) l (λ x. cc ((str_eq_iff id j).1 x)) ∙ ea,
      inl refl,
    )
  ]

  place_found-Placed :
      (id : String) (o : Opportunity) (s : World host) (found : Option Position × World host)
      → lookup id s.opportunities ≡ some o
      → o.status ≡ unplaced
      → found.1 ≡ moved_to s found.1
      → found.1.opportunities ≡ s.opportunities
      → Placed s (place_found host id found)
  unfolding place_found
  place_found-Placed id o s (none, t) e free rest same = Placed-same s t rest same
  place_found-Placed id o s (some p, t) e free rest same =
      let u : World host = record t { opportunities = adjust id (put_at host p) t.opportunities } in
      Placed-trans s t u (Placed-same s t rest same) (record {
        rest = refl;
        opportunities_stay =
            λ j a ea. put_stays id j p o a t.opportunities (ap (lookup id) same ∙ e) free ea;
        none_come = λ j ea. lookup-adjust-none id j (put_at host p) t.opportunities ea;
      })

  place_if_unplaced-Placed :
      (status : OpportunityStatus) (id : String) (o : Opportunity) (s : World host)
      → lookup id s.opportunities ≡ some o
      → o.status ≡ status
      → Placed s (place_if_unplaced host status id o s)
  unfolding place_if_unplaced
  place_if_unplaced-Placed unplaced id o s e free =
      let (rest, same) = random-same s.min_x s.max_x s.min_y s.max_y o.death_position s in
      place_found-Placed id o s _ e free rest same
  place_if_unplaced-Placed _ id o s e free = Placed-refl s

  place_opportunity-Placed : (id : String) (s : World host) → Placed s (place_opportunity host id s)
  unfolding place_opportunity
  place_opportunity-Placed id s = elim (Option-cases (lookup id s.opportunities)) [
    | inl e ↦ rw (e, place_opportunity) (Placed-refl s)
    | inr (o, e) ↦ rw (e, place_opportunity) (place_if_unplaced-Placed o.status id o s e refl)
  ]

  place_each-Placed : (ids : List String) (s : World host) → Placed s (place_each host ids s)
  unfolding place_each
  place_each-Placed [] s = Placed-refl s
  place_each-Placed (id ∷ ids) s =
      Placed-trans s (place_opportunity host id s) _ (place_opportunity-Placed id s)
        (place_each-Placed ids _)

  widen-Placed : (p : Position) (s : World host) → Placed s (widen host p s)
  unfolding widen
  widen-Placed p s = Placed-same s _ refl refl

  bounds-Placed : (p : Position) (s : World host) → Placed s (expand_bounds host p s)
  unfolding expand_bounds place_unplaced_opportunities
  bounds-Placed p s =
      if_cases (Placed s) (outside host p s) _ _
        (Placed-trans s (widen host p s) _ (widen-Placed p s) (place_each-Placed _ _))
        (widen-Placed p s)

  -- After expandBounds the position lies within the bounds, those of before are kept or widened, and
  -- nothing is lost: every opportunity is there, as it was, or with a place if it had none, none has
  -- come, and roles, accounts, sessions, conversations, event logs and all else but the random
  -- source are the same.
  pub expand_bounds-Placed :
      (p : Position) (s : World host)
      → let t = expand_bounds host p s in Contains host t p × Evolves host s t × Placed s t
  expand_bounds-Placed p s =
      let (contains, evolves) = expand_bounds-Contains host p s in
      (contains, evolves, bounds-Placed p s)
