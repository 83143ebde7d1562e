-- ===== src/World/Evolves/Steps.antt =====
-- Every step of internal/biz/core.go that changes the world lets it evolve: placing, binding,
-- settling, death and reincarnation.
use xiuxian.Base.{
  ℕ, refl, inl, inr, ◌||◌, Option, none, some, List, [], ◌∷◌, String, arith, Bool-cases,
  Option-cases, if_cases, ◌&&◌,
}
use xiuxian.Base.Int.{pos, ◌-ℤ◌, ◌+ℤ◌, ◌≤ℤ◌, int_laws, ltb_ℤ, leb_ℤ, eqb_ℤ}
use xiuxian.Base.Dict.{lookup, keys}
use xiuxian.Rules.Units.{Cultivation, Coordinate, Position, Time}
use xiuxian.Rules.Travel.{Trajectory}
use xiuxian.World.Host.{Host}
use xiuxian.World.Model.{World, Role, Opportunity, OpportunityStatus, unplaced}
use xiuxian.World.Place.{
  board_of, draw, take_draw, random_coordinate, random_integer_position_excluding, place_found,
  place_if_unplaced, place_opportunity, place_each, place_unplaced_opportunities, widen, outside,
  expand_bounds,
}
use xiuxian.Base.Text.{str_eq, str_lt}
use xiuxian.Base.Sort.{sort}
use xiuxian.World.Bond.{
  first_at, is_bound, is_unclaimed, update_opportunity, credit, release_bond, credit_gain, consume,
  settle_bound, settle_opportunity, tie, bind_opportunity, claim_opportunity, rebase_trajectory,
  rebased,
}
use xiuxian.World.Evolves.Basics.{
  Older, Evolves, Evolves-refl, Evolves-trans, quiet-Evolves, update_role-Evolves,
  append_event-Evolves, of_role-cases,
}

module _ (host : Host) where
  take_draw-Evolves :
      (span : ℕ) (l : List (Option ℕ)) (s : World host) → Evolves host s (take_draw host span l s).1
  unfolding take_draw
  take_draw-Evolves span [] s = Evolves-refl host s
  take_draw-Evolves span (none ∷ l) s =
      quiet-Evolves host s _ refl refl refl (omega arith) (omega arith) (omega arith) (omega arith)
        (omega arith)
  take_draw-Evolves span (some n ∷ l) s =
      quiet-Evolves host s _ refl refl refl (omega arith) (omega arith) (omega arith) (omega arith)
        (omega arith)

  pub draw-Evolves : (span : ℕ) (s : World host) → Evolves host s (draw host span s).1
  unfolding draw
  draw-Evolves span s = take_draw-Evolves span s.entropy s

  pub random_coordinate-Evolves :
      (a b : Coordinate) (s : World host) → Evolves host s (random_coordinate host a b s).1
  unfolding random_coordinate
  random_coordinate-Evolves a b s = elim (Bool-cases (leb_ℤ (b -ℤ a +ℤ pos 1) (pos 1))) [
    | inl e ↦ rw (e, random_coordinate) (Evolves-refl host s)
    | inr e ↦ rw (e, random_coordinate) (draw-Evolves _ s)
  ]

  pub random_position-Evolves :
      (a b c d : Coordinate) (p : Position) (s : World host)
      → Evolves host s (random_integer_position_excluding host a b c d p s).1
  unfolding random_integer_position_excluding
  random_position-Evolves a b c d p s =
      let n = board_of a b c d p in
      elim (Bool-cases (eqb_ℤ n.count_x (pos 0) || eqb_ℤ n.count_y (pos 0))) [
        | inl e ↦ rw (e, random_integer_position_excluding) (Evolves-refl host s)
        | inr e ↦ elim (Bool-cases (leb_ℤ n.total (pos 0))) [
          | inl e' ↦ rw (e, e', random_integer_position_excluding) (Evolves-refl host s)
          | inr e' ↦ rw (e, e', random_integer_position_excluding) (draw-Evolves _ s)
        ]
      ]

  place_found-Evolves :
      (id : String) (s : World host) (found : Option Position × World host)
      → Evolves host s found.1
      → Evolves host s (place_found host id found)
  unfolding place_found
  place_found-Evolves id s (none, t) h = h
  place_found-Evolves id s (some p, t) h = Evolves-trans host h (
      quiet-Evolves host t _ refl refl refl (omega arith) (omega arith) (omega arith) (omega arith)
        (omega arith))

  place_if_unplaced-Evolves :
      (status : OpportunityStatus) (id : String) (o : Opportunity) (s : World host)
      → Evolves host s (place_if_unplaced host status id o s)
  unfolding place_if_unplaced
  place_if_unplaced-Evolves unplaced id o s =
      place_found-Evolves id s _ (random_position-Evolves _ _ _ _ _ s)
  place_if_unplaced-Evolves _ id o s = Evolves-refl host s

  pub place_opportunity-Evolves :
      (id : String) (s : World host) → Evolves host s (place_opportunity host id s)
  unfolding place_opportunity
  place_opportunity-Evolves id s = elim (Option-cases (lookup id s.opportunities)) [
    | inl e ↦ rw (e, place_opportunity) (Evolves-refl host s)
    | inr (o, e) ↦ rw (e, place_opportunity) (place_if_unplaced-Evolves o.status id o s)
  ]

  place_each-Evolves : (ids : List String) (s : World host) → Evolves host s (place_each host ids s)
  unfolding place_each
  place_each-Evolves [] s = Evolves-refl host s
  place_each-Evolves (id ∷ ids) s =
      Evolves-trans host (place_opportunity-Evolves id s) (place_each-Evolves ids _)

  widen-Evolves : (p : Position) (s : World host) → Evolves host s (widen host p s)
  unfolding widen
  widen-Evolves p s =
      quiet-Evolves host s _ refl refl refl (omega arith) (ground arith) (ground arith)
        (ground arith) (ground arith)

  pub expand_bounds-Evolves :
      (p : Position) (s : World host) → Evolves host s (expand_bounds host p s)
  unfolding expand_bounds place_unplaced_opportunities
  expand_bounds-Evolves p s =
      if_cases (Evolves host s) (outside host p s) _ _
        (Evolves-trans host (widen-Evolves p s) (place_each-Evolves _ _)) (widen-Evolves p s)

  -- The position lies within the bounds of the world.
  pub record Contains (s : World host) (p : Position) : Type 0 where
    pub right_of : s.min_x ≤ℤ p.x
    pub left_of : p.x ≤ℤ s.max_x
    pub above : s.min_y ≤ℤ p.y
    pub below : p.y ≤ℤ s.max_y

  widen-Contains : (p : Position) (s : World host) → Contains (widen host p s) p
  unfolding widen
  widen-Contains p s = record {
    right_of = ground arith;
    left_of = ground arith;
    above = ground arith;
    below = ground arith;
  }

  Contains-Evolves :
      (s t : World host) (p : Position) → Contains s p → Evolves host s t → Contains t p
  Contains-Evolves s t p c e = record {
    right_of = omega arith;
    left_of = omega arith;
    above = omega arith;
    below = omega arith;
  }

  pub expand_bounds-Contains :
      (p : Position) (s : World host)
      → Contains (expand_bounds host p s) p × Evolves host s (expand_bounds host p s)
  unfolding expand_bounds place_unplaced_opportunities
  expand_bounds-Contains p s = (
    Contains-Evolves (widen host p s) _ p (widen-Contains p s) (
        if_cases (Evolves host (widen host p s)) (outside host p s) _ _ (place_each-Evolves _ _)
          (Evolves-refl host _)),
    expand_bounds-Evolves p s,
  )

  pub update_opportunity-Evolves :
      (id : String) (f : Opportunity → Opportunity) (s : World host)
      → Evolves host s (update_opportunity host id f s)
  unfolding update_opportunity
  update_opportunity-Evolves id f s =
      quiet-Evolves host s _ refl refl refl (omega arith) (omega arith) (omega arith) (omega arith)
        (omega arith)

  credit-Older : (c : Cultivation) (x : Role) → Older x (credit host c x)
  unfolding credit
  credit-Older c x = ground arith

  credit_gain-Evolves :
      (k : String) (o : Opportunity) (c : Cultivation) (id : String) (s : World host)
      → Evolves host s (credit_gain host k o c id s)
  unfolding credit_gain
  credit_gain-Evolves k o c id s =
      if_cases (Evolves host s) (ltb_ℤ o.credited c) _ _
        (Evolves-trans host (update_role-Evolves host k _ s (credit-Older _))
          (update_opportunity-Evolves id _ _))
        (Evolves-refl host s)

  release_bond-Older : (x : Role) → Older x (release_bond host x)
  unfolding release_bond
  release_bond-Older x = ground arith

  consume-Evolves :
      (k : String) (o : Opportunity) (c : Cultivation) (id : String) (now : Time) (s : World host)
      → Evolves host s (consume host k o c id now s)
  unfolding consume
  consume-Evolves k o c id now s =
      if_cases (Evolves host s) (eqb_ℤ c o.cultivation) _ _
        (Evolves-trans host (update_opportunity-Evolves id _ s) (
          Evolves-trans host (update_role-Evolves host k _ _ release_bond-Older)
            (append_event-Evolves host k now _ _ _ _)))
        (Evolves-refl host s)

  settle_bound-Evolves :
      (k id : String) (o : Opportunity) (now : Time) (s : World host)
      → Evolves host s (settle_bound host k id o now s)
  unfolding settle_bound
  settle_bound-Evolves k id o now s =
      if_cases (Evolves host s) (is_bound o.status) _ _
        (Evolves-trans host (credit_gain-Evolves k o _ id s) (consume-Evolves k o _ id now _))
        (Evolves-refl host s)

  -- What holds when an entry is missing and what holds when it is there.
  pub entry-Evolves :
      {V : Type 0} (o : Option V) (s t : World host) (f : V → World host)
      → Evolves host s t
      → ((v : V) → Evolves host s (f v))
      → Evolves host s (elim o [ none ↦ t | some v ↦ f v ])
  entry-Evolves none s t f p q = p
  entry-Evolves (some v) s t f p q = q v

  pub settle_opportunity-Evolves :
      (k : String) (now : Time) (s : World host) → Evolves host s (settle_opportunity host k now s)
  unfolding settle_opportunity
  settle_opportunity-Evolves k now s =
      of_role-cases host (Evolves host s) k s s _ (Evolves-refl host s) λ role _.
        entry-Evolves (lookup role.bound_opportunity_id s.opportunities) s s _ (Evolves-refl host s)
          (λ o. settle_bound-Evolves k _ o now s)

  tie-Older : (o : Opportunity) (x : Role) → Older x (tie host o x)
  unfolding tie
  tie-Older o x = record {
    same_id = refl;
    same_account = refl;
    same_name = refl;
    lives_grow = omega arith;
    versions_grow = omega int_laws;
  }

  pub bind_opportunity-Evolves :
      (k id : String) (at : Time) (s : World host)
      → Evolves host s (bind_opportunity host k id at s)
  unfolding bind_opportunity
  bind_opportunity-Evolves k id at s =
      of_role-cases host (Evolves host s) k s s _ (Evolves-refl host s) λ role _.
        entry-Evolves (lookup id s.opportunities) s s _ (Evolves-refl host s) λ o.
          if_cases (Evolves host s) (str_eq role.bound_opportunity_id "" && is_unclaimed o.status) _
            _
            (Evolves-trans host (update_opportunity-Evolves id _ s) (
              Evolves-trans host (update_role-Evolves host k _ _ (tie-Older o)) (
                Evolves-trans host (append_event-Evolves host k at _ _ _ _)
                  (append_event-Evolves host k at _ _ _ _))))
            (Evolves-refl host s)

  pub claim_opportunity-Evolves :
      (k : String) (p : Position) (now : Time) (s : World host)
      → Evolves host s (claim_opportunity host k p now s)
  unfolding claim_opportunity
  claim_opportunity-Evolves k p now s =
      of_role-cases host (Evolves host s) k s s _ (Evolves-refl host s) λ role _.
        if_cases (Evolves host s) (str_eq role.bound_opportunity_id "") _ _
          (entry-Evolves (first_at host p (sort str_lt (keys s.opportunities)) s.opportunities) s s
            _ (Evolves-refl host s) (λ id. bind_opportunity-Evolves k id now s))
          (Evolves-refl host s)

  rebased-Older :
      (p : Position) (now : Time) (c : Cultivation) (t : Trajectory) (x : Role)
      → Older x (rebased host p now c t x)
  unfolding rebased
  rebased-Older p now c t x = ground arith

  pub rebase_trajectory-Evolves :
      (k : String) (p : Position) (now : Time) (c : Cultivation) (s : World host)
      → Evolves host s (rebase_trajectory host k p now c s)
  unfolding rebase_trajectory
  rebase_trajectory-Evolves k p now c s =
      of_role-cases host (Evolves host s) k s s _ (Evolves-refl host s) λ role _.
        entry-Evolves role.trajectory s s _ (Evolves-refl host s)
          λ t. update_role-Evolves host k _ s (rebased-Older p now c t)
