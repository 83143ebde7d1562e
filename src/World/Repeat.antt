-- ===== src/World/Repeat.antt =====
-- A command of internal/biz/core.go that is sent again under its key.
use xiuxian.Base.{Bool, true, false, Option, none, some, String, refl, ap, ◌∙◌, ◌≡◌, subst}
use xiuxian.Base.Int.{ℤ, pos, leb_ℤ}
use xiuxian.Base.Dict.{lookup}
use xiuxian.Base.Text.{is_blank}
use xiuxian.Rules.Units.{Position}
use xiuxian.Rules.Travel.{Direction}
use xiuxian.World.Host.{Host}
use xiuxian.World.Model.{
  World, Role, State, Error, CommandExpectation, idempotency_key, unauthenticated, invalid,
}
use xiuxian.World.Action.{
  Result, ok, err, Action, Call, ◌>>=◌, ◌>>◌, raise_if, or_raise, role_or, replay,
  idempotency_result,
}
use xiuxian.World.Moves.{move, move_direction, stop}
use xiuxian.World.Gifts.{transfer, seize}
use xiuxian.World.Replay.{
  move-Remembering, move_direction-Remembering, stop-Remembering, transfer-Remembering,
  seize-Remembering,
}
use xiuxian.World.Evolves.Basics.{Evolves}
use xiuxian.World.Evolves.Actions.{StoreWorks, Evolving}
use xiuxian.World.Evolves.Commands.{move-Evolving, move_direction-Evolving, stop-Evolving}

module _ (host : Host) (k key : String) where
  abbrev Answer : Type 0
  Answer = State host.float.F

  not_ok : (A : Type 0) (x : Error) (a : A) → ◌≡◌ {A = Result A} (err x) (ok a) → ⊥
  not_ok A x a e = cc

  -- A guarded action that succeeds has passed its guard.
  passed :
      (b : Bool) (m : Action host Answer) (s s' : World host) (st : Answer)
      → (raise_if b idempotency_key >> m) s ≡ (ok st, s')
      → (b ≡ false) × (m s ≡ (ok st, s'))
  unfolding ◌>>=◌ raise_if
  passed true m s s' st e = elim (not_ok Answer idempotency_key st (ap (λ p. p.0) e)) [ ]
  passed false m s s' st e = (refl, e)

  known :
      (o : Option Role) (x : Error) (m : Action host Answer) (s s' : World host) (st : Answer)
      → (elim (or_raise o x s).0 as (λ _. Result Answer × World host) [
        | ok _ ↦ m (or_raise o x s).1
        | err y ↦ (err y, (or_raise o x s).1)
      ])
        ≡ (ok st, s')
      → (r : Role) × (o ≡ some r)
  unfolding or_raise
  known none x m s s' st e = elim (not_ok Answer x st (ap (λ p. p.0) e)) [ ]
  known (some r) x m s s' st e = (r, refl)

  -- A role that a command has found.
  found :
      (x : Error) (m : Action host Answer) (s s' : World host) (st : Answer)
      → (role_or host k x >> m) s ≡ (ok st, s')
      → (r : Role) × (lookup k s.roles ≡ some r)
  unfolding ◌>>=◌ role_or
  found x m s s' st e = known (lookup k s.roles) x m s s' st e

  repeated :
      (m : Action host Answer) (s : World host) (st : Answer)
      → idempotency_result host k key s ≡ some st
      → replay host k key m s ≡ (ok st, s)
  unfolding replay
  repeated m s st e = rw (e, replay) refl

  pass :
      (b : Bool) (x : Error) (m : Action host Answer) (s : World host)
      → b ≡ false
      → (raise_if b x >> m) s ≡ m s
  unfolding ◌>>=◌ raise_if
  pass true x m s e = cc
  pass false x m s e = refl

  find_cases :
      (o : Option Role) (x : Error) (r : Role) (m : Action host Answer) (s : World host)
      → o ≡ some r
      → (elim (or_raise o x s).0 as (λ _. Result Answer × World host) [
        | ok _ ↦ m (or_raise o x s).1
        | err y ↦ (err y, (or_raise o x s).1)
      ])
        ≡ m s
  unfolding or_raise
  find_cases none x r m s e = cc
  find_cases (some _) x r m s e = refl

  find :
      (x : Error) (r : Role) (m : Action host Answer) (s : World host)
      → lookup k s.roles ≡ some r
      → (role_or host k x >> m) s ≡ m s
  unfolding ◌>>=◌ role_or
  find x r m s e = find_cases (lookup k s.roles) x r m s e

  -- Two guarded commands, of which the first has succeeded and was remembered.
  again :
      (x : Error) (m n : Action host Answer) (s s' : World host) (st : Answer)
      → ((t : World host)
          → (raise_if (is_blank key) idempotency_key >> (role_or host k x >> replay host k key n)) t
            ≡ (ok st, s')
          → idempotency_result host k key s' ≡ some st)
      → ((r : Role) → lookup k s.roles ≡ some r → (r' : Role) × (lookup k s'.roles ≡ some r'))
      → (raise_if (is_blank key) idempotency_key >> (role_or host k x >> replay host k key n)) s
        ≡ (ok st, s')
      → (raise_if (is_blank key) idempotency_key >> (role_or host k x >> replay host k key m)) s'
        ≡ (ok st, s')
  again x m n s s' st mem stay e =
      let (sane, e') = passed (is_blank key) _ s s' st e in
      let (r, here) = found x _ s s' st e' in
      let (r', there) = stay r here in
      pass (is_blank key) idempotency_key _ s' sane
      ∙ find x r' _ s' there
      ∙ repeated m s' st (mem s e)

  -- A role is still there after an action that lets the world evolve.
  still :
      (m : Action host Answer) (s s' : World host) (st : Answer)
      → Evolving host m
      → m s ≡ (ok st, s')
      → (r : Role) → lookup k s.roles ≡ some r
      → (r' : Role) × (lookup k s'.roles ≡ some r')
  still m s s' st p e r h =
      let up = subst (Evolves host s) (ap (λ q. q.1) e) (p.evolves s) in
      let (r', h', older) = up.roles_stay k r h in (r', h')

  module _ (first second : Call host.float.F) (works : StoreWorks first.save) where
    -- A Move that has succeeded, with a store that works, is answered with the same state, and
    -- leaves the world as it is, when a Move is sent again under the same key, whatever its
    -- destination and its expectation, and even if the store fails by then.
    pub move-repeated :
        (goal goal' : Position) (e e' : CommandExpectation) (s s' : World host)
        (st : State host.float.F)
        → move host first k key goal e s ≡ (ok st, s')
        → move host second k key goal' e' s' ≡ (ok st, s')
    unfolding move
    move-repeated goal goal' e e' s s' st done =
        again unauthenticated _ _ s s' st
          (λ t. (move-Remembering host k key first works goal e).remembers t s' st)
          (still _ s s' st (move-Evolving host first works k key goal e) done) done

    -- The same holds of MoveDirection, whatever its direction and its speed are by then.
    pub move_direction-repeated :
        (d d' : Direction) (speed speed' : ℤ) (e e' : CommandExpectation) (s s' : World host)
        (st : State host.float.F)
        → move_direction host first k key d speed e s ≡ (ok st, s')
        → move_direction host second k key d' speed' e' s' ≡ (ok st, s')
    unfolding move_direction
    move_direction-repeated d d' speed speed' e e' s s' st done =
        again unauthenticated _ _ s s' st
          (λ t. (move_direction-Remembering host k key first works d speed e).remembers t s' st)
          (still _ s s' st (move_direction-Evolving host first works k key d speed e) done) done

    -- The same holds of Stop.
    pub stop-repeated :
        (e e' : CommandExpectation) (s s' : World host) (st : State host.float.F)
        → stop host first k key e s ≡ (ok st, s')
        → stop host second k key e' s' ≡ (ok st, s')
    unfolding stop
    stop-repeated e e' s s' st done =
        again unauthenticated _ _ s s' st
          (λ t. (stop-Remembering host k key first works e).remembers t s' st)
          (still _ s s' st (stop-Evolving host first works k key e) done) done

    -- A Transfer that has succeeded, with a store that works, moves nothing when it is sent again
    -- under the same key: it is answered with the same state, and leaves the world as it is,
    -- whatever its target, its positive amount and its expectation are by then.
    pub transfer-repeated :
        (j j' : String) (minutes minutes' : ℤ) (e e' : CommandExpectation) (s s' : World host)
        (st : State host.float.F)
        → leb_ℤ minutes' (pos 0) ≡ false
        → transfer host first k j key minutes e s ≡ (ok st, s')
        → transfer host second k j' key minutes' e' s' ≡ (ok st, s')
    unfolding transfer
    transfer-repeated j j' minutes minutes' e e' s s' st positive done =
        let (sane, rest) = passed (is_blank key) _ s s' st done in
        pass (is_blank key) idempotency_key _ s' sane
        ∙ pass (leb_ℤ minutes' (pos 0)) invalid _ s' positive
        ∙ repeated _ s' st
            ((transfer-Remembering host k key first works j minutes e).remembers s s' st done)

    -- The same holds of Seize, whatever its target is by then.
    pub seize-repeated :
        (j j' : String) (e e' : CommandExpectation) (s s' : World host) (st : State host.float.F)
        → seize host first k j key e s ≡ (ok st, s')
        → seize host second k j' key e' s' ≡ (ok st, s')
    unfolding seize
    seize-repeated j j' e e' s s' st done =
        let (sane, rest) = passed (is_blank key) _ s s' st done in
        pass (is_blank key) idempotency_key _ s' sane
        ∙ repeated _ s' st ((seize-Remembering host k key first works j e).remembers s s' st done)
