-- ===== src/World/Evolves/Actions.antt =====
-- Actions that let the world evolve, whether they succeed or fail.
use xiuxian.Base.{inl, inr, Bool, Option, none, some, String, Option-cases, refl, arith, ◌≡◌}
use xiuxian.Base.Dict.{lookup}
use xiuxian.Rules.Units.{Time}
use xiuxian.World.Host.{Host}
use xiuxian.World.Model.{World, State, Error, nil_dereference, CommandExpectation}
use xiuxian.World.Snapshot.{SaveOutcome, disabled, saved, refused, persist}
use xiuxian.World.Settle.{state_of}
use xiuxian.World.Action.{
  Result, ok, err, Action, Call, ◌>>=◌, pure, raise_if, gets, modify, or_raise, role_or, expect,
  now_for, settle, alive_or, replay, save, conclude, remember_idempotency,
  validate_command_expectation, idempotency_result,
}
use xiuxian.World.Evolves.Basics.{Evolves, Evolves-refl, Evolves-trans, quiet-Evolves}
use xiuxian.World.Evolves.Lives.{state_of-Evolves}

-- The store saves, or there is none.
abbrev pub StoreWorks : {F : Type 0} → SaveOutcome F → Type 0
StoreWorks disabled = Unit {0}
StoreWorks saved = Unit {0}
StoreWorks (refused _) = ⊥

module _ (host : Host) where
  -- Whatever an action returns, it lets the world evolve.
  pub record Evolving {A : Type 0} (m : Action host A) : Type 0 where
    pub evolves : (s : World host) → Evolves host s (m s).1

  abbrev ran : {A B : Type 0} → Result A × World host → (A → Action host B) → Result B × World host
  ran (ok a, s) f = f a s
  ran (err e, s) f = (err e, s)

  bound :
      {A B : Type 0} (s : World host) (r : Result A × World host) (f : A → Action host B)
      → Evolves host s r.1
      → ((a : A) → Evolving (f a))
      → Evolves host s
          (elim r.0 as (λ _. Result B × World host) [ ok a ↦ f a r.1 | err e ↦ (err e, r.1) ]).1
  bound s (ok a, t) f p q = Evolves-trans host p ((q a).evolves t)
  bound s (err e, t) f p q = p

  pub bind-Evolving :
      {A B : Type 0} {m : Action host A} {f : A → Action host B}
      → Evolving m
      → ((a : A) → Evolving (f a))
      → Evolving (m >>= f)
  unfolding ◌>>=◌
  bind-Evolving {A} {B} {m} {f} p q = record { evolves = λ s. bound s (m s) f (p.evolves s) q }

  pub pure-Evolving : {A : Type 0} (a : A) → Evolving (pure a)
  unfolding pure
  pure-Evolving a = record { evolves = λ s. Evolves-refl host s }

  pub raise_if-Evolving : (b : Bool) (e : Error) → Evolving (raise_if b e)
  unfolding raise_if
  raise_if-Evolving b e = record { evolves = λ s. Evolves-refl host s }

  pub gets-Evolving : {A : Type 0} (f : World host → A) → Evolving (gets f)
  unfolding gets
  gets-Evolving f = record { evolves = λ s. Evolves-refl host s }

  pub modify-Evolving :
      (f : World host → World host)
      → ((s : World host) → Evolves host s (f s))
      → Evolving (modify f)
  unfolding modify
  modify-Evolving f p = record { evolves = p }

  pub or_raise-Evolving : {A : Type 0} (o : Option A) (e : Error) → Evolving (or_raise o e)
  unfolding or_raise
  or_raise-Evolving none e = record { evolves = λ s. Evolves-refl host s }
  or_raise-Evolving (some a) e = record { evolves = λ s. Evolves-refl host s }

  pub role_or-Evolving : (k : String) (e : Error) → Evolving (role_or host k e)
  unfolding role_or
  role_or-Evolving k e = record {
    evolves = λ s. (or_raise-Evolving (lookup k s.roles) e).evolves s;
  }

  pub expect-Evolving : (k : String) (e : CommandExpectation) → Evolving (expect host k e)
  unfolding expect
  expect-Evolving k e = record {
    evolves = λ s. elim (Option-cases (validate_command_expectation (lookup k s.roles) e)) [
      | inl h ↦ rw (h, expect) (Evolves-refl host s)
      | inr (x, h) ↦ rw (h, expect) (Evolves-refl host s)
    ];
  }

  pub now_for-Evolving : (call : Call host.float.F) (k : String) → Evolving (now_for host call k)
  unfolding now_for
  now_for-Evolving call k = record { evolves = λ s. Evolves-refl host s }

  settled-Evolves :
      (s : World host) (r : Option (State host.float.F) × World host)
      → Evolves host s r.1
      → Evolves host s
          (elim r.0 as (λ _. Result (State host.float.F) × World host) [
            | none ↦ (err nil_dereference, r.1)
            | some st ↦ (ok st, r.1)
          ]).1
  settled-Evolves s (none, t) p = p
  settled-Evolves s (some st, t) p = p

  pub settle-Evolving : (k : String) (now : Time) → Evolving (settle host k now)
  unfolding settle
  settle-Evolving k now = record {
    evolves = λ s. settled-Evolves s (state_of host k now s) (state_of-Evolves host k now s);
  }

  pub alive_or-Evolving : (k : String) (e : Error) → Evolving (alive_or host k e)
  unfolding alive_or
  alive_or-Evolving k e = record {
    evolves = λ s. elim (Option-cases (lookup k s.roles)) [
      | inl h ↦ rw (h, alive_or) (Evolves-refl host s)
      | inr (x, h) ↦ rw (h, alive_or) (Evolves-refl host s)
    ];
  }

  replayed-Evolves :
      (s : World host) (o : Option (State host.float.F)) (m : Action host (State host.float.F))
      → Evolving m
      → Evolves host s
          (elim o as (λ _. Result (State host.float.F) × World host) [
            | some previous ↦ (ok previous, s)
            | none ↦ m s
          ]).1
  replayed-Evolves s (some st) m p = Evolves-refl host s
  replayed-Evolves s none m p = p.evolves s

  pub replay-Evolving :
      (k key : String) (m : Action host (State host.float.F))
      → Evolving m
      → Evolving (replay host k key m)
  unfolding replay
  replay-Evolving k key m p = record {
    evolves = λ s. replayed-Evolves s (idempotency_result host k key s) m p;
  }

  persist-same :
      (o : SaveOutcome host.float.F) (s : World host) → StoreWorks o → (persist host o s).1 ≡ s
  unfolding persist
  persist-same disabled s w = refl
  persist-same saved s w = refl
  persist-same (refused _) s w = elim w [ ]

  pub save-Evolving : (call : Call host.float.F) → StoreWorks call.save → Evolving (save host call)
  unfolding save
  save-Evolving call w = record {
    evolves = λ s. rw (persist-same call.save s w) (Evolves-refl host s);
  }

  pub remember-Evolves :
      (k key : String) (st : State host.float.F) (s : World host)
      → Evolves host s (remember_idempotency host k key st s)
  unfolding remember_idempotency
  remember-Evolves k key st s =
      quiet-Evolves host s _ refl refl refl (omega arith) (omega arith) (omega arith) (omega arith)
        (omega arith)

  pub conclude-Evolving :
      (call : Call host.float.F) (k key : String) (now : Time)
      → StoreWorks call.save
      → Evolving (conclude host call k key now)
  unfolding conclude
  conclude-Evolving call k key now w = bind-Evolving (settle-Evolving k now) λ st.
      bind-Evolving (modify-Evolving _ (remember-Evolves k key st))
        λ _. bind-Evolving (save-Evolving call w) λ _. pure-Evolving st
