-- ===== src/World/Replay.antt =====
-- The idempotency of the commands of internal/biz/core.go.
use xiuxian.Base.{true, Option, none, some, String, refl, ap, sym, ◌∙◌, ◌≡◌, subst}
use xiuxian.Base.Int.{ℤ}
use xiuxian.Base.Dict.{insert, lookup-insert, str_eq_refl}
use xiuxian.Rules.Units.{Position, Time}
use xiuxian.Rules.Travel.{Direction}
use xiuxian.World.Host.{Host}
use xiuxian.World.Model.{World, State, CommandExpectation}
use xiuxian.World.Snapshot.{SaveOutcome, disabled, saved, refused, persist}
use xiuxian.World.Action.{
  Result, ok, err, Action, Call, ◌>>=◌, ◌>>◌, pure, modify, replay, conclude, save, results_of,
  idempotency_result, remember_idempotency,
}
use xiuxian.World.Moves.{
  move_command, move, move_direction_command, move_direction, stop_command, stop,
}
use xiuxian.World.Gifts.{give, transfer_command, transfer, rob, seize_command, seize}
use xiuxian.World.Evolves.Actions.{StoreWorks}

module _ (host : Host) (k key : String) where
  abbrev Answer : Type 0
  Answer = State host.float.F

  -- Whenever an action succeeds, its answer is remembered.
  pub record Remembering (m : Action host Answer) : Type 0 where
    pub remembers :
        (s s' : World host) (st : Answer)
        → m s ≡ (ok st, s')
        → idempotency_result host k key s' ≡ some st

  after_first :
      {A : Type 0} (r : Result A × World host) (f : A → Action host Answer) (s' : World host)
      (st : Answer)
      → ((a : A) → Remembering (f a))
      → (elim r.0 as (λ _. Result Answer × World host) [ ok a ↦ f a r.1 | err e ↦ (err e, r.1) ])
        ≡ (ok st, s')
      → idempotency_result host k key s' ≡ some st
  after_first (ok a, t) f s' st q e = (q a).remembers t s' st e
  after_first (err x, t) f s' st q e = cc (ap (λ p. p.0) e)

  bind-Remembering :
      {A : Type 0} (m : Action host A) {f : A → Action host Answer}
      → ((a : A) → Remembering (f a))
      → Remembering (m >>= f)
  unfolding ◌>>=◌
  bind-Remembering {A} m {f} q = record { remembers = λ s s' st e. after_first (m s) f s' st q e }

  results-remember :
      (st : Answer) (s : World host)
      → results_of host k (remember_idempotency host k key st s)
        ≡ insert key st (results_of host k s)
  unfolding remember_idempotency results_of
  results-remember st s =
      rw
        (
          lookup-insert k k (insert key st (results_of host k s)) s.idempotency,
          str_eq_refl k,
          results_of,
        )
        refl

  remembered :
      (st : Answer) (s : World host)
      → idempotency_result host k key (remember_idempotency host k key st s) ≡ some st
  unfolding idempotency_result
  remembered st s =
      rw (results-remember st s, lookup-insert key key st (results_of host k s), str_eq_refl key)
        refl

  module _ (call : Call host.float.F) (works : StoreWorks call.save) where
    stored :
        (o : SaveOutcome host.float.F) (s : World host)
        → StoreWorks o
        → persist host o s ≡ (true, s)
    unfolding persist
    stored disabled s w = refl
    stored saved s w = refl
    stored (refused _) s w = elim w [ ]

    save_works : (s : World host) → save host call s ≡ (ok tt, s)
    unfolding save
    save_works s = rw (stored call.save s works, save)

    finish_lem :
        (st : Answer) (s : World host)
        → (modify (remember_idempotency host k key st) >> (save host call >> pure st)) s
          ≡ (ok st, remember_idempotency host k key st s)
    unfolding ◌>>=◌ modify pure
    finish_lem st s =
        rw (save_works (remember_idempotency host k key st s), ◌>>=◌)
          (ap (λ p. (ok st, p.1)) (save_works (remember_idempotency host k key st s)))

    answer_of : (a b : Answer) → Result.ok a ≡ Result.ok b → a ≡ b
    answer_of a b e = cc

    finish-Remembering :
        (st : Answer)
        → Remembering (modify (remember_idempotency host k key st) >> (save host call >> pure st))
    finish-Remembering st = record {
      remembers = λ s s' st' e.
          let e' = sym (finish_lem st s) ∙ e in
          subst (λ a. idempotency_result host k key s' ≡ some a) (answer_of _ _ (ap (λ p. p.0) e'))
            (subst (λ t. idempotency_result host k key t ≡ some st) (ap (λ p. p.1) e')
              (remembered st s));
    }

    conclude-Remembering : (now : Time) → Remembering (conclude host call k key now)
    unfolding conclude
    conclude-Remembering now = bind-Remembering _ finish-Remembering

    replay_cases :
        (o : Option Answer) (m : Action host Answer) (s s' : World host) (st : Answer)
        → Remembering m
        → idempotency_result host k key s ≡ o
        → (elim o as (λ _. Result Answer × World host) [
          | some previous ↦ (ok previous, s)
          | none ↦ m s
        ])
          ≡ (ok st, s')
        → idempotency_result host k key s' ≡ some st
    replay_cases none m s s' st p h e = p.remembers s s' st e
    replay_cases (some previous) m s s' st p h e =
        subst (λ t. idempotency_result host k key t ≡ some st) (ap (λ q. q.1) e)
          (h ∙ ap some (answer_of _ _ (ap (λ q. q.0) e)))

    replay-Remembering :
        (m : Action host Answer) → Remembering m → Remembering (replay host k key m)
    unfolding replay
    replay-Remembering m p = record {
      remembers = λ s s' st e. replay_cases (idempotency_result host k key s) m s s' st p refl e;
    }

    pub move-Remembering :
        (goal : Position) (e : CommandExpectation) → Remembering (move host call k key goal e)
    unfolding move move_command
    move-Remembering goal e = bind-Remembering _ λ _. bind-Remembering _ λ _. replay-Remembering _ (
        bind-Remembering _ λ _. bind-Remembering _ λ now. bind-Remembering _ λ _.
          bind-Remembering _
            λ _. bind-Remembering _ λ _. bind-Remembering _ λ _. conclude-Remembering now)

    pub move_direction-Remembering :
        (d : Direction) (desired : ℤ) (e : CommandExpectation)
        → Remembering (move_direction host call k key d desired e)
    unfolding move_direction move_direction_command
    move_direction-Remembering d desired e = bind-Remembering _ λ _. bind-Remembering _ λ _.
        replay-Remembering _ (
          bind-Remembering _ λ _. bind-Remembering _ λ _. bind-Remembering _ λ now.
            bind-Remembering _ λ _. bind-Remembering _ λ _.
              bind-Remembering _
                λ _. bind-Remembering _ λ _. bind-Remembering _ λ _. conclude-Remembering now)

    pub stop-Remembering : (e : CommandExpectation) → Remembering (stop host call k key e)
    unfolding stop stop_command
    stop-Remembering e = bind-Remembering _ λ _. bind-Remembering _ λ _. replay-Remembering _ (
        bind-Remembering _ λ _. bind-Remembering _ λ now. bind-Remembering _ λ _.
          bind-Remembering _
            λ _. bind-Remembering _ λ _. bind-Remembering _ λ _. conclude-Remembering now)

    pub transfer-Remembering :
        (j : String) (minutes : ℤ) (e : CommandExpectation)
        → Remembering (transfer host call k j key minutes e)
    unfolding transfer transfer_command give
    transfer-Remembering j minutes e = bind-Remembering _ λ _. bind-Remembering _ λ _.
        replay-Remembering _ (
          bind-Remembering _ λ _. bind-Remembering _ λ _. bind-Remembering _ λ _.
            bind-Remembering _ λ _. bind-Remembering _ λ now. bind-Remembering _ λ _.
              bind-Remembering _ λ _. bind-Remembering _ λ _. bind-Remembering _ λ _.
                bind-Remembering _ λ _. bind-Remembering _ λ _. bind-Remembering _ λ _.
                  bind-Remembering _ λ _. bind-Remembering _ λ _.
                    bind-Remembering _
                      λ _. bind-Remembering _ λ _. bind-Remembering _ λ _. conclude-Remembering now)

    pub seize-Remembering :
        (j : String) (e : CommandExpectation) → Remembering (seize host call k j key e)
    unfolding seize seize_command rob
    seize-Remembering j e = bind-Remembering _ λ _. replay-Remembering _ (
        bind-Remembering _ λ _. bind-Remembering _ λ _. bind-Remembering _ λ _.
          bind-Remembering _ λ _. bind-Remembering _ λ now. bind-Remembering _ λ _.
            bind-Remembering _ λ _. bind-Remembering _ λ _. bind-Remembering _ λ _.
              bind-Remembering _ λ _. bind-Remembering _ λ _. bind-Remembering _ λ _.
                bind-Remembering _ λ _.
                  bind-Remembering _
                    λ _. bind-Remembering _ λ _. bind-Remembering _ λ _. conclude-Remembering now)
