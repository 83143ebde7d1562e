-- ===== src/World/Evolves/Commands.antt =====
-- Move, MoveDirection, Stop, Transfer and Seize of internal/biz/core.go let the world evolve.
use xiuxian.Base.{String, if_cases, arith, refl}
use xiuxian.Base.Int.{ℤ, pos, int_laws}
use xiuxian.Rules.Units.{Cultivation, Position, Time}
use xiuxian.Rules.Travel.{Trajectory, Direction}
use xiuxian.World.Host.{Host}
use xiuxian.World.Model.{World, Role, State, CommandExpectation}
use xiuxian.World.Action.{Call}
use xiuxian.World.Settle.{bump}
use xiuxian.World.Moves.{
  set_out, halt, move_command, move, move_direction_command, move_direction, stop_command, stop,
}
use xiuxian.World.Gifts.{
  set_base, set_next_death, hand_over, hand_amount, tell_transfer, die_of_transfer, give,
  transfer_command, transfer, take_all, rob, seize_command, seize,
}
use xiuxian.World.Evolves.Basics.{
  Older, Evolves, Evolves-refl, Evolves-trans, update_role-Evolves, append_event-Evolves,
  of_role-cases,
}
use xiuxian.World.Evolves.Steps.{
  expand_bounds-Evolves, settle_opportunity-Evolves, rebase_trajectory-Evolves,
}
use xiuxian.World.Evolves.Lives.{kill-Evolves, bump-Older}
use xiuxian.World.Evolves.Actions.{
  StoreWorks, Evolving, bind-Evolving, raise_if-Evolving, gets-Evolving, modify-Evolving,
  role_or-Evolving, expect-Evolving, now_for-Evolving, settle-Evolving, alive_or-Evolving,
  replay-Evolving, conclude-Evolving,
}

set_out-Older :
    (p : Position) (t : Trajectory) (c : Cultivation) (x : Role) → Older x (set_out p t c x)
unfolding set_out
set_out-Older p t c x = record {
  same_id = refl;
  same_account = refl;
  same_name = refl;
  lives_grow = omega arith;
  versions_grow = omega int_laws;
}

halt-Older : (p : Position) (x : Role) → Older x (halt p x)
unfolding halt
halt-Older p x = record {
  same_id = refl;
  same_account = refl;
  same_name = refl;
  lives_grow = omega arith;
  versions_grow = omega int_laws;
}

set_base-Older : (c : Cultivation) (now : Time) (x : Role) → Older x (set_base c now x)
unfolding set_base
set_base-Older c now x = ground arith

set_next_death-Older : (t : Time) (x : Role) → Older x (set_next_death t x)
unfolding set_next_death
set_next_death-Older t x = ground arith

module _ (host : Host) (call : Call host.float.F) (works : StoreWorks call.save) where
  move_command-Evolving :
      (k key : String) (goal : Position) (e : CommandExpectation)
      → Evolving host (move_command host call k key goal e)
  unfolding move_command
  move_command-Evolving k key goal e = bind-Evolving host (expect-Evolving host k e) λ _.
      bind-Evolving host (now_for-Evolving host call k) λ now.
        bind-Evolving host (settle-Evolving host k now) λ current.
          bind-Evolving host (alive_or-Evolving host k _) λ _.
            bind-Evolving host (gets-Evolving host _) λ c.
              bind-Evolving host
                (modify-Evolving host _ (λ s. update_role-Evolves host k _ s (set_out-Older _ _ c)))
                λ _. conclude-Evolving host call k key now works

  pub move-Evolving :
      (k key : String) (goal : Position) (e : CommandExpectation)
      → Evolving host (move host call k key goal e)
  unfolding move
  move-Evolving k key goal e = bind-Evolving host (raise_if-Evolving host _ _) λ _.
      bind-Evolving host (role_or-Evolving host k _)
        λ _. replay-Evolving host k key _ (move_command-Evolving k key goal e)

  move_direction_command-Evolving :
      (k key : String) (d : Direction) (desired : ℤ) (e : CommandExpectation)
      → Evolving host (move_direction_command host call k key d desired e)
  unfolding move_direction_command
  move_direction_command-Evolving k key d desired e =
      bind-Evolving host (raise_if-Evolving host _ _) λ _.
        bind-Evolving host (expect-Evolving host k e) λ _.
          bind-Evolving host (now_for-Evolving host call k) λ now.
            bind-Evolving host (settle-Evolving host k now) λ current.
              bind-Evolving host (alive_or-Evolving host k _) λ _.
                bind-Evolving host (gets-Evolving host _) λ c.
                  bind-Evolving host (raise_if-Evolving host _ _) λ _.
                    bind-Evolving host
                      (modify-Evolving host _
                        (λ s. update_role-Evolves host k _ s (set_out-Older _ _ c)))
                      λ _. conclude-Evolving host call k key now works

  pub move_direction-Evolving :
      (k key : String) (d : Direction) (desired : ℤ) (e : CommandExpectation)
      → Evolving host (move_direction host call k key d desired e)
  unfolding move_direction
  move_direction-Evolving k key d desired e = bind-Evolving host (raise_if-Evolving host _ _) λ _.
      bind-Evolving host (role_or-Evolving host k _)
        λ _. replay-Evolving host k key _ (move_direction_command-Evolving k key d desired e)

  stop_command-Evolving :
      (k key : String) (e : CommandExpectation) → Evolving host (stop_command host call k key e)
  unfolding stop_command
  stop_command-Evolving k key e = bind-Evolving host (expect-Evolving host k e) λ _.
      bind-Evolving host (now_for-Evolving host call k) λ now.
        bind-Evolving host (settle-Evolving host k now) λ current.
          bind-Evolving host (alive_or-Evolving host k _) λ _.
            bind-Evolving host
              (modify-Evolving host _ (λ s. update_role-Evolves host k _ s (halt-Older _)))
              λ _.
                bind-Evolving host (modify-Evolving host _ (expand_bounds-Evolves host _))
                  λ _. conclude-Evolving host call k key now works

  pub stop-Evolving :
      (k key : String) (e : CommandExpectation) → Evolving host (stop host call k key e)
  unfolding stop
  stop-Evolving k key e = bind-Evolving host (raise_if-Evolving host _ _) λ _.
      bind-Evolving host (role_or-Evolving host k _)
        λ _. replay-Evolving host k key _ (stop_command-Evolving k key e)

  hand_over-Evolves :
      (k j : String) (now : Time) (given received : Cultivation) (a b : State host.float.F)
      (s : World host)
      → Evolves host s (hand_over host k j now given received a b s)
  unfolding hand_over
  hand_over-Evolves k j now given received a b s =
      Evolves-trans host (update_role-Evolves host k _ s (set_base-Older given now)) (
        Evolves-trans host (update_role-Evolves host j _ _ (set_base-Older received now)) (
          Evolves-trans host (rebase_trajectory-Evolves host k _ now given _) (
            Evolves-trans host (rebase_trajectory-Evolves host j _ now received _) (
              Evolves-trans host (update_role-Evolves host k _ _ (set_next_death-Older _)) (
                Evolves-trans host (update_role-Evolves host j _ _ (set_next_death-Older _)) (
                  Evolves-trans host (update_role-Evolves host k bump _ (bump-Older host))
                    (update_role-Evolves host j bump _ (bump-Older host))))))))

  tell_transfer-Evolves :
      (k j : String) (now : Time) (minutes : ℤ) (s : World host)
      → Evolves host s (tell_transfer host k j now minutes s)
  unfolding tell_transfer
  tell_transfer-Evolves k j now minutes s =
      Evolves-trans host (append_event-Evolves host k now _ _ _ s)
        (append_event-Evolves host j now _ _ _ _)

  hand_amount-Evolves :
      (k j : String) (now : Time) (amount : Cultivation) (a b : State host.float.F) (s : World host)
      → Evolves host s (hand_amount host k j now amount a b s)
  unfolding hand_amount
  hand_amount-Evolves k j now amount a b s = hand_over-Evolves k j now _ _ a b s

  die_of_transfer-Evolves :
      (k : String) (now : Time) (s : World host) → Evolves host s (die_of_transfer host k now s)
  unfolding die_of_transfer
  die_of_transfer-Evolves k now s =
      of_role-cases host (Evolves host s) k s s _ (Evolves-refl host s)
        λ role _. kill-Evolves host k now _ _ _ _ s

  give-Evolving :
      (k j key : String) (minutes : ℤ) (now : Time) (a b : State host.float.F)
      → Evolving host (give host call k j key minutes now a b)
  unfolding give
  give-Evolving k j key minutes now a b =
      bind-Evolving host (modify-Evolving host _ (settle_opportunity-Evolves host k now)) λ _.
        bind-Evolving host (modify-Evolving host _ (settle_opportunity-Evolves host j now)) λ _.
          bind-Evolving host (gets-Evolving host _) λ from.
            bind-Evolving host (raise_if-Evolving host _ _) λ _.
              bind-Evolving host (modify-Evolving host _ (hand_amount-Evolves k j now _ a b)) λ _.
                bind-Evolving host (modify-Evolving host _ (tell_transfer-Evolves k j now minutes))
                  λ _.
                    bind-Evolving host
                      (modify-Evolving host _ λ s.
                        if_cases (Evolves host s) _ _ _ (die_of_transfer-Evolves k now s)
                          (Evolves-refl host s))
                      λ _. conclude-Evolving host call k key now works

  transfer_command-Evolving :
      (k j key : String) (minutes : ℤ) (e : CommandExpectation)
      → Evolving host (transfer_command host call k j key minutes e)
  unfolding transfer_command
  transfer_command-Evolving k j key minutes e = bind-Evolving host (role_or-Evolving host k _) λ _.
      bind-Evolving host (expect-Evolving host k e) λ _.
        bind-Evolving host (role_or-Evolving host j _) λ _.
          bind-Evolving host (raise_if-Evolving host _ _) λ _.
            bind-Evolving host (now_for-Evolving host call k) λ now.
              bind-Evolving host (settle-Evolving host k now) λ a.
                bind-Evolving host (settle-Evolving host j now) λ b.
                  bind-Evolving host (alive_or-Evolving host k _) λ _.
                    bind-Evolving host (alive_or-Evolving host j _) λ _.
                      bind-Evolving host (raise_if-Evolving host _ _)
                        λ _. give-Evolving k j key minutes now a b

  pub transfer-Evolving :
      (k j key : String) (minutes : ℤ) (e : CommandExpectation)
      → Evolving host (transfer host call k j key minutes e)
  unfolding transfer
  transfer-Evolving k j key minutes e = bind-Evolving host (raise_if-Evolving host _ _) λ _.
      bind-Evolving host (raise_if-Evolving host _ _)
        λ _. replay-Evolving host k key _ (transfer_command-Evolving k j key minutes e)

  take_all-Evolves :
      (k j : String) (now : Time) (taken total : Cultivation) (a b : State host.float.F)
      (s : World host)
      → Evolves host s (take_all host k j now taken total a b s)
  unfolding take_all
  take_all-Evolves k j now taken total a b s =
      Evolves-trans host (update_role-Evolves host k _ s (set_base-Older total now)) (
        Evolves-trans host (rebase_trajectory-Evolves host k _ now total _) (
          Evolves-trans host (update_role-Evolves host k bump _ (bump-Older host)) (
            Evolves-trans host (update_role-Evolves host j _ _ (set_base-Older (pos 0) now)) (
              Evolves-trans host (kill-Evolves host j now _ _ _ _ _)
                (append_event-Evolves host k now _ _ _ _)))))

  rob-Evolving :
      (k j key : String) (now : Time) (a b : State host.float.F)
      → Evolving host (rob host call k j key now a b)
  unfolding rob
  rob-Evolving k j key now a b =
      bind-Evolving host (modify-Evolving host _ (settle_opportunity-Evolves host k now)) λ _.
        bind-Evolving host (modify-Evolving host _ (settle_opportunity-Evolves host j now)) λ _.
          bind-Evolving host (gets-Evolving host _) λ taken.
            bind-Evolving host (raise_if-Evolving host _ _) λ _.
              bind-Evolving host (gets-Evolving host _) λ own.
                bind-Evolving host (modify-Evolving host _ (take_all-Evolves k j now taken _ a b))
                  λ _. conclude-Evolving host call k key now works

  seize_command-Evolving :
      (k j key : String) (e : CommandExpectation)
      → Evolving host (seize_command host call k j key e)
  unfolding seize_command
  seize_command-Evolving k j key e = bind-Evolving host (role_or-Evolving host k _) λ _.
      bind-Evolving host (expect-Evolving host k e) λ _.
        bind-Evolving host (role_or-Evolving host j _) λ _.
          bind-Evolving host (raise_if-Evolving host _ _) λ _.
            bind-Evolving host (now_for-Evolving host call k) λ now.
              bind-Evolving host (settle-Evolving host k now) λ a.
                bind-Evolving host (settle-Evolving host j now) λ b.
                  bind-Evolving host (alive_or-Evolving host k _) λ _.
                    bind-Evolving host (alive_or-Evolving host j _) λ _.
                      bind-Evolving host (raise_if-Evolving host _ _)
                        λ _. rob-Evolving k j key now a b

  pub seize-Evolving :
      (k j key : String) (e : CommandExpectation) → Evolving host (seize host call k j key e)
  unfolding seize
  seize-Evolving k j key e =
      bind-Evolving host (raise_if-Evolving host _ _)
        λ _. replay-Evolving host k key _ (seize_command-Evolving k j key e)
