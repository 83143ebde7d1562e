-- ===== src/World/Evolves/Lives.antt =====
-- Death, reincarnation, crossings and the settlement of a role let the world evolve.
use xiuxian.Base.{
  ℕ, zero, suc, refl, Bool, true, false, ◌&&◌, ◌||◌, not, Option, none, some, List, [], ◌∷◌, String,
  arith, if_cases,
}
use xiuxian.Base.Int.{pos, ◌-ℤ◌, int_laws, ltb_ℤ}
use xiuxian.Base.Dict.{lookup}
use xiuxian.Base.Text.{str_eq}
use xiuxian.Rules.Units.{origin, Cultivation, Position, Time, Duration}
use xiuxian.Rules.Life.{derive_life}
use xiuxian.Rules.Travel.{Trajectory}
use xiuxian.World.Host.{Host}
use xiuxian.World.Model.{
  World, Role, RoleStatus, alive, pending_reincarnation, MovementState, State, idle,
}
use xiuxian.World.Log.{update_role}
use xiuxian.World.Bond.{is_alive, is_unclaimed, cultivation_of}
use xiuxian.World.Fate.{
  reborn, dying, reincarnate_pending, reincarnate, is_over, close_one, close_each,
  close_conversations_for_death, discard_bound, leave_legacy, kill_living, kill,
}
use xiuxian.World.Crossing.{
  OpportunityCrossing, bind_crossing, bind_crossings, settle_world_crossings,
}
use xiuxian.World.Settle.{
  Locals, arrive, bump, postpone, touch, follow_path, follow, face_death, death_loop, death_due,
  prosper, prosper_if_alive, outgrown, settle_steps, state_of, describe_role, travelled,
}
use xiuxian.World.Evolves.Basics.{
  Older, Evolves, Evolves-refl, Evolves-trans, quiet-Evolves, update_role-Evolves,
  append_event-Evolves, of_role-cases,
}
use xiuxian.World.Evolves.Steps.{
  entry-Evolves, random_coordinate-Evolves, place_opportunity-Evolves, expand_bounds-Evolves,
  update_opportunity-Evolves, settle_opportunity-Evolves, bind_opportunity-Evolves,
  claim_opportunity-Evolves, rebase_trajectory-Evolves,
}

module _ (host : Host) where
  -- What holds for a role that is alive and for one that awaits its reincarnation.
  pub status-Evolves :
      (status : RoleStatus) (s t u : World host)
      → Evolves host s t
      → Evolves host s u
      → Evolves host s (elim status [ alive ↦ t | pending_reincarnation ↦ u ])
  status-Evolves alive s t u p q = p
  status-Evolves pending_reincarnation s t u p q = q

  reborn-Older : (at : Time) (p : Position) (x : Role) → Older x (reborn at p x)
  unfolding reborn
  reborn-Older at p x = record {
    same_id = refl;
    same_account = refl;
    same_name = refl;
    lives_grow = omega int_laws;
    versions_grow = omega int_laws;
  }

  reincarnate_pending-Evolves :
      (k : String) (at : Time) (s : World host) → Evolves host s (reincarnate_pending host k at s)
  unfolding reincarnate_pending
  reincarnate_pending-Evolves k at s =
      Evolves-trans host (random_coordinate-Evolves host s.min_x s.max_x s) (
        Evolves-trans host (random_coordinate-Evolves host s.min_y s.max_y _) (
          Evolves-trans host (update_role-Evolves host k _ _ (reborn-Older at _))
            (append_event-Evolves host k at _ _ _ _)))

  pub reincarnate-Evolves :
      (k : String) (at : Time) (s : World host) → Evolves host s (reincarnate host k at s)
  unfolding reincarnate
  reincarnate-Evolves k at s =
      of_role-cases host (Evolves host s) k s s _ (Evolves-refl host s) λ role _.
        status-Evolves role.status s _ _ (Evolves-refl host s) (reincarnate_pending-Evolves k at s)

  close_one-Evolves :
      (id : String) (at : Time) (cid : String) (s : World host)
      → Evolves host s (close_one host id at cid s)
  unfolding close_one
  close_one-Evolves id at cid s =
      entry-Evolves host (lookup cid s.conversations) s s _ (Evolves-refl host s) λ c.
        if_cases (Evolves host s) (is_over c.status) _ _ (Evolves-refl host s) (
          if_cases (Evolves host s)
            (not (str_eq c.requester_id id) && not (str_eq c.recipient_id id)) _ _
            (Evolves-refl host s)
            (Evolves-trans host
              (quiet-Evolves host s _ refl refl refl (omega arith) (omega arith) (omega arith)
                (omega arith) (omega arith))
              (append_event-Evolves host _ at _ _ _ _)))

  close_each-Evolves :
      (id : String) (at : Time) (cids : List String) (s : World host)
      → Evolves host s (close_each host id at cids s)
  unfolding close_each
  close_each-Evolves id at [] s = Evolves-refl host s
  close_each-Evolves id at (cid ∷ cids) s =
      Evolves-trans host (close_one-Evolves id at cid s) (close_each-Evolves id at cids _)

  discard_bound-Evolves : (k : String) (s : World host) → Evolves host s (discard_bound host k s)
  unfolding discard_bound
  discard_bound-Evolves k s =
      of_role-cases host (Evolves host s) k s s _ (Evolves-refl host s) λ role _.
        entry-Evolves host (lookup role.bound_opportunity_id s.opportunities) s s _
          (Evolves-refl host s)
          λ o.
            Evolves-trans host (update_opportunity-Evolves host _ _ s)
              (update_role-Evolves host k _ _ (λ x. ground arith))

  leave_legacy-Evolves :
      (p : Position) (c : Cultivation) (at : Time) (s : World host)
      → Evolves host s (leave_legacy host p c at s)
  unfolding leave_legacy
  leave_legacy-Evolves p c at s =
      Evolves-trans host
        (quiet-Evolves host s _ refl refl refl (omega arith) (omega arith) (omega arith)
          (omega arith) (omega arith))
        (place_opportunity-Evolves host _ _)

  dying-Older : (at : Time) (p : Position) (x : Role) → Older x (dying at p x)
  unfolding dying
  dying-Older at p x = record {
    same_id = refl;
    same_account = refl;
    same_name = refl;
    lives_grow = omega arith;
    versions_grow = omega int_laws;
  }

  kill_living-Evolves :
      (k : String) (role : Role) (at : Time) (c : Cultivation) (p : Position) (cause : String)
      (create : Bool) (s : World host)
      → Evolves host s (kill_living host k role at c p cause create s)
  unfolding kill_living close_conversations_for_death
  kill_living-Evolves k role at c p cause create s =
      Evolves-trans host (update_role-Evolves host k _ s (dying-Older at p)) (
        Evolves-trans host (expand_bounds-Evolves host p _) (
          Evolves-trans host (close_each-Evolves role.id at _ _) (
            Evolves-trans host (discard_bound-Evolves k _) (
              Evolves-trans host
                (if_cases (Evolves host _) (create && ltb_ℤ (pos 0) c) _ _
                  (leave_legacy-Evolves p c at _) (Evolves-refl host _))
                (Evolves-trans host (append_event-Evolves host k at _ _ _ _)
                  (reincarnate-Evolves k at _))))))

  pub kill-Evolves :
      (k : String) (at : Time) (c : Cultivation) (p : Position) (cause : String) (create : Bool)
      (s : World host)
      → Evolves host s (kill host k at c p cause create s)
  unfolding kill
  kill-Evolves k at c p cause create s =
      of_role-cases host (Evolves host s) k s s _ (Evolves-refl host s) λ role _.
        status-Evolves role.status s _ _ (kill_living-Evolves k role at c p cause create s)
          (Evolves-refl host s)

  bind_crossing-Evolves :
      (c : OpportunityCrossing) (s : World host) → Evolves host s (bind_crossing host c s)
  unfolding bind_crossing
  bind_crossing-Evolves c s =
      entry-Evolves host (lookup c.role s.roles) s s _ (Evolves-refl host s) λ role.
        entry-Evolves host (lookup c.opportunity s.opportunities) s s _ (Evolves-refl host s) λ o.
          if_cases (Evolves host s)
            (not (is_alive role.status)
              || not (str_eq role.bound_opportunity_id "")
              || not (is_unclaimed o.status))
            _ _ (Evolves-refl host s) (bind_opportunity-Evolves host c.role c.opportunity c.at s)

  bind_crossings-Evolves :
      (cs : List OpportunityCrossing) (s : World host) → Evolves host s (bind_crossings host cs s)
  unfolding bind_crossings
  bind_crossings-Evolves [] s = Evolves-refl host s
  bind_crossings-Evolves (c ∷ cs) s =
      Evolves-trans host (bind_crossing-Evolves c s) (bind_crossings-Evolves cs _)

  pub settle_world_crossings-Evolves :
      (now : Time) (s : World host) → Evolves host s (settle_world_crossings host now s)
  unfolding settle_world_crossings
  settle_world_crossings-Evolves now s = bind_crossings-Evolves _ s

  arrive-Older : (p : Position) (x : Role) → Older x (arrive p x)
  unfolding arrive
  arrive-Older p x = record {
    same_id = refl;
    same_account = refl;
    same_name = refl;
    lives_grow = omega arith;
    versions_grow = omega int_laws;
  }

  pub bump-Older : (x : Role) → Older x (bump x)
  unfolding bump
  bump-Older x = record {
    same_id = refl;
    same_account = refl;
    same_name = refl;
    lives_grow = omega arith;
    versions_grow = omega int_laws;
  }

  postpone-Older :
      (at : Time) (c : Cultivation) (age : Duration) (x : Role) → Older x (postpone host at c age x)
  unfolding postpone
  postpone-Older at c age x = ground arith

  touch-Older : (now : Time) (x : Role) → Older x (touch host now x)
  unfolding touch
  touch-Older now x = ground arith

  follow_path-Evolves :
      (k : String) (now : Time) (led : Position × Bool) (s : World host)
      → Evolves host s (follow_path host k now led s).0
  unfolding follow_path
  follow_path-Evolves k now (p, true) s =
      Evolves-trans host (update_role-Evolves host k _ s (arrive-Older p)) (
        Evolves-trans host (expand_bounds-Evolves host p _)
          (append_event-Evolves host k now _ _ _ _))
  follow_path-Evolves k now (p, false) s = expand_bounds-Evolves host p s

  led-Evolves :
      (status : RoleStatus) (path : Option Trajectory) (role : Role) (k : String) (now : Time)
      (s : World host)
      → Evolves host s
          (elim status as (λ _. World host × Position × MovementState) [
            | alive ↦ elim path as (λ _. World host × Position × MovementState) [
              | none ↦ (s, role.position, idle)
              | some t ↦ follow_path host k now (travelled host role t now) s
            ]
            | pending_reincarnation ↦ (s, role.position, idle)
          ]).0
  led-Evolves pending_reincarnation path role k now s = Evolves-refl host s
  led-Evolves alive none role k now s = Evolves-refl host s
  led-Evolves alive (some t) role k now s = follow_path-Evolves k now _ s

  follow-Evolves :
      (k : String) (now : Time) (s : World host) → Evolves host s (follow host k now s).0
  unfolding follow
  follow-Evolves k now s =
      of_role-cases host {A = World host × Position × MovementState} (λ r. Evolves host s r.0) k s
        (s, origin, idle) _ (Evolves-refl host s)
        λ role _. led-Evolves role.status role.trajectory role k now s

  face_death-Evolves :
      (k : String) (now at : Time) (s : World host) (l : Locals)
      → Evolves host s (face_death host k now at s l).0
  unfolding face_death
  face_death-Evolves k now at s l =
      of_role-cases host {A = World host × Locals} (λ r. Evolves host s r.0) k s (s, l) _
        (Evolves-refl host s)
        λ role _.
          if_cases {A = World host × Locals} (λ r. Evolves host s r.0)
            (derive_life (cultivation_of host role at s) (at -ℤ role.life_started_at)).alive _ _
            (update_role-Evolves host k _ s (postpone-Older at _ _)) (kill-Evolves k at _ _ _ _ s)

  death_loop-Evolves :
      (fuel : ℕ) (k : String) (now : Time) (s : World host) (l : Locals)
      → Evolves host s (death_loop host fuel k now s l).0
  unfolding death_loop
  death_loop-Evolves zero k now s l = Evolves-refl host s
  death_loop-Evolves (suc fuel) k now s l =
      of_role-cases host {A = World host × Locals} (λ r. Evolves host s r.0) k s (s, l) _
        (Evolves-refl host s)
        λ role _.
          if_cases {A = World host × Locals} (λ r. Evolves host s r.0) (death_due role now) _ _
            (Evolves-trans host (settle_opportunity-Evolves host k _ s) (
              Evolves-trans host (face_death-Evolves k now _ _ l)
                (death_loop-Evolves fuel k now _ _)))
            (Evolves-refl host s)

  prosper-Evolves :
      (k : String) (now : Time) (p : Position) (s : World host)
      → Evolves host s (prosper host k now p s)
  unfolding prosper
  prosper-Evolves k now p s = Evolves-trans host (claim_opportunity-Evolves host k p now s) (
      Evolves-trans host (settle_opportunity-Evolves host k now _) (
        of_role-cases host (Evolves host _) k _ _ _ (Evolves-refl host _) λ role _.
          if_cases (Evolves host _) (outgrown host role.trajectory role _) _ _
            (Evolves-trans host (rebase_trajectory-Evolves host k p now _ _)
              (update_role-Evolves host k bump _ bump-Older))
            (Evolves-refl host _)))

  prosper_if_alive-Evolves :
      (k : String) (now : Time) (p : Position) (s : World host)
      → Evolves host s (prosper_if_alive host k now p s)
  unfolding prosper_if_alive
  prosper_if_alive-Evolves k now p s =
      of_role-cases host (Evolves host s) k s _ _ (Evolves-refl host s)
        λ role _. status-Evolves role.status s _ _ (prosper-Evolves k now p s) (Evolves-refl host s)

  settle_steps-Evolves :
      (k : String) (now : Time) (s : World host) → Evolves host s (settle_steps host k now s).0
  unfolding settle_steps
  settle_steps-Evolves k now s = Evolves-trans host (reincarnate-Evolves k now s) (
      Evolves-trans host (settle_world_crossings-Evolves now _) (
        Evolves-trans host (follow-Evolves k now _) (
          Evolves-trans host (death_loop-Evolves _ k now _ _)
            (prosper_if_alive-Evolves k now _ _))))

  recorded-Evolves :
      (o : Option Role) (k : String) (now : Time) (l : Locals) (s : World host)
      → Evolves host s
          (elim o as (λ _. Option (State host.float.F) × World host) [
            | none ↦ (none, s)
            | some role ↦
                (some (describe_role host role now l s), update_role host k (touch host now) s)
          ]).1
  recorded-Evolves none k now l s = Evolves-refl host s
  recorded-Evolves (some role) k now l s = update_role-Evolves host k _ s (touch-Older now)

  pub state_of-Evolves :
      (k : String) (now : Time) (s : World host) → Evolves host s (state_of host k now s).1
  unfolding state_of
  state_of-Evolves k now s =
      Evolves-trans host (settle_steps-Evolves k now s) (recorded-Evolves (lookup k _) k now _ _)
