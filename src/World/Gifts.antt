-- ===== src/World/Gifts.antt =====
-- The commands that move cultivation between roles, of internal/biz/core.go: Transfer and Seize.
use xiuxian.Base.{true, false, not, String, if◌then◌else◌, [], ◌∷◌}
use xiuxian.Base.Int.{ℤ, pos, ◌+ℤ◌, ◌-ℤ◌, leb_ℤ}
use xiuxian.Base.Text.{is_blank, str_eq, ◌⊕◌}
use xiuxian.Rules.Units.{
  Cultivation, Duration, Time, points, points_of_int, distance, cultivation_points,
  nanos_per_second,
}
use xiuxian.Rules.Realms.{realm_for}
use xiuxian.Rules.Life.{validate_transfer, next_natural_death_after}
use xiuxian.Rules.Reward.{InteractionEligibility, interaction_eligibility_for}
use xiuxian.World.Host.{Host}
use xiuxian.World.Model.{
  World, Role, State, CommandExpectation, invalid, unauthenticated, not_alive, idempotency_key,
  not_found, target_ineligible, forbidden, text, whole, real,
}
use xiuxian.World.Log.{update_role, append_event, of_role}
use xiuxian.World.Bond.{cultivation_at_key, settle_opportunity, rebase_trajectory}
use xiuxian.World.Fate.{kill}
use xiuxian.World.Settle.{bump}
use xiuxian.World.Action.{
  Action, Call, ◌>>=◌, ◌>>◌, raise_if, gets, modify, role_or, expect, now_for, settle, alive_or,
  replay, conclude,
}
use xiuxian.World.Moves.{position_of_state}

-- role.CultivationBase = c; role.CultivationAt = now
unfoldable pub set_base : Cultivation → Time → Role → Role
set_base c now role = record role { cultivation_base = c; cultivation_at = now }

unfoldable pub set_next_death : Time → Role → Role
set_next_death t role = record role { next_death_at = t }

module _ (host : Host) where
  -- time.Duration(value * float64(time.Second))
  unfoldable pub duration_seconds : host.float.F → Duration
  duration_seconds value =
      host.float.trunc (host.float.mul value (host.float.of_int (pos nanos_per_second)))

  unfoldable pub interaction_eligibility_for_states :
      State host.float.F → State host.float.F → InteractionEligibility
  interaction_eligibility_for_states actor goal =
      interaction_eligibility_for host.float
        (distance host.float (position_of_state host actor) (position_of_state host goal))
        (realm_for (points host.float actor.cultivation))
        (realm_for (points host.float goal.cultivation))

  unfoldable pub name_of : String → World host → String
  name_of k s = of_role host k s "" λ role. role.name

  unfoldable pub id_of : String → World host → String
  id_of k s = of_role host k s "" λ role. role.id

  -- The cultivations of the two after the gift, and what follows from them.
  unfoldable pub hand_over :
      String
      → String
      → Time
      → Cultivation
      → Cultivation
      → State host.float.F
      → State host.float.F
      → World host
      → World host
  hand_over k j now given received sender receiver s =
      let s1 =
        update_role host j (set_base received now) (update_role host k (set_base given now) s) in
      let s2 = rebase_trajectory host k (position_of_state host sender) now given s1 in
      let s3 = rebase_trajectory host j (position_of_state host receiver) now received s2 in
      let s4 =
        update_role host k
          (set_next_death
            (now +ℤ next_natural_death_after given (duration_seconds sender.age_seconds)))
          s3 in
      let s5 =
        update_role host j
          (set_next_death
            (now +ℤ next_natural_death_after received (duration_seconds receiver.age_seconds)))
          s4 in
      update_role host j bump (update_role host k bump s5)

  -- What both have at this time, less and with the amount.
  unfoldable pub hand_amount :
      String
      → String
      → Time
      → Cultivation
      → State host.float.F
      → State host.float.F
      → World host
      → World host
  hand_amount k j now amount sender receiver s =
      let from = cultivation_at_key host k now s in
      let onto = cultivation_at_key host j now s in
      hand_over k j now (from -ℤ amount) (onto +ℤ amount) sender receiver s

  unfoldable pub tell_transfer : String → String → Time → ℤ → World host → World host
  tell_transfer k j now minutes s =
      let told =
        append_event host k now "transfer" ("向" ⊕ name_of j s ⊕ "传功")
          (("target_id", text (id_of j s)) ∷ ("amount_minutes", whole minutes) ∷ []) s in
      append_event host j now "transfer_received" ("收到" ⊕ name_of k s ⊕ "传功")
        (("source_id", text (id_of k s)) ∷ ("amount_minutes", whole minutes) ∷ []) told

  -- killLocked(sender, now, sender.CultivationBase, sender.Position, "lifespan", true)
  unfoldable pub die_of_transfer : String → Time → World host → World host
  die_of_transfer k now s =
      of_role host k s s
        λ role. kill host k now role.cultivation_base role.position "lifespan" true s

  unfoldable pub give :
      Call host.float.F
      → String
      → String
      → String
      → ℤ
      → Time
      → State host.float.F
      → State host.float.F
      → Action host (State host.float.F)
  give call k j key minutes now sender receiver = do
    modify (settle_opportunity host k now)
    modify (settle_opportunity host j now)
    from ← gets (cultivation_at_key host k now)
    let amount = points_of_int minutes
    let v = validate_transfer from amount (duration_seconds sender.age_seconds)
    raise_if (not v.allowed) forbidden
    modify (hand_amount k j now amount sender receiver)
    modify (tell_transfer k j now minutes)
    modify (λ s. if v.death_after_transfer then die_of_transfer k now s else s)
    conclude host call k key now

  unfoldable pub transfer_command :
      Call host.float.F
      → String
      → String
      → String
      → ℤ
      → CommandExpectation
      → Action host (State host.float.F)
  transfer_command call k j key minutes e = do
    role_or host k unauthenticated
    expect host k e
    role_or host j not_found
    raise_if (str_eq j k) not_found
    now ← now_for host call k
    sender ← settle host k now
    receiver ← settle host j now
    alive_or host k not_alive
    alive_or host j target_ineligible
    let eligibility = interaction_eligibility_for_states sender receiver
    raise_if (not eligibility.can_transfer) target_ineligible
    give call k j key minutes now sender receiver

  unfoldable pub transfer :
      Call host.float.F
      → String
      → String
      → String
      → ℤ
      → CommandExpectation
      → Action host (State host.float.F)
  transfer call k j key minutes e = do
    raise_if (is_blank key) idempotency_key
    raise_if (leb_ℤ minutes (pos 0)) invalid
    replay host k key (transfer_command call k j key minutes e)

  -- What the attacker takes, and the target's death.
  unfoldable pub take_all :
      String
      → String
      → Time
      → Cultivation
      → Cultivation
      → State host.float.F
      → State host.float.F
      → World host
      → World host
  take_all k j now taken total attacker goal s =
      let s1 = update_role host k (set_base total now) s in
      let s2 = rebase_trajectory host k (position_of_state host attacker) now total s1 in
      let s3 = update_role host j (set_base (pos 0) now) (update_role host k bump s2) in
      let s4 = kill host j now (pos 0) (position_of_state host goal) "seizure" false s3 in
      append_event host k now "seizure" ("夺取" ⊕ name_of j s ⊕ "全部修为")
        (("target_id", text (id_of j s))
          ∷ ("cultivation", real (cultivation_points host.float taken))
          ∷ [])
        s4

  unfoldable pub rob :
      Call host.float.F
      → String
      → String
      → String
      → Time
      → State host.float.F
      → State host.float.F
      → Action host (State host.float.F)
  rob call k j key now attacker goal = do
    modify (settle_opportunity host k now)
    modify (settle_opportunity host j now)
    taken ← gets (cultivation_at_key host j now)
    raise_if (leb_ℤ taken (pos 0)) target_ineligible
    own ← gets (cultivation_at_key host k now)
    modify (take_all k j now taken (own +ℤ taken) attacker goal)
    conclude host call k key now

  unfoldable pub seize_command :
      Call host.float.F
      → String
      → String
      → String
      → CommandExpectation
      → Action host (State host.float.F)
  seize_command call k j key e = do
    role_or host k unauthenticated
    expect host k e
    role_or host j not_found
    raise_if (str_eq j k) not_found
    now ← now_for host call k
    attacker ← settle host k now
    goal ← settle host j now
    alive_or host k not_alive
    alive_or host j target_ineligible
    let eligibility = interaction_eligibility_for_states attacker goal
    raise_if (not eligibility.can_seize) target_ineligible
    rob call k j key now attacker goal

  unfoldable pub seize :
      Call host.float.F
      → String
      → String
      → String
      → CommandExpectation
      → Action host (State host.float.F)
  seize call k j key e = do
    raise_if (is_blank key) idempotency_key
    replay host k key (seize_command call k j key e)

-- The definitions of this file together, for a test that runs them.
unfoldable pub open_gifts : Unit {0}
unfolding set_base set_next_death duration_seconds interaction_eligibility_for_states name_of id_of
    hand_over hand_amount tell_transfer die_of_transfer give transfer_command transfer take_all rob
    seize_command seize
open_gifts = tt
