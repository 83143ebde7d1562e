-- ===== src/World/Bond.antt =====
-- Opportunities and the roles that they are bound to, of internal/biz/core.go.
use xiuxian.Base.{Bool, true, false, ◌&&◌, Option, none, some, List, [], ◌∷◌, String, if◌then◌else◌}
use xiuxian.Base.Int.{pos, ◌+ℤ◌, ◌-ℤ◌, ltb_ℤ, eqb_ℤ}
use xiuxian.Base.Dict.{Dict, lookup, adjust, keys}
use xiuxian.Base.Text.{str_eq, str_lt}
use xiuxian.Base.Sort.{sort}
use xiuxian.Rules.Units.{
  Cultivation, Position, Time, milliseconds, same_position, cultivation_points,
}
use xiuxian.Rules.Realms.{realm_for}
use xiuxian.Rules.Reward.{converted_cultivation}
use xiuxian.Rules.Travel.{Trajectory}
use xiuxian.World.Host.{Host}
use xiuxian.World.Model.{
  World, Role, RoleStatus, alive, pending_reincarnation, Opportunity, OpportunityStatus, unplaced,
  unclaimed, bound, consumed, discarded, real, text,
}
use xiuxian.World.Log.{update_role, of_role, append_event}

abbrev pub is_alive : RoleStatus → Bool
is_alive alive = true
is_alive pending_reincarnation = false

abbrev pub is_bound : OpportunityStatus → Bool
is_bound bound = true
is_bound unplaced = false
is_bound unclaimed = false
is_bound consumed = false
is_bound discarded = false

abbrev pub is_unclaimed : OpportunityStatus → Bool
is_unclaimed unclaimed = true
is_unclaimed unplaced = false
is_unclaimed bound = false
is_unclaimed consumed = false
is_unclaimed discarded = false

-- What natural cultivation has added since the last settlement.
unfoldable pub natural_gain : Role → Time → Cultivation
natural_gain role now =
    let elapsed = now -ℤ role.cultivation_at in
    milliseconds (if ltb_ℤ elapsed (pos 0) then pos 0 else elapsed)

-- What the bound opportunity has given and not yet been credited.
unfoldable pub uncredited : Opportunity → Time → Cultivation
uncredited o now =
    let converted = converted_cultivation o.cultivation (now -ℤ o.bound_at) in
    if is_bound o.status && ltb_ℤ o.credited converted then converted -ℤ o.credited else pos 0

module _ (host : Host) where
  unfoldable pub cultivation_of : Role → Time → World host → Cultivation
  cultivation_of role now s =
      let natural = role.cultivation_base +ℤ natural_gain role now in
      elim role.status [
        | pending_reincarnation ↦ pos 0
        | alive ↦ elim (lookup role.bound_opportunity_id s.opportunities) [
          | none ↦ natural
          | some o ↦ natural +ℤ uncredited o now
        ]
      ]

  -- The same for the role at a key.
  unfoldable pub cultivation_at_key : String → Time → World host → Cultivation
  cultivation_at_key k now s = of_role host k s (pos 0) λ role. cultivation_of role now s

  unfoldable pub update_opportunity : String → (Opportunity → Opportunity) → World host → World host
  update_opportunity id f s = record s { opportunities = adjust id f s.opportunities }

  unfoldable pub credit : Cultivation → Role → Role
  credit gain role = record role { cultivation_base = role.cultivation_base +ℤ gain }

  unfoldable pub release_bond : Role → Role
  release_bond role = record role { bound_opportunity_id = "" }

  -- `if converted > opportunity.Credited`
  unfoldable pub credit_gain : String → Opportunity → Cultivation → String → World host → World host
  credit_gain k o converted id s =
      if ltb_ℤ o.credited converted
      then update_opportunity id (λ o. record o { credited = converted })
          (update_role host k (credit (converted -ℤ o.credited)) s)
      else s

  -- `if converted == opportunity.Cultivation`
  unfoldable pub consume :
      String → Opportunity → Cultivation → String → Time → World host → World host
  consume k o converted id now s =
      if eqb_ℤ converted o.cultivation
      then append_event host k now "opportunity_converted" "参悟机缘"
          (("cultivation", real (cultivation_points host.float converted)) ∷ [])
          (update_role host k release_bond
            (update_opportunity id (λ o. record o { status = consumed }) s))
      else s

  unfoldable pub settle_bound : String → String → Opportunity → Time → World host → World host
  settle_bound k id o now s =
      let converted = converted_cultivation o.cultivation (now -ℤ o.bound_at) in
      if is_bound o.status then consume k o converted id now (credit_gain k o converted id s) else s

  unfoldable pub settle_opportunity : String → Time → World host → World host
  settle_opportunity k now s = of_role host k s s λ role.
      elim (lookup role.bound_opportunity_id s.opportunities) [
        | none ↦ s
        | some o ↦ settle_bound k role.bound_opportunity_id o now s
      ]

  unfoldable pub take_hold : Role → Time → Opportunity → Opportunity
  take_hold role at o = record o { status = bound; bound_role_id = role.id; bound_at = at }

  unfoldable pub tie : Opportunity → Role → Role
  tie o role = record role {
    bound_opportunity_id = o.id;
    state_version = role.state_version +ℤ pos 1;
  }

  unfoldable pub bind_opportunity : String → String → Time → World host → World host
  bind_opportunity k id at s = of_role host k s s λ role. elim (lookup id s.opportunities) [
    | none ↦ s
    | some o ↦
        if str_eq role.bound_opportunity_id "" && is_unclaimed o.status
        then append_event host k at "opportunity_converting" "参悟机缘"
            (("opportunity_id", text o.id) ∷ [])
            (append_event host k at "opportunity_claimed" "觅得机缘"
              (("opportunity_id", text o.id) ∷ [])
              (update_role host k (tie o) (update_opportunity id (take_hold role at) s)))
        else s
  ]

  -- The first unclaimed opportunity at a position, in the order of the ids.
  unfoldable pub first_at : Position → List String → Dict Opportunity → Option String
  first_at p [] os = none
  first_at p (id ∷ ids) os =
      let later = first_at p ids os in
      elim (lookup id os) [
        | none ↦ later
        | some o ↦ if is_unclaimed o.status && same_position o.position p then some id else later
      ]

  unfoldable pub claim_opportunity : String → Position → Time → World host → World host
  claim_opportunity k p now s = of_role host k s s λ role.
      if str_eq role.bound_opportunity_id ""
      then elim (first_at p (sort str_lt (keys s.opportunities)) s.opportunities) [
        | none ↦ s
        | some id ↦ bind_opportunity k id now s
      ]
      else s

  -- A moving role's trajectory begins anew at a position.
  unfoldable pub rebased : Position → Time → Cultivation → Trajectory → Role → Role
  rebased p now c t role = record role {
    position = p;
    trajectory = some (record t { start = p; started_at = now; speed = (realm_for c).speed });
    trajectory_cultivation = c;
  }

  unfoldable pub rebase_trajectory :
      String → Position → Time → Cultivation → World host → World host
  rebase_trajectory k p now c s =
      of_role host k s s λ role. elim role.trajectory [
        | none ↦ s
        | some t ↦ update_role host k (rebased p now c t) s
      ]

-- The definitions of this file together, for a test that runs them.
unfoldable pub open_bond : Unit {0}
unfolding natural_gain uncredited cultivation_of cultivation_at_key update_opportunity credit
    release_bond credit_gain consume settle_bound settle_opportunity take_hold tie bind_opportunity
    first_at claim_opportunity rebased rebase_trajectory
open_bond = tt
