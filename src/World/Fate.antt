-- ===== src/World/Fate.antt =====
-- Death and reincarnation, of internal/biz/core.go.
use xiuxian.Base.{
  ◌+◌, Bool, true, false, ◌&&◌, not, Option, none, some, List, [], ◌∷◌, String, if◌then◌else◌,
}
use xiuxian.Base.Int.{ℤ, pos, ◌+ℤ◌, ltb_ℤ}
use xiuxian.Base.Dict.{Dict, lookup, insert, adjust, keys}
use xiuxian.Base.Text.{str_eq, ◌⊕◌, decimal}
use xiuxian.Rules.Units.{Cultivation, Coordinate, Position, Time, units}
use xiuxian.Rules.Realms.{realm_for}
use xiuxian.Rules.Life.{next_natural_death_after}
use xiuxian.World.Host.{Host}
use xiuxian.World.Model.{
  World, Role, alive, pending_reincarnation, Opportunity, unplaced, discarded, Conversation,
  ConversationStatus, requested, accepted, rejected, closed, Value, text, flag,
}
use xiuxian.World.Log.{update_role, of_role, append_event, unix_milli}
use xiuxian.World.Place.{expand_bounds, place_opportunity, random_coordinate}
use xiuxian.World.Bond.{update_opportunity}

abbrev pub is_over : ConversationStatus → Bool
is_over requested = false
is_over accepted = false
is_over rejected = true
is_over closed = true

-- rules.NextNaturalDeathAfter(0, 0), shut so that a proof does not compute it.
unfoldable pub first_life : ℤ
first_life = next_natural_death_after (pos 0) (pos 0)

unfoldable pub reborn : Time → Position → Role → Role
reborn at chosen role = record role {
  life_number = role.life_number +ℤ pos 1;
  status = alive;
  life_started_at = at;
  cultivation_at = at;
  cultivation_base = pos 0;
  last_settled_at = at;
  next_death_at = at +ℤ first_life;
  position = chosen;
  trajectory = none;
  trajectory_cultivation = pos 0;
  state_version = role.state_version +ℤ pos 1;
}

-- What a death does to the role itself.
unfoldable pub dying : Time → Position → Role → Role
dying at p role = record role {
  status = pending_reincarnation;
  cultivation_base = pos 0;
  cultivation_at = at;
  position = p;
  trajectory = none;
  trajectory_cultivation = pos 0;
  next_death_at = pos 0;
  state_version = role.state_version +ℤ pos 1;
}

abbrev pub coordinate_or : Option Coordinate → Coordinate → Coordinate
coordinate_or none d = d
coordinate_or (some c) d = c

module _ (host : Host) where
  unfoldable pub reincarnate_pending : String → Time → World host → World host
  reincarnate_pending k at s =
      let (x, s1) = random_coordinate host s.min_x s.max_x s in
      let (y, s2) = random_coordinate host s.min_y s.max_y s1 in
      append_event host k at "reincarnation" "已在随机位置自动转世" [] (
        update_role host k
          (reborn at (record { x = coordinate_or x s.min_x; y = coordinate_or y s.min_y })) s2)

  unfoldable pub reincarnate : String → Time → World host → World host
  reincarnate k at s =
      of_role host k s s
        λ role. elim role.status [ alive ↦ s | pending_reincarnation ↦ reincarnate_pending k at s ]

  unfoldable pub end_conversation : Time → Conversation → Conversation
  end_conversation at c = record c { status = closed; updated_at = unix_milli at }

  abbrev pub other_party : Conversation → String → String
  other_party c id = if str_eq c.requester_id id then c.recipient_id else c.requester_id

  unfoldable pub close_one : String → Time → String → World host → World host
  close_one role_id at cid s = elim (lookup cid s.conversations) [
    | none ↦ s
    | some c ↦
        if is_over c.status
        then s
        else if not (str_eq c.requester_id role_id) && not (str_eq c.recipient_id role_id)
        then s
        else append_event host (other_party c role_id) at "conversation_closed" "交谈因对方本世结束而关闭"
            (("conversation_id", text c.id) ∷ [])
            (record s { conversations = adjust cid (end_conversation at) s.conversations })
  ]

  unfoldable pub close_each : String → Time → List String → World host → World host
  close_each role_id at [] s = s
  close_each role_id at (cid ∷ cids) s = close_each role_id at cids (close_one role_id at cid s)

  unfoldable pub close_conversations_for_death : String → Time → World host → World host
  close_conversations_for_death role_id at s = close_each role_id at (keys s.conversations) s

  -- The opportunity that the dead role was bound to is lost.
  unfoldable pub discard_bound : String → World host → World host
  discard_bound k s = of_role host k s s λ role.
      elim (lookup role.bound_opportunity_id s.opportunities) [
        | none ↦ s
        | some o ↦
            update_role host k (λ r. record r { bound_opportunity_id = "" })
              (update_opportunity host role.bound_opportunity_id
                (λ o. record o { status = discarded; bound_role_id = "" }) s)
      ]

  abbrev pub legacy : String → Position → Cultivation → Time → Opportunity
  legacy id p c at = record {
    id = id;
    position = p;
    level = (realm_for c).level;
    cultivation = c;
    sense_radius = units host.float (host.float.of_int (realm_for c).sense_radius);
    status = unplaced;
    bound_role_id = "";
    bound_at = pos 0;
    available_at = at;
    credited = pos 0;
    death_position = p;
  }

  -- The cultivation of the dead becomes an opportunity.
  unfoldable pub leave_legacy : Position → Cultivation → Time → World host → World host
  leave_legacy p c at s =
      let id = "opportunity_" ⊕ decimal (s.next_id + 1) in
      place_opportunity host id (record s {
        next_id = s.next_id + 1;
        opportunities = insert id (legacy id p c at) s.opportunities;
      })

  abbrev pub death_notes : String → Bool → Dict (Value host.float.F)
  death_notes cause created =
      ("cause", text cause) ∷ (if created then ("opportunity_created", flag true) ∷ [] else [])

  unfoldable pub kill_living :
      String → Role → Time → Cultivation → Position → String → Bool → World host → World host
  kill_living k role at c p cause create s =
      let s1 = update_role host k (dying at p) s in
      let s2 = close_conversations_for_death role.id at (expand_bounds host p s1) in
      let s3 = discard_bound k s2 in
      let creates = create && ltb_ℤ (pos 0) c in
      let s4 = if creates then leave_legacy p c at s3 else s3 in
      reincarnate k at (append_event host k at "death" "本世身死" (death_notes cause creates) s4)

  unfoldable pub kill :
      String → Time → Cultivation → Position → String → Bool → World host → World host
  kill k at c p cause create s = of_role host k s s λ role. elim role.status [
    | pending_reincarnation ↦ s
    | alive ↦ kill_living k role at c p cause create s
  ]

-- The definitions of this file together, for a test that runs them.
unfoldable pub open_fate : Unit {0}
unfolding first_life reborn dying reincarnate_pending reincarnate end_conversation close_one
    close_each close_conversations_for_death discard_bound leave_legacy kill_living kill
open_fate = tt
