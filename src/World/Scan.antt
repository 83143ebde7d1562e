-- ===== src/World/Scan.antt =====
-- The scan of internal/biz/core.go.
use xiuxian.Base.{
  ℕ, ◌-◌, Bool, ◌&&◌, ◌||◌, not, Option, none, some, List, [], ◌∷◌, ◌++◌, String, if◌then◌else◌,
  ltb, length, take,
}
use xiuxian.Base.Int.{pos, ◌-ℤ◌, ltb_ℤ, leb_ℤ, eqb_ℤ}
use xiuxian.Base.Dict.{Dict, keys}
use xiuxian.Base.Text.{str_eq, str_lt}
use xiuxian.Base.Sort.{sort}
use xiuxian.Rules.Units.{Coordinate, Position, Time, distance, units, nanos_per_second}
use xiuxian.Rules.Reward.{can_sense_opportunity}
use xiuxian.World.Host.{Host}
use xiuxian.World.Model.{
  World, Role, RoleStatus, Opportunity, State, PublicPosition, CommandExpectation, Value, text,
  place, unauthenticated, not_alive, rate_limited,
}
use xiuxian.World.Log.{update_role, of_role, append_event}
use xiuxian.World.Bond.{is_alive, is_unclaimed}
use xiuxian.World.Settle.{state_of}
use xiuxian.World.Action.{
  Action, ok, Call, ◌>>=◌, ◌>>◌, pure, raise_if, modify, role_or, expect, now_for, settle, alive_or,
  save,
}
use xiuxian.World.Moves.{position_of_state}
use xiuxian.World.Gifts.{interaction_eligibility_for_states}

pub record ScanRole (F : Type 0) : Type 0 where
  pub id : String
  pub name : String
  pub realm : String
  pub status : RoleStatus
  pub distance : F
  pub position : Option (PublicPosition F)
  pub can_transfer : Bool
  pub can_seize : Bool
  pub can_request_conversation : Bool

pub record OpportunitySignal (F : Type 0) : Type 0 where
  pub message : String
  pub distance : F

pub record ScanResult (F : Type 0) : Type 0 where
  pub roles : List (ScanRole F)
  pub opportunities : List (OpportunitySignal F)
  pub has_more : Bool
  pub truncated_roles : ℕ
  pub truncated_opportunities : ℕ

unfoldable pub abs_coordinate : Coordinate → Coordinate
abs_coordinate c = if ltb_ℤ c (pos 0) then pos 0 -ℤ c else c

-- The direction, as the source names it, in which the second position lies from the first.
unfoldable pub compass : Position → Position → String
compass from to =
    let dx = to.x -ℤ from.x in
    let dy = to.y -ℤ from.y in
    let flat = leb_ℤ (abs_coordinate dy) (abs_coordinate dx) in
    if eqb_ℤ dx (pos 0) && eqb_ℤ dy (pos 0)
    then "同一位置"
    else if flat && ltb_ℤ (pos 0) dx
    then "东"
    else if flat
    then "西"
    else if ltb_ℤ (pos 0) dy
    then "北"
    else "南"

module _ (host : Host) where
  abbrev pub Found : Type 0
  Found = List (ScanRole host.float.F) × World host

  unfoldable pub scan_entry :
      Role → State host.float.F → State host.float.F → host.float.F → ScanRole host.float.F
  scan_entry goal scanner state d =
      let e = interaction_eligibility_for_states host scanner state in
      record {
        id = goal.id;
        name = goal.name;
        realm = state.realm;
        status = state.status;
        distance = d;
        position = some state.position;
        can_transfer = e.can_transfer;
        can_seize = e.can_seize;
        can_request_conversation = e.can_request_conversation;
      }

  -- What a role learns of a scan by a role of a higher realm.
  unfoldable pub scan_notes :
      String → State host.float.F → State host.float.F → host.float.F → Dict (Value host.float.F)
  scan_notes scanner_name scanner state d =
      let seen : Dict (Value host.float.F) =
        if host.float.le d (host.float.of_int state.sense_radius)
        then ("scanner_position", place scanner.position) ∷ []
        else [] in
      ("direction", text (compass (position_of_state host state) (position_of_state host scanner)))
      ∷ ("scanner_name", text scanner_name)
      ∷ seen

  unfoldable pub scan_seen :
      String → Role → String → Time → State host.float.F → State host.float.F → Found → Found
  scan_seen j goal scanner_name now scanner state (entries, s) =
      let d = distance host.float (position_of_state host scanner) (position_of_state host state) in
      let told =
        append_event host j now "scanned" "被更高境界角色神识扫描" (scan_notes scanner_name scanner state d)
          s in
      if host.float.lt (host.float.of_int scanner.sense_radius) d then (entries, s) else (
        entries ++ scan_entry goal scanner state d ∷ [],
        if ltb state.realm_level scanner.realm_level then told else s,
      )

  unfoldable pub scan_role : String → String → Time → State host.float.F → String → Found → Found
  scan_role k scanner_name now scanner j (entries, s) =
      let (state, s') = state_of host j now s in
      let seen : Found = elim state [
        | none ↦ (entries, s')
        | some st ↦
            of_role host j s' (entries, s')
              λ goal.
                if is_alive goal.status
                then scan_seen j goal scanner_name now scanner st (entries, s')
                else (entries, s')
      ] in
      if str_eq j k then (entries, s) else seen

  unfoldable pub scan_roles :
      String → String → Time → State host.float.F → List String → Found → Found
  scan_roles k scanner_name now scanner [] found = found
  scan_roles k scanner_name now scanner (j ∷ js) found =
      scan_roles k scanner_name now scanner js (scan_role k scanner_name now scanner j found)

  unfoldable pub sense :
      State host.float.F → Dict Opportunity → List (OpportunitySignal host.float.F)
  sense scanner [] = []
  sense scanner ((id, o) ∷ os) =
      let rest = sense scanner os in
      let p = position_of_state host scanner in
      let radius = units host.float (host.float.of_int scanner.sense_radius) in
      if is_unclaimed o.status
        && can_sense_opportunity host.float p radius o.position o.sense_radius
      then record { message = "感应到机缘"; distance = distance host.float p o.position } ∷ rest
      else rest

  unfoldable pub nearer_role : ScanRole host.float.F → ScanRole host.float.F → Bool
  nearer_role a b =
      if host.float.eq a.distance b.distance
      then str_lt a.id b.id
      else host.float.lt a.distance b.distance

  unfoldable pub nearer_signal :
      OpportunitySignal host.float.F → OpportunitySignal host.float.F → Bool
  nearer_signal a b = host.float.lt a.distance b.distance

  abbrev pub max_roles : ℕ
  max_roles = 100

  abbrev pub max_signals : ℕ
  max_signals = 20

  -- The nearest of what was found, with what was left out.
  unfoldable pub scan_result :
      List (ScanRole host.float.F) → List (OpportunitySignal host.float.F) → ScanResult host.float.F
  scan_result roles signals = record {
    roles = take max_roles (sort nearer_role roles);
    opportunities = take max_signals (sort nearer_signal signals);
    has_more = ltb max_roles (length roles) || ltb max_signals (length signals);
    truncated_roles = length roles - max_roles;
    truncated_opportunities = length signals - max_signals;
  }

  unfoldable pub note_scan : Time → Role → Role
  note_scan now role = record role { last_scan_at = now }

  unfoldable pub too_soon : Role → Time → Bool
  too_soon role now =
      not (eqb_ℤ role.last_scan_at (pos 0))
      && ltb_ℤ (now -ℤ role.last_scan_at) (pos nanos_per_second)

  unfoldable pub run_scan :
      String → Role → Time → State host.float.F → Action host (ScanResult host.float.F)
  run_scan k role now scanner s =
      let (entries, s') = scan_roles k role.name now scanner (keys s.roles) ([], s) in
      (ok (scan_result entries (sense scanner s'.opportunities)), s')

  unfoldable pub scan :
      Call host.float.F → String → CommandExpectation → Action host (ScanResult host.float.F)
  scan call k e = do
    role_or host k unauthenticated
    expect host k e
    now ← now_for host call k
    scanner ← settle host k now
    alive_or host k not_alive
    role ← role_or host k unauthenticated
    raise_if (too_soon role now) rate_limited
    modify (update_role host k (note_scan now))
    result ← run_scan k role now scanner
    save host call
    pure result

-- The definitions of this file together, for a test that runs them.
unfoldable pub open_scan : Unit {0}
unfolding abs_coordinate compass scan_entry scan_notes scan_seen scan_role scan_roles sense
    nearer_role nearer_signal scan_result note_scan too_soon run_scan scan
open_scan = tt
