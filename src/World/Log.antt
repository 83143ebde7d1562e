-- ===== src/World/Log.antt =====
-- Roles behind their keys, the event log and the authority's clock, of internal/biz/core.go.
use xiuxian.Base.{ℕ, ◌+◌, Option, none, some, List, [], ◌∷◌, ◌++◌, String, if◌then◌else◌}
use xiuxian.Base.Int.{ℤ, pos, ◌-ℤ◌, ltb_ℤ, quot, rem}
use xiuxian.Base.Dict.{Dict, lookup, insert, adjust}
use xiuxian.Rules.Units.{Time, nanos_per_milli}
use xiuxian.World.Host.{Host, Reading, absent, broken, tells, unix_epoch}
use xiuxian.World.Model.{World, Role, Event, Value}

-- Time.UnixMilli, which rounds down
unfoldable pub unix_milli : Time → ℤ
unix_milli t =
    let d = t -ℤ unix_epoch in
    if ltb_ℤ (rem d nanos_per_milli) (pos 0)
    then quot d nanos_per_milli -ℤ pos 1
    else quot d nanos_per_milli

-- The clock's time or the database's; never before the role was last settled.
unfoldable pub reading_now : Reading → Option Role → Time
reading_now reading role = elim reading.database [
  | absent ↦ reading.clock_now
  | broken ↦ elim role [ none ↦ unix_epoch | some r ↦ r.last_settled_at ]
  | tells t ↦ t
]

unfoldable pub authoritative_now : Reading → Option Role → Time
authoritative_now reading role =
    let now = reading_now reading role in
    elim role [
      | none ↦ now
      | some r ↦ if ltb_ℤ now r.last_settled_at then r.last_settled_at else now
    ]

module _ (host : Host) where
  unfoldable pub update_role : String → (Role → Role) → World host → World host
  update_role k f s = record s { roles = adjust k f s.roles }

  -- A value taken from the role at a key, if there is one.
  unfoldable pub of_role {ℓ} : {A : Type ℓ} → String → World host → A → (Role → A) → A
  of_role k s default f = elim (lookup k s.roles) [ none ↦ default | some r ↦ f r ]

  abbrev pub log_entry :
      ℕ → Role → Time → String → String → Dict (Value host.float.F) → Event host.float.F
  log_entry id role at kind message payload = record {
    id = id;
    kind = kind;
    message = message;
    created_at = unix_milli at;
    life_number = role.life_number;
    payload = payload;
  }

  abbrev pub log_of : String → World host → List (Event host.float.F)
  log_of id s = elim (lookup id s.events) [ none ↦ [] | some es ↦ es ]

  unfoldable pub append_event :
      String → Time → String → String → Dict (Value host.float.F) → World host → World host
  append_event k at kind message payload s = of_role k s s λ role.
      let id = s.event_sequence + 1 in
      record s {
        event_sequence = id;
        events =
            insert role.id (log_of role.id s ++ log_entry id role at kind message payload ∷ [])
              s.events;
      }

-- The definitions of this file together, for a test that runs them.
unfoldable pub open_log : Unit {0}
unfolding unix_milli reading_now authoritative_now update_role of_role append_event
open_log = tt
