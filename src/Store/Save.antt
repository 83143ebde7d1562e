-- ===== src/Store/Save.antt =====
-- Save, Load and changedRoleIDs of internal/data/postgres.go.
use xiuxian.Base.{
  ℕ, ◌+◌, Bool, true, false, not, Option, none, some, List, [], ◌∷◌, ◌++◌, String, if◌then◌else◌,
}
use xiuxian.Base.Int.{eqb_ℤ}
use xiuxian.Base.Dict.{Dict, lookup}
use xiuxian.Base.Text.{str_eq, str_lt}
use xiuxian.Base.Sort.{sort}
use xiuxian.World.Model.{Role}
use xiuxian.Store.{PersistedWorld, SnapshotRow, Database, Session}
use xiuxian.Store.Mirror.{Tx, ◌>>>◌, exec, mirror_normalized_state}

-- !exists || previous.StateVersion != role.StateVersion
unfoldable pub is_changed : Role → Option Role → Bool
is_changed role none = true
is_changed role (some previous) = not (eqb_ℤ previous.state_version role.state_version)

-- The first loop: the roles of the next world that are new or changed.
unfoldable pub changed_from : Dict Role → Dict Role → List String
changed_from current [] = []
changed_from current ((id, role) ∷ next) =
    let rest = changed_from current next in
    if is_changed role (lookup id current) then id ∷ rest else rest

abbrev pub is_missing : Option Role → Bool
is_missing none = true
is_missing (some r) = false

-- The second loop: the roles that the next world no longer has.
unfoldable pub gone_from : Dict Role → Dict Role → List String
gone_from next [] = []
gone_from next ((id, role) ∷ current) =
    let rest = gone_from next current in if is_missing (lookup id next) then id ∷ rest else rest

unfoldable pub changed_ids : Dict Role → Dict Role → List String
changed_ids current next = sort str_lt (changed_from current next ++ gone_from next current)

module _ {F : Type 0} (decode : String → Option (PersistedWorld F)) where
  -- The roles of a payload, none if it does not decode; an empty payload has none.
  unfoldable pub roles_of_payload : Option SnapshotRow → Option (Dict Role)
  roles_of_payload none = some []
  roles_of_payload (some row) =
      if str_eq row.payload ""
      then some []
      else elim (decode row.payload) [ none ↦ none | some w ↦ some w.roles ]

  -- changedRoleIDs, with the next world decoded.
  unfoldable pub changed_role_ids : Option SnapshotRow → PersistedWorld F → Option (List String)
  changed_role_ids current next = elim (roles_of_payload current) [
    | none ↦ none
    | some roles ↦ some (changed_ids roles next.roles)
  ]

  -- A locking read changes nothing.
  unfoldable pub lock_role_rows : List String → Tx F
  lock_role_rows [] s = some s
  lock_role_rows (id ∷ ids) s = exec (λ db. db) s

  unfoldable pub next_version : Option SnapshotRow → ℕ
  next_version none = 1
  next_version (some row) = row.state_version + 1

  unfoldable pub put_snapshot : String → Database F → Database F
  put_snapshot payload db = record db {
    snapshot = some (record { payload = payload; state_version = next_version db.snapshot });
  }

  unfoldable pub put_outbox : ℕ → Database F → Database F
  put_outbox version db = record db {
    outbox_id = db.outbox_id + 1;
    outbox =
        db.outbox
        ++ record {
          id = db.outbox_id + 1;
          state_version = version;
          attempts = 0;
          completed = false;
        }
          ∷ [];
  }

  -- The last statement is the commit.
  unfoldable pub save_steps : String → List String → PersistedWorld F → ℕ → Tx F
  save_steps payload ids w version =
      lock_role_rows ids
      >>> exec (put_snapshot payload)
      >>> mirror_normalized_state w
      >>> exec (put_outbox version)
      >>> exec (λ db. db)

  unfoldable pub decoded_save : String → Option (PersistedWorld F) → Session F → Option (Session F)
  decoded_save payload none s = none
  decoded_save payload (some w) s = elim (changed_role_ids s.db.snapshot w) [
    | none ↦ none
    | some ids ↦ save_steps payload ids w (next_version s.db.snapshot) s
  ]

  -- The body of the transaction, from the read that locks the snapshot on.
  unfoldable pub save_body : String → Tx F
  save_body payload = exec (λ db. db) >>> decoded_save payload (decode payload)

  -- A transaction that fails is rolled back.
  unfoldable pub outcome : Database F → Option (Session F) → Bool × Database F
  outcome db none = (false, db)
  outcome db (some s) = (true, s.db)

  -- Save: whether it succeeds, and the database after it.
  unfoldable pub save : String → Session F → Bool × Database F
  save payload s = outcome s.db (save_body payload s)

  -- Load: the payload, if there is one.
  unfoldable pub load_payload : Database F → Option String
  load_payload db = elim db.snapshot [ none ↦ none | some row ↦ some row.payload ]
