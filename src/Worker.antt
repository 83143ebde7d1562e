-- ===== src/Worker.antt =====
-- cmd/worker/main.go: it publishes what the outbox of the database holds, and has the game server
-- settle the roles whose time is over. What fails outside is an argument.
mod Tests
pub mod Outbox
pub mod Rounds
pub mod Runs
pub mod Deadlines
use xiuxian.Base.{
  ℕ, ◌+◌, Bool, true, false, ◌&&◌, ◌||◌, not, Option, none, some, List, [], ◌∷◌, ◌++◌, String,
  if◌then◌else◌, ltb, leb, ◌==◌, map, take,
}
use xiuxian.Base.Int.{ℤ, ltb_ℤ, leb_ℤ, eqb_ℤ}
use xiuxian.Base.Dict.{Dict, lookup}
use xiuxian.Base.Sort.{sort}
use xiuxian.Base.Text.{str_eq, str_lt}
use xiuxian.World.Log.{unix_milli}
use xiuxian.World.Bond.{is_alive}
use xiuxian.Store.{RoleRow, LifeRow, OutboxRow, Database}

pub record DeadlineCandidate : Type 0 where
  pub role_id : String
  pub state_version : ℤ

-- redis.Z, with the score in whole milliseconds.
pub record Member : Type 0 where
  pub score : ℤ
  pub member : String

-- The database, the sorted set in Redis, in order of its scores, and what has been published.
pub record Worker (F : Type 0) : Type 0 where
  pub db : Database F
  pub deadlines : List Member
  pub published : List ℕ

-- Which of the steps of a round succeed.
pub record Luck : Type 0 where
  pub claims : Bool
  pub reads : Bool
  pub pipes : Bool
  pub publishes : Bool
  pub completes : Bool

-- The first row that is not completed, in order of the ids.
unfoldable pub first_pending : List OutboxRow → Option OutboxRow
first_pending [] = none
first_pending (row ∷ rows) = if row.completed then first_pending rows else some row

-- UPDATE outbox SET ... WHERE id = $1
unfoldable pub update_row : ℕ → (OutboxRow → OutboxRow) → List OutboxRow → List OutboxRow
update_row id f [] = []
update_row id f (row ∷ rows) = (if row.id == id then f row else row) ∷ update_row id f rows

abbrev pub attempt : OutboxRow → OutboxRow
attempt row = record row { attempts = row.attempts + 1 }

abbrev pub complete : OutboxRow → OutboxRow
complete row = record row { completed = true }

-- What Redis and the game server answer in a round of settleDue: whether the set is read, the status
-- for a candidate, unless the request fails, and whether a member is removed.
pub record Answers : Type 0 where
  pub ranges : Bool
  pub settles : DeadlineCandidate → Option ℕ
  pub removes : String → Bool

abbrev pub earlier_member : Member → Member → Bool
earlier_member a b = ltb_ℤ a.score b.score || eqb_ℤ a.score b.score && str_lt a.member b.member

-- The members that are due.
unfoldable pub due_members : ℤ → List Member → List Member
due_members now [] = []
due_members now (m ∷ ms) =
    let rest = due_members now ms in if leb_ℤ m.score now then m ∷ rest else rest

-- ZREM
unfoldable pub remove_member : String → List Member → List Member
remove_member m [] = []
remove_member m (x ∷ xs) =
    let rest = remove_member m xs in if str_eq x.member m then rest else x ∷ rest

unfoldable pub removed : Answers → String → List Member → List Member
removed answers m set = if answers.removes m then remove_member m set else set

unfoldable pub is_success : Option ℕ → Bool
is_success none = false
is_success (some status) = leb 200 status && ltb status 300

module _ (decode : String → Option DeadlineCandidate) (answers : Answers) where
  -- The loop over the members that are due: whether it ends without an error, and the set after it.
  unfoldable pub settle_members : List Member → List Member → Bool × List Member
  settle_members [] set = (true, set)
  settle_members (m ∷ ms) set =
      let rest = settle_members ms (removed answers m.member set) in
      elim (decode m.member) [
        | none ↦ rest
        | some candidate ↦
            if not (is_success (answers.settles candidate))
            then (false, set)
            else if answers.removes m.member
            then rest
            else (false, set)
      ]

  unfoldable pub settle_due : ℤ → List Member → Bool × List Member
  settle_due now set =
      if answers.ranges then settle_members (take 100 (due_members now set)) set else (false, set)

unfoldable pub set_outbox : {F : Type 0} → (List OutboxRow → List OutboxRow) → Worker F → Worker F
set_outbox f w = record w { db = record w.db { outbox = f w.db.outbox } }

module _ (encode : DeadlineCandidate → String) where
  unfoldable pub candidate_of : String → RoleRow → Option LifeRow → List Member
  candidate_of id role none = []
  candidate_of id role (some life) = elim life.next_death_at [
    | none ↦ []
    | some t ↦
        if is_alive role.status
        then record {
          score = unix_milli t;
          member = encode (record { role_id = id; state_version = role.state_version });
        }
          ∷ []
        else []
  ]

  -- The join of roles and lives.
  unfoldable pub candidates : Dict RoleRow → Dict LifeRow → List Member
  candidates [] lives = []
  candidates ((id, role) ∷ roles) lives =
      candidate_of id role (lookup id lives) ++ candidates roles lives

  module _ {F : Type 0} where
    -- projectDeadlines: the set is replaced as a whole.
    unfoldable pub project_deadlines : Luck → Worker F → Bool × Worker F
    project_deadlines luck w =
        if luck.reads && luck.pipes
        then (true, record w { deadlines = sort earlier_member (candidates w.db.roles w.db.lives) })
        else (false, w)

    -- A claimed row: project, publish, complete.
    unfoldable pub deliver : Luck → OutboxRow → Worker F → Worker F
    deliver luck row w =
        let (projected, w') = project_deadlines luck w in
        if not projected
        then w'
        else if not luck.publishes
        then w'
        else (let w'' = record w' { published = w'.published ++ row.state_version ∷ [] } in
            if luck.completes then set_outbox (update_row row.id complete) w'' else w'')

    -- processOutbox: a row is claimed, in a transaction of its own, and delivered.
    unfoldable pub process_outbox : Luck → Worker F → Worker F
    process_outbox luck w = elim (first_pending w.db.outbox) [
      | none ↦ w
      | some row ↦
          if luck.claims then deliver luck row (set_outbox (update_row row.id attempt) w) else w
    ]
