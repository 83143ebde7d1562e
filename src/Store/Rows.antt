-- ===== src/Store/Rows.antt =====
-- The rows of a role that mirrorNormalizedState of internal/data/postgres.go writes.
use xiuxian.Base.{
  false, Option, none, some, String, ◌≡◌, refl, sym, ◌∙◌, ap, subst, arith, inl, inr, Bool-cases,
}
use xiuxian.Base.Dict.{Dict, lookup, insert, lookup-insert, lookup-insert_self, str_eq_iff}
use xiuxian.Base.Text.{str_eq}
use xiuxian.World.Model.{Role, Account}
use xiuxian.Store.{RoleRow, Database, Session}
use xiuxian.Store.Mirror.{
  role_row, merged_role, life_row, put_account, put_role, put_life, put_trajectory, mirror_role,
}
use xiuxian.Store.Keeps.{Keeps, exec-db, then-cases}

-- Everything of a role that the tables show of it, but the name and the account, which are never
-- written again.
pub record Shows (role : Role) (row : RoleRow) : Type 0 where
  pub life_number : row.life_number ≡ role.life_number
  pub status : row.status ≡ role.status
  pub key : row.mcp_key_hash ≡ (role_row "" role).mcp_key_hash
  pub state_version : row.state_version ≡ role.state_version
  pub rule_version : row.rule_version ≡ role.rule_version

merged_role-Shows :
    (account_id : String) (role : Role) (old : Option RoleRow)
    → Shows role (merged_role account_id role old)
unfolding merged_role role_row
merged_role-Shows account_id role none = record {
  life_number = refl;
  status = refl;
  key = refl;
  state_version = refl;
  rule_version = refl;
}
merged_role-Shows account_id role (some old) = record {
  life_number = refl;
  status = refl;
  key = refl;
  state_version = refl;
  rule_version = refl;
}

lookup-insert_other {ℓ} :
    {V : Type ℓ} (k j : String) (v : V) (m : Dict V)
    → str_eq k j ≡ false
    → lookup j (insert k v m) ≡ lookup j m
lookup-insert_other k j v m e = ground (arith, lookup-insert k j v m)

-- Every role stands under its id.
abbrev pub ByTheirIds : Dict Role → Type 0
ByTheirIds roles = (k : String) (r : Role) → lookup k roles ≡ some r → r.id ≡ k

pub one_role :
    (roles : Dict Role) (j k : String) (q r : Role)
    → ByTheirIds roles
    → lookup j roles ≡ some q
    → lookup k roles ≡ some r
    → q.id ≡ r.id
    → q ≡ r
one_role roles j k q r h eq er same =
    let keys : j ≡ k = sym (h j q eq) ∙ same ∙ h k r er in
    let found : some q ≡ some r = sym eq ∙ ap (λ x. lookup x roles) keys ∙ er in cc

module _ {F : Type 0} where
  -- The rows of a role and of its life are those of the role.
  pub record Mirrored (role : Role) (db : Database F) : Type 0 where
    pub row : RoleRow
    pub found : lookup role.id db.roles ≡ some row
    pub shows : Shows role row
    pub life : lookup role.id db.lives ≡ some (life_row role)

  abbrev pub written : String → Account → Role → Database F → Database F
  written id account role db =
      put_trajectory role role.trajectory
        (put_life role (put_role id role (put_account id account db)))

  pub mirror_role-written :
      (id : String) (account : Account) (role : Role) (s t : Session F)
      → mirror_role id account role s ≡ some t
      → t.db ≡ written id account role s.db
  unfolding mirror_role
  mirror_role-written id account role s t e =
      let (s3, e3, last) = then-cases _ _ s t e in
      let (s2, e2, third) = then-cases _ _ s s3 e3 in
      let (s1, first, second) = then-cases _ _ s s2 e2 in
      exec-db _ s3 t last
      ∙ ap (put_trajectory role role.trajectory) (
          exec-db _ s2 s3 third
          ∙ ap (put_life role)
              (exec-db _ s1 s2 second ∙ ap (put_role id role) (exec-db _ s s1 first)))

  pub written-tables :
      (id : String) (account : Account) (role : Role) (db : Database F)
      → ((written id account role db).roles
          ≡ insert role.id (merged_role id role (lookup role.id db.roles)) db.roles)
        × ((written id account role db).lives ≡ insert role.id (life_row role) db.lives)
        × ((written id account role db).snapshot ≡ db.snapshot)
        × ((written id account role db).outbox ≡ db.outbox)
        × ((written id account role db).outbox_id ≡ db.outbox_id)
  unfolding put_trajectory put_life put_role put_account
  written-tables id account role db = ground arith

  pub mirror_role-Mirrored :
      (id : String) (account : Account) (role : Role) (s t : Session F)
      → mirror_role id account role s ≡ some t
      → Mirrored role t.db
  mirror_role-Mirrored id account role s t e =
      let same = mirror_role-written id account role s t e in
      let tables = written-tables id account role s.db in
      record {
        row = merged_role id role (lookup role.id s.db.roles);
        found =
            ap (λ (d : Database F). lookup role.id d.roles) same
            ∙ ap (lookup role.id) tables.0
            ∙ lookup-insert_self role.id _ s.db.roles;
        shows = merged_role-Shows id role (lookup role.id s.db.roles);
        life =
            ap (λ (d : Database F). lookup role.id d.lives) same
            ∙ ap (lookup role.id) tables.1
            ∙ lookup-insert_self role.id _ s.db.lives;
      }

  -- Mirroring a role keeps what is mirrored of any other, and of the same role.
  pub mirror_role-Keeps :
      (id : String) (account : Account) (role r : Role)
      → (role.id ≡ r.id → role ≡ r)
      → Keeps (Mirrored r) (mirror_role id account role)
  mirror_role-Keeps id account role r one = record {
    keeps = λ s t e p. elim (Bool-cases (str_eq role.id r.id)) [
      | inl same ↦
          subst (λ x. Mirrored x t.db) (one ((str_eq_iff role.id r.id).0 same))
            (mirror_role-Mirrored id account role s t e)
      | inr other ↦
          let same = mirror_role-written id account role s t e in
          let tables = written-tables id account role s.db in
          record {
            row = p.row;
            found =
                ap (λ (d : Database F). lookup r.id d.roles) same
                ∙ ap (lookup r.id) tables.0
                ∙ lookup-insert_other role.id r.id _ s.db.roles other
                ∙ p.found;
            shows = p.shows;
            life =
                ap (λ (d : Database F). lookup r.id d.lives) same
                ∙ ap (lookup r.id) tables.1
                ∙ lookup-insert_other role.id r.id _ s.db.lives other
                ∙ p.life;
          }
    ];
  }
