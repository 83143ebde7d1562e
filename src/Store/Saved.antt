-- ===== src/Store/Saved.antt =====
-- What a save of internal/data/postgres.go leaves behind.
use xiuxian.Base.{
  ◌+◌, true, false, Option, none, some, List, [], ◌∷◌, ◌++◌, String, ◌≡◌, refl, ◌∙◌, ap, subst,
  arith, inl, inr, ◌⊎◌, Option-cases,
}
use xiuxian.Base.Dict.{Dict, lookup}
use xiuxian.World.Model.{Role, Account}
use xiuxian.Store.{PersistedWorld, Database, Session}
use xiuxian.Store.Mirror.{each, mirror_account, mirror_normalized_state}
use xiuxian.Store.Save.{
  changed_role_ids, lock_role_rows, next_version, put_snapshot, put_outbox, save_steps,
  decoded_save, save_body, outcome, save,
}
use xiuxian.Store.Keeps.{
  Keeps, exec-db, then-cases, then-Keeps, each-Keeps, rest-Keeps, account-Keeps,
}
use xiuxian.Store.Rows.{
  Mirrored, ByTheirIds, one_role, written-tables, mirror_role-written, mirror_role-Mirrored,
  mirror_role-Keeps,
}

module _ {F : Type 0} where
  mirror_account-Mirrored :
      (roles : Dict Role) (id : String) (account : Account) (role : Role) (s t : Session F)
      → lookup account.role_id roles ≡ some role
      → mirror_account roles (id, account) s ≡ some t
      → Mirrored role t.db
  unfolding mirror_account
  mirror_account-Mirrored roles id account role s t found e =
      mirror_role-Mirrored id account role s t (ground arith)

  -- The roles of all accounts are mirrored.
  abbrev pub AllMirrored : Dict Role → Dict Account → Database F → Type 0
  AllMirrored roles [] db = Unit {0}
  AllMirrored roles ((id, account) ∷ accounts) db =
      ((role : Role) → lookup account.role_id roles ≡ some role → Mirrored role db)
      × AllMirrored roles accounts db

  accounts-AllMirrored :
      (roles : Dict Role) (accounts : Dict Account) (s t : Session F)
      → ByTheirIds roles
      → each (mirror_account roles) accounts s ≡ some t
      → AllMirrored roles accounts t.db
  unfolding each
  accounts-AllMirrored roles [] s t h e = tt
  accounts-AllMirrored roles ((id, account) ∷ accounts) s t h e =
      elim (Option-cases (mirror_account roles (id, account) s)) [
        | inl stuck ↦ absurd (ground arith)
        | inr (s', ran) ↦
            let rest : each (mirror_account roles) accounts s' ≡ some t = ground arith in
            (
              (λ role found.
                  (each-Keeps (mirror_account roles) accounts (λ a.
                      account-Keeps (Mirrored role) roles a (λ r there.
                        mirror_role-Keeps a.0 a.1 r role
                          (one_role roles a.1.role_id account.role_id r role h there found)))).keeps
                    s' t rest (mirror_account-Mirrored roles id account role s s' found ran)),
              accounts-AllMirrored roles accounts s' t h rest,
            )
      ]

  rest-AllMirrored :
      (roles : Dict Role) (accounts : Dict Account) (db db' : Database F)
      → db'.roles ≡ db.roles
      → db'.lives ≡ db.lives
      → AllMirrored roles accounts db
      → AllMirrored roles accounts db'
  rest-AllMirrored roles [] db db' r l h = tt
  rest-AllMirrored roles ((id, account) ∷ accounts) db db' r l h = (
    (λ role found.
        let m = h.0 role found in
        record {
          row = m.row;
          found = ap (lookup role.id) r ∙ m.found;
          shows = m.shows;
          life = ap (lookup role.id) l ∙ m.life;
        }),
    rest-AllMirrored roles accounts db db' r l h.1,
  )

  mirror-AllMirrored :
      (w : PersistedWorld F) (s t : Session F)
      → ByTheirIds w.roles
      → mirror_normalized_state w s ≡ some t
      → AllMirrored w.roles w.accounts t.db
  unfolding mirror_normalized_state
  mirror-AllMirrored w s t h e =
      let (s', first, second) = then-cases _ _ s t e in
      (rest-Keeps (AllMirrored w.roles w.accounts) w
          (λ db db' r l _ _ _ p. rest-AllMirrored w.roles w.accounts db db' r l p)).keeps
        s' t second (accounts-AllMirrored w.roles w.accounts s s' h first)

  -- The snapshot and the outbox of a database.
  abbrev HeadOf : Database F → Database F → Type 0
  HeadOf d db = (db.snapshot ≡ d.snapshot) × (db.outbox ≡ d.outbox) × (db.outbox_id ≡ d.outbox_id)

  account-HeadOf :
      (d : Database F) (roles : Dict Role) (a : String × Account)
      → Keeps (HeadOf d) (mirror_account roles a)
  account-HeadOf d roles a = account-Keeps (HeadOf d) roles a λ role found. record {
    keeps = λ s t e p.
        let same = mirror_role-written a.0 a.1 role s t e in
        let tables = written-tables a.0 a.1 role s.db in
        (
          ap (λ (x : Database F). x.snapshot) same ∙ tables.2 ∙ p.0,
          ap (λ (x : Database F). x.outbox) same ∙ tables.3 ∙ p.1,
          ap (λ (x : Database F). x.outbox_id) same ∙ tables.4 ∙ p.2,
        );
  }

  mirror-HeadOf :
      (d : Database F) (w : PersistedWorld F) → Keeps (HeadOf d) (mirror_normalized_state w)
  unfolding mirror_normalized_state
  mirror-HeadOf d w =
      then-Keeps (each-Keeps _ w.accounts (account-HeadOf d w.roles))
        (rest-Keeps (HeadOf d) w (λ db db' r l s o i p. (s ∙ p.0, o ∙ p.1, i ∙ p.2)))

  module _ (decode : String → Option (PersistedWorld F)) where
    -- What a save that succeeds has done to the database.
    pub record IsSaved (payload : String) (before after : Database F) : Type 0 where
      pub world : PersistedWorld F
      pub decodes : decode payload ≡ some world
      pub snapshot :
          after.snapshot
          ≡ some (record { payload = payload; state_version = next_version decode before.snapshot })
      pub outbox :
          after.outbox
          ≡ before.outbox
            ++ record {
              id = before.outbox_id + 1;
              state_version = next_version decode before.snapshot;
              attempts = 0;
              completed = false;
            }
              ∷ []
      pub mirrored : AllMirrored world.roles world.accounts after

    -- Every role of the payload stands under its id.
    abbrev pub HasIds : String → Type 0
    HasIds payload = (w : PersistedWorld F) → decode payload ≡ some w → ByTheirIds w.roles

    lock-db :
        (ids : List String) (s t : Session F) → lock_role_rows decode ids s ≡ some t → t.db ≡ s.db
    unfolding lock_role_rows
    lock-db [] s t e = ground arith
    lock-db (id ∷ ids) s t e = exec-db (λ db. db) s t e

    steps-IsSaved :
        (payload : String) (ids : List String) (w : PersistedWorld F) (s t : Session F)
        → HasIds payload
        → decode payload ≡ some w
        → save_steps decode payload ids w (next_version decode s.db.snapshot) s ≡ some t
        → IsSaved payload s.db t.db
    unfolding save_steps put_snapshot put_outbox
    steps-IsSaved payload ids w s t h d e =
        let (s4, e4, commit) = then-cases _ _ s t e in
        let (s3, e3, sent) = then-cases _ _ s s4 e4 in
        let (s2, e2, mirror) = then-cases _ _ s s3 e3 in
        let (s1, lock, put) = then-cases _ _ s s2 e2 in
        let locked = lock-db ids s s1 lock in
        let stored = exec-db _ s1 s2 put in
        let head = (mirror-HeadOf s2.db w).keeps s2 s3 mirror (refl, refl, refl) in
        let noted = exec-db _ s3 s4 sent in
        let done = exec-db _ s4 t commit in
        record {
          world = w;
          decodes = d;
          snapshot = ground arith;
          outbox = ground arith;
          mirrored =
              rest-AllMirrored w.roles w.accounts s3.db t.db
                (ap (λ (x : Database F). x.roles) (done ∙ noted))
                (ap (λ (x : Database F). x.lives) (done ∙ noted))
                (mirror-AllMirrored w s2 s3 (h w d) mirror);
        }

    decoded-IsSaved :
        (payload : String) (o : Option (PersistedWorld F)) (s t : Session F)
        → HasIds payload
        → decode payload ≡ o
        → decoded_save decode payload o s ≡ some t
        → IsSaved payload s.db t.db
    unfolding decoded_save
    decoded-IsSaved payload none s t h d e = absurd (ground arith)
    decoded-IsSaved payload (some w) s t h d e =
        elim (Option-cases (changed_role_ids decode s.db.snapshot w)) [
          | inl failed ↦ absurd (ground arith)
          | inr (ids, changed) ↦ steps-IsSaved payload ids w s t h d (ground arith)
        ]

    body-IsSaved :
        (payload : String) (s t : Session F)
        → HasIds payload
        → save_body decode payload s ≡ some t
        → IsSaved payload s.db t.db
    unfolding save_body
    body-IsSaved payload s t h e =
        let (s1, first, rest) = then-cases _ _ s t e in
        subst (λ (db : Database F). IsSaved payload db t.db) (exec-db (λ db. db) s s1 first)
          (decoded-IsSaved payload (decode payload) s1 t h refl rest)

    outcome_cases :
        (payload : String) (s : Session F) (o : Option (Session F))
        → HasIds payload
        → save_body decode payload s ≡ o
        → (outcome decode s.db o ≡ (false, s.db))
          ⊎ (((outcome decode s.db o).0 ≡ true) × IsSaved payload s.db (outcome decode s.db o).1)
    unfolding outcome
    outcome_cases payload s none h e = inl refl
    outcome_cases payload s (some t) h e = inr (refl, body-IsSaved payload s t h e)

    -- Save does all or nothing, if every role of the payload stands under its id. It fails and leaves
    -- the database as it was; or it succeeds, and then the snapshot is the payload with the next
    -- version, outbox has one more row, not completed, with that version and the next id, and the
    -- rows of the role and of the life of every account are those of the payload's role.
    pub save_lem :
        (payload : String) (s : Session F)
        → HasIds payload
        → (save decode payload s ≡ (false, s.db))
          ⊎ (((save decode payload s).0 ≡ true) × IsSaved payload s.db (save decode payload s).1)
    unfolding save
    save_lem payload s h = outcome_cases payload s (save_body decode payload s) h refl
