-- ===== src/Store/Succeeds.antt =====
-- When a save of internal/data/postgres.go succeeds.
use xiuxian.Base.{
  inl, inr, sym, Bool, ℕ, true, Option, none, some, List, [], ◌∷◌, String, ◌≡◌, refl, ◌∙◌, ap,
  arith,
}
use xiuxian.Base.Dict.{Dict, lookup}
use xiuxian.World.Model.{Role, Account}
use xiuxian.Store.{PersistedWorld, Database, Session}
use xiuxian.Store.Mirror.{
  Tx, ◌>>>◌, after_statement, exec, each, mirror_role, mirror_account, mirror_opportunity,
  mirror_message, mirror_conversation, mirror_event, mirror_events, mirror_record, mirror_records,
  mirror_rest, mirror_normalized_state,
}
use xiuxian.Store.Save.{
  changed_ids, changed_role_ids, roles_of_payload, lock_role_rows, next_version, save_steps,
  decoded_save, save_body, outcome, save,
}
use xiuxian.Store.Keeps.{exec-db}
use xiuxian.Store.Saved.{IsSaved, HasIds, save_lem}

-- The role of every account is there.
abbrev pub HaveRoles : Dict Role → Dict Account → Type 0
HaveRoles roles [] = Unit {0}
HaveRoles roles ((id, account) ∷ accounts) =
    ((role : Role) × (lookup account.role_id roles ≡ some role)) × HaveRoles roles accounts

module _ {F : Type 0} where
  -- Where no statement fails, the transaction goes on.
  record Goes (m : Tx F) : Type 0 where
    goes :
        (s : Session F) → s.patience ≡ none → (t : Session F) × (m s ≡ some t) × (t.patience ≡ none)

  exec-Goes : (f : Database F → Database F) → Goes (exec f)
  unfolding exec after_statement
  exec-Goes f = record { goes = λ s e. (record { db = f s.db; patience = none }, rw e refl, refl) }

  then_step :
      (m n : Tx F) (s s1 t : Session F) → m s ≡ some s1 → n s1 ≡ some t → (m >>> n) s ≡ some t
  unfolding ◌>>>◌
  then_step m n s s1 t first second = ground arith

  each_step {κ} :
      {A : Type κ} (f : A → Tx F) (a : A) (as' : List A) (s s1 t : Session F)
      → f a s ≡ some s1
      → each f as' s1 ≡ some t
      → each f (a ∷ as') s ≡ some t
  unfolding each
  each_step f a as' s s1 t first more = ground arith

  account_step :
      (roles : Dict Role) (id : String) (account : Account) (role : Role) (s t : Session F)
      → lookup account.role_id roles ≡ some role
      → mirror_role id account role s ≡ some t
      → mirror_account roles (id, account) s ≡ some t
  unfolding mirror_account
  account_step roles id account role s t found ran = ground arith

  then-Goes : {m n : Tx F} → Goes m → Goes n → Goes (m >>> n)
  then-Goes {m} {n} p q = record {
    goes = λ s e.
        let (s1, first, e1) = p.goes s e in
        let (t, second, e2) = q.goes s1 e1 in (t, then_step m n s s1 t first second, e2);
  }

  each-Goes' {κ} :
      {A : Type κ} (f : A → Tx F)
      → ((a : A) → Goes (f a))
      → (as' : List A) (s : Session F) → s.patience ≡ none
      → (t : Session F) × (each f as' s ≡ some t) × (t.patience ≡ none)
  unfolding each
  each-Goes' f h [] s e = (s, refl, e)
  each-Goes' f h (a ∷ as') s e =
      let (s1, first, e1) = (h a).goes s e in
      let (t, more, e2) = each-Goes' f h as' s1 e1 in (t, each_step f a as' s s1 t first more, e2)

  each-Goes {κ} :
      {A : Type κ} (f : A → Tx F) (as' : List A) → ((a : A) → Goes (f a)) → Goes (each f as')
  each-Goes f as' h = record { goes = λ s e. each-Goes' f h as' s e }

  rest-Goes : (w : PersistedWorld F) → Goes (mirror_rest w)
  unfolding mirror_rest mirror_opportunity mirror_conversation mirror_message mirror_events
      mirror_event mirror_records mirror_record
  rest-Goes w =
      then-Goes
        (then-Goes
          (then-Goes (each-Goes _ w.opportunities (λ o. exec-Goes _)) (
            each-Goes _ w.conversations
              (λ c. then-Goes (exec-Goes _) (each-Goes _ c.1.messages (λ m. exec-Goes _)))))
          (each-Goes _ w.events (λ e. each-Goes _ e.1 (λ x. exec-Goes _))))
        (each-Goes _ w.idempotency (λ r. each-Goes _ r.1 (λ x. exec-Goes _)))

  role-Goes : (id : String) (account : Account) (role : Role) → Goes (mirror_role id account role)
  unfolding mirror_role
  role-Goes id account role =
      then-Goes (then-Goes (then-Goes (exec-Goes _) (exec-Goes _)) (exec-Goes _)) (exec-Goes _)

  accounts-goes :
      (roles : Dict Role) (accounts : Dict Account) (s : Session F)
      → HaveRoles roles accounts
      → s.patience ≡ none
      → (t : Session F) × (each (mirror_account roles) accounts s ≡ some t) × (t.patience ≡ none)
  unfolding each
  accounts-goes roles [] s h e = (s, refl, e)
  accounts-goes roles ((id, account) ∷ accounts) s ((role, found), h) e =
      let (s1, first, e1) = (role-Goes id account role).goes s e in
      let (t, more, e2) = accounts-goes roles accounts s1 h e1 in
      (
        t,
        each_step (mirror_account roles) (id, account) accounts s s1 t
            (account_step roles id account role s s1 found first) more,
        e2,
      )

  mirror-Goes :
      (w : PersistedWorld F) → HaveRoles w.roles w.accounts → Goes (mirror_normalized_state w)
  unfolding mirror_normalized_state
  mirror-Goes w h =
      then-Goes (record { goes = λ s e. accounts-goes w.roles w.accounts s h e }) (rest-Goes w)

  module _ (decode : String → Option (PersistedWorld F)) where
    lock-Goes : (ids : List String) → Goes (lock_role_rows decode ids)
    unfolding lock_role_rows
    lock-Goes [] = record { goes = λ s e. (s, refl, e) }
    lock-Goes (id ∷ ids) = exec-Goes (λ db. db)

    steps-Goes :
        (payload : String) (ids : List String) (w : PersistedWorld F) (version : ℕ)
        → HaveRoles w.roles w.accounts
        → Goes (save_steps decode payload ids w version)
    unfolding save_steps
    steps-Goes payload ids w version h =
        then-Goes
          (then-Goes (then-Goes (then-Goes (lock-Goes ids) (exec-Goes _)) (mirror-Goes w h))
            (exec-Goes _))
          (exec-Goes _)

    decoded-goes :
        (payload : String) (w : PersistedWorld F) (roles : Dict Role) (s : Session F)
        → roles_of_payload decode s.db.snapshot ≡ some roles
        → HaveRoles w.roles w.accounts
        → s.patience ≡ none
        → (t : Session F) × (decoded_save decode payload (some w) s ≡ some t)
    unfolding decoded_save changed_role_ids
    decoded-goes payload w roles s known h e =
        let (t, ran, _) =
          (steps-Goes payload (changed_ids roles w.roles) w (next_version decode s.db.snapshot)
              h).goes
            s e in
        (t, ground arith)

    save_ran :
        (payload : String) (s t : Session F)
        → save_body decode payload s ≡ some t
        → (save decode payload s).0 ≡ true
    unfolding save outcome
    save_ran payload s t e = ground arith

    succeeded :
        (payload : String) (s t : Session F)
        → HasIds decode payload
        → save_body decode payload s ≡ some t
        → ((save decode payload s).0 ≡ true) × IsSaved decode payload s.db (save decode payload s).1
    succeeded payload s t h e = elim (save_lem decode payload s h) [
      | inl failed ↦
          absurd (cc (sym (save_ran payload s t e) ∙ ap (λ (r : Bool × Database F). r.0) failed))
      | inr saved ↦ saved
    ]

    -- A save succeeds and saves the payload if no statement fails, the payload decodes, and so does
    -- the payload that the database holds, if any, and every account of the payload has its role,
    -- and every role stands under its id: the snapshot is the payload with the next version, outbox
    -- has one more row after those it had, not completed, with that version and the next id, and the
    -- rows of the role and of the life of every account are those of the payload's role.
    pub save-succeeds :
        (payload : String) (w : PersistedWorld F) (roles : Dict Role) (s : Session F)
        → s.patience ≡ none
        → decode payload ≡ some w
        → roles_of_payload decode s.db.snapshot ≡ some roles
        → HaveRoles w.roles w.accounts
        → HasIds decode payload
        → ((save decode payload s).0 ≡ true) × IsSaved decode payload s.db (save decode payload s).1
    unfolding save_body
    save-succeeds payload w roles s e d known h ids =
        let (s1, read, e1) = (exec-Goes (λ db. db)).goes s e in
        let same = exec-db (λ db. db) s s1 read in
        let (t, ran) =
          decoded-goes payload w roles s1
            (ap (λ (x : Database F). roles_of_payload decode x.snapshot) same ∙ known) h e1 in
        succeeded payload s t ids
          (then_step _ _ s s1 t read (ap (λ o. decoded_save decode payload o s1) d ∙ ran))
