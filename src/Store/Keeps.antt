-- ===== src/Store/Keeps.antt =====
-- What the statements of internal/data/postgres.go keep.
use xiuxian.Base.{
  ℕ, zero, suc, Option, none, some, List, [], ◌∷◌, String, ◌≡◌, refl, sym, subst, arith, inl, inr,
  Option-cases,
}
use xiuxian.Base.Dict.{Dict, lookup}
use xiuxian.World.Model.{Role, Account}
use xiuxian.Store.{PersistedWorld, Database, Session}
use xiuxian.Store.Mirror.{
  Tx, ◌>>>◌, after_statement, exec, each, mirror_role, mirror_account, mirror_opportunity,
  mirror_message, mirror_conversation, mirror_event, mirror_events, mirror_record, mirror_records,
  mirror_rest,
}

module _ {F : Type 0} where
  -- Where the statements succeed, what held of the database holds of it after them.
  pub record Keeps {ℓ} (P : Database F → Type ℓ) (m : Tx F) : Type ℓ where
    pub keeps : (s s' : Session F) → m s ≡ some s' → P s.db → P s'.db

  after_statement-db :
      (o : Option ℕ) (db : Database F) (t : Session F) → after_statement o db ≡ some t → t.db ≡ db
  unfolding after_statement
  after_statement-db none db t e = ground arith
  after_statement-db (some zero) db t e = absurd (ground arith)
  after_statement-db (some (suc n)) db t e = ground arith

  pub exec-db :
      (f : Database F → Database F) (s s' : Session F) → exec f s ≡ some s' → s'.db ≡ f s.db
  unfolding exec
  exec-db f s s' e = after_statement-db s.patience (f s.db) s' e

  pub then-cases :
      (m n : Tx F) (s t : Session F)
      → (m >>> n) s ≡ some t
      → (s' : Session F) × (m s ≡ some s') × (n s' ≡ some t)
  unfolding ◌>>>◌
  then-cases m n s t e = elim (Option-cases (m s)) [
    | inl stuck ↦ absurd (ground arith)
    | inr (s', ran) ↦ (s', ran, ground arith)
  ]

  module _ {ℓ} {P : Database F → Type ℓ} where
    pub exec-Keeps :
        (f : Database F → Database F) → ((db : Database F) → P db → P (f db)) → Keeps P (exec f)
    exec-Keeps f h = record { keeps = λ s s' e p. subst P (sym (exec-db f s s' e)) (h s.db p) }

    pub then-Keeps : {m n : Tx F} → Keeps P m → Keeps P n → Keeps P (m >>> n)
    then-Keeps {m} {n} p q = record {
      keeps = λ s t e h.
          let (s', first, second) = then-cases m n s t e in
          q.keeps s' t second (p.keeps s s' first h);
    }

    each-keeps {κ} :
        {A : Type κ} (f : A → Tx F)
        → ((a : A) → Keeps P (f a))
        → (as' : List A) (s t : Session F) → each f as' s ≡ some t
        → P s.db
        → P t.db
    unfolding each
    each-keeps f h [] s t e p =
        let same : s ≡ t = ground arith in subst (λ (x : Session F). P x.db) same p
    each-keeps f h (a ∷ as') s t e p = elim (Option-cases (f a s)) [
      | inl stuck ↦ absurd (ground arith)
      | inr (s', ran) ↦ each-keeps f h as' s' t (ground arith) ((h a).keeps s s' ran p)
    ]

    pub each-Keeps {κ} :
        {A : Type κ} (f : A → Tx F) (as' : List A)
        → ((a : A) → Keeps P (f a))
        → Keeps P (each f as')
    each-Keeps f as' h = record { keeps = λ s t e p. each-keeps f h as' s t e p }

  -- What a change of the other tables leaves alone, mirroring them leaves alone.
  pub rest-Keeps {ℓ} :
      (P : Database F → Type ℓ) (w : PersistedWorld F)
      → ((db db' : Database F)
          → db'.roles ≡ db.roles
          → db'.lives ≡ db.lives
          → db'.snapshot ≡ db.snapshot
          → db'.outbox ≡ db.outbox
          → db'.outbox_id ≡ db.outbox_id
          → P db
          → P db')
      → Keeps P (mirror_rest w)
  unfolding mirror_rest mirror_opportunity mirror_conversation mirror_message mirror_events
      mirror_event mirror_records mirror_record
  rest-Keeps P w others =
      then-Keeps
        (then-Keeps
          (then-Keeps
            (each-Keeps _ w.opportunities
              (λ o. exec-Keeps _ (λ db p. others db _ refl refl refl refl refl p)))
            (each-Keeps _ w.conversations (λ c.
              then-Keeps (exec-Keeps _ (λ db p. others db _ refl refl refl refl refl p)) (
                each-Keeps _ c.1.messages
                  (λ m. exec-Keeps _ (λ db p. others db _ refl refl refl refl refl p))))))
          (each-Keeps _ w.events (λ e.
            each-Keeps _ e.1 (λ x. exec-Keeps _ (λ db p. others db _ refl refl refl refl refl p)))))
        (each-Keeps _ w.idempotency (λ r.
          each-Keeps _ r.1 (λ x. exec-Keeps _ (λ db p. others db _ refl refl refl refl refl p))))

  -- An account of a role that is there takes four statements.
  pub account-Keeps {ℓ} :
      (P : Database F → Type ℓ) (roles : Dict Role) (a : String × Account)
      → ((role : Role) → lookup a.1.role_id roles ≡ some role → Keeps P (mirror_role a.0 a.1 role))
      → Keeps P (mirror_account roles a)
  unfolding mirror_account
  account-Keeps P roles (id, account) h = elim (Option-cases (lookup account.role_id roles)) [
    | inl missing ↦ record { keeps = λ s t e p. absurd (ground arith) }
    | inr (role, found) ↦ record { keeps = λ s t e p. (h role found).keeps s t (ground arith) p }
  ]
