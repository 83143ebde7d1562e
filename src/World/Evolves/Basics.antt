-- ===== src/World/Evolves/Basics.antt =====
-- The relation between an earlier and a later world, and the changes that it is made of.
use xiuxian.Base.{
  ℕ, ◌+◌, ◌≤◌, ◌<◌, ◌≡◌, refl, ap, sym, ◌∙◌, ◌⊎◌, inl, inr, Option, none, some, List, [], ◌∷◌, ◌++◌,
  String, arith, if◌then◌else◌, Bool-cases, Option-cases, subst,
}
use mathlib.Core.List.{append_assoc, append-nil}
use xiuxian.Base.Int.{◌≤ℤ◌}
use xiuxian.Base.Dict.{
  Dict, lookup, insert, adjust, lookup-insert, lookup-adjust-none, lookup-adjust_self,
  lookup-adjust_ne, str_eq_iff,
}
use xiuxian.Base.Text.{str_eq}
use xiuxian.Base.Number.{role_text}
use xiuxian.Rules.Units.{Time}
use xiuxian.World.Host.{Host}
use xiuxian.World.Model.{World, Role, Event, Value}
use xiuxian.World.Log.{update_role, of_role, append_event, log_of, log_entry}

-- A later version of a role.
pub record Older (r r' : Role) : Type 0 where
  pub same_id : r.id ≡ r'.id
  pub same_account : r.account ≡ r'.account
  pub same_name : r.name ≡ r'.name
  pub lives_grow : r.life_number ≤ℤ r'.life_number
  pub versions_grow : r.state_version ≤ℤ r'.state_version

pub Older-refl : (r : Role) → Older r r
Older-refl r = ground arith

pub Older-trans : (a b c : Role) → Older a b → Older b c → Older a c
Older-trans a b c p q = record {
  same_id = p.same_id ∙ q.same_id;
  same_account = p.same_account ∙ q.same_account;
  same_name = p.same_name ∙ q.same_name;
  lives_grow = omega arith;
  versions_grow = omega arith;
}

-- A role's key that was numbered within a range.
pub record Named (lo hi : ℕ) (k : String) : Type 0 where
  pub number : ℕ
  pub above : lo < number
  pub upto : number ≤ hi
  pub text : k ≡ role_text number

-- Numbers that rise from above `lo`, up to `hi`.
abbrev pub Numbered : {F : Type 0} → ℕ → ℕ → List (Event F) → Type 0
Numbered lo hi [] = lo ≤ hi
Numbered lo hi (e ∷ es) = (lo < e.id) × Numbered e.id hi es

pub Numbered-append :
    {F : Type 0} (lo mid hi : ℕ) (xs ys : List (Event F))
    → Numbered lo mid xs
    → Numbered mid hi ys
    → Numbered lo hi (xs ++ ys)
Numbered-append lo mid hi [] [] p q = omega arith
Numbered-append lo mid hi [] (y ∷ ys) p q = (omega arith, q.1)
Numbered-append lo mid hi (x ∷ xs) ys p q = (p.0, Numbered-append x.id mid hi xs ys p.1 q)

module _ (host : Host) where
  abbrev pub Log : Type 0
  Log = List (Event host.float.F)

  -- A log that has grown by numbered entries.
  pub record Extends (lo hi : ℕ) (old new : Log) : Type 0 where
    pub added : Log
    pub grown : new ≡ old ++ added
    pub numbered : Numbered lo hi added

  pub record Evolves (s s' : World host) : Type 0 where
    pub numbers_grow : s.event_sequence ≤ s'.event_sequence
    pub ids_grow : s.next_id ≤ s'.next_id
    pub min_x_falls : s'.min_x ≤ℤ s.min_x
    pub max_x_grows : s.max_x ≤ℤ s'.max_x
    pub min_y_falls : s'.min_y ≤ℤ s.min_y
    pub max_y_grows : s.max_y ≤ℤ s'.max_y
    pub logs_extend :
        (id : String)
        → Extends s.event_sequence s'.event_sequence (log_of host id s) (log_of host id s')
    pub roles_stay :
        (k : String) (r : Role)
        → lookup k s.roles ≡ some r
        → (r' : Role) × (lookup k s'.roles ≡ some r') × Older r r'
    pub roles_come :
        (k : String)
        → lookup k s.roles ≡ none
        → (lookup k s'.roles ≡ none) ⊎ Named s.next_id s'.next_id k

  Extends-refl : (n : ℕ) (l : Log) → Extends n n l l
  Extends-refl n l = record { added = []; grown = sym (append-nil l); numbered = omega arith }

  Extends-trans :
      (lo mid hi : ℕ) (a b c : Log) → Extends lo mid a b → Extends mid hi b c → Extends lo hi a c
  Extends-trans lo mid hi a b c p q = record {
    added = p.added ++ q.added;
    grown = q.grown ∙ ap (λ t. t ++ q.added) p.grown ∙ append_assoc a p.added q.added;
    numbered = Numbered-append lo mid hi p.added q.added p.numbered q.numbered;
  }

  pub Evolves-refl : (s : World host) → Evolves s s
  Evolves-refl s = record {
    numbers_grow = omega arith;
    ids_grow = omega arith;
    min_x_falls = omega arith;
    max_x_grows = omega arith;
    min_y_falls = omega arith;
    max_y_grows = omega arith;
    logs_extend = λ id. Extends-refl s.event_sequence (log_of host id s);
    roles_stay = λ k r e. (r, e, Older-refl r);
    roles_come = λ k e. inl e;
  }

  come_trans :
      (lo mid hi : ℕ) (k : String) (a b c : Option Role)
      → lo ≤ mid
      → mid ≤ hi
      → (a ≡ none → (b ≡ none) ⊎ Named lo mid k)
      → (b ≡ none → (c ≡ none) ⊎ Named mid hi k)
      → a ≡ none
      → (c ≡ none) ⊎ Named lo hi k
  come_trans lo mid hi k a b c l m p q e = elim (p e) [
    | inr n ↦ inr (record { number = n.number; above = n.above; upto = omega arith; text = n.text })
    | inl e' ↦ elim (q e') [
      | inl e'' ↦ inl e''
      | inr n ↦
          inr (record { number = n.number; above = omega arith; upto = n.upto; text = n.text })
    ]
  ]

  pub Evolves-trans : {s t u : World host} → Evolves s t → Evolves t u → Evolves s u
  Evolves-trans {s} {t} {u} p q = record {
    numbers_grow = omega arith;
    ids_grow = omega arith;
    min_x_falls = omega arith;
    max_x_grows = omega arith;
    min_y_falls = omega arith;
    max_y_grows = omega arith;
    logs_extend = λ id. Extends-trans _ _ _ _ _ _ (p.logs_extend id) (q.logs_extend id);
    roles_stay = λ k r e.
        let (r', e', o) = p.roles_stay k r e in
        let (r'', e'', o') = q.roles_stay k r' e' in (r'', e'', Older-trans r r' r'' o o');
    roles_come = λ k.
        come_trans s.next_id t.next_id u.next_id k (lookup k s.roles) (lookup k t.roles)
          (lookup k u.roles) p.ids_grow q.ids_grow (p.roles_come k) (q.roles_come k);
  }

  -- A change of what the relation does not speak of.
  pub quiet-Evolves :
      (s s' : World host)
      → s'.event_sequence ≡ s.event_sequence
      → s'.events ≡ s.events
      → s'.roles ≡ s.roles
      → s.next_id ≤ s'.next_id
      → s'.min_x ≤ℤ s.min_x
      → s.max_x ≤ℤ s'.max_x
      → s'.min_y ≤ℤ s.min_y
      → s.max_y ≤ℤ s'.max_y
      → Evolves s s'
  quiet-Evolves s s' n ev ro i a b c d = record {
    numbers_grow = omega arith;
    ids_grow = i;
    min_x_falls = a;
    max_x_grows = b;
    min_y_falls = c;
    max_y_grows = d;
    logs_extend = λ id. rw (n, ev) (Extends-refl s.event_sequence (log_of host id s));
    roles_stay = λ k r e. (r, rw ro e, Older-refl r);
    roles_come = λ k e. inl (rw ro e);
  }

  lookup-adjust-Older :
      (k j : String) (f : Role → Role) (roles : Dict Role) (r : Role)
      → ((x : Role) → Older x (f x))
      → lookup j roles ≡ some r
      → (r' : Role) × (lookup j (adjust k f roles) ≡ some r') × Older r r'
  lookup-adjust-Older k j f roles r up e = elim (Bool-cases (str_eq k j)) [
    | inl t ↦
        let same : k ≡ j = (str_eq_iff k j).0 t in
        (f r, rw same (lookup-adjust_self j f roles r e), up r)
    | inr t ↦
        (r, lookup-adjust_ne k j f roles (λ same. cc ((str_eq_iff k j).1 same)) ∙ e, Older-refl r)
  ]

  -- A change of one role that keeps its names and does not lower its counters.
  pub update_role-Evolves :
      (k : String) (f : Role → Role) (s : World host)
      → ((x : Role) → Older x (f x))
      → Evolves s (update_role host k f s)
  unfolding update_role
  update_role-Evolves k f s up = record {
    numbers_grow = omega arith;
    ids_grow = omega arith;
    min_x_falls = omega arith;
    max_x_grows = omega arith;
    min_y_falls = omega arith;
    max_y_grows = omega arith;
    logs_extend = λ id. Extends-refl s.event_sequence (log_of host id s);
    roles_stay = λ j r e. lookup-adjust-Older k j f s.roles r up e;
    roles_come = λ j e. inl (lookup-adjust-none k j f s.roles e);
  }

  log_of-append :
      (s : World host) (id j : String) (l : Log)
      → log_of host j
          (record s { event_sequence = s.event_sequence + 1; events = insert id l s.events })
        ≡ (if str_eq id j then l else log_of host j s)
  log_of-append s id j l = ground (arith, lookup-insert id j l s.events)

  logged :
      (s : World host) (id j : String) (entry : Event host.float.F)
      → entry.id ≡ s.event_sequence + 1
      → Extends s.event_sequence
          (s.event_sequence + 1)
          (log_of host j s)
          (if str_eq id j then log_of host id s ++ entry ∷ [] else log_of host j s)
  logged s id j entry e = elim (Bool-cases (str_eq id j)) [
    | inl t ↦
        let same : id ≡ j = (str_eq_iff id j).0 t in
        rw (t, same) (record { added = entry ∷ []; grown = refl; numbered = omega arith })
    | inr t ↦
        rw t (record {
          added = [];
          grown = sym (append-nil (log_of host j s));
          numbered = omega arith;
        })
  ]

  append_known :
      (k : String) (at : Time) (kind message : String) (payload : Dict (Value host.float.F))
      (s : World host) (r : Role)
      → let entry = log_entry host (s.event_sequence + 1) r at kind message payload in
        Evolves s (record s {
          event_sequence = s.event_sequence + 1;
          events = insert r.id (log_of host r.id s ++ entry ∷ []) s.events;
        })
  append_known k at kind message payload s r = record {
    numbers_grow = omega arith;
    ids_grow = omega arith;
    min_x_falls = omega arith;
    max_x_grows = omega arith;
    min_y_falls = omega arith;
    max_y_grows = omega arith;
    logs_extend = λ id.
        let entry = log_entry host (s.event_sequence + 1) r at kind message payload in
        subst (λ l. Extends s.event_sequence (s.event_sequence + 1) (log_of host id s) l)
          (sym (log_of-append s r.id id (log_of host r.id s ++ entry ∷ [])))
          (logged s r.id id entry refl);
    roles_stay = λ j x e'. (x, e', Older-refl x);
    roles_come = λ j e'. inl e';
  }

  -- What holds of the default and of every role holds of what is taken from a role.
  pub of_role-cases {ℓ κ} :
      {A : Type ℓ} (P : A → Type κ) (k : String) (s : World host) (d : A) (f : Role → A)
      → P d
      → ((r : Role) → lookup k s.roles ≡ some r → P (f r))
      → P (of_role host k s d f)
  unfolding of_role
  of_role-cases P k s d f h g = elim (Option-cases (lookup k s.roles)) [
    | inl e ↦ rw (e, of_role) h
    | inr (r, e) ↦ rw (e, of_role) (g r e)
  ]

  pub append_event-Evolves :
      (k : String) (at : Time) (kind message : String) (payload : Dict (Value host.float.F))
      (s : World host)
      → Evolves s (append_event host k at kind message payload s)
  unfolding append_event
  append_event-Evolves k at kind message payload s =
      of_role-cases (Evolves s) k s s _ (Evolves-refl s)
        (λ r e. append_known k at kind message payload s r)
