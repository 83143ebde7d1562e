-- ===== src/World/Evolves/Reads.antt =====
-- Accounts, sessions, API keys and reads of internal/biz/core.go let the world evolve.
use xiuxian.Base.{
  Option, none, some, List, [], String, inl, inr, if_cases, arith, refl, ap, sym, ◌∙◌, ◌≡◌, ◌≤◌,
  ◌<◌, ◌+◌, ◌⊎◌, ℕ, Bool-cases,
}
use mathlib.Core.List.{append-nil}
use xiuxian.Base.Int.{ℤ, int_laws}
use xiuxian.Base.Text.{str_eq}
use xiuxian.Base.Number.{role_text, role_text-injective}
use xiuxian.Base.Dict.{lookup, insert, erase, lookup-insert, str_eq_iff}
use xiuxian.Rules.Units.{Time}
use xiuxian.World.Host.{Host}
use xiuxian.World.Model.{World, Role, unauthenticated}
use xiuxian.World.Log.{log_of}
use xiuxian.World.Action.{Action, Call, Result, ok, err, ◌>>=◌, modify}
use xiuxian.World.Accounts.{
  enrol, start_session, register, login, live_session, authenticate_session, logout,
  authenticate_api_key, set_key_hash, rotate_mcp_key, revoke_mcp_key, state, settle_now,
  settle_deadline, events, bounds, new_service,
}
use xiuxian.World.Evolves.Basics.{
  Older, Older-refl, Evolves, Evolves-refl, Evolves-trans, quiet-Evolves, update_role-Evolves,
  append_event-Evolves, Named,
}
use xiuxian.World.Evolves.Actions.{
  StoreWorks, Evolving, bind-Evolving, pure-Evolving, raise_if-Evolving, gets-Evolving,
  modify-Evolving, or_raise-Evolving, role_or-Evolving, now_for-Evolving, settle-Evolving,
  save-Evolving,
}

set_key_hash-Older : (host : Host) (hash : String) (x : Role) → Older x (set_key_hash host hash x)
unfolding set_key_hash
set_key_hash-Older host hash x = record {
  same_id = refl;
  same_account = refl;
  same_name = refl;
  lives_grow = omega arith;
  versions_grow = omega int_laws;
}

module _ (host : Host) where
  -- No role has a key that is yet to be given.
  abbrev pub Fresh : World host → Type 0
  Fresh s = (n : ℕ) → s.next_id < n → lookup (role_text n) s.roles ≡ none

  pub new_service-Fresh : (entropy : List (Option ℕ)) → Fresh (new_service host entropy)
  unfolding new_service lookup
  new_service-Fresh entropy n l = refl

  apart : (hi n m : ℕ) → hi < n → m ≤ hi → n ≡ m → ⊥
  apart hi n m a b e = omega arith

  -- A world that has evolved gives no role a key that is yet to be given.
  pub Evolves-Fresh : (s s' : World host) → Evolves host s s' → Fresh s → Fresh s'
  Evolves-Fresh s s' p h n l = elim (p.roles_come (role_text n) (h n (omega arith))) [
    | inl e ↦ e
    | inr m ↦
        let same : n ≡ m.number = role_text-injective n m.number m.text in
        elim (apart s'.next_id n m.number l m.upto same) [ ]
  ]

  -- An action that lets a world evolve that has no role under a key yet to be given.
  pub record Growing {A : Type 0} (m : Action host A) : Type 0 where
    pub grows : (s : World host) → Fresh s → Evolves host s (m s).1

  pub Evolving-Growing : {A : Type 0} {m : Action host A} → Evolving host m → Growing m
  Evolving-Growing p = record { grows = λ s fresh. p.evolves s }

  grown :
      {A B : Type 0} (s : World host) (r : Result A × World host) (f : A → Action host B)
      → Fresh s
      → Evolves host s r.1
      → ((a : A) → Growing (f a))
      → Evolves host s
          (elim r.0 as (λ _. Result B × World host) [ ok a ↦ f a r.1 | err e ↦ (err e, r.1) ]).1
  grown s (ok a, t) f fresh p q = Evolves-trans host p ((q a).grows t (Evolves-Fresh s t p fresh))
  grown s (err e, t) f fresh p q = p

  pub bind-Growing :
      {A B : Type 0} {m : Action host A} {f : A → Action host B}
      → Growing m
      → ((a : A) → Growing (f a))
      → Growing (m >>= f)
  unfolding ◌>>=◌
  bind-Growing {A} {B} {m} {f} p q = record {
    grows = λ s fresh. grown s (m s) f fresh (p.grows s fresh) q;
  }

  start_session-Evolves :
      (token k : String) (now : Time) (s : World host)
      → Evolves host s (start_session host token k now s)
  unfolding start_session
  start_session-Evolves token k now s =
      quiet-Evolves host s _ refl refl refl (omega arith) (omega arith) (omega arith) (omega arith)
        (omega arith)

  some-none : (r : Role) → some r ≡ none → ⊥
  some-none r e = cc

  enrol-stays :
      (id k : String) (role r : Role) (s : World host)
      → lookup id s.roles ≡ none
      → lookup k s.roles ≡ some r
      → lookup k (insert id role s.roles) ≡ some r
  enrol-stays id k role r s absent e = elim (Bool-cases (str_eq id k)) [
    | inl t ↦
        let same : id ≡ k = (str_eq_iff id k).0 t in
        elim (some-none r (sym e ∙ ap (λ j. lookup j s.roles) (sym same) ∙ absent)) [ ]
    | inr t ↦ rw (lookup-insert id k role s.roles, t) e
  ]

  enrol-comes :
      (id k : String) (role : Role) (s : World host)
      → id ≡ role_text (s.next_id + 1)
      → lookup k s.roles ≡ none
      → (lookup k (insert id role s.roles) ≡ none) ⊎ Named s.next_id (s.next_id + 1) k
  enrol-comes id k role s number e = elim (Bool-cases (str_eq id k)) [
    | inl t ↦ inr (record {
      number = s.next_id + 1;
      above = omega arith;
      upto = omega arith;
      text = sym ((str_eq_iff id k).0 t) ∙ number;
    })
    | inr t ↦ inl (rw (lookup-insert id k role s.roles, t) e)
  ]

  pub enrol-Evolves :
      (account hash name : String) (now : Time) (s : World host)
      → Fresh s
      → Evolves host s (enrol host account hash name now s)
  unfolding enrol
  enrol-Evolves account hash name now s fresh = record {
    numbers_grow = omega arith;
    ids_grow = omega arith;
    min_x_falls = omega arith;
    max_x_grows = omega arith;
    min_y_falls = omega arith;
    max_y_grows = omega arith;
    logs_extend = λ id. record {
      added = [];
      grown = sym (append-nil (log_of host id s));
      numbered = omega arith;
    };
    roles_stay =
        λ k r e. (r, enrol-stays _ k _ r s (fresh (s.next_id + 1) (omega arith)) e, Older-refl r);
    roles_come = λ k e. enrol-comes _ k _ s refl e;
  }

  found-Evolves :
      (token : String) (o : Option String) (s : World host)
      → Evolves host s
          (elim o as (λ _. Result String × World host) [
            | none ↦
                (err unauthenticated, record s { sessions = erase (host.sha256 token) s.sessions })
            | some k ↦ (ok k, s)
          ]).1
  found-Evolves token none s =
      quiet-Evolves host s _ refl refl refl (omega arith) (omega arith) (omega arith) (omega arith)
        (omega arith)
  found-Evolves token (some k) s = Evolves-refl host s

  module _ (call : Call host.float.F) (works : StoreWorks call.save) where
    enrol-Growing :
        (account hash name : String) (now : Time)
        → Growing (modify (enrol host account hash name now))
    unfolding modify
    enrol-Growing account hash name now = record {
      grows = λ s fresh. enrol-Evolves account hash name now s fresh;
    }

    pub login-Evolving :
        (fresh : Option String) (account_name password : String)
        → Evolving host (login host call fresh account_name password)
    unfolding login
    login-Evolving fresh account_name password = bind-Evolving host (gets-Evolving host _) λ entry.
        bind-Evolving host (raise_if-Evolving host _ _) λ _.
          bind-Evolving host (or_raise-Evolving host entry _) λ account.
            bind-Evolving host (or_raise-Evolving host fresh _) λ token.
              bind-Evolving host (now_for-Evolving host call account.role_id) λ now.
                bind-Evolving host
                  (modify-Evolving host _ (start_session-Evolves token account.role_id now))
                  λ _. bind-Evolving host (settle-Evolving host account.role_id now) λ st.
                    bind-Evolving host (save-Evolving host call works) λ _. pure-Evolving host _

    pub logout-Evolving : (token : String) → Evolving host (logout host call token)
    unfolding logout
    logout-Evolving token =
        bind-Evolving host
          (modify-Evolving host _ λ s.
            quiet-Evolves host s _ refl refl refl (omega arith) (omega arith) (omega arith)
              (omega arith) (omega arith))
          λ _. save-Evolving host call works

    pub rotate_mcp_key-Evolving :
        (fresh : Option String) (k : String) → Evolving host (rotate_mcp_key host call fresh k)
    unfolding rotate_mcp_key
    rotate_mcp_key-Evolving fresh k = bind-Evolving host (role_or-Evolving host k _) λ _.
        bind-Evolving host (or_raise-Evolving host fresh _) λ token.
          bind-Evolving host
            (modify-Evolving host _
              (λ s. update_role-Evolves host k _ s (set_key_hash-Older host _)))
            λ _. bind-Evolving host (now_for-Evolving host call k) λ now.
              bind-Evolving host (modify-Evolving host _ (append_event-Evolves host k now _ _ _))
                λ _. bind-Evolving host (save-Evolving host call works) λ _. pure-Evolving host _

    pub revoke_mcp_key-Evolving : (k : String) → Evolving host (revoke_mcp_key host call k)
    unfolding revoke_mcp_key
    revoke_mcp_key-Evolving k = bind-Evolving host (role_or-Evolving host k _) λ _.
        bind-Evolving host
          (modify-Evolving host _ (λ s. update_role-Evolves host k _ s (set_key_hash-Older host _)))
          λ _. bind-Evolving host (now_for-Evolving host call k) λ now.
            bind-Evolving host (modify-Evolving host _ (append_event-Evolves host k now _ _ _))
              λ _. save-Evolving host call works

    pub state-Evolving : (k : String) → Evolving host (state host call k)
    unfolding state
    state-Evolving k = bind-Evolving host (role_or-Evolving host k _) λ _.
        bind-Evolving host (now_for-Evolving host call k) λ now.
          bind-Evolving host (settle-Evolving host k now)
            λ st. bind-Evolving host (save-Evolving host call works) λ _. pure-Evolving host st

    settle_now-Evolving : (k : String) (before : ℤ) → Evolving host (settle_now host call k before)
    unfolding settle_now
    settle_now-Evolving k before = bind-Evolving host (now_for-Evolving host call k) λ now.
        bind-Evolving host (settle-Evolving host k now) λ st.
          bind-Evolving host (save-Evolving host call works)
            λ _. bind-Evolving host (role_or-Evolving host k _) λ role. pure-Evolving host _

    pub settle_deadline-Evolving :
        (k : String) (expected : ℤ) → Evolving host (settle_deadline host call k expected)
    unfolding settle_deadline
    settle_deadline-Evolving k expected = bind-Evolving host (role_or-Evolving host k _) λ role.
        if_cases (Evolving host) _ _ _ (pure-Evolving host _)
          (settle_now-Evolving k role.life_number)

    pub register-Growing :
        (salt : String) (fresh : Option String) (account_name password role_name : String)
        → Growing (register host call salt fresh account_name password role_name)
    unfolding register
    register-Growing salt fresh account_name password role_name =
        bind-Growing (Evolving-Growing (raise_if-Evolving host _ _)) λ _.
          bind-Growing (Evolving-Growing (or_raise-Evolving host _ _)) λ hash.
            bind-Growing (Evolving-Growing (gets-Evolving host _)) λ taken.
              bind-Growing (Evolving-Growing (raise_if-Evolving host _ _)) λ _.
                bind-Growing (Evolving-Growing (gets-Evolving host _)) λ named.
                  bind-Growing (Evolving-Growing (raise_if-Evolving host _ _)) λ _.
                    bind-Growing (Evolving-Growing (gets-Evolving host _)) λ id.
                      bind-Growing (enrol-Growing _ hash _ _) λ _. Evolving-Growing (
                        bind-Evolving host (or_raise-Evolving host fresh _) λ token.
                          bind-Evolving host
                            (modify-Evolving host _ (start_session-Evolves token id _))
                            λ _. bind-Evolving host (settle-Evolving host id _) λ st.
                              bind-Evolving host (save-Evolving host call works)
                                λ _. pure-Evolving host _)

    pub authenticate_session-Evolving :
        (token : String) → Evolving host (authenticate_session host call token)
    unfolding authenticate_session
    authenticate_session-Evolving token = record {
      evolves = λ s.
          if_cases {A = Result String × World host} (λ r. Evolves host s r.1) call.cancelled _ _
            (Evolves-refl host s)
            (if_cases {A = Result String × World host} (λ r. Evolves host s r.1) (str_eq token "") _
              _ (Evolves-refl host s)
              (found-Evolves token (live_session host (lookup (host.sha256 token) s.sessions) _)
                s));
    }

    pub authenticate_api_key-Evolving :
        (key : String) → Evolving host (authenticate_api_key host call key)
    unfolding authenticate_api_key
    authenticate_api_key-Evolving key = bind-Evolving host (raise_if-Evolving host _ _) λ _.
        bind-Evolving host (raise_if-Evolving host _ _)
          λ _. bind-Evolving host (gets-Evolving host _) λ found. or_raise-Evolving host found _

    pub events-Evolving :
        (k : String) (after limit : ℤ) → Evolving host (events host call k after limit)
    unfolding events
    events-Evolving k after limit =
        bind-Evolving host (raise_if-Evolving host _ _)
          λ _. bind-Evolving host (role_or-Evolving host k _) λ _. gets-Evolving host _

    pub bounds-Evolving : Evolving host (bounds host call)
    unfolding bounds
    bounds-Evolving = bind-Evolving host (raise_if-Evolving host _ _) λ _. gets-Evolving host _
