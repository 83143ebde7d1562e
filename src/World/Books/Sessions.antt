-- ===== src/World/Books/Sessions.antt =====
-- The sessions of internal/biz/core.go: Login's session and AuthenticateSession.
use xiuxian.Base.{
  false, Option, none, some, List, [], ◌∷◌, String, ◌≡◌, ◌⊎◌, refl, ◌∙◌, ap, inl, inr, arith,
  Bool-cases, Option-cases,
}
use xiuxian.Base.Int.{pos, ◌+ℤ◌, ◌≤ℤ◌, ◌<ℤ◌, ltb_ℤ, le_of_ltb_ℤ, lt_of_ltb_ℤ}
use xiuxian.Base.Dict.{
  lookup, erase, lookup-erase-none, lookup-erase_ne, lookup-insert_self, str_eq_iff,
}
use xiuxian.Base.Text.{str_eq}
use xiuxian.Rules.Units.{Time}
use xiuxian.World.Host.{Host}
use xiuxian.World.Model.{World, Session, unauthenticated}
use xiuxian.World.Action.{Call, ok, err}
use xiuxian.World.Accounts.{start_session, live_session, authenticate_session}

module _ (host : Host) where
  -- The second world is the first, but for the session of a cookie if it is over at a time.
  pub record Expired (now : Time) (cookie : Option String) (s t : World host) : Type 0 where
    pub rest : t ≡ record s { sessions = t.sessions }
    pub sessions_stay :
        (h : String) (x : Session)
        → lookup h s.sessions ≡ some x
        → (lookup h t.sessions ≡ some x)
          ⊎ (((token : String) × (cookie ≡ some token) × (host.sha256 token ≡ h))
              × (x.expires_at ≤ℤ now))
    pub none_come : (h : String) → lookup h s.sessions ≡ none → lookup h t.sessions ≡ none

  pub Expired-refl : (now : Time) (cookie : Option String) (s : World host) → Expired now cookie s s
  Expired-refl now cookie s = record {
    rest = refl;
    sessions_stay = λ h x e. inl e;
    none_come = λ h e. e;
  }

  over :
      (o : Option Session) (x : Session) (now : Time)
      → live_session host o now ≡ none
      → o ≡ some x
      → x.expires_at ≤ℤ now
  unfolding live_session
  over o x now dead e = elim (Bool-cases (ltb_ℤ now x.expires_at)) [
    | inl t ↦ absurd (ground arith)
    | inr f ↦ le_of_ltb_ℤ now x.expires_at f
  ]

  erased-Expired :
      (token : String) (now : Time) (s : World host)
      → live_session host (lookup (host.sha256 token) s.sessions) now ≡ none
      → Expired now (some token) s (record s { sessions = erase (host.sha256 token) s.sessions })
  erased-Expired token now s dead = record {
    rest = refl;
    sessions_stay = λ h x e. elim (Bool-cases (str_eq (host.sha256 token) h)) [
      | inl t ↦
          let same : host.sha256 token ≡ h = (str_eq_iff (host.sha256 token) h).0 t in
          inr ((token, refl, same), over _ x now dead (ap (λ k. lookup k s.sessions) same ∙ e))
      | inr f ↦ inl (
          lookup-erase_ne (host.sha256 token) h s.sessions
            (λ q. cc ((str_eq_iff (host.sha256 token) h).1 q))
          ∙ e)
    ];
    none_come = λ h e. lookup-erase-none (host.sha256 token) h s.sessions e;
  }

  pub session-Expired :
      (call : Call host.float.F) (token : String) (s : World host)
      → Expired call.reading.clock_now (some token) s (authenticate_session host call token s).1
  unfolding authenticate_session
  session-Expired call token s =
      let now = call.reading.clock_now in
      let none_over = Expired-refl now (some token) s in
      elim (Bool-cases call.cancelled) [
        | inl e ↦ rw (e, authenticate_session) none_over
        | inr e ↦ elim (Bool-cases (str_eq token "")) [
          | inl e' ↦ rw (e, e', authenticate_session) none_over
          | inr e' ↦
              elim (Option-cases (live_session host (lookup (host.sha256 token) s.sessions) now)) [
                | inl dead ↦
                    rw (e, e', dead, authenticate_session) (erased-Expired token now s dead)
                | inr (k, lives) ↦ rw (e, e', lives, authenticate_session) none_over
              ]
        ]
      ]

  -- The world after checks of tokens.
  abbrev pub after_checks : List (Call host.float.F × String) → World host → World host
  after_checks [] s = s
  after_checks ((call, token) ∷ checks) s =
      after_checks checks (authenticate_session host call token s).1

  abbrev pub AllBefore : Time → List (Call host.float.F × String) → Type 0
  AllBefore t [] = Unit {0}
  AllBefore t ((call, token) ∷ checks) = (call.reading.clock_now <ℤ t) × AllBefore t checks

  not_over : (a b : Time) → a <ℤ b → b ≤ℤ a → ⊥
  not_over a b h l = omega arith

  check_keeps :
      (call : Call host.float.F) (token h : String) (x : Session) (s : World host)
      → call.reading.clock_now <ℤ x.expires_at
      → lookup h s.sessions ≡ some x
      → lookup h (authenticate_session host call token s).1.sessions ≡ some x
  check_keeps call token h x s before e =
      elim ((session-Expired call token s).sessions_stay h x e) [
        | inl stays ↦ stays
        | inr (_, gone) ↦ absurd (not_over call.reading.clock_now x.expires_at before gone)
      ]

  checks_keep :
      (checks : List (Call host.float.F × String)) (h : String) (x : Session) (s : World host)
      → AllBefore x.expires_at checks
      → lookup h s.sessions ≡ some x
      → lookup h (after_checks checks s).sessions ≡ some x
  checks_keep [] h x s before e = e
  checks_keep ((call, token) ∷ checks) h x s before e =
      checks_keep checks h x _ before.1 (check_keeps call token h x s before.0 e)

  answered :
      (call : Call host.float.F) (token : String) (x : Session) (s : World host)
      → call.cancelled ≡ false
      → str_eq token "" ≡ false
      → lookup (host.sha256 token) s.sessions ≡ some x
      → ((call.reading.clock_now <ℤ x.expires_at)
          × (authenticate_session host call token s ≡ (ok x.role_id, s)))
        ⊎ ((x.expires_at ≤ℤ call.reading.clock_now)
            × (authenticate_session host call token s ≡ (
              err unauthenticated,
              record s { sessions = erase (host.sha256 token) s.sessions },
            )))
  unfolding authenticate_session live_session
  answered call token x s c n e = elim (Bool-cases (ltb_ℤ call.reading.clock_now x.expires_at)) [
    | inl l ↦ inl (
      lt_of_ltb_ℤ call.reading.clock_now x.expires_at l,
      rw (c, n, e, l, authenticate_session, live_session) refl,
    )
    | inr l ↦ inr (
      le_of_ltb_ℤ call.reading.clock_now x.expires_at l,
      rw (c, n, e, l, authenticate_session, live_session) refl,
    )
  ]

  -- The session that Login and Register start for a role lasts 24 hours, whatever tokens are checked
  -- within them, its own or others: AuthenticateSession, asked with its token, which is not empty, by
  -- a call that is not cancelled, answers the role and changes nothing while the clock is before the
  -- end of the 24 hours; from then on it answers that the caller is unauthenticated, and deletes the
  -- session.
  pub start_session-authenticate :
      (call : Call host.float.F) (token k : String) (at : Time) (s : World host)
      (checks : List (Call host.float.F × String))
      → call.cancelled ≡ false
      → str_eq token "" ≡ false
      → AllBefore (at +ℤ pos 86_400_000_000_000) checks
      → let t = after_checks checks (start_session host token k at s) in
        ((call.reading.clock_now <ℤ at +ℤ pos 86_400_000_000_000)
          × (authenticate_session host call token t ≡ (ok k, t)))
        ⊎ ((at +ℤ pos 86_400_000_000_000 ≤ℤ call.reading.clock_now)
            × (authenticate_session host call token t ≡ (
              err unauthenticated,
              record t { sessions = erase (host.sha256 token) t.sessions },
            )))
  unfolding start_session
  start_session-authenticate call token k at s checks c n before =
      let x : Session = record { role_id = k; expires_at = at +ℤ pos 86_400_000_000_000 } in
      answered call token x _ c n (
        checks_keep checks (host.sha256 token) x (start_session host token k at s) before
          (lookup-insert_self (host.sha256 token) x s.sessions))
