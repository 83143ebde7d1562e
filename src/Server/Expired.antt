-- ===== src/Server/Expired.antt =====
-- What authentication by internal/service does to the sessions.
use xiuxian.Base.{Option, none, some, String, ◌≡◌, refl, sym, ◌∙◌, subst, if_cases}
use xiuxian.World.Host.{Host}
use xiuxian.World.Model.{World}
use xiuxian.World.Action.{Call, Result, ok, err}
use xiuxian.Server.Usecase.{under_context, use_authenticate_session, use_authenticate_api_key}
use xiuxian.Server.Door.{
  Incoming, Visit, Server, authenticate, by_key, by_session, after_key, after_session, cookie_of,
}
use xiuxian.Server.Carried.{limited-world}
use xiuxian.Server.Refused.{key-same}
use xiuxian.World.Books.Sessions.{Expired, Expired-refl, session-Expired}

module _ (host : Host) where
  checked-Expired :
      (call : Call host.float.F) (token : String) (s : World host)
      → Expired host call.reading.clock_now
          (some token)
          s
          (use_authenticate_session host call token s).1
  unfolding under_context
  checked-Expired call token s =
      if_cases
        (λ (r : Result String × World host). Expired host call.reading.clock_now (some token) s r.1)
        call.cancelled _ _ (Expired-refl host call.reading.clock_now (some token) s)
        (session-Expired host call token s)

  key_checked :
      (call : Call host.float.F) (key : String) (s : World host)
      → (use_authenticate_api_key host call key s).1 ≡ s
  unfolding under_context
  key_checked call key s =
      if_cases (λ (r : Result String × World host). r.1 ≡ s) call.cancelled _ _ refl
        (key-same host call key s)

  after_session-world :
      (v : Visit host.float.F) (token : String) (p : Result String × World host) (s : Server host)
      → (after_session host v token p s).1.world ≡ p.1
  unfolding after_session
  after_session-world v token (ok k, w) s = limited-world host v _ _ _ k _
  after_session-world v token (err e, w) s = refl

  by_session-Expired :
      (v : Visit host.float.F) (cookie : Option String) (s : Server host)
      → Expired host v.session_call.reading.clock_now cookie s.world
          (by_session host v cookie s).1.world
  unfolding by_session
  by_session-Expired v none s = Expired-refl host _ none s.world
  by_session-Expired v (some token) s =
      subst (Expired host v.session_call.reading.clock_now (some token) s.world)
        (sym (after_session-world v token _ s)) (checked-Expired v.session_call token s.world)

  after_key-Expired :
      (v : Visit host.float.F) (key : String) (cookie : Option String)
      (p : Result String × World host) (s : Server host)
      → p.1 ≡ s.world
      → Expired host v.session_call.reading.clock_now cookie s.world
          (after_key host v key cookie p s).1.world
  unfolding after_key
  after_key-Expired v key cookie (ok k, w) s same =
      subst (Expired host v.session_call.reading.clock_now cookie s.world)
        (sym (limited-world host v _ _ _ k _ ∙ same)) (Expired-refl host _ cookie s.world)
  after_key-Expired v key cookie (err e, w) s same =
      subst
        (λ x.
          Expired host v.session_call.reading.clock_now cookie x
            (by_session host v cookie (record s { world = w })).1.world)
        same (by_session-Expired v cookie (record s { world = w }))

  by_key-Expired :
      (v : Visit host.float.F) (key cookie : Option String) (s : Server host)
      → Expired host v.session_call.reading.clock_now cookie s.world
          (by_key host v key cookie s).1.world
  unfolding by_key
  by_key-Expired v none cookie s = by_session-Expired v cookie s
  by_key-Expired v (some key) cookie s =
      after_key-Expired v key cookie _ s (key_checked v.key_call key s.world)

  pub authenticate-Expired :
      (v : Visit host.float.F) (i : Incoming) (s : Server host)
      → Expired host v.session_call.reading.clock_now
          (cookie_of host i)
          s.world
          (authenticate host v i s).1.world
  unfolding authenticate
  authenticate-Expired v i s = by_key-Expired v _ _ s
