-- ===== src/Server/Refused.antt =====
-- What checks of credentials by internal/service leave as it is.
use xiuxian.Base.{[], ◌∷◌, String, ◌≡◌, refl, sym, ◌∙◌, ap, subst, arith}
use xiuxian.Base.Dict.{Dict}
use xiuxian.World.Host.{Host}
use xiuxian.World.Model.{World, Session}
use xiuxian.World.Action.{Call, ◌>>=◌, raise_if, gets, or_raise}
use xiuxian.World.Accounts.{authenticate_session, authenticate_api_key}
use xiuxian.World.Request.{session_request, api_key_request, History, serve_one, serve}
use xiuxian.Server.Carried.{AllChecks, Checked}

module _ (host : Host) where
  abbrev with_sessions : World host → Dict Session → World host
  with_sessions s sessions = record s { sessions = sessions }

  -- The second world is the first but for its sessions.
  pub record SameButSessions (s t : World host) : Type 0 where
    pub sessions : Dict Session
    pub same : t ≡ record s { sessions = sessions }

  session-SameButSessions :
      (call : Call host.float.F) (token : String) (s : World host)
      → SameButSessions s (authenticate_session host call token s).1
  unfolding authenticate_session
  session-SameButSessions call token s = record {
    sessions = (authenticate_session host call token s).1.sessions;
    same = ground arith;
  }

  pub key-same :
      (call : Call host.float.F) (key : String) (s : World host)
      → (authenticate_api_key host call key s).1 ≡ s
  unfolding authenticate_api_key ◌>>=◌ raise_if gets or_raise
  key-same call key s = ground arith

  serve-SameButSessions :
      (h : History host) (s : World host) → AllChecks host h → SameButSessions s (serve host h s)
  unfolding serve serve_one
  serve-SameButSessions [] s c = record { sessions = s.sessions; same = refl }
  serve-SameButSessions ((call, session_request token) ∷ h) s c =
      let one = session-SameButSessions call token s in
      let more = serve-SameButSessions h (authenticate_session host call token s).1 c.1 in
      record {
        sessions = more.sessions;
        same = more.same ∙ ap (λ w. with_sessions w more.sessions) one.same;
      }
  serve-SameButSessions ((call, api_key_request key) ∷ h) s c =
      subst (λ w. SameButSessions s (serve host h w)) (sym (key-same call key s))
        (serve-SameButSessions h s c.1)
  serve-SameButSessions ((call, r) ∷ h) s c = absurd c.0

  pub Checked-SameButSessions : {s t : World host} → Checked host s t → SameButSessions s t
  Checked-SameButSessions {s} {t} c =
      subst (SameButSessions s) (sym c.run) (serve-SameButSessions c.checks s c.all_checks)
