-- ===== src/Server/Carried.antt =====
-- The messages that internal/service handles reach the world only as requests to its authority.
use xiuxian.Base.{
  Bool, true, false, Option, none, some, [], ◌∷◌, String, ◌≡◌, refl, sym, ◌∙◌, ap, subst,
  if◌then◌else◌,
}
use xiuxian.World.Host.{Host}
use xiuxian.World.Model.{World}
use xiuxian.World.Action.{Result, ok, err, Action, Call}
use xiuxian.World.Request.{Request, session_request, api_key_request, History, serve_one, serve}
use xiuxian.Limit.{RateLimitPolicy}
use xiuxian.Server.Usecase.{under_context, use_authenticate_api_key, use_authenticate_session}
use xiuxian.Server.Door.{
  Incoming, Visit, Reply, reply, fails, Server, pass_on, answer, authenticate, enforce_rate_limit,
  as_limited, after_session, by_session, after_key, by_key, limit_public_auth,
}
use xiuxian.Server.Message.{IsCheck}

module _ (host : Host) where
  -- Only credentials are checked.
  abbrev pub AllChecks : History host → Type 0
  AllChecks [] = Unit {0}
  AllChecks ((call, r) ∷ h) = IsCheck r × AllChecks h

  -- The second world is the first after checks of credentials.
  pub record Checked (s t : World host) : Type 0 where
    pub checks : History host
    pub all_checks : AllChecks checks
    pub run : t ≡ serve host checks s

  -- The second world is the first, or the first after one request of a kind.
  pub data Done (asked : Request → Type 0) (call : Call host.float.F) (s t : World host)
      : Type 0 where
    nothing : t ≡ s → Done asked call s t
    carried : (r : Request) → asked r → t ≡ serve_one host call r s → Done asked call s t

  pub Checked-refl : (s : World host) → Checked s s
  unfolding serve
  Checked-refl s = record { checks = []; all_checks = tt; run = refl }

  Checked-then :
      (call : Call host.float.F) (r : Request) (s t : World host)
      → IsCheck r
      → Checked (serve_one host call r s) t
      → Checked s t
  unfolding serve
  Checked-then call r s t h c = record {
    checks = (call, r) ∷ c.checks;
    all_checks = (h, c.all_checks);
    run = c.run;
  }

  gate-Done :
      {A : Type 0} (done : Bool) (call : Call host.float.F) (r : Request) (s : World host)
      (stopped ran : Result A × World host)
      → stopped.1 ≡ s
      → ran.1 ≡ serve_one host call r s
      → Done (λ q. some r ≡ some q) call s (if done then stopped else ran).1
  gate-Done true call r s stopped ran e f = nothing e
  gate-Done false call r s stopped ran e f = carried r refl f

  -- A use case makes its request, or none.
  pub use-Done :
      {A : Type 0} (call : Call host.float.F) (r : Request) (act : Action host A) (s : World host)
      → (act s).1 ≡ serve_one host call r s
      → Done (λ q. some r ≡ some q) call s (under_context host call act s).1
  unfolding under_context
  use-Done call r act s e = gate-Done call.cancelled call r s _ (act s) refl e

  Done-Checked :
      (call : Call host.float.F) (r : Request) (s t u : World host)
      → IsCheck r
      → Done (λ q. some r ≡ some q) call s t
      → Checked t u
      → Checked s u
  Done-Checked call r s t u h (nothing e) c = subst (λ w. Checked w u) e c
  Done-Checked call r s t u h (carried q same e) c =
      let q_same : q ≡ r = cc in
      Checked-then call r s u h
        (subst (λ w. Checked w u) (e ∙ ap (λ x. serve_one host call x s) q_same) c)

  pub pass_on-answer :
      {A B : Type 0} (p : Reply A × Server host) (b : A → B)
      → (pass_on p (λ a. answer (b a))).1 ≡ p.1
  unfolding pass_on
  pass_on-answer (reply a, s) b = refl
  pass_on-answer (fails e, s) b = refl

  pub limited-world :
      (v : Visit host.float.F) (scope subject : String) (policy : RateLimitPolicy host.float.F)
      (k : String) (s : Server host)
      → (as_limited host v scope subject policy k s).1.world ≡ s.world
  unfolding as_limited enforce_rate_limit
  limited-world v scope subject policy k s = ap (λ t. t.world) (pass_on-answer _ (λ _. k))

  session-served :
      (call : Call host.float.F) (token : String) (s t : World host)
      → Checked (use_authenticate_session host call token s).1 t
      → Checked s t
  unfolding serve_one
  session-served call token s t c =
      Done-Checked call (session_request token) s _ t tt
        (use-Done call (session_request token) _ s refl) c

  key-served :
      (call : Call host.float.F) (key : String) (s t : World host)
      → Checked (use_authenticate_api_key host call key s).1 t
      → Checked s t
  unfolding serve_one
  key-served call key s t c =
      Done-Checked call (api_key_request key) s _ t tt
        (use-Done call (api_key_request key) _ s refl) c

  after_session-Checked :
      (v : Visit host.float.F) (token : String) (p : Result String × World host) (s : Server host)
      → Checked p.1 (after_session host v token p s).1.world
  unfolding after_session
  after_session-Checked v token (ok k, w) s =
      subst (Checked w) (sym (limited-world v _ _ _ k _)) (Checked-refl w)
  after_session-Checked v token (err e, w) s = Checked-refl w

  by_session-Checked :
      (v : Visit host.float.F) (cookie : Option String) (s : Server host)
      → Checked s.world (by_session host v cookie s).1.world
  unfolding by_session
  by_session-Checked v none s = Checked-refl s.world
  by_session-Checked v (some token) s =
      session-served v.session_call token s.world _ (after_session-Checked v token _ s)

  after_key-Checked :
      (v : Visit host.float.F) (key : String) (cookie : Option String)
      (p : Result String × World host) (s : Server host)
      → Checked p.1 (after_key host v key cookie p s).1.world
  unfolding after_key
  after_key-Checked v key cookie (ok k, w) s =
      subst (Checked w) (sym (limited-world v _ _ _ k _)) (Checked-refl w)
  after_key-Checked v key cookie (err e, w) s = by_session-Checked v cookie (record s { world = w })

  by_key-Checked :
      (v : Visit host.float.F) (key cookie : Option String) (s : Server host)
      → Checked s.world (by_key host v key cookie s).1.world
  unfolding by_key
  by_key-Checked v none cookie s = by_session-Checked v cookie s
  by_key-Checked v (some key) cookie s =
      key-served v.key_call key s.world _ (after_key-Checked v key cookie _ s)

  -- Authentication only checks credentials.
  pub authenticate-Checked :
      (v : Visit host.float.F) (i : Incoming) (s : Server host)
      → Checked s.world (authenticate host v i s).1.world
  unfolding authenticate
  authenticate-Checked v i s = by_key-Checked v _ _ s

  -- A limit on calls without a role leaves the world as it is.
  pub limit_public_auth-world :
      (v : Visit host.float.F) (i : Incoming) (scope account : String)
      (policy : RateLimitPolicy host.float.F) (s : Server host)
      → (limit_public_auth host v i scope account policy s).1.world ≡ s.world
  unfolding limit_public_auth enforce_rate_limit
  limit_public_auth-world v i scope account policy s = refl
