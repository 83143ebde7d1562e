-- ===== src/Server/Served.antt =====
-- Every message to internal/service makes at most the one request that it asks for.
use xiuxian.Base.{some, String, ◌≡◌, refl, sym, subst, not, Bool-cases, inl, inr}
use xiuxian.Base.Text.{str_eq, is_blank}
use xiuxian.World.Host.{Host}
use xiuxian.World.Model.{World}
use xiuxian.World.Action.{Action, Call}
use xiuxian.World.Request.{Request, serve_one}
use xiuxian.Server.Usecase.{under_context}
use xiuxian.Server.Door.{
  Incoming, Visit, Reply, reply, fails, Server, Handler, ◌>>=◌, pass_on, ask, authenticate,
}
use xiuxian.Server.Handlers.{then_reply, confirmed}
use xiuxian.Server.Message.{Message, MadeBy, wish}
use xiuxian.Server.Carried.{
  Checked, Done, nothing, carried, use-Done, authenticate-Checked, pass_on-answer,
}

module _ (host : Host) where
  -- A message leads from the first world to the second by checks of credentials, and then nothing
  -- or one request of a kind.
  pub record Served (asked : Request → Type 0) (call : Call host.float.F) (s t : World host)
      : Type 0 where
    pub between : World host
    pub checked : Checked host s between
    pub done : Done host asked call between t

  pub Done-weaker :
      {P Q : Request → Type 0} {call : Call host.float.F} {s t : World host}
      → ((r : Request) → P r → Q r)
      → Done host P call s t
      → Done host Q call s t
  Done-weaker h (nothing e) = nothing e
  Done-weaker h (carried r p e) = carried r (h r p) e

  pub Served-weaker :
      {P Q : Request → Type 0} {call : Call host.float.F} {s t : World host}
      → ((r : Request) → P r → Q r)
      → Served P call s t
      → Served Q call s t
  Served-weaker h x = record {
    between = x.between;
    checked = x.checked;
    done = Done-weaker h x.done;
  }

  pass_on-Served :
      {B : Type 0} (m : Message) (call : Call host.float.F) (s : World host)
      (p : Reply String × Server host) (f : String → Handler host B)
      → Checked host s p.1.world
      → ((k : String) (t : Server host)
          → Done host (λ r. wish m k ≡ some r) call t.world (f k t).1.world)
      → Served (MadeBy m p.0) call s (pass_on p f).1.world
  unfolding pass_on
  pass_on-Served m call s (reply k, t) f c h = record {
    between = t.world;
    checked = c;
    done = h k t;
  }
  pass_on-Served m call s (fails e, t) f c h = record {
    between = t.world;
    checked = c;
    done = nothing refl;
  }

  -- What follows authentication is the request that the message asks for, as the role.
  pub role-Served :
      {B : Type 0} (v : Visit host.float.F) (i : Incoming) (m : Message)
      (f : String → Handler host B) (s : Server host)
      → ((k : String) (t : Server host)
          → Done host (λ r. wish m k ≡ some r) v.command_call t.world (f k t).1.world)
      → Served
          (MadeBy m (authenticate host v i s).0)
          v.command_call
          s.world
          ((authenticate host v i >>= f) s).1.world
  role-Served v i m f s h =
      pass_on-Served m v.command_call s.world (authenticate host v i s) f
        (authenticate-Checked host v i s) h

  pub ask-Done :
      {A : Type 0} (call : Call host.float.F) (r : Request) (act : Action host A) (t : Server host)
      → (act t.world).1 ≡ serve_one host call r t.world
      → Done host
          (λ q. some r ≡ some q)
          call
          t.world
          (ask host (under_context host call act) t).1.world
  unfolding ask
  ask-Done call r act t e = use-Done host call r act t.world e

  -- An answer that is worked out leaves the server as it is.
  pub then_reply-Served :
      {A B : Type 0} {P : Request → Type 0} {call : Call host.float.F} {w : World host}
      (v : Visit host.float.F) (i : Incoming) (m : Handler host A) (f : A → B) (s : Server host)
      → Served P call w (m s).1.world
      → Served P call w (then_reply host v i m f s).1.world
  unfolding then_reply
  then_reply-Served {P = P} {call = call} {w = w} v i m f s h =
      subst (λ t. Served P call w t.world) (sym (pass_on-answer host (m s) f)) h

  pub then_reply-Done :
      {A B : Type 0} {P : Request → Type 0} {call : Call host.float.F} {w : World host}
      (v : Visit host.float.F) (i : Incoming) (m : Handler host A) (f : A → B) (s : Server host)
      → Done host P call w (m s).1.world
      → Done host P call w (then_reply host v i m f s).1.world
  unfolding then_reply
  then_reply-Done {P = P} {call = call} {w = w} v i m f s h =
      subst (λ t. Done host P call w t.world) (sym (pass_on-answer host (m s) f)) h

  pub confirmed-Done :
      {A : Type 0} {P : Request → Type 0} {call : Call host.float.F} (v : Visit host.float.F)
      (i : Incoming) (expected k changed : String) (act : Handler host A) (t : Server host)
      → Done host P call t.world (act t).1.world
      → Done host P call t.world (confirmed host v i expected k changed act t).1.world
  unfolding confirmed
  confirmed-Done v i expected k changed act t h = elim (Bool-cases (is_blank expected)) [
    | inl e ↦ rw e (nothing refl)
    | inr e ↦ elim (Bool-cases (not (str_eq expected k))) [
      | inl d ↦ rw (e, d) (nothing refl)
      | inr d ↦ rw (e, d) h
    ]
  ]
