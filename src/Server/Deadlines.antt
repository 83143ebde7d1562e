-- ===== src/Server/Deadlines.antt =====
-- Who makes the server settle a deadline, of internal/service/http.go.
use xiuxian.Base.{
  Bool, false, ◌||◌, not, Option, none, some, String, ◌≡◌, ◌≢◌, refl, sym, subst, arith, inl, inr,
  ◌⊎◌, Bool-cases,
}
use xiuxian.Base.Dict.{str_eq_iff}
use xiuxian.Base.Text.{str_eq}
use xiuxian.World.Host.{Host}
use xiuxian.World.Model.{World}
use xiuxian.World.Action.{Result, Call, ok, err}
use xiuxian.World.Request.{Request, deadline_request, serve_one}
use xiuxian.Server.Door.{Server}
use xiuxian.Server.Usecase.{use_settle_deadline}
use xiuxian.Server.Carried.{Done, nothing, use-Done}
use xiuxian.Server.Served.{Done-weaker}
use xiuxian.Server.Stream.{error_answer, DeadlineInput, settled_answer, settle_deadline_http}

-- The request that a worker with the token may make with a body.
pub record Allowed (token provided : String) (body : Option DeadlineInput) (r : Request)
    : Type 0 where
  pub input : DeadlineInput
  pub decodes : body ≡ some input
  pub request : some (deadline_request input.role_id input.state_version) ≡ some r
  pub same : provided ≡ token
  pub nonempty : token ≢ ""

module _ (host : Host) where
  settled_answer-world :
      (p : Result Bool × World host) (s : Server host) → (settled_answer host p s).1.world ≡ p.1
  unfolding settled_answer
  settled_answer-world (ok b, w) s = refl
  settled_answer-world (err e, w) s = refl

  settled_answer-buckets :
      (p : Result Bool × World host) (s : Server host)
      → (settled_answer host p s).1.buckets ≡ s.buckets
  unfolding settled_answer
  settled_answer-buckets (ok b, w) s = refl
  settled_answer-buckets (err e, w) s = refl

  -- The condition of the 401.
  abbrev pub rejects : (token provided : String) → Bool
  rejects token provided = str_eq token "" || not (str_eq provided token)

  rejects-false :
      (token provided : String) → rejects token provided ≡ false → (provided ≡ token) × (token ≢ "")
  rejects-false token provided e = (
    (str_eq_iff provided token).0 (ground arith),
    λ blank. absurd (ground (arith, (str_eq_iff token "").1 blank)),
  )

  -- Whatever is sent to the endpoint of the worker: the server makes at most one request, to settle
  -- the deadline of the role and the state version that the body names, and only if the token that
  -- came with it is the configured one, which is not empty; and with another token it answers 401
  -- and stays as it is. The limiter stays as it is.
  pub settle_deadline_http-Done :
      (call : Call host.float.F) (token provided : String) (body : Option DeadlineInput)
      (s : Server host)
      → Done host
          (Allowed token provided body)
          call
          s.world
          (settle_deadline_http host call token provided body s).1.world
        × ((settle_deadline_http host call token provided body s).1.buckets ≡ s.buckets)
        × ((rejects token provided ≡ false)
            ⊎ (settle_deadline_http host call token provided body s
                ≡ (error_answer 401 "worker authentication required", s)))
  unfolding settle_deadline_http serve_one
  settle_deadline_http-Done call token provided none s =
      elim (Bool-cases (rejects token provided)) [
        | inl e ↦ rw e (nothing refl, refl, inr refl)
        | inr e ↦ rw e (nothing refl, refl, inl refl)
      ]
  settle_deadline_http-Done call token provided (some input) s =
      elim (Bool-cases (rejects token provided)) [
        | inl e ↦ rw e (nothing refl, refl, inr refl)
        | inr e ↦
            let r = deadline_request input.role_id input.state_version in
            let p = use_settle_deadline host call input.role_id input.state_version s.world in
            let (same, nonempty) = rejects-false token provided e in
            rw e (
              subst (Done host (Allowed token provided (some input)) call s.world)
                  (sym (settled_answer-world p s))
                  (Done-weaker host
                    (λ q made. record {
                      input = input;
                      decodes = refl;
                      request = made;
                      same = same;
                      nonempty = nonempty;
                    })
                    (use-Done host call r _ s.world refl)),
              settled_answer-buckets p s,
              inl refl,
            )
      ]
