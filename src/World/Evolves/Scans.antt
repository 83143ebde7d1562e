-- ===== src/World/Evolves/Scans.antt =====
-- The scan of internal/biz/core.go lets the world evolve.
use xiuxian.Base.{Option, none, some, List, [], ◌∷◌, String, ltb, if_cases, arith}
use xiuxian.Base.Text.{str_eq}
use xiuxian.Rules.Units.{Time}
use xiuxian.World.Host.{Host}
use xiuxian.World.Model.{World, Role, State, CommandExpectation}
use xiuxian.World.Bond.{is_alive}
use xiuxian.World.Settle.{state_of}
use xiuxian.World.Action.{Call}
use xiuxian.World.Scan.{Found, scan_seen, scan_role, scan_roles, note_scan, run_scan, scan}
use xiuxian.World.Evolves.Basics.{
  Older, Evolves, Evolves-refl, Evolves-trans, update_role-Evolves, append_event-Evolves,
  of_role-cases,
}
use xiuxian.World.Evolves.Lives.{state_of-Evolves}
use xiuxian.World.Evolves.Actions.{
  StoreWorks, Evolving, bind-Evolving, pure-Evolving, raise_if-Evolving, modify-Evolving,
  role_or-Evolving, expect-Evolving, now_for-Evolving, settle-Evolving, alive_or-Evolving,
  save-Evolving,
}

note_scan-Older : (host : Host) (now : Time) (x : Role) → Older x (note_scan host now x)
unfolding note_scan
note_scan-Older host now x = ground arith

module _ (host : Host) where
  scan_seen-Evolves :
      (j : String) (goal : Role) (name : String) (now : Time) (scanner state : State host.float.F)
      (found : Found host)
      → Evolves host found.1 (scan_seen host j goal name now scanner state found).1
  unfolding scan_seen
  scan_seen-Evolves j goal name now scanner state (entries, s) =
      if_cases {A = Found host} (λ r. Evolves host s r.1) _ _ _ (Evolves-refl host s)
        (if_cases (Evolves host s) (ltb state.realm_level scanner.realm_level) _ _
          (append_event-Evolves host j now _ _ _ s) (Evolves-refl host s))

  seen-Evolves :
      (o : Option (State host.float.F)) (d : Found host) (f : State host.float.F → Found host)
      (s : World host)
      → Evolves host s d.1
      → ((st : State host.float.F) → Evolves host s (f st).1)
      → Evolves host s (elim o as (λ _. Found host) [ none ↦ d | some st ↦ f st ]).1
  seen-Evolves none d f s p q = p
  seen-Evolves (some st) d f s p q = q st

  scan_role-Evolves :
      (k name : String) (now : Time) (scanner : State host.float.F) (j : String)
      (found : Found host)
      → Evolves host found.1 (scan_role host k name now scanner j found).1
  unfolding scan_role
  scan_role-Evolves k name now scanner j (entries, s) =
      if_cases {A = Found host} (λ r. Evolves host s r.1) (str_eq j k) _ _ (Evolves-refl host s)
        (Evolves-trans host (state_of-Evolves host j now s) (
          seen-Evolves (state_of host j now s).0 (entries, (state_of host j now s).1) _ _
            (Evolves-refl host (state_of host j now s).1)
            λ st.
              of_role-cases host {A = Found host} (λ r. Evolves host (state_of host j now s).1 r.1)
                j _ (entries, (state_of host j now s).1) _
                (Evolves-refl host (state_of host j now s).1)
                λ goal _.
                  if_cases {A = Found host} (λ r. Evolves host (state_of host j now s).1 r.1)
                    (is_alive goal.status) _ _
                    (scan_seen-Evolves j goal name now scanner st (entries, _))
                    (Evolves-refl host (state_of host j now s).1)))

  scan_roles-Evolves :
      (k name : String) (now : Time) (scanner : State host.float.F) (js : List String)
      (found : Found host)
      → Evolves host found.1 (scan_roles host k name now scanner js found).1
  unfolding scan_roles
  scan_roles-Evolves k name now scanner [] found = Evolves-refl host _
  scan_roles-Evolves k name now scanner (j ∷ js) found =
      Evolves-trans host (scan_role-Evolves k name now scanner j found)
        (scan_roles-Evolves k name now scanner js _)

  run_scan-Evolving :
      (k : String) (role : Role) (now : Time) (scanner : State host.float.F)
      → Evolving host (run_scan host k role now scanner)
  unfolding run_scan
  run_scan-Evolving k role now scanner = record {
    evolves = λ s. scan_roles-Evolves k role.name now scanner _ ([], s);
  }

  pub scan-Evolving :
      (call : Call host.float.F) (works : StoreWorks call.save) (k : String)
      (e : CommandExpectation)
      → Evolving host (scan host call k e)
  unfolding scan
  scan-Evolving call works k e = bind-Evolving host (role_or-Evolving host k _) λ _.
      bind-Evolving host (expect-Evolving host k e) λ _.
        bind-Evolving host (now_for-Evolving host call k) λ now.
          bind-Evolving host (settle-Evolving host k now) λ scanner.
            bind-Evolving host (alive_or-Evolving host k _) λ _.
              bind-Evolving host (role_or-Evolving host k _) λ role.
                bind-Evolving host (raise_if-Evolving host _ _) λ _.
                  bind-Evolving host
                    (modify-Evolving host _
                      (λ s. update_role-Evolves host k _ s (note_scan-Older host now)))
                    λ _. bind-Evolving host (run_scan-Evolving k role now scanner) λ result.
                      bind-Evolving host (save-Evolving host call works)
                        λ _. pure-Evolving host result
