-- ===== src/World/Action.antt =====
-- Commands of internal/biz/core.go as state and errors: what was changed before an error stays
-- changed. Here are the guards that the commands share, and their common end.
use xiuxian.Base.{Bool, ◌&&◌, ◌||◌, Option, none, some, [], String, if◌then◌else◌}
use xiuxian.Base.Int.{pos, leb_ℤ, eqb_ℤ}
use xiuxian.Base.Dict.{Dict, lookup, insert}
use xiuxian.Rules.Units.{Time}
use xiuxian.World.Host.{Host, Reading}
use xiuxian.World.Model.{
  World, Role, State, CommandExpectation, Error, invalid, unauthenticated, stale_command,
  store_failure, nil_dereference,
}
use xiuxian.World.Log.{authoritative_now}
use xiuxian.World.Bond.{is_alive}
use xiuxian.World.Settle.{state_of}
use xiuxian.World.Snapshot.{SaveOutcome, persist}

pub data Result {ℓ} (A : Type ℓ) : Type ℓ where
  ok : A → Result A
  err : Error → Result A

-- What a call meets outside: the clocks, the durable store, and whether its context is done.
pub record Call (F : Type 0) : Type 0 where
  pub reading : Reading
  pub save : SaveOutcome F
  pub cancelled : Bool

module _ (host : Host) where
  abbrev pub Action : Type 0 → Type 0
  Action A = World host → Result A × World host

infixl 5 ◌>>=◌ ◌>>◌
unfoldable pub ◌>>=◌ {ℓ} :
    {S : Type ℓ} {A B : Type 0} → (S → Result A × S) → (A → S → Result B × S) → S → Result B × S
◌>>=◌ m f s = let (r, s') = m s in elim r [ ok a ↦ f a s' | err e ↦ (err e, s') ]

abbrev pub ◌>>◌ {ℓ} :
    {S : Type ℓ} {A B : Type 0} → (S → Result A × S) → (S → Result B × S) → S → Result B × S
m >> k = m >>= λ _. k

unfoldable pub pure {ℓ} : {S : Type ℓ} {A : Type 0} → A → S → Result A × S
pure a s = (ok a, s)

unfoldable pub raise {ℓ} : {S : Type ℓ} {A : Type 0} → Error → S → Result A × S
raise e s = (err e, s)

unfoldable pub raise_if {ℓ} : {S : Type ℓ} → Bool → Error → S → Result (Unit {0}) × S
raise_if b e s = (if b then err e else ok tt, s)

unfoldable pub gets {ℓ} : {S : Type ℓ} {A : Type 0} → (S → A) → S → Result A × S
gets f s = (ok (f s), s)

unfoldable pub modify {ℓ} : {S : Type ℓ} → (S → S) → S → Result (Unit {0}) × S
modify f s = (ok tt, f s)

unfoldable pub or_raise {ℓ} : {S : Type ℓ} {A : Type 0} → Option A → Error → S → Result A × S
or_raise none e s = (err e, s)
or_raise (some a) e s = (ok a, s)

-- LifeNumber <= 0 || StateVersion <= 0
unfoldable pub malformed : CommandExpectation → Bool
malformed e = leb_ℤ e.life_number (pos 0) || leb_ℤ e.state_version (pos 0)

unfoldable pub matches : Role → CommandExpectation → Bool
matches role e = eqb_ℤ role.life_number e.life_number && eqb_ℤ role.state_version e.state_version

unfoldable pub validate_command_expectation : Option Role → CommandExpectation → Option Error
validate_command_expectation none e = some unauthenticated
validate_command_expectation (some role) e =
    if malformed e then some invalid else if matches role e then none else some stale_command

module _ (host : Host) where
  -- The role at a key, or an error.
  unfoldable pub role_or : String → Error → Action host Role
  role_or k e s = or_raise (lookup k s.roles) e s

  unfoldable pub expect : String → CommandExpectation → Action host (Unit {0})
  expect k e s = elim (validate_command_expectation (lookup k s.roles) e) [
    | none ↦ (ok tt, s)
    | some x ↦ (err x, s)
  ]

  -- authoritativeNowLocked for the role at a key.
  unfoldable pub now_for : Call host.float.F → String → Action host Time
  now_for call k s = (ok (authoritative_now call.reading (lookup k s.roles)), s)

  -- stateLocked
  unfoldable pub settle : String → Time → Action host (State host.float.F)
  settle k now s =
      let (state, s') = state_of host k now s in
      elim state [ none ↦ (err nil_dereference, s') | some st ↦ (ok st, s') ]

  -- if role.Status != RoleAlive { return e }
  unfoldable pub alive_or : String → Error → Action host (Unit {0})
  alive_or k e s = elim (lookup k s.roles) [
    | none ↦ (err nil_dereference, s)
    | some role ↦ (if is_alive role.status then ok tt else err e, s)
  ]

  unfoldable pub results_of : String → World host → Dict (State host.float.F)
  results_of k s = elim (lookup k s.idempotency) [ none ↦ [] | some results ↦ results ]

  unfoldable pub idempotency_result : String → String → World host → Option (State host.float.F)
  idempotency_result k key s = lookup key (results_of k s)

  unfoldable pub remember_idempotency :
      String → String → State host.float.F → World host → World host
  remember_idempotency k key result s = record s {
    idempotency = insert k (insert key result (results_of k s)) s.idempotency;
  }

  -- A command that was carried out before is answered from memory.
  unfoldable pub replay :
      String → String → Action host (State host.float.F) → Action host (State host.float.F)
  replay k key command s = elim (idempotency_result k key s) [
    | some previous ↦ (ok previous, s)
    | none ↦ command s
  ]

  unfoldable pub save : Call host.float.F → Action host (Unit {0})
  save call s =
      let (done, s') = persist host call.save s in (if done then ok tt else err store_failure, s')

  -- The common end: the state after the command is remembered, saved and returned.
  unfoldable pub conclude :
      Call host.float.F → String → String → Time → Action host (State host.float.F)
  conclude call k key now = do
    result ← settle k now
    modify (remember_idempotency k key result)
    save call
    pure result

-- The definitions of this file together, for a test that runs them.
unfoldable pub open_action : Unit {0}
unfolding ◌>>=◌ pure raise raise_if gets modify or_raise malformed matches
    validate_command_expectation role_or expect now_for settle alive_or results_of
    idempotency_result remember_idempotency replay save conclude
open_action = tt
