-- ===== src/Rules/Eligible.antt =====
-- Which transfers ValidateTransfer of internal/rules/rules.go allows.
use xiuxian.Base.{◌≡◌, ◌↔◌, true, not, arith}
use xiuxian.Base.Int.{pos, ◌-ℤ◌, ◌≤ℤ◌, ◌<ℤ◌}
use xiuxian.Rules.Units.{Cultivation, Duration}
use xiuxian.Rules.Realms.{realm_for}
use xiuxian.Rules.Life.{derive_life, validate_transfer}

-- ValidateTransfer allows exactly the positive amounts that the sender has and that leave it in a
-- realm whose lifespan its age does not exceed; and it announces a death exactly when the life that
-- an allowed transfer leaves is over.
pub validate_transfer_iff :
    (current amount : Cultivation) (age : Duration)
    → let v = validate_transfer current amount age in
      let post = current -ℤ amount in
      ((v.allowed ≡ true)
        ↔ ((pos 0 <ℤ amount) × (amount ≤ℤ current) × (age ≤ℤ (realm_for post).lifespan)))
      × (v.allowed ≡ true → v.death_after_transfer ≡ not (derive_life post age).alive)
unfolding validate_transfer
validate_transfer_iff current amount age = ground arith
