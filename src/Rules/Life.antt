-- ===== src/Rules/Life.antt =====
-- Life and death in internal/rules/rules.go: DeriveLife, NextNaturalDeathAfter, ValidateTransfer.
use xiuxian.Base.{
  ℕ, zero, suc, ◌+◌, Bool, true, false, ◌||◌, Option, none, some, ◌==◌, if◌then◌else◌,
}
use xiuxian.Base.Int.{pos, ◌+ℤ◌, ◌-ℤ◌, ltb_ℤ, leb_ℤ, eqb_ℤ}
use xiuxian.Rules.Units.{Cultivation, Duration, milliseconds, of_millis}
use xiuxian.Rules.Realms.{Realm, no_realm, realm_at, realm_for, top_level}

pub record LifeState : Type 0 where
  pub cultivation : Cultivation
  pub age : Duration
  pub realm : Realm
  pub alive : Bool

unfoldable pub derive_life : Cultivation → Duration → LifeState
derive_life cultivation age =
    let realm = realm_for cultivation in
    record { cultivation = cultivation; age = age; realm = realm; alive = ltb_ℤ age realm.lifespan }

-- The loop, on fuel: `none` means that the fuel ran out.
unfoldable pub next_death_loop : ℕ → Cultivation → Duration → Duration → Option Duration
next_death_loop zero cultivation age elapsed = none
next_death_loop (suc fuel) cultivation age elapsed =
    let realm = realm_for cultivation in
    let until_death = realm.lifespan -ℤ age in
    let until_breakthrough = of_millis ((realm_at (realm.level + 1)).threshold -ℤ cultivation) in
    let rest =
      next_death_loop fuel (cultivation +ℤ milliseconds until_breakthrough)
        (age +ℤ until_breakthrough) (elapsed +ℤ until_breakthrough) in
    if leb_ℤ until_death (pos 0)
    then some elapsed
    else if realm.level == top_level
    then some (elapsed +ℤ until_death)
    else if ltb_ℤ until_death until_breakthrough
    then some (elapsed +ℤ until_death)
    else rest

-- There are 32 realms, and each round but the last enters a higher one.
abbrev pub death_fuel : ℕ
death_fuel = 32

unfoldable pub next_natural_death_after : Cultivation → Duration → Duration
next_natural_death_after cultivation age =
    elim (next_death_loop death_fuel cultivation age (pos 0)) [ none ↦ pos 0 | some d ↦ d ]

pub record TransferValidation : Type 0 where
  pub allowed : Bool
  pub death_after_transfer : Bool
  pub post_transfer : LifeState

-- `LifeState{}`
abbrev pub no_life : LifeState
no_life = record { cultivation = pos 0; age = pos 0; realm = no_realm; alive = false }

unfoldable pub validate_transfer : Cultivation → Cultivation → Duration → TransferValidation
unfolding derive_life
validate_transfer current amount age =
    let post = derive_life (current -ℤ amount) age in
    if leb_ℤ amount (pos 0) || ltb_ℤ current amount
    then record { allowed = false; death_after_transfer = false; post_transfer = no_life }
    else if ltb_ℤ post.realm.lifespan age
    then record { allowed = false; death_after_transfer = false; post_transfer = post }
    else record {
      allowed = true;
      death_after_transfer = eqb_ℤ age post.realm.lifespan;
      post_transfer = post;
    }
