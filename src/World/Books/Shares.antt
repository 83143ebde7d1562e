-- ===== src/World/Books/Shares.antt =====
-- What Transfer and Seize of internal/biz/core.go do to the cultivation of the roles.
use xiuxian.Base.{◌≡◌, some, String}
use xiuxian.Base.Dict.{lookup}
use xiuxian.Rules.Units.{Cultivation, Time}
use xiuxian.World.Host.{Host}
use xiuxian.World.Model.{World, Role}

module _ (host : Host) where
  -- A role that counts its cultivation from a base at a time.
  pub record Counts (c : Cultivation) (now : Time) (k : String) (s : World host) : Type 0 where
    pub role : Role
    pub there : lookup k s.roles ≡ some role
    pub base : role.cultivation_base ≡ c
    pub since : role.cultivation_at ≡ now

  -- A change of a role that leaves its cultivation as it is.
  record Keeps (f : Role → Role) : Type 0 where
    same_base : (x : Role) → (f x).cultivation_base ≡ x.cultivation_base
    same_time : (x : Role) → (f x).cultivation_at ≡ x.cultivation_at
