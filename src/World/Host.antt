-- ===== src/World/Host.antt =====
-- What internal/biz/core.go takes from elsewhere: float64, the hashes of package crypto, hex and
-- bcrypt, the clocks that a call reads, and what crypto/rand delivers.
use xiuxian.Base.{Bool, Option, String}
use xiuxian.Base.Int.{pos}
use xiuxian.Base.Float.{Float64}
use xiuxian.Rules.Units.{Time}

pub record Host : Type 1 where
  pub float : Float64
  -- sha256.Sum256, and the same in base64
  pub sha256 : String → String
  pub sha256_base64 : String → String
  pub hex : String → String
  -- hex.DecodeString with the check of the length
  pub unhex : String → Option String
  -- bcrypt.GenerateFromPassword with a salt, and bcrypt.CompareHashAndPassword
  pub bcrypt : String → String → Option String
  pub bcrypt_matches : String → String → Bool

-- AuthorityNow of a store that has it: an error, or the time of the database.
pub data DatabaseClock : Type 0 where
  absent : DatabaseClock
  broken : DatabaseClock
  tells : Time → DatabaseClock

-- What a call reads from the clocks.
pub record Reading : Type 0 where
  pub clock_now : Time
  pub database : DatabaseClock

-- Nanoseconds from Go's zero time to 1970.
abbrev pub unix_epoch : Time
unix_epoch = pos 62_135_596_800_000_000_000
