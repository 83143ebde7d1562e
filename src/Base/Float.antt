-- ===== src/Base/Float.antt =====
-- Go's float64, as a parameter: the operations of the language and of package math that the source
-- uses on it. `whole_part` is math.Trunc; `round` and `trunc` are the conversions int64(math.Round(x)) and int64(x).
use xiuxian.Base.Int.{ℤ}
use mathlib.Core.Bool.{Bool}

pub record Float64 : Type 1 where
  pub F : Type 0
  pub of_int : ℤ → F
  pub add : F → F → F
  pub sub : F → F → F
  pub mul : F → F → F
  pub div : F → F → F
  pub hypot : F → F → F
  pub min : F → F → F
  pub le : F → F → Bool
  pub lt : F → F → Bool
  pub eq : F → F → Bool
  pub whole_part : F → F
  pub round : F → ℤ
  pub trunc : F → ℤ
