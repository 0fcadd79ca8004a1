-- ===== src/Prelude/Float.antt =====
-- Go's float64 as a parameter: a type and the operations that the program calls. No law is assumed here;
-- a theorem that needs one names it as a hypothesis.
use Prim.Native.Nat.{ℕ}
use mathlib.Core.Bool.{Bool}
use pegasus_suite.Prelude.Int.{ℤ}

pub record Float64 : Type 1 where
  pub F : Type 0
  -- the literal `a / 10 ^ b`
  pub lit : ℕ → ℕ → F
  pub add : F → F → F
  pub sub : F → F → F
  pub mul : F → F → F
  pub div : F → F → F
  pub lt : F → F → Bool
  pub le : F → F → Bool
  pub eq : F → F → Bool
  pub pos_inf : F
  pub neg_inf : F
  -- math.Sqrt, math.Floor, math.Ceil, math.Round, math.Max
  pub sqrt : F → F
  pub floor : F → F
  pub ceil : F → F
  pub round : F → F
  pub max : F → F → F
  -- int(x) and float64(n)
  pub to_int : F → ℤ
  pub of_int : ℤ → F
