-- ===== src/Prelude/Time.antt =====
-- Go's package time as a parameter: instants, `time.Parse`, and `t.Sub(u)` in nanoseconds.
use Prim.Native.String.{String}
use mathlib.Core.Bool.{Bool}
use mathlib.Core.Option.{Option}
use pegasus_suite.Prelude.Int.{ℤ}

pub record GoTime : Type 1 where
  pub Time : Type 0
  pub parse : String → String → Option Time
  pub sub : Time → Time → ℤ
  -- `IsZero`, `After`
  pub is_zero : Time → Bool
  pub zero_time : Time
  pub is_after : Time → Time → Bool
