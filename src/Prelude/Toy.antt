-- ===== src/Prelude/Toy.antt =====
-- A float64 and a package time for the tests: tenths as whole numbers, and four readings of a clock
-- in nanoseconds.
use Prim.Native.Nat.{ℕ, ◌*◌, ◌/◌, ◌+◌}
use mathlib.Core.Option.{none, some}
use text.Mathlib.Text.{◌==◌ as str_eq}
use pegasus_suite.Prelude.Tests.{if◌then◌else◌, ◌==◌}
use pegasus_suite.Prelude.Int.{
  ℤ, pos, negsuc, ◌+ℤ◌, ◌-ℤ◌, ◌*ℤ◌, ◌/ℤ◌, pos_part, neg_part, lt_ℤ, le_ℤ, eq_ℤ,
}
use pegasus_suite.Prelude.Float.{Float64}
use pegasus_suite.Prelude.Time.{GoTime}

abbrev pub toy_lit : ℕ → ℕ → ℤ
toy_lit a b = if b == 0 then pos (a * 10) else pos a

abbrev pub toy_mul : ℤ → ℤ → ℤ
toy_mul a b =
    pos ((pos_part a * pos_part b + neg_part a * neg_part b) / 10)
    -ℤ pos ((pos_part a * neg_part b + neg_part a * pos_part b) / 10)

abbrev pub toy_div : ℤ → ℤ → ℤ
toy_div a b = if eq_ℤ b (pos 0) then pos 0 else (a *ℤ 10) /ℤ pos_part b

abbrev pub toy_float : Float64
toy_float = record {
  F = ℤ;
  lit = toy_lit;
  add = λ a b. a +ℤ b;
  sub = λ a b. a -ℤ b;
  mul = toy_mul;
  div = toy_div;
  lt = lt_ℤ;
  le = le_ℤ;
  eq = eq_ℤ;
  pos_inf = pos 1000000000;
  neg_inf = negsuc 1000000000;
  sqrt = λ a. a;
  floor = λ a. (a /ℤ 10) *ℤ 10;
  ceil = λ a. (a /ℤ 10) *ℤ 10;
  round = λ a. (a /ℤ 10) *ℤ 10;
  max = λ a b. if lt_ℤ a b then b else a;
  to_int = λ a. a /ℤ 10;
  of_int = λ a. a *ℤ 10;
}

abbrev pub toy_time : GoTime
toy_time = record {
  Time = ℤ;
  parse = λ layout s.
      if str_eq s "0s"
      then some (pos 0)
      else if str_eq s "2s"
      then some (pos 2000000000)
      else if str_eq s "9s"
      then some (pos 9000000000)
      else none;
  sub = λ a b. a -ℤ b;
  is_zero = λ a. eq_ℤ a (negsuc 0);
  zero_time = negsuc 0;
  is_after = λ a b. lt_ℤ b a;
}
