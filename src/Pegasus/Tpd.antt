-- ===== src/Pegasus/Tpd.antt =====
-- apps/pegasus/tpd/: the TPD feed. Here the races of its race list and the sharecode of a race
-- (types.go); an index into a Go string counts bytes, so texts are cut by their UTF-8 length.
mod Courses
pub mod Tracker
pub mod RaceList
pub mod Datagram
mod Tests
use Prim.Native.Char.{Char, code}
use Prim.Native.String
use pegasus_suite.Prelude.{
  ℕ, ◌+◌, ◌-◌, String, Bool, true, false, not, Option, none, some, ltb, ◌==◌, if◌then◌else◌,
}
use pegasus_suite.Prelude.Int.{ℤ}
use pegasus_suite.Prelude.Float.{Float64}
use pegasus_suite.Prelude.Time.{GoTime}
use pegasus_suite.Pegasus.Scope.{before}

-- what the application reads of a `Race`
pub record Race (fl : Float64) (tm : GoTime) : Type 0 where
  pub id : String
  pub country : String
  pub racecourse : String
  pub race_number : ℤ
  pub post_time : tm.Time
  pub length : fl.F
  pub published : Bool

abbrev pub utf8_width : Char → ℕ
utf8_width c =
    if ltb (code c) 128
    then 1
    else if ltb (code c) 2048
    then 2
    else if ltb (code c) 65536
    then 3
    else 4

-- `len(s)`
unfoldable pub byte_length : String → ℕ
byte_length String.[] = 0
byte_length (String.◌∷◌ c s) = utf8_width c + byte_length s

-- `s[:n]` and `s[n:]`, if the cut is not inside a character
unfoldable pub cut : ℕ → String → Option (String × String)
cut n String.[] = if n == 0 then some ("", "") else none
cut n (String.◌∷◌ c s) =
    let rest = before c (cut (n - utf8_width c) s) in
    if n == 0 then some ("", String.◌∷◌ c s) else if ltb n (utf8_width c) then none else rest

abbrev pub sharecode_len : ℕ
sharecode_len = 14

-- `ParseSharecode`; what follows a cut inside a character is no date
unfoldable pub parse_sharecode : (tm : GoTime) → String → Option (String × tm.Time)
parse_sharecode tm s = if not (byte_length s == sharecode_len) then none else elim (cut 2 s) [
  | none ↦ none
  | some (course, rest) ↦ elim (tm.parse "200601021504" rest) [
    | none ↦ none
    | some scheduled_off ↦ some (course, scheduled_off)
  ]
]
