-- ===== src/Pegasus/Scope.antt =====
-- apps/pegasus/core/scope.go: the key under which a process stakes a country and a racing code.
pub mod RoundTrip
mod Tests
use Prim.Native.Char.{Char, code}
use Prim.Native.String
use pegasus_suite.Prelude.{String, Bool, Option, none, some, ◌==◌, str_eq, if◌then◌else◌}
use pegasus_suite.Betting.{RacingCode, thoroughbred, harness, greyhounds, other_code}

unfoldable pub scope_key : String → RacingCode → String
scope_key country thoroughbred = String.◌++◌ country "/THOROUGHBRED"
scope_key country harness = String.◌++◌ country "/HARNESS"
scope_key country greyhounds = ""
scope_key country (other_code s) = ""

abbrev pub before : Char → Option (String × String) → Option (String × String)
before c none = none
before c (some (a, b)) = some (String.◌∷◌ c a, b)

-- `strings.IndexByte(key, '/')`, with `key[:i]` and `key[i+1:]`; none is an index of -1
unfoldable pub cut_slash : String → Option (String × String)
cut_slash String.[] = none
cut_slash (String.◌∷◌ c s) =
    let rest = before c (cut_slash s) in if code c == b'/' then some ("", s) else rest

abbrev pub code_of : String → Option RacingCode
code_of s =
    if str_eq s "THOROUGHBRED"
    then some thoroughbred
    else if str_eq s "HARNESS"
    then some harness
    else none

unfoldable pub split_scope_key : String → Option (String × RacingCode)
split_scope_key key = elim (cut_slash key) [
  | none ↦ none
  | some (country, rest) ↦
      if str_eq country ""
      then none
      else elim (code_of rest) [ none ↦ none | some code ↦ some (country, code) ]
]
