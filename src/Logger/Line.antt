-- ===== src/Logger/Line.antt =====
-- logger/types.go and logger/record.go: what is logged, and the line that every output is handed.
pub mod Names
use Prim.Native.Char.{code}
use Prim.Native.String
use pegasus_suite.Prelude.{
  String, Bool, true, false, Option, none, some, ◌==◌, str_eq, if◌then◌else◌,
}
use pegasus_suite.Prelude.Int.{ℤ, pos, eq_ℤ}
use pegasus_suite.Prelude.Float.{Float64}
use pegasus_suite.Prelude.Time.{GoTime}
use pegasus_suite.Pegasus.Scope.{before}

pub record RaceDetails : Type 0 where
  pub venue : String
  pub race_number : ℤ
  pub runner_number : ℤ
  pub runner_name : String

-- `Log`; the request and the response as `rawJSON` encodes them
pub record Log : Type 0 where
  pub application : String
  pub user_id : String
  pub username : String
  pub process_id : String
  pub formatted_message : String
  pub request : String
  pub response : String
  pub trace : Option String
  pub race_details : Option RaceDetails

pub record BetLog (fl : Float64) : Type 0 where
  pub application : String
  pub user_id : String
  pub username : String
  pub process_id : String
  pub race_details : Option RaceDetails
  pub endpoint : String
  pub bet_type : String
  pub market : String
  pub ref : String
  pub requested : fl.F
  pub accepted : fl.F
  pub stake : fl.F
  pub odds : fl.F
  pub target_lia : fl.F
  pub profit : fl.F
  pub result : String
  pub race_state : String
  pub message : String

-- the interface `payload` has these two types and no other
pub data Payload (fl : Float64) : Type 0 where
  log : Log → Payload fl
  bet_log : BetLog fl → Payload fl

-- `Record`
pub record Line (fl : Float64) (tm : GoTime) : Type 0 where
  pub time : tm.Time
  pub level : String
  pub application : String
  pub message : String
  pub user_id : String
  pub username : String
  pub process_id : String
  pub race : Option RaceDetails
  pub trace : String
  pub request : String
  pub response : String
  pub bet : Option (BetLog fl)

unfoldable pub message : {fl : Float64} → Payload fl → String
message (log l) = l.formatted_message
message (bet_log l) = l.message

abbrev application_or : String → String → String
application_or own default = if str_eq own "" then default else own

-- the two `fill` methods
unfoldable pub fill : {fl : Float64} {tm : GoTime} → Payload fl → Line fl tm → Line fl tm
fill (log l) r = record r {
  application = application_or l.application r.application;
  user_id = l.user_id;
  username = l.username;
  process_id = l.process_id;
  race = l.race_details;
  request = l.request;
  response = l.response;
}
fill (bet_log l) r = record r {
  application = application_or l.application r.application;
  user_id = l.user_id;
  username = l.username;
  process_id = l.process_id;
  race = l.race_details;
  bet = some l;
}

-- the levels of log/slog are their numbers; `LevelBet` is 2
abbrev pub level_bet : ℤ
level_bet = pos 2

-- `LevelName`, over `slog.Level.String`
unfoldable pub level_name : (ℤ → String) → ℤ → String
level_name slog_name l = if eq_ℤ l level_bet then "BET" else slog_name l

abbrev extra_of : {fl : Float64} → Payload fl → Option String
extra_of (log l) = l.trace
extra_of (bet_log l) = none

-- `newRecord`; `trace_json` is `traceJSON` at the call site
unfoldable pub new_record :
    {fl : Float64} {tm : GoTime}
    → (ℤ → String)
    → (Option String → String)
    → Payload fl
    → ℤ
    → tm.Time
    → String
    → String
    → Line fl tm
new_record slog_name trace_json p level at application default_user_id =
    let r = fill p (record {
      time = at;
      level = level_name slog_name level;
      application = application;
      message = message p;
      user_id = "";
      username = "";
      process_id = "";
      race = none;
      trace = "";
      request = "";
      response = "";
      bet = none;
    }) in
    record r {
      trace = trace_json (extra_of p);
      user_id = if str_eq r.user_id "" then default_user_id else r.user_id;
    }

abbrev cut_there : Option (String × String) → String → String → String × String
cut_there none whole path = (String.◌++◌ path whole, "")
cut_there (some (a, b)) whole path = (String.◌++◌ path a, b)

-- `s[:i]` and `s[i+1:]` at the first dot
unfoldable pub cut_dot : String → Option (String × String)
cut_dot String.[] = none
cut_dot (String.◌∷◌ c s) =
    let rest = before c (cut_dot s) in if code c == b'.' then some ("", s) else rest

-- `s[:i+1]` and `s[i+1:]` at the last slash; without one, "" and the whole
unfoldable pub after_last_slash : String → Option (String × String)
after_last_slash String.[] = none
after_last_slash (String.◌∷◌ c s) = elim (after_last_slash s) [
  | some (a, b) ↦ some (String.◌∷◌ c a, b)
  | none ↦ if code c == b'/' then some ("/", s) else none
]

-- `splitFuncName`: the package path and the function
unfoldable pub split_func_name : String → String × String
split_func_name name = elim (after_last_slash name) [
  | none ↦ cut_there (cut_dot name) name ""
  | some (path, tail) ↦ cut_there (cut_dot tail) tail path
]
