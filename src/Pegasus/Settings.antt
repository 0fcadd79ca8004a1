-- ===== src/Pegasus/Settings.antt =====
-- apps/pegasus/settings/settings.go: the settings documents and their checks. JSON decoding over a
-- default value and `strconv.Atoi` are parameters.
pub mod Validity
mod Tests
use pegasus_suite.Prelude.{
  ℕ, String, Bool, true, false, ◌&&◌, ◌||◌, not, Option, none, some, List, [], ◌∷◌, ◌+◌, ◌==◌,
  str_eq, if◌then◌else◌,
}
use pegasus_suite.Prelude.Int.{ℤ, pos, lt_ℤ}
use pegasus_suite.Prelude.Assoc.{Assoc}
use pegasus_suite.Prelude.Float.{Float64}
use pegasus_suite.Clients.{ProcessKey, RawMessage, Result, ok, err}
use pegasus_suite.Engine.Stake.{Stake, active, bets_betmatic, bets_betfair}
use pegasus_suite.Engine.Sessions.{
  BetmaticCredentials, BetfairCredentials, Credentials, betmatic_valid, betfair_valid,
}
use pegasus_suite.Pegasus.Scope.{split_scope_key}

module _ (fl : Float64) where
  pub record ScopeSettings : Type 0 where
    pub stake : Stake fl
    pub betmatic_delay : ℤ
    pub betfair_delay : ℤ

  pub record ProcessSettings : Type 0 where
    pub id : String
    pub user_id : String
    pub betmatic_credentials : BetmaticCredentials
    pub betfair_credentials : BetfairCredentials
    pub scopes : Assoc String ScopeSettings

-- the errors, by the message that the code formats
pub data SettingsError : Type 0 where
  process_not_found setup_not_valid nothing_staked : SettingsError
  unknown_scope betmatic_not_configured betmatic_delay_short betfair_not_configured
        betfair_delay_short betfair_min_odds :
      String → SettingsError
  bad_json : String → SettingsError
  triple_s_incomplete tpd_bad_port tpd_no_licence betfair_admin_incomplete : SettingsError

module _ {fl : Float64} where
  unfoldable pub credentials : ProcessSettings fl → Credentials
  credentials s = record {
    betmatic =
        if str_eq s.betmatic_credentials.username "" then none else some s.betmatic_credentials;
    betfair = if str_eq s.betfair_credentials.username "" then none else some s.betfair_credentials;
  }

  -- the checks of `Validate` on an active scope
  unfoldable pub check_betfair : Bool → String → ScopeSettings fl → Option SettingsError
  check_betfair bf_valid key scope =
      if not (bets_betfair fl scope.stake)
      then none
      else if not bf_valid
      then some (betfair_not_configured key)
      else if lt_ℤ scope.betfair_delay (pos 500)
      then some (betfair_delay_short key)
      else if fl.lt scope.stake.betfair.min_odds (fl.lit 1 0)
      then some (betfair_min_odds key)
      else none

  unfoldable pub check_betmatic : Bool → String → ScopeSettings fl → Option SettingsError
  check_betmatic bm_valid key scope =
      if not (bets_betmatic fl scope.stake)
      then none
      else if not bm_valid
      then some (betmatic_not_configured key)
      else if lt_ℤ scope.betmatic_delay (pos 500)
      then some (betmatic_delay_short key)
      else none

  unfoldable pub check_scope : Bool → Bool → String → ScopeSettings fl → Option SettingsError
  check_scope bm_valid bf_valid key scope = elim (split_scope_key key) [
    | none ↦ some (unknown_scope key)
    | some parts ↦ elim (check_betmatic bm_valid key scope) [
      | some e ↦ some e
      | none ↦ check_betfair bf_valid key scope
    ]
  ]

  -- the loop of `Validate`, with the active scopes counted so far
  unfoldable pub check_scopes :
      Bool → Bool → Assoc String (ScopeSettings fl) → ℕ → Option SettingsError
  check_scopes bm_valid bf_valid [] count = if count == 0 then some nothing_staked else none
  check_scopes bm_valid bf_valid ((key, scope) ∷ rest) count =
      let skipped = check_scopes bm_valid bf_valid rest count in
      let counted = check_scopes bm_valid bf_valid rest (count + 1) in
      if not (active fl scope.stake)
      then skipped
      else elim (check_scope bm_valid bf_valid key scope) [ some e ↦ some e | none ↦ counted ]

  unfoldable pub validate : ProcessSettings fl → Option SettingsError
  validate s =
      let bf_valid = betfair_valid s.betfair_credentials in
      let bm_valid = betmatic_valid s.betmatic_credentials in
      if not bf_valid && not bm_valid
      then some setup_not_valid
      else check_scopes bm_valid bf_valid s.scopes 0

-- `json.Unmarshal` of a document over a value
pub record Json (T : Type 0) : Type 0 where
  pub unmarshal : RawMessage → T → Result String T

module _ {fl : Float64} where
  -- the value that `ParseProcess` decodes over
  abbrev pub blank : ProcessKey → ProcessSettings fl
  blank key = record {
    id = key.process_id;
    user_id = key.user_id;
    betmatic_credentials = record { username = ""; password = ""; bot_id = ""; bookmakers = [] };
    betfair_credentials = record { username = ""; password = ""; app_key = ""; cert = "" };
    scopes = [];
  }

  unfoldable pub parse_process :
      Json (ProcessSettings fl)
      → ProcessKey
      → RawMessage
      → Result SettingsError (ProcessSettings fl)
  parse_process json key doc =
      if str_eq doc "" then err process_not_found else elim (json.unmarshal doc (blank key)) [
        | err m ↦ err (bad_json m)
        | ok s ↦ elim (validate s) [ some e ↦ err e | none ↦ ok s ]
      ]

pub record TripleS : Type 0 where
  pub enabled : Bool
  pub endpoint : String
  pub region : String
  pub access_key_id : String
  pub secret_access_key : String
  pub client_id : String

pub record Tpd : Type 0 where
  pub enabled : Bool
  pub licence_key : String
  pub udp_port : String

abbrev pub default_tpd_port : String
default_tpd_port = "4629"

abbrev pub default_triple_s : TripleS
default_triple_s = record {
  enabled = true;
  endpoint = "";
  region = "";
  access_key_id = "";
  secret_access_key = "";
  client_id = "";
}

abbrev pub default_tpd : Tpd
default_tpd = record { enabled = false; licence_key = ""; udp_port = default_tpd_port }

unfoldable pub validate_triple_s : TripleS → Option SettingsError
validate_triple_s t =
    if not t.enabled
    then none
    else if str_eq t.endpoint ""
        || str_eq t.region ""
        || str_eq t.access_key_id ""
        || str_eq t.secret_access_key ""
        || str_eq t.client_id ""
    then some triple_s_incomplete
    else none

-- whether `strconv.Atoi` reads a port
unfoldable pub is_port : (String → Option ℤ) → String → Bool
is_port atoi s = elim (atoi s) [
  | none ↦ false
  | some p ↦ not (lt_ℤ p (pos 1) || lt_ℤ (pos 65535) p)
]

unfoldable pub validate_tpd : (String → Option ℤ) → Tpd → Option SettingsError
validate_tpd atoi t =
    if not (str_eq t.udp_port "") && not (is_port atoi t.udp_port)
    then some tpd_bad_port
    else if t.enabled && str_eq t.licence_key ""
    then some tpd_no_licence
    else none

unfoldable pub parse_triple_s : Json TripleS → RawMessage → Result SettingsError TripleS
parse_triple_s json doc =
    if str_eq doc ""
    then ok default_triple_s
    else elim (json.unmarshal doc default_triple_s) [ err m ↦ err (bad_json m) | ok t ↦ ok t ]

abbrev pub with_port : Tpd → Tpd
with_port t = if str_eq t.udp_port "" then record t { udp_port = default_tpd_port } else t

unfoldable pub parse_tpd : Json Tpd → RawMessage → Result SettingsError Tpd
parse_tpd json doc =
    if str_eq doc "" then ok (with_port default_tpd) else elim (json.unmarshal doc default_tpd) [
      | err m ↦ err (bad_json m)
      | ok t ↦ ok (with_port t)
    ]

abbrev pub no_credentials : BetfairCredentials
no_credentials = record { username = ""; password = ""; app_key = ""; cert = "" }

unfoldable pub parse_admin_betfair :
    Json BetfairCredentials → RawMessage → Result SettingsError BetfairCredentials
parse_admin_betfair json doc =
    elim (if str_eq doc "" then ok no_credentials else json.unmarshal doc no_credentials) [
      | err m ↦ err (bad_json m)
      | ok c ↦ if betfair_valid c then ok c else err betfair_admin_incomplete
    ]
