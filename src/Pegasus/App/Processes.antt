-- ===== src/Pegasus/App/Processes.antt =====
-- apps/pegasus/app.go: adding and removing a process. `account` is the engine's `Account`, which opens
-- the bookmaker sessions; `get_betfair_race` is `lookupBetfairRace`.
pub mod Coverage
use pegasus_suite.Prelude.{
  String, Bool, true, false, not, Option, none, some, List, [], ◌∷◌, str_eq, if◌then◌else◌,
}
use pegasus_suite.Prelude.Assoc.{Assoc, insert, erase}
use pegasus_suite.Prelude.Float.{Float64}
use pegasus_suite.Prelude.Time.{GoTime}
use pegasus_suite.Betting.{BetfairRace}
use pegasus_suite.Clients.{ProcessKey, key_eq, RawMessage, Result, ok, err}
use pegasus_suite.Engine.Place.{Account}
use pegasus_suite.Engine.Sessions.{Credentials}
use pegasus_suite.Engine.Stake.{active}
use pegasus_suite.Pegasus.Core.{Provider, RaceRef}
use pegasus_suite.Pegasus.Process
use pegasus_suite.Pegasus.Scope.{split_scope_key}
use pegasus_suite.Pegasus.Settings.{
  ScopeSettings, ProcessSettings, SettingsError, Json, parse_process, credentials,
}
use pegasus_suite.Pegasus.Strategy.{covers}
use pegasus_suite.Pegasus.Venues.{provider_for}
use pegasus_suite.Pegasus.App.{
  AppError, bad_settings, client_failed, unknown_scope, no_feed, feed_disabled, no_strategy,
  Clients, Member, App,
}

-- the body of the loop of `validateScopes`
unfoldable pub validate_scope : (Provider → Bool) → String → Option AppError
validate_scope enabled key = elim (split_scope_key key) [
  | none ↦ some (unknown_scope key)
  | some (country, code) ↦ elim (provider_for country) [
    | none ↦ some (no_feed country)
    | some provider ↦
        if not (enabled provider)
        then some (feed_disabled key provider)
        else if not (covers provider code)
        then some (no_strategy key provider)
        else none
  ]
]

module _ {fl : Float64} where
  -- `activeScopes`
  unfoldable pub active_scopes : Assoc String (ScopeSettings fl) → List String
  active_scopes [] = []
  active_scopes ((key, scope) ∷ rest) =
      let keys = active_scopes rest in if active fl scope.stake then key ∷ keys else keys

-- `validateScopes`
unfoldable pub validate_keys : (Provider → Bool) → List String → Option AppError
unfolding validate_scope
validate_keys enabled [] = none
validate_keys enabled (key ∷ rest) = elim (validate_scope enabled key) [
  | some e ↦ some e
  | none ↦ validate_keys enabled rest
]

module _ {fl : Float64} {tm : GoTime} {W : Type 0} (c : Clients fl W)
    (json : Json (ProcessSettings fl))
    (account : ProcessKey → Credentials → W → W × Result String Account)
    (get_betfair_race : RaceRef fl → Option (BetfairRace fl)) where
  abbrev pub member_of : Account → ProcessSettings fl → Member fl tm
  member_of acc s = record {
    process = Process.new s true;
    dispatcher = record { account = acc; settings = s; get_betfair_race = some get_betfair_race };
  }

  -- `NewProcess`
  unfoldable pub new_process :
      ProcessKey → RawMessage → App tm c → W → (App tm c × W) × Result AppError (Member fl tm)
  unfolding validate_keys
  new_process key doc a w = elim (parse_process json key doc) [
    | err e ↦ ((a, w), err (bad_settings e))
    | ok s ↦ elim (validate_keys a.enabled (active_scopes s.scopes)) [
      | some e ↦ ((a, w), err e)
      | none ↦
          (let (w', r) = account key (credentials s) w in
            elim r [
              | err m ↦ ((a, w'), err (client_failed m))
              | ok acc ↦ (
                (record a { procs = insert key (member_of acc s) a.procs }, w'),
                ok (member_of acc s),
              )
            ])
    ]
  ]

  -- `remove`, which a process calls when it closes
  unfoldable pub remove : ProcessKey → App tm c → App tm c
  remove key a = record a { procs = erase key a.procs }
