-- ===== src/Pegasus/Settings/Tests.antt =====
-- apps/pegasus/settings/settings.go on a process with one staked scope.
use pegasus_suite.Prelude.{◌≡◌, ◌↔◌, true, none, ◌||◌}
use pegasus_suite.Engine.Sessions.{betmatic_valid, betfair_valid}
use pegasus_suite.Pegasus.Samples.{us_settings}
use pegasus_suite.Pegasus.Settings.{validate}
use pegasus_suite.Pegasus.Settings.Validity.{AllBettable, any_active, validate-AllBettable}

validate-AllBettable_example :
    let bf = betfair_valid us_settings.betfair_credentials in
    let bm = betmatic_valid us_settings.betmatic_credentials in
    (validate us_settings ≡ none) ↔ (
      ((bm || bf) ≡ true)
      × AllBettable bm bf us_settings.scopes
      × (any_active us_settings.scopes ≡ true))
validate-AllBettable_example = validate-AllBettable us_settings
