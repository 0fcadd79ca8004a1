-- ===== src/Pegasus/Samples.antt =====
-- apps/pegasus/: a TPD race, a packet and a process with one staked scope, for the tests.
use pegasus_suite.Prelude.{String, Option, none, some, true, false, [], ◌∷◌}
use pegasus_suite.Prelude.Int.{ℤ, pos}
use pegasus_suite.Prelude.Time.{GoTime}
use pegasus_suite.Prelude.Toy.{toy_float, toy_time}
use pegasus_suite.Betting.{BetfairRace, thoroughbred}
use pegasus_suite.Pegasus.Core.{RaceRef, provider_tpd, RaceStatus, status_running}
use pegasus_suite.Pegasus.Packet.{Progress}
use pegasus_suite.Pegasus.Settings.{ScopeSettings, ProcessSettings}
use pegasus_suite.Pegasus.Strategy.TpdLeader.Runs.{LeaderMessage}
use pegasus_suite.Pegasus.Tpd.{Race}

abbrev pub us_race_at : RaceStatus → RaceRef toy_float
us_race_at status = record {
  provider = provider_tpd;
  key = "98202401011200";
  scope = "US/THOROUGHBRED";
  venue = "98";
  venue_name = "Belmont Park";
  country = "US";
  race_number = pos 3;
  code = thoroughbred;
  distance = pos 12000;
  status = status;
}

abbrev pub packet_at : String → ℤ → Progress toy_float
packet_at time to_go = record {
  timestamp = time;
  id = "98202401011200";
  running_time = pos 20;
  progress = to_go;
  order = "4" ∷ "2" ∷ "1" ∷ "3" ∷ [];
  warnings = 0;
}

abbrev pub us_message : LeaderMessage toy_float toy_time
us_message = record {
  p = packet_at "2s" (pos 9000);
  ref = us_race_at status_running;
  now = pos 0;
  later = pos 0;
}

abbrev pub read_number : String → Option ℤ
read_number s = some (pos 4)

abbrev pub no_prices : RaceRef toy_float → Option (BetfairRace toy_float)
no_prices ref = none

abbrev pub us_scope : ScopeSettings toy_float
us_scope = record {
  stake = record {
    betmatic = record { win_stake = pos 0; win_mbl = false; min_odds = pos 0; max_odds = pos 0 };
    betfair = record {
      back_stake = pos 100;
      lay_stake = pos 0;
      min_odds = pos 20;
      max_odds = pos 200;
    };
  };
  betmatic_delay = pos 1000;
  betfair_delay = pos 1000;
}

abbrev pub us_settings : ProcessSettings toy_float
us_settings = record {
  id = "p";
  user_id = "u";
  betmatic_credentials = record { username = ""; password = ""; bot_id = ""; bookmakers = [] };
  betfair_credentials = record { username = "a"; password = "b"; app_key = "c"; cert = "d" };
  scopes = ("US/THOROUGHBRED", us_scope) ∷ [];
}

-- a clock that also reads the date of a sharecode
abbrev pub clock : GoTime
clock = record toy_time {
  parse = λ layout s. elim (toy_time.parse layout s) [ some t ↦ some t | none ↦ some (pos 1) ];
}

-- the race list with this race alone
abbrev pub listed : String → Option (Race toy_float clock)
listed sharecode = some (record {
  id = "98202401011200";
  country = "US";
  racecourse = "Belmont Park";
  race_number = pos 3;
  post_time = pos 0;
  length = pos 12000;
  published = true;
})
