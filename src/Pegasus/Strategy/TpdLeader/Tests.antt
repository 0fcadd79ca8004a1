-- ===== src/Pegasus/Strategy/TpdLeader/Tests.antt =====
-- apps/pegasus/strategy/tpd_leader.go on one race.
use pegasus_suite.Prelude.{◌≡◌, refl, ◌+◌, ◌≤◌, String, true, some, Option, List, [], ◌∷◌}
use pegasus_suite.Prelude.Int.{ℤ, pos}
use pegasus_suite.Prelude.Toy.{toy_float, toy_time}
use pegasus_suite.Betting.{thoroughbred}
use pegasus_suite.Engine.Side.{betfair_back}
use pegasus_suite.Pegasus.Core.{RaceRef, provider_tpd, status_running}
use pegasus_suite.Pegasus.Packet.{Progress}
use pegasus_suite.Pegasus.Strategy.Once.{goes_on, bets_placed}
use pegasus_suite.Pegasus.Strategy.TpdLeader.{Leader}
use pegasus_suite.Pegasus.Strategy.TpdLeader.Once.{cap, placed}
use pegasus_suite.Pegasus.Strategy.TpdLeader.Runs.{LeaderMessage, tpd_leader, leader_at_most_once}

abbrev running_race : RaceRef toy_float
running_race = record {
  provider = provider_tpd;
  key = "98202401011200";
  scope = "US/THOROUGHBRED";
  venue = "98";
  venue_name = "Belmont Park";
  country = "US";
  race_number = pos 3;
  code = thoroughbred;
  distance = pos 12000;
  status = status_running;
}

abbrev packet : Progress toy_float
packet = record {
  timestamp = "2s";
  id = "98202401011200";
  running_time = pos 20;
  progress = pos 9000;
  order = "4" ∷ "2" ∷ "1" ∷ "3" ∷ [];
  warnings = 0;
}

abbrev packets : List (LeaderMessage toy_float toy_time)
packets =
    record { p = packet; ref = running_race; now = pos 0; later = pos 0 }
    ∷ record { p = packet; ref = running_race; now = pos 5; later = pos 5 }
    ∷ []

abbrev atoi : String → Option ℤ
atoi s = some (pos 4)

abbrev delays : RaceRef toy_float → ℤ × ℤ
delays ref = (pos 1000, pos 1500)

abbrev no_races : Leader toy_time
no_races = record { race_state = [] }

goes_on-packets : goes_on (tpd_leader toy_time atoi delays) "98202401011200" packets ≡ true
unfolding goes_on
goes_on-packets = refl

leader_at_most_once_example :
    bets_placed (tpd_leader toy_time atoi delays) betfair_back "98202401011200" packets no_races
      + placed betfair_back "98202401011200" no_races
    ≤ cap betfair_back
leader_at_most_once_example =
    leader_at_most_once toy_time atoi delays betfair_back "98202401011200" packets no_races
      goes_on-packets
