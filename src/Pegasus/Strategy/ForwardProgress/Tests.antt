-- ===== src/Pegasus/Strategy/ForwardProgress/Tests.antt =====
-- apps/pegasus/strategy/forward_progress.go on one race of two runners.
use pegasus_suite.Prelude.{◌≡◌, refl, ℕ, true, ◌+◌, ◌≤◌, String, Option, some, List, [], ◌∷◌}
use pegasus_suite.Prelude.Int.{ℤ, pos}
use pegasus_suite.Prelude.Toy.{toy_float, toy_time}
use pegasus_suite.Betting.{BetfairRace, thoroughbred}
use pegasus_suite.Engine.Side.{betfair_back}
use pegasus_suite.Pegasus.Core.{RaceRef, provider_triple_s, RaceStatus, status_running}
use pegasus_suite.Pegasus.Strategy.Field.{LiveDataSet, RaceMessage, ForwardProgress}
use pegasus_suite.Pegasus.Strategy.ForwardProgress.Counts.{placed}
use pegasus_suite.Pegasus.Strategy.Once.{bets_placed, goes_on}
use pegasus_suite.Pegasus.Strategy.ForwardProgress.Runs.{forward_progress, select_at_most_once}

abbrev ref_at : RaceStatus → RaceRef toy_float
ref_at status = record {
  provider = provider_triple_s;
  key = "flemington-3";
  scope = "AU/THOROUGHBRED";
  venue = "flemington";
  venue_name = "Flemington";
  country = "AU";
  race_number = pos 3;
  code = thoroughbred;
  distance = pos 0;
  status = status;
}

abbrev race : RaceRef toy_float → Option (BetfairRace toy_float)
race ref =
    some (record { number = pos 3; id = "1"; name = "R3"; distance = pos 1100; runners = [] })

abbrev runner_at : ℕ → ℕ → LiveDataSet toy_float
runner_at n x = record {
  saddlecloth_number = pos n;
  gps_coordinates = record { latitude = pos x; longitude = pos 0 };
}

abbrev at_start : RaceMessage toy_float
at_start = record { timestamp = "0s"; live_data_sets = runner_at 1 0 ∷ runner_at 2 0 ∷ [] }

abbrev later : String → RaceMessage toy_float
later t = record { timestamp = t; live_data_sets = runner_at 1 500 ∷ runner_at 2 700 ∷ [] }

abbrev messages : List (RaceMessage toy_float × RaceRef toy_float)
messages =
    (at_start, ref_at status_running)
    ∷ (later "2s", ref_at status_running)
    ∷ (later "9s", ref_at status_running)
    ∷ []

abbrev no_races : ForwardProgress toy_float toy_time
no_races = record { races = [] }

abbrev delays : RaceRef toy_float → ℤ × ℤ
delays ref = (pos 1000, pos 5000)

goes_on-messages : goes_on (forward_progress toy_time delays race) "flemington-3" messages ≡ true
unfolding goes_on
goes_on-messages = refl

select_at_most_once_example :
    bets_placed
        (forward_progress toy_time delays race)
        betfair_back
        "flemington-3"
        messages
        no_races
      + placed betfair_back "flemington-3" no_races
    ≤ 1
select_at_most_once_example =
    select_at_most_once toy_time delays race betfair_back "flemington-3" messages no_races
      goes_on-messages
