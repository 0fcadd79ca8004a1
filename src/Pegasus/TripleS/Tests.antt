-- ===== src/Pegasus/TripleS/Tests.antt =====
-- apps/pegasus/triples/ on one topic, one message and one reconnect.
use pegasus_suite.Prelude.{◌≡◌, ◌≢◌, ◌≤◌, refl, ℕ, String, true, false, some, [], ◌==◌}
use pegasus_suite.Prelude.Int.{ℤ, pos}
use pegasus_suite.Prelude.Assoc.{lookup}
use pegasus_suite.Prelude.Toy.{toy_float}
use pegasus_suite.Betting.{thoroughbred}
use pegasus_suite.Clients.{ok, err}
use pegasus_suite.Pegasus.Core.{RaceRef, status_running, status_unknown}
use pegasus_suite.Pegasus.TripleS.{FeedMessage, topic_code, status_of, ref_with, ref}
use pegasus_suite.Pegasus.TripleS.Reconnect.{
  Attempt, max_reconnect_attempts, reconnect, all_fail, is_gave_up, reconnect-ends,
}
use pegasus_suite.Pegasus.TripleS.Refs.{IsRouted, ref-IsRouted}
use pegasus_suite.Pegasus.TripleS.Topics.{levels, topic_code-levels}

topic_code-levels_example :
    topic_code "PROD/PRDF/AUS/RVIC/FLEMINGTON/3" ≡ levels "PROD/PRDF/AUS/RVIC/FLEMINGTON/3"
topic_code-levels_example = topic_code-levels "PROD/PRDF/AUS/RVIC/FLEMINGTON/3"

abbrev digits : ℤ → String
digits n = "3"

abbrev message : FeedMessage toy_float
message = record {
  country_race_code = "AUS/RVIC";
  venue_name = "Flemington";
  event_date = "2024-01-01";
  race_number = pos 3;
  race_state = pos 4;
  message = record { timestamp = "0s"; live_data_sets = [] };
}

abbrev race : RaceRef toy_float
race = ref_with digits message thoroughbred status_running

resolves : ref digits message ≡ some race
unfolding ref lookup status_of
resolves = refl

ref-IsRouted_example : IsRouted race × (race.status ≢ status_unknown)
ref-IsRouted_example = ref-IsRouted digits message race resolves

-- the broker answers at the third attempt
abbrev attempt : ℕ → Attempt ℕ
attempt k = record {
  ended = false;
  dial = elim (k == 3) [ true ↦ ok 7 | false ↦ err "connect timed out" ];
}

reconnect-ends_example :
    ((reconnect attempt false).1 ≤ 31)
    × (is_gave_up attempt false (reconnect attempt false).0
        ≡ all_fail attempt false max_reconnect_attempts 1)
reconnect-ends_example = reconnect-ends attempt false
