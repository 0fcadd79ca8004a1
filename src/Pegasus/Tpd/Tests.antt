-- ===== src/Pegasus/Tpd/Tests.antt =====
-- apps/pegasus/tpd/ on one race: a packet, the same packet again, and the packet that finishes it.
use pegasus_suite.Prelude.{
  ◌≡◌, refl, String, true, false, Option, none, some, List, [], ◌∷◌, is_some, arith,
}
use pegasus_suite.Prelude.Int.{pos, ◌-ℤ◌}
use pegasus_suite.Prelude.Assoc.{string_eq, lookup, insert, erase}
use pegasus_suite.Prelude.Toy.{toy_float}
use pegasus_suite.Clients.{Result, ok, err}
use pegasus_suite.Pegasus.Core.{RaceRef, status_finished}
use pegasus_suite.Pegasus.Samples.{clock, packet_at, us_race_at, listed}
use pegasus_suite.Pegasus.Scope.{scope_key}
use pegasus_suite.Pegasus.Tpd.{Race, byte_length, cut, parse_sharecode}
use pegasus_suite.Pegasus.Tpd.RaceList.{RaceList}
use pegasus_suite.Pegasus.Tpd.RaceList.Refresh.{is_live}
use pegasus_suite.Pegasus.Tpd.Tracker.{
  Tracker, resolve, track_race, race_of, race_status, observe, accept, ref, sweep, sweep_races,
}
use pegasus_suite.Pegasus.Tpd.Tracker.Order.{
  Event, arrives, sweeps, last_seen, run, stamps, any_stale, Increasing, stamps-Increasing,
}
use pegasus_suite.Pegasus.Tpd.Tracker.Replay.{IsAfterOrder, is_kept, ref-replay}

abbrev no_races : Tracker toy_float clock
no_races = record { races = []; unresolved = [] }

abbrev key : String
key = "98202401011200"

-- The sweep comes too early to forget the race.
abbrev events : List (Event toy_float clock)
events =
    arrives listed (record { p = packet_at "2s" (pos 9000); now = pos 0; later = pos 0 })
    ∷ arrives listed (record { p = packet_at "2s" (pos 9000); now = pos 1; later = pos 1 })
    ∷ sweeps (pos 2)
    ∷ arrives listed (record { p = packet_at "9s" (pos 0); now = pos 2; later = pos 2 })
    ∷ []

stamps-Increasing_example : Increasing clock (last_seen key no_races) (stamps key events no_races)
stamps-Increasing_example = stamps-Increasing key events no_races

order : IsAfterOrder clock
order = record { irreflexive = λ x. ground arith; transitive = λ x y z g h. ground (arith, g, h) }

let_through : is_some (ref listed (packet_at "2s" (pos 9000)) (pos 0) (pos 0) no_races).1 ≡ true
unfolding ref accept race_of track_race resolve parse_sharecode byte_length cut lookup observe
    race_status
let_through = refl

kept : is_kept key events (ref listed (packet_at "2s" (pos 9000)) (pos 0) (pos 0) no_races).0 ≡ true
unfolding is_kept any_stale sweep sweep_races ref accept race_of track_race resolve parse_sharecode
    byte_length cut lookup insert erase observe race_status ◌-ℤ◌
kept = refl

ref-replay_example :
    is_some
      (ref listed
        (packet_at "2s" (pos 9000))
        (pos 5)
        (pos 5)
        (run events (ref listed (packet_at "2s" (pos 9000)) (pos 0) (pos 0) no_races).0)).1
    ≡ false
ref-replay_example =
    ref-replay order listed listed (packet_at "2s" (pos 9000)) (pos 0) (pos 0) (pos 5) (pos 5)
      events no_races let_through kept

abbrev finished_ref : RaceRef toy_float
finished_ref = us_race_at status_finished

finishes : (ref listed (packet_at "9s" (pos 0)) (pos 0) (pos 0) no_races).1 ≡ some finished_ref
unfolding ref accept race_of track_race resolve parse_sharecode byte_length cut lookup observe
    race_status scope_key
finishes = refl

abbrev pages : String → Result String (List (Race toy_float clock))
pages date = elim (listed key) [ none ↦ err "" | some race ↦ ok (race ∷ []) ]

abbrev empty_list : RaceList toy_float clock
empty_list = record { races = []; loaded = []; last_success = pos 0; wanted = [] }

abbrev days : List (String × Option String)
days = ("20231231", none) ∷ ("20240101", none) ∷ []

all_live : is_live pages "20231230" days ≡ true
unfolding is_live
all_live = refl

abbrev one_race : RaceList toy_float clock
one_race = record empty_list {
  races = elim (listed key) [ none ↦ [] | some race ↦ (key, race) ∷ [] ];
}
