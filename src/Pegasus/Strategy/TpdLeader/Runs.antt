-- ===== src/Pegasus/Strategy/TpdLeader/Runs.antt =====
-- apps/pegasus/strategy/tpd_leader.go: the leader strategy over any sequence of packets.
use pegasus_suite.Prelude.{◌≡◌, ◌+◌, ◌≤◌, String, true, Option, List}
use pegasus_suite.Prelude.Int.{ℤ}
use pegasus_suite.Prelude.Float.{Float64}
use pegasus_suite.Prelude.Time.{GoTime}
use pegasus_suite.Engine.Side.{Side}
use pegasus_suite.Pegasus.Core.{RaceRef}
use pegasus_suite.Pegasus.Packet.{Progress}
use pegasus_suite.Pegasus.Strategy.Once.{
  OnceStrategy, count, keeps, goes_on, bets_placed, at_most_once,
}
use pegasus_suite.Pegasus.Strategy.TpdLeader.{Leader, select}
use pegasus_suite.Pegasus.Strategy.TpdLeader.Once.{Counts, cap, placed, placed_le, select-Counts}

-- a packet, the race that it is about, and the two clock readings while it is handled
pub record LeaderMessage (fl : Float64) (tm : GoTime) : Type 0 where
  pub p : Progress fl
  pub ref : RaceRef fl
  pub now : tm.Time
  pub later : tm.Time

module _ {fl : Float64} (tm : GoTime) (atoi : String → Option ℤ) (delays : RaceRef fl → ℤ × ℤ) where
  pub select_counts :
      (side : Side) (key : String) (m : LeaderMessage fl tm) (s : Leader tm)
      → keeps key m.ref ≡ true
      → let (s', d) = select atoi m.p m.ref (delays m.ref).0 (delays m.ref).1 m.now m.later s in
        count side key d.bets + placed side key s ≤ placed side key s'
  unfolding Counts
  select_counts side key m s go =
      select-Counts atoi side key m.p m.ref (delays m.ref).0 (delays m.ref).1 m.now m.later s go

  -- `Select` as a process calls it, with the delays (Betfair's first) of the race's scope
  abbrev pub tpd_leader : OnceStrategy fl
  tpd_leader = record {
    Message = LeaderMessage fl tm;
    State = Leader tm;
    ref_of = λ m. m.ref;
    step = λ m s.
        let (s', d) = select atoi m.p m.ref (delays m.ref).0 (delays m.ref).1 m.now m.later s in
        (s', d.bets);
    placed = placed;
    cap = cap;
    placed_le = placed_le;
    step_counts = select_counts;
  }

  -- While no packet says that a race has finished, whatever the packets of all races and the clock:
  -- the leader strategy places at most one betmatic bet and one betfair back on that race, none on a
  -- side that was placed before, and never lays.
  pub leader_at_most_once :
      (side : Side) (key : String) (messages : List (LeaderMessage fl tm)) (s : Leader tm)
      → goes_on tpd_leader key messages ≡ true
      → bets_placed tpd_leader side key messages s + placed side key s ≤ cap side
  leader_at_most_once side key messages s go = at_most_once tpd_leader side key messages s go
