-- ===== src/Pegasus/Strategy/ForwardProgress.antt =====
-- apps/pegasus/strategy/forward_progress.go: bets the runner that has advanced furthest along the
-- field's direction of travel, once a set time after the first running message.
pub mod Counts
pub mod Once
pub mod Runs
mod Tests
use pegasus_suite.Prelude.{
  String, Bool, true, false, not, ◌&&◌, ◌||◌, Option, none, some, List, [], ◌∷◌, ◌++◌,
  if◌then◌else◌,
}
use pegasus_suite.Prelude.Int.{ℤ, pos, lt_ℤ, le_ℤ, eq_ℤ, int_eq, ◌/ℤ◌}
use pegasus_suite.Prelude.Assoc.{lookup, insert, erase, string_eq}
use pegasus_suite.Prelude.Float.{Float64}
use pegasus_suite.Prelude.Time.{GoTime}
use pegasus_suite.Betting.{is_thoroughbred, is_harness, BetfairRace}
use pegasus_suite.Engine.Side.{betmatic_win, betfair_back, betfair_lay}
use pegasus_suite.Pegasus.Core.{RaceRef, Bet, Decision}
use pegasus_suite.Pegasus.Strategy.Field.{
  RaceMessage, RaceState, ForwardProgress, is_finished, is_running, no_decision, keep_tracking,
  extremes, starting_positions, unit_for,
}

-- the two messages that `Select` wraps a parse error in
pub data SelectError : Type 0 where
  first_timestamp current_timestamp : String → SelectError

-- util/time.go
unfoldable pub iso8601_to_time : (tm : GoTime) → String → Option tm.Time
iso8601_to_time tm time_str = tm.parse "2006-01-02T15:04:05Z" time_str

-- `Duration.Milliseconds`
unfoldable pub milliseconds : ℤ → ℤ
milliseconds d = d /ℤ 1000000

-- what `Select` returns, and the strategy it leaves
abbrev pub Selected : Float64 → GoTime → Type 0
Selected fl tm = ForwardProgress fl tm × Decision fl × Option SelectError

module _ {fl : Float64} where
  -- the bets of `Select` on a pair of extremes
  unfoldable pub bets_on : RaceRef fl → fl.F → Bool → Bool → ℤ → ℤ → List (Bet fl)
  bets_on ref unit betmatic_ready betfair_ready best worst =
      (if betmatic_ready
        then record { ref = ref; side = betmatic_win; runner = best; unit = unit } ∷ []
        else [])
      ++ (if betfair_ready
          then record { ref = ref; side = betfair_back; runner = best; unit = unit }
            ∷ (if eq_ℤ worst best
                then []
                else record { ref = ref; side = betfair_lay; runner = worst; unit = unit } ∷ [])
          else [])

module _ {fl : Float64} {tm : GoTime} where
  -- `forwardProgressState{ignore: true}` and `forwardProgressState{distance: d}`
  abbrev pub ignored : RaceState fl tm
  ignored = record {
    ignore = true;
    started = false;
    betfair_placed = false;
    betmatic_placed = false;
    distance = pos 0;
    started_at = tm.zero_time;
    start = [];
  }

  abbrev pub opened : ℤ → RaceState fl tm
  opened d = record {
    ignore = false;
    started = false;
    betfair_placed = false;
    betmatic_placed = false;
    distance = d;
    started_at = tm.zero_time;
    start = [];
  }

  abbrev pub put : String → RaceState fl tm → ForwardProgress fl tm → ForwardProgress fl tm
  put key state s = record s { races = insert key state s.races }

  unfoldable pub open_race :
      RaceRef fl → (RaceRef fl → Option (BetfairRace fl)) → RaceState fl tm × Bool
  open_race ref get_betfair_race =
      if not (is_thoroughbred ref.code) && not (is_harness ref.code)
      then (ignored, false)
      else elim (get_betfair_race ref) [
        | none ↦ (ignored, false)
        | some bf_race ↦
            (if lt_ℤ bf_race.distance (pos 1)
              then (ignored, false)
              else if is_thoroughbred ref.code && lt_ℤ (pos 1450) bf_race.distance
              then (ignored, false)
              else (opened bf_race.distance, true))
      ]

  -- `Select` on a race that has not started
  unfoldable pub select_starting :
      RaceMessage fl → RaceRef fl → RaceState fl tm → ForwardProgress fl tm → Selected fl tm
  select_starting m ref state s =
      if not (is_running ref.status)
      then (s, keep_tracking, none)
      else elim (iso8601_to_time tm m.timestamp) [
        | none ↦ (s, keep_tracking, some (first_timestamp m.timestamp))
        | some at ↦ (
          put ref.key
              (record state {
                started = true;
                started_at = at;
                start = starting_positions m.live_data_sets [];
              })
              s,
          keep_tracking,
          none,
        )
      ]

  -- `Select` once a bookmaker is ready for the bet
  unfoldable pub select_ready :
      RaceMessage fl
      → RaceRef fl
      → Bool
      → Bool
      → RaceState fl tm
      → ForwardProgress fl tm
      → Selected fl tm
  select_ready m ref betfair_ready betmatic_ready state s =
      elim (extremes state.start m.live_data_sets) [
        | none ↦ (s, keep_tracking, none)
        | some bw ↦
            (let unit = unit_for fl ref.code state.distance in
              if fl.le unit (fl.lit 0 0)
              then (put ref.key (record state { ignore = true }) s, no_decision, none)
              else (
                put ref.key
                    (record state {
                      betmatic_placed = state.betmatic_placed || betmatic_ready;
                      betfair_placed = state.betfair_placed || betfair_ready;
                    })
                    s,
                record {
                  bets = bets_on ref unit betmatic_ready betfair_ready bw.0 bw.1;
                  tracking = true;
                },
                none,
              ))
      ]

  -- `Select` on a race that has started
  unfoldable pub select_started :
      RaceMessage fl → RaceRef fl → ℤ → ℤ → RaceState fl tm → ForwardProgress fl tm → Selected fl tm
  select_started m ref betfair_delay betmatic_delay state s =
      if state.betfair_placed && state.betmatic_placed
      then (s, no_decision, none)
      else elim (iso8601_to_time tm m.timestamp) [
        | none ↦ (s, keep_tracking, some (current_timestamp m.timestamp))
        | some at ↦
            (let delta = milliseconds (tm.sub at state.started_at) in
              let betfair_ready = not state.betfair_placed && le_ℤ betfair_delay delta in
              let betmatic_ready = not state.betmatic_placed && le_ℤ betmatic_delay delta in
              if not betfair_ready && not betmatic_ready
              then (s, keep_tracking, none)
              else select_ready m ref betfair_ready betmatic_ready state s)
      ]

  -- `Select` on a tracked race
  unfoldable pub select_tracked :
      RaceMessage fl → RaceRef fl → ℤ → ℤ → RaceState fl tm → ForwardProgress fl tm → Selected fl tm
  select_tracked m ref betfair_delay betmatic_delay state s =
      if state.ignore
      then (s, no_decision, none)
      else if not state.started
      then select_starting m ref state s
      else select_started m ref betfair_delay betmatic_delay state s

  unfoldable pub select :
      RaceMessage fl
      → RaceRef fl
      → ℤ
      → ℤ
      → (RaceRef fl → Option (BetfairRace fl))
      → ForwardProgress fl tm
      → Selected fl tm
  select m ref betfair_delay betmatic_delay get_betfair_race s =
      if is_finished ref.status
      then (record s { races = erase ref.key s.races }, no_decision, none)
      else elim (lookup ref.key s.races) [
        | some state ↦ select_tracked m ref betfair_delay betmatic_delay state s
        | none ↦
            (let (state, ok) = open_race ref get_betfair_race in
              let s' = put ref.key state s in
              if not ok
              then (s', no_decision, none)
              else select_tracked m ref betfair_delay betmatic_delay state s')
      ]
