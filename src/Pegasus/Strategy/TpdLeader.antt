-- ===== src/Pegasus/Strategy/TpdLeader.antt =====
-- apps/pegasus/strategy/tpd_leader.go: bets the leader of the running order, once a set time after the
-- off. `strconv.Atoi` and the two readings of the clock are parameters.
pub mod Once
pub mod Runs
mod Tests
use pegasus_suite.Prelude.{
  ℕ, String, Bool, true, false, not, ◌&&◌, ◌||◌, Option, none, some, List, [], ◌∷◌, ◌++◌, ◌/◌, ◌%◌,
  ◌==◌, ltb, length, if◌then◌else◌,
}
use pegasus_suite.Prelude.Int.{ℤ, pos, lt_ℤ, le_ℤ}
use pegasus_suite.Prelude.Assoc.{Assoc, string_eq, lookup, insert, erase}
use pegasus_suite.Prelude.Float.{Float64}
use pegasus_suite.Prelude.Time.{GoTime}
use pegasus_suite.Engine.Side.{betmatic_win, betfair_back}
use pegasus_suite.Pegasus.Core.{RaceRef, Bet, Decision}
use pegasus_suite.Pegasus.Packet.{Progress}
use pegasus_suite.Pegasus.Strategy.Field.{is_finished, is_running, no_decision, keep_tracking}
use pegasus_suite.Pegasus.Strategy.ForwardProgress.{milliseconds}

abbrev pub min_ranked_runners : ℕ
min_ranked_runners = 4

-- `tpdRaceState`
pub record LeaderState (tm : GoTime) : Type 0 where
  pub ignore : Bool
  pub running_since : tm.Time
  pub betfair_placed : Bool
  pub betmatic_placed : Bool

-- `TPDLeader`
pub record Leader (tm : GoTime) : Type 0 where
  pub race_state : Assoc String (LeaderState tm)

abbrev pub zero_state : {tm : GoTime} → LeaderState tm
zero_state {tm} = record {
  ignore = false;
  running_since = tm.zero_time;
  betfair_placed = false;
  betmatic_placed = false;
}

-- the bits WarnAssignment and WarnStart
unfoldable pub warns_assignment : ℕ → Bool
warns_assignment w = not ((w / 8) % 2 == 0)

unfoldable pub warns_start : ℕ → Bool
warns_start w = not ((w / 4) % 2 == 0)

pub data ScopeBlock : Type 0 where
  assignment_warning start_warning : ScopeBlock
  few_ranked_runners : ℕ → ScopeBlock

unfoldable pub scope_block : {fl : Float64} → Progress fl → Option ScopeBlock
scope_block p =
    if warns_assignment p.warnings
    then some assignment_warning
    else if warns_start p.warnings
    then some start_warning
    else if ltb (length p.order) min_ranked_runners
    then some (few_ranked_runners (length p.order))
    else none

unfoldable pub get_unit_size : (fl : Float64) → fl.F → fl.F
get_unit_size fl distance = fl.lit 1 0

-- `strconv.Atoi(p.Order[0])`, and that it is at least 1; an empty order, which `scopeBlock` has ruled
-- out, is a panic in Go
unfoldable pub leader_of : (String → Option ℤ) → List String → Option ℤ
leader_of atoi [] = none
leader_of atoi (cloth ∷ rest) = elim (atoi cloth) [
  | none ↦ none
  | some leader ↦ if lt_ℤ leader (pos 1) then none else some leader
]

module _ {fl : Float64} where
  unfoldable pub leader_bets : RaceRef fl → fl.F → Bool → Bool → ℤ → List (Bet fl)
  leader_bets ref unit betmatic_ready betfair_ready leader =
      (if betmatic_ready
        then record { ref = ref; side = betmatic_win; runner = leader; unit = unit } ∷ []
        else [])
      ++ (if betfair_ready
          then record { ref = ref; side = betfair_back; runner = leader; unit = unit } ∷ []
          else [])

-- `time.Duration(p.RunningTime * float64(time.Second))`, or the time since the first running update
unfoldable pub elapsed : {fl : Float64} (tm : GoTime) → Progress fl → tm.Time → tm.Time → ℤ
elapsed {fl} tm p running_since later =
    let run = fl.to_int (fl.mul p.running_time (fl.lit 1000000000 0)) in
    if le_ℤ run (pos 0) then tm.sub later running_since else run

module _ {tm : GoTime} where
  abbrev pub put : String → LeaderState tm → Leader tm → Leader tm
  put key state s = record s { race_state = insert key state s.race_state }

  abbrev pub state_of : String → Leader tm → LeaderState tm
  state_of key s = elim (lookup key s.race_state) [ none ↦ zero_state | some state ↦ state ]

  abbrev pub since : tm.Time → LeaderState tm → LeaderState tm
  since now state =
      if tm.is_zero state.running_since then record state { running_since = now } else state

module _ {fl : Float64} {tm : GoTime} (atoi : String → Option ℤ) where
  -- `Select` once a bookmaker is ready for the bet; it never returns an error
  unfoldable pub select_leader :
      Progress fl → RaceRef fl → Bool → Bool → LeaderState tm → Leader tm → Leader tm × Decision fl
  select_leader p ref betfair_ready betmatic_ready state s = elim (scope_block p) [
    | some reason ↦ (s, keep_tracking)
    | none ↦ elim (leader_of atoi p.order) [
      | none ↦ (s, keep_tracking)
      | some leader ↦
          (let unit = get_unit_size fl ref.distance in
            if fl.le unit (fl.lit 0 0)
            then (put ref.key (record state { ignore = true }) s, no_decision)
            else (
              put ref.key
                  (record state {
                    betmatic_placed = state.betmatic_placed || betmatic_ready;
                    betfair_placed = state.betfair_placed || betfair_ready;
                  })
                  s,
              record {
                bets = leader_bets ref unit betmatic_ready betfair_ready leader;
                tracking = true;
              },
            ))
    ]
  ]

  -- `Select` on a running race, with the state that it stored
  unfoldable pub select_running :
      Progress fl
      → RaceRef fl
      → ℤ
      → ℤ
      → tm.Time
      → LeaderState tm
      → Leader tm
      → Leader tm × Decision fl
  select_running p ref betfair_delay betmatic_delay later state s =
      let ms = milliseconds (elapsed tm p state.running_since later) in
      let betfair_ready = not state.betfair_placed && le_ℤ betfair_delay ms in
      let betmatic_ready = not state.betmatic_placed && le_ℤ betmatic_delay ms in
      if state.betfair_placed && state.betmatic_placed
      then (s, no_decision)
      else if not betfair_ready && not betmatic_ready
      then (s, keep_tracking)
      else select_leader p ref betfair_ready betmatic_ready state s

  -- `Select`, at the clock readings `now` and `later`
  unfoldable pub select :
      Progress fl → RaceRef fl → ℤ → ℤ → tm.Time → tm.Time → Leader tm → Leader tm × Decision fl
  select p ref betfair_delay betmatic_delay now later s =
      let state = state_of ref.key s in
      let running = since now state in
      if is_finished ref.status
      then (record s { race_state = erase ref.key s.race_state }, no_decision)
      else if state.ignore
      then (s, no_decision)
      else if not (is_running ref.status)
      then (put ref.key state s, keep_tracking)
      else select_running p ref betfair_delay betmatic_delay later running (put ref.key running s)
