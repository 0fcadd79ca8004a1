-- ===== src/Pegasus/Strategy/Field.antt =====
-- apps/pegasus/strategy/forward_progress.go: its state, the movement of the field since the start, and
-- the share of the stake.
use pegasus_suite.Prelude.{
  String, Bool, true, false, ◌&&◌, Option, none, some, List, [], ◌∷◌, ◌++◌, if◌then◌else◌, length,
}
use pegasus_suite.Prelude.Int.{ℤ, pos, lt_ℤ, int_eq}
use pegasus_suite.Prelude.Assoc.{Assoc, lookup, insert, string_eq}
use pegasus_suite.Prelude.Float.{Float64}
use pegasus_suite.Prelude.Time.{GoTime}
use pegasus_suite.Betting.{RacingCode, thoroughbred, harness, greyhounds, other_code}
use pegasus_suite.Pegasus.Core.{
  Vector, RaceStatus, status_unknown, status_pre_off, status_running, status_finished, Decision,
  add_vector, sub_vector, div_vector, normalise, dot,
}

-- what the strategy reads of a `LiveDataSet` and of a `RaceMessage`
pub record LiveDataSet (fl : Float64) : Type 0 where
  pub saddlecloth_number : ℤ
  pub gps_coordinates : Vector fl

pub record RaceMessage (fl : Float64) : Type 0 where
  pub timestamp : String
  pub live_data_sets : List (LiveDataSet fl)

pub record RunnerMove (fl : Float64) : Type 0 where
  pub cloth : ℤ
  pub d : Vector fl

-- `forwardProgressState`; the zero `startedAt` of a race that has not started is never read
pub record RaceState (fl : Float64) (tm : GoTime) : Type 0 where
  pub ignore : Bool
  pub started : Bool
  pub betfair_placed : Bool
  pub betmatic_placed : Bool
  pub distance : ℤ
  pub started_at : tm.Time
  pub start : Assoc ℤ (Vector fl)

-- `ForwardProgress`. Its `moves` is a buffer that each call starts empty, so it is no state.
pub record ForwardProgress (fl : Float64) (tm : GoTime) : Type 0 where
  pub races : Assoc String (RaceState fl tm)

abbrev pub is_finished : RaceStatus → Bool
is_finished status_unknown = false
is_finished status_pre_off = false
is_finished status_running = false
is_finished status_finished = true

abbrev pub is_running : RaceStatus → Bool
is_running status_unknown = false
is_running status_pre_off = false
is_running status_running = true
is_running status_finished = false

module _ {fl : Float64} where
  -- the zero `Decision`, and the one that only keeps prices polled
  abbrev pub no_decision : Decision fl
  no_decision = record { bets = []; tracking = false }

  abbrev pub keep_tracking : Decision fl
  keep_tracking = record { bets = []; tracking = true }

  -- the first loop of `extremes`: how far each runner has moved since the start, and their sum
  unfoldable pub collect_moves :
      Assoc ℤ (Vector fl)
      → List (LiveDataSet fl)
      → List (RunnerMove fl)
      → Vector fl
      → List (RunnerMove fl) × Vector fl
  collect_moves start [] moves field_vector = (moves, field_vector)
  collect_moves start (h ∷ rest) moves field_vector = elim (lookup h.saddlecloth_number start) [
    | none ↦ collect_moves start rest moves field_vector
    | some seen ↦
        (let d = sub_vector h.gps_coordinates seen in
          collect_moves start rest (moves ++ record { cloth = h.saddlecloth_number; d = d } ∷ [])
            (add_vector field_vector d))
  ]

  -- the second loop of `extremes`
  unfoldable pub best_and_worst : Vector fl → List (RunnerMove fl) → fl.F → ℤ → fl.F → ℤ → ℤ × ℤ
  best_and_worst forward [] best_progress best worst_progress worst = (best, worst)
  best_and_worst forward (mv ∷ rest) best_progress best worst_progress worst =
      let progress = dot mv.d forward in
      let better = fl.lt best_progress progress in
      let worse = fl.lt progress worst_progress in
      best_and_worst forward rest (if better then progress else best_progress)
        (if better then mv.cloth else best) (if worse then progress else worst_progress)
        (if worse then mv.cloth else worst)

  unfoldable pub pick_extremes : Vector fl → List (RunnerMove fl) → Option (ℤ × ℤ)
  pick_extremes field_vector [] = none
  pick_extremes field_vector (mv ∷ rest) =
      let moves = mv ∷ rest in
      let forward = normalise (div_vector field_vector (fl.of_int (pos (length moves)))) in
      let (best, worst) = best_and_worst forward moves fl.neg_inf (pos 0) fl.pos_inf (pos 0) in
      if lt_ℤ best (pos 1) && lt_ℤ worst (pos 1) then none else some (best, worst)

  unfoldable pub extremes : Assoc ℤ (Vector fl) → List (LiveDataSet fl) → Option (ℤ × ℤ)
  extremes start current =
      let (moves, field_vector) =
        collect_moves start current [] (record { latitude = fl.lit 0 0; longitude = fl.lit 0 0 }) in
      pick_extremes field_vector moves

  -- the loop that records where each runner is when the race starts
  unfoldable pub starting_positions :
      List (LiveDataSet fl) → Assoc ℤ (Vector fl) → Assoc ℤ (Vector fl)
  starting_positions [] start = start
  starting_positions (h ∷ rest) start =
      starting_positions rest (insert h.saddlecloth_number h.gps_coordinates start)

-- `unitFor`: the share of the stake for a race of this code and length
unfoldable pub unit_for : (fl : Float64) → RacingCode → ℤ → fl.F
unit_for fl thoroughbred track_length =
    if lt_ℤ track_length (pos 1050)
    then fl.lit 1 0
    else if lt_ℤ track_length (pos 1250)
    then fl.lit 8 1
    else if lt_ℤ track_length (pos 1450)
    then fl.lit 6 1
    else fl.lit 0 0
unit_for fl harness track_length = if lt_ℤ track_length (pos 2000) then fl.lit 1 0 else fl.lit 8 1
unit_for fl greyhounds track_length = fl.lit 0 0
unit_for fl (other_code s) track_length = fl.lit 0 0
