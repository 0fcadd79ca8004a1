-- ===== src/Pegasus/Strategy/ForwardProgress/Counts.antt =====
-- apps/pegasus/strategy/forward_progress.go: the bets on one race, counted.
use pegasus_suite.Prelude.{◌≡◌, ℕ, ◌≤◌, String, Bool, false, none, some, arith}
use pegasus_suite.Prelude.Int.{ℤ}
use pegasus_suite.Prelude.Assoc.{string_eq, lookup}
use pegasus_suite.Prelude.Float.{Float64}
use pegasus_suite.Prelude.Time.{GoTime}
use pegasus_suite.Engine.Side.{Side, betmatic_win, betfair_back, betfair_lay}
use pegasus_suite.Pegasus.Core.{RaceRef}
use pegasus_suite.Pegasus.Strategy.Field.{RaceState, ForwardProgress}
use pegasus_suite.Pegasus.Strategy.Once.{bit, count}
use pegasus_suite.Pegasus.Strategy.ForwardProgress.{bets_on}

module _ {fl : Float64} where
  pub count-bets_on_other :
      (side : Side) (key : String) (ref : RaceRef fl) (unit : fl.F) (bm bf : Bool) (best worst : ℤ)
      → string_eq.beq ref.key key ≡ false
      → count side key (bets_on ref unit bm bf best worst) ≡ 0
  unfolding count bets_on
  count-bets_on_other side key ref unit bm bf best worst e = ground (arith, e)

  pub count-bets_on :
      (side : Side) (key : String) (ref : RaceRef fl) (unit : fl.F) (bm bf : Bool) (best worst : ℤ)
      → count side key (bets_on ref unit bm bf best worst)
        ≤ elim side [ betmatic_win ↦ bit bm | betfair_back ↦ bit bf | betfair_lay ↦ bit bf ]
  unfolding count bets_on
  count-bets_on side key ref unit bm bf best worst = ground arith

module _ {fl : Float64} {tm : GoTime} where
  -- what the state says of the bets already placed on this side
  abbrev pub flag : Side → RaceState fl tm → Bool
  flag betmatic_win state = state.betmatic_placed
  flag betfair_back state = state.betfair_placed
  flag betfair_lay state = state.betfair_placed

  unfoldable pub placed : Side → String → ForwardProgress fl tm → ℕ
  placed side key s = elim (lookup key s.races) [ none ↦ 0 | some state ↦ bit (flag side state) ]
