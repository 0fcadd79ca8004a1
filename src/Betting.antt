-- ===== src/Betting.antt =====
-- betting/: the types of the two bookmaker clients that the engine and the strategies read.
pub mod Races
pub mod Polling
pub mod Refresh
mod Tests
use pegasus_suite.Prelude.{String, Bool, true, false, List}
use pegasus_suite.Prelude.Int.{ℤ}
use pegasus_suite.Prelude.Assoc.{Assoc}
use pegasus_suite.Prelude.Float.{Float64}

-- betmatic's `RacingCode`: a string, with three constants
pub data RacingCode : Type 0 where
  thoroughbred harness greyhounds : RacingCode
  other_code : String → RacingCode

abbrev pub is_thoroughbred : RacingCode → Bool
is_thoroughbred thoroughbred = true
is_thoroughbred harness = false
is_thoroughbred greyhounds = false
is_thoroughbred (other_code s) = false

abbrev pub is_harness : RacingCode → Bool
is_harness thoroughbred = false
is_harness harness = true
is_harness greyhounds = false
is_harness (other_code s) = false

-- betmatic's `Venue`
pub record BetmaticVenue : Type 0 where
  pub name : String
  pub is_metro : Bool

module _ (fl : Float64) where
  pub record OrderBook : Type 0 where
    pub price : fl.F
    pub size : fl.F

  pub record Runner : Type 0 where
    pub number : ℤ
    pub lay : List OrderBook
    pub back : List OrderBook
    pub ltp : fl.F
    pub selection_id : String
    pub market_id : String

  pub record BetfairRace : Type 0 where
    pub number : ℤ
    pub id : String
    pub name : String
    pub distance : ℤ
    pub runners : Assoc ℤ Runner

-- betfair's `RacingCode`: a string, with two constants
pub data BetfairCode : Type 0 where
  betfair_thoroughbred betfair_trot : BetfairCode
  betfair_other : String → BetfairCode
