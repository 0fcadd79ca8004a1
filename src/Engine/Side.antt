-- ===== src/Engine/Side.antt =====
-- engine/engine.go: the side of a bet.
use pegasus_suite.Prelude.{Bool, true, false}

pub data Side : Type 0 where
  betmatic_win betfair_back betfair_lay : Side

abbrev pub same_side : Side → Side → Bool
same_side betmatic_win betmatic_win = true
same_side betmatic_win betfair_back = false
same_side betmatic_win betfair_lay = false
same_side betfair_back betmatic_win = false
same_side betfair_back betfair_back = true
same_side betfair_back betfair_lay = false
same_side betfair_lay betmatic_win = false
same_side betfair_lay betfair_back = false
same_side betfair_lay betfair_lay = true
