-- ===== src/Engine/Stake.antt =====
-- engine/stake.go and engine/engine.go: stakes, what they target, and the ladder on float prices.
use pegasus_suite.Prelude.{Bool, not, ◌&&◌, ◌||◌, if◌then◌else◌}
use pegasus_suite.Prelude.Int.{pos, eq_ℤ, le_ℤ}
use pegasus_suite.Prelude.Float.{Float64}
use pegasus_suite.Engine.Ticks.{floor_to_betfair_tick, ceil_to_betfair_tick}

module _ (fl : Float64) where
  pub record BetmaticStake : Type 0 where
    pub win_stake : fl.F
    pub win_mbl : Bool
    pub min_odds : fl.F
    pub max_odds : fl.F

  pub record BetfairStake : Type 0 where
    pub back_stake : fl.F
    pub lay_stake : fl.F
    pub min_odds : fl.F
    pub max_odds : fl.F

  pub record Stake : Type 0 where
    pub betmatic : BetmaticStake
    pub betfair : BetfairStake

  abbrev pub is_positive : fl.F → Bool
  is_positive x = fl.lt (fl.lit 0 0) x

  unfoldable pub bets_betmatic : Stake → Bool
  bets_betmatic s = s.betmatic.win_mbl || is_positive s.betmatic.win_stake

  unfoldable pub bets_betfair : Stake → Bool
  bets_betfair s = is_positive s.betfair.back_stake || is_positive s.betfair.lay_stake

  unfoldable pub active : Stake → Bool
  active s = bets_betmatic s || bets_betfair s

  unfoldable pub get_liability : Bool → Bool → Bool → Bool → fl.F → fl.F → fl.F × fl.F
  get_liability is_metro is_horse w_mbl p_mbl w_lia p_lia =
      let win_lia =
        if fl.eq w_lia (fl.lit 0 0) && not w_mbl
        then fl.lit 0 0
        else if w_mbl
        then (if is_metro
            then (if is_horse then fl.lit 2000 0 else fl.lit 1000 0)
            else (if is_horse then fl.lit 1000 0 else fl.lit 500 0))
        else w_lia in
      let place_lia =
        if fl.eq p_lia (fl.lit 0 0) && not p_mbl
        then fl.lit 0 0
        else if p_mbl
        then (if is_metro
            then (if is_horse then fl.lit 800 0 else fl.lit 400 0)
            else (if is_horse then fl.lit 400 0 else fl.lit 200 0))
        else p_lia in
      (win_lia, place_lia)

  -- `FloorToBetfairTick` and `CeilToBetfairTick`, with their float conversions
  unfoldable pub floor_price : fl.F → fl.F
  floor_price price =
      let cents = fl.to_int (fl.floor (fl.add (fl.mul price (fl.lit 100 0)) (fl.lit 1 9))) in
      let tick = floor_to_betfair_tick cents in
      if eq_ℤ tick (pos 0) then fl.lit 0 0 else fl.div (fl.of_int tick) (fl.lit 100 0)

  unfoldable pub ceil_price : fl.F → fl.F
  ceil_price price =
      let cents = fl.to_int (fl.ceil (fl.sub (fl.mul price (fl.lit 100 0)) (fl.lit 1 9))) in
      let tick = ceil_to_betfair_tick cents in
      if eq_ℤ tick (pos 0)
      then fl.lit 0 0
      else if le_ℤ (pos 100000) cents
      then fl.lit 1000 0
      else fl.div (fl.of_int tick) (fl.lit 100 0)
