-- ===== src/Engine/Ticks.antt =====
-- engine/stake.go: Betfair's price ladder, in whole cents. `FloorToBetfairTick` and
-- `CeilToBetfairTick` between their float conversions.
pub mod Ladder
pub mod Bounds
mod Tests
use pegasus_suite.Prelude.{ℕ, List, [], ◌∷◌, if◌then◌else◌}
use pegasus_suite.Prelude.Int.{ℤ, pos, ◌+ℤ◌, ◌-ℤ◌, ◌*ℤ◌, ◌/ℤ◌, lt_ℤ, le_ℤ}

-- `betfairTickLadder`: each band's upper limit and step
abbrev pub betfair_tick_ladder : List (ℕ × ℕ)
betfair_tick_ladder =
    (600, 10)
    ∷ (1000, 20)
    ∷ (2000, 50)
    ∷ (3000, 100)
    ∷ (5000, 200)
    ∷ (10000, 500)
    ∷ (100000, 1000)
    ∷ []

-- The loop of `FloorToBetfairTick`. Go's `/` truncates towards zero.
unfoldable pub floor_bands : ℤ → ℕ → List (ℕ × ℕ) → ℤ
unfolding ◌+ℤ◌ ◌-ℤ◌ ◌*ℤ◌ ◌/ℤ◌
floor_bands cents anchor [] = cents
floor_bands cents anchor ((limit, step) ∷ rest) =
    if lt_ℤ cents (pos limit)
    then (let floored = pos anchor +ℤ (cents -ℤ pos anchor) /ℤ step *ℤ step in
        if lt_ℤ floored (pos 101) then pos 0 else floored)
    else floor_bands cents limit rest

-- `FloorToBetfairTick` from its whole number of cents on
unfoldable pub floor_to_betfair_tick : ℤ → ℤ
floor_to_betfair_tick cents =
    floor_bands (if lt_ℤ (pos 100000) cents then pos 100000 else cents) 100 betfair_tick_ladder

-- The loop of `CeilToBetfairTick`
unfoldable pub ceil_bands : ℤ → ℕ → List (ℕ × ℕ) → ℤ
unfolding ◌+ℤ◌ ◌-ℤ◌ ◌*ℤ◌ ◌/ℤ◌
ceil_bands cents anchor [] = cents
ceil_bands cents anchor ((limit, step) ∷ rest) =
    if le_ℤ cents (pos limit)
    then pos anchor +ℤ (cents -ℤ pos anchor +ℤ pos step -ℤ pos 1) /ℤ step *ℤ step
    else ceil_bands cents limit rest

-- `CeilToBetfairTick` from its whole number of cents on
unfoldable pub ceil_to_betfair_tick : ℤ → ℤ
ceil_to_betfair_tick cents =
    if lt_ℤ cents (pos 101)
    then pos 0
    else if le_ℤ (pos 100000) cents
    then pos 100000
    else ceil_bands cents 100 betfair_tick_ladder
