-- ===== src/Engine/Ticks/Tests.antt =====
-- The tick helpers at the prices of engine/stake_test.go, and their theorems at one of them.
use pegasus_suite.Prelude.{ℕ, ◌≤◌, ◌<◌, ◌≡◌, refl, ◌⊎◌, arith}
use pegasus_suite.Prelude.Int.{pos, negsuc, ◌+ℤ◌, ◌-ℤ◌, ◌*ℤ◌, ◌/ℤ◌}
use pegasus_suite.Engine.Ticks.{
  floor_to_betfair_tick, ceil_to_betfair_tick, floor_bands, ceil_bands,
}
use pegasus_suite.Engine.Ticks.Bounds.{
  IsTick, IsExchangePrice, floor_to_betfair_tick_greatest, ceil_to_betfair_tick_least,
}

floor_cases :
    (floor_to_betfair_tick (pos 101) ≡ pos 0)
    × (floor_to_betfair_tick (pos 253) ≡ pos 250)
    × (floor_to_betfair_tick (pos 999) ≡ pos 980)
    × (floor_to_betfair_tick (pos 2510) ≡ pos 2500)
    × (floor_to_betfair_tick (pos 120000) ≡ pos 100000)
    × (floor_to_betfair_tick (negsuc 40) ≡ pos 0)
unfolding floor_to_betfair_tick floor_bands ◌+ℤ◌ ◌-ℤ◌ ◌*ℤ◌ ◌/ℤ◌
floor_cases = (refl, refl, refl, refl, refl, refl)

ceil_cases :
    (ceil_to_betfair_tick (pos 100) ≡ pos 0)
    × (ceil_to_betfair_tick (pos 101) ≡ pos 110)
    × (ceil_to_betfair_tick (pos 601) ≡ pos 620)
    × (ceil_to_betfair_tick (pos 2510) ≡ pos 2600)
    × (ceil_to_betfair_tick (pos 99900) ≡ pos 100000)
unfolding ceil_to_betfair_tick ceil_bands ◌+ℤ◌ ◌-ℤ◌ ◌*ℤ◌ ◌/ℤ◌
ceil_cases = (refl, refl, refl, refl, refl)

floor_to_betfair_tick_greatest_example :
    ((floor_to_betfair_tick (pos 253) ≡ pos 0) × ((t : ℕ) → IsTick t → 253 < t))
    ⊎ ((f : ℕ) × (floor_to_betfair_tick (pos 253) ≡ pos f)
        × IsTick f
        × IsExchangePrice f
        × (f ≤ 253)
        × ((t : ℕ) → IsTick t → t ≤ 253 → t ≤ f))
floor_to_betfair_tick_greatest_example =
    floor_to_betfair_tick_greatest 253 (omega arith) (omega arith)

ceil_to_betfair_tick_least_example :
    (c : ℕ) × (ceil_to_betfair_tick (pos 253) ≡ pos c)
    × IsTick c
    × IsExchangePrice c
    × (253 ≤ c)
    × ((t : ℕ) → IsTick t → 253 ≤ t → c ≤ t)
ceil_to_betfair_tick_least_example = ceil_to_betfair_tick_least 253 (omega arith) (omega arith)
