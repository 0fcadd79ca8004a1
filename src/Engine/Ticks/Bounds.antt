-- ===== src/Engine/Ticks/Bounds.antt =====
-- What the tick helpers of engine/stake.go promise of their results.
use native.Mathlib.Nat.{add-zero}
use pegasus_suite.Prelude.{
  false, List, ◌∷◌, ap, ◌∙◌, leb, ltb→lt, ℕ, ◌≤◌, ◌<◌, ◌%◌, ◌≡◌, refl, ◌⊎◌, inl, inr, true, arith,
  if◌then◌else◌, ltb, Bool-cases,
}
use pegasus_suite.Prelude.Int.{ℤ, pos, lt_ℤ, le_ℤ, ◌+ℤ◌, ◌-ℤ◌, ◌*ℤ◌, ◌/ℤ◌}
use pegasus_suite.Engine.Ticks.{
  floor_to_betfair_tick, ceil_to_betfair_tick, floor_bands, betfair_tick_ladder,
}
use pegasus_suite.Engine.Ticks.Ladder.{
  OnLadder, IsLadder, round_down, round_down-le, round_down-OnLadder, round_down_greatest,
  floor_bands-eq, round_up, round_up-ge, round_up-OnLadder, round_up_least, ceil_bands-eq,
}

-- One band of a price ladder: the multiples of `step` from `low` up to `high`.
abbrev pub InBand : ℕ → ℕ → ℕ → ℕ → Type 0
InBand low high step t = (low ≤ t) × (t < high) × (t % step ≡ 0)

-- The prices that the exchange takes (Betfair's published increments), in cents.
abbrev pub IsExchangePrice : ℕ → Type 0
IsExchangePrice t =
    InBand 101 200 1 t
    ⊎ InBand 200 300 2 t
    ⊎ InBand 300 400 5 t
    ⊎ InBand 400 600 10 t
    ⊎ InBand 600 1000 20 t
    ⊎ InBand 1000 2000 50 t
    ⊎ InBand 2000 3000 100 t
    ⊎ InBand 3000 5000 200 t
    ⊎ InBand 5000 10000 500 t
    ⊎ InBand 10000 100001 1000 t

-- The prices that the helpers may return: tenths up to $6, the exchange's own above.
abbrev pub IsTick : ℕ → Type 0
IsTick t =
    InBand 110 600 10 t
    ⊎ InBand 600 1000 20 t
    ⊎ InBand 1000 2000 50 t
    ⊎ InBand 2000 3000 100 t
    ⊎ InBand 3000 5000 200 t
    ⊎ InBand 5000 10000 500 t
    ⊎ InBand 10000 100001 1000 t

IsLadder-betfair_tick_ladder : IsLadder 100 betfair_tick_ladder
IsLadder-betfair_tick_ladder = omega arith

OnLadder-of-IsTick : (t : ℕ) → IsTick t → OnLadder 100 betfair_tick_ladder t
OnLadder-of-IsTick t (inl h) = inl (omega arith)
OnLadder-of-IsTick t (inr (inl h)) = inr (inl (omega arith))
OnLadder-of-IsTick t (inr (inr (inl h))) = inr (inr (inl (omega arith)))
OnLadder-of-IsTick t (inr (inr (inr (inl h)))) = inr (inr (inr (inl (omega arith))))
OnLadder-of-IsTick t (inr (inr (inr (inr (inl h))))) = inr (inr (inr (inr (inl (omega arith)))))
OnLadder-of-IsTick t (inr (inr (inr (inr (inr (inl h)))))) =
    inr (inr (inr (inr (inr (inl (omega arith))))))
OnLadder-of-IsTick t (inr (inr (inr (inr (inr (inr h)))))) = elim (Bool-cases (ltb t 100000)) [
  | inl b ↦ inr (inr (inr (inr (inr (inr (inl (ground arith)))))))
  | inr b ↦ inr (inr (inr (inr (inr (inr (inr (ground arith)))))))
]

IsTick-of-OnLadder : (t : ℕ) → 101 ≤ t → OnLadder 100 betfair_tick_ladder t → IsTick t
IsTick-of-OnLadder t k (inl h) = inl (omega arith)
IsTick-of-OnLadder t k (inr (inl h)) = inr (inl (omega arith))
IsTick-of-OnLadder t k (inr (inr (inl h))) = inr (inr (inl (omega arith)))
IsTick-of-OnLadder t k (inr (inr (inr (inl h)))) = inr (inr (inr (inl (omega arith))))
IsTick-of-OnLadder t k (inr (inr (inr (inr (inl h))))) = inr (inr (inr (inr (inl (omega arith)))))
IsTick-of-OnLadder t k (inr (inr (inr (inr (inr (inl h)))))) =
    inr (inr (inr (inr (inr (inl (omega arith))))))
IsTick-of-OnLadder t k (inr (inr (inr (inr (inr (inr (inl h))))))) =
    inr (inr (inr (inr (inr (inr (omega arith))))))
IsTick-of-OnLadder t k (inr (inr (inr (inr (inr (inr (inr h))))))) =
    inr (inr (inr (inr (inr (inr (omega arith))))))

IsTick-IsExchangePrice : (t : ℕ) → IsTick t → IsExchangePrice t
IsTick-IsExchangePrice t (inl h) = elim (Bool-cases (ltb t 200)) [
  | inl a ↦ inl (ground arith)
  | inr a ↦ elim (Bool-cases (ltb t 300)) [
    | inl b ↦ inr (inl (ground arith))
    | inr b ↦ elim (Bool-cases (ltb t 400)) [
      | inl c ↦ inr (inr (inl (ground arith)))
      | inr c ↦ inr (inr (inr (inl (ground arith))))
    ]
  ]
]
IsTick-IsExchangePrice t (inr h) = inr (inr (inr (inr h)))

IsTick-ge : (t : ℕ) → IsTick t → 110 ≤ t
IsTick-ge t h = omega arith

IsTick-max : IsTick 100000
IsTick-max = inr (inr (inr (inr (inr (inr (omega arith))))))

abbrev down : ℕ → ℕ
down n = round_down n 100 betfair_tick_ladder

abbrev up : ℕ → ℕ
up n = round_up n 100 betfair_tick_ladder

module _ (n : ℕ) (h : 101 ≤ n) (k : n ≤ 100000) where
  down_below : (t : ℕ) → IsTick t → t ≤ n → t ≤ down n
  down_below t tick le =
      round_down_greatest n 100 betfair_tick_ladder t IsLadder-betfair_tick_ladder
        (OnLadder-of-IsTick t tick) le

  IsTick-down : 101 ≤ down n → IsTick (down n)
  IsTick-down b =
      IsTick-of-OnLadder (down n) b
        (round_down-OnLadder n 100 betfair_tick_ladder IsLadder-betfair_tick_ladder (omega arith) k)

  floor_to_betfair_tick-eq :
      floor_to_betfair_tick (pos n) ≡ (if ltb (down n) 101 then pos 0 else pos (down n))
  unfolding floor_to_betfair_tick
  floor_to_betfair_tick-eq =
      let same : ltb 100000 n ≡ false = ground arith in
      simp (add-zero, same)
        (floor_bands-eq n 100 betfair_tick_ladder IsLadder-betfair_tick_ladder (omega arith) h)

  -- `FloorToBetfairTick` of a price from $1.01 to $1000 is the greatest tick that is not above the
  -- price, and it is a price that the exchange takes; or it is 0, and no tick is that low.
  pub floor_to_betfair_tick_greatest :
      ((floor_to_betfair_tick (pos n) ≡ pos 0) × ((t : ℕ) → IsTick t → n < t))
      ⊎ ((f : ℕ) × (floor_to_betfair_tick (pos n) ≡ pos f)
          × IsTick f
          × IsExchangePrice f
          × (f ≤ n)
          × ((t : ℕ) → IsTick t → t ≤ n → t ≤ f))
  floor_to_betfair_tick_greatest = elim (Bool-cases (ltb (down n) 101)) [
    | inl b ↦ inl (
      rw (floor_to_betfair_tick-eq, b),
      λ t tick. (ground (arith, down_below t tick, IsTick-ge t tick)),
    )
    | inr b ↦
        let tick = IsTick-down (ground arith) in
        inr (
          down n,
          rw (floor_to_betfair_tick-eq, b),
          tick,
          IsTick-IsExchangePrice _ tick,
          round_down-le n 100 betfair_tick_ladder (omega arith),
          down_below,
        )
  ]

  ceil_to_betfair_tick-eq : n < 100000 → ceil_to_betfair_tick (pos n) ≡ pos (up n)
  unfolding ceil_to_betfair_tick
  ceil_to_betfair_tick-eq lt =
      let low : ltb n 101 ≡ false = ground arith in
      let high : leb 100000 n ≡ false = ground arith in
      simp (add-zero, low, high)
        (ceil_bands-eq n 100 betfair_tick_ladder IsLadder-betfair_tick_ladder (omega arith))

  ceil_to_betfair_tick-top : 100000 ≤ n → ceil_to_betfair_tick (pos n) ≡ pos n
  unfolding ceil_to_betfair_tick
  ceil_to_betfair_tick-top le = let same : n ≡ 100000 = omega arith in rw same

  -- `CeilToBetfairTick` of a price from $1.01 to $1000 is the least tick that is not below the
  -- price, and it is a price that the exchange takes.
  pub ceil_to_betfair_tick_least :
      (c : ℕ) × (ceil_to_betfair_tick (pos n) ≡ pos c)
      × IsTick c
      × IsExchangePrice c
      × (n ≤ c)
      × ((t : ℕ) → IsTick t → n ≤ t → c ≤ t)
  ceil_to_betfair_tick_least = elim (Bool-cases (ltb n 100000)) [
    | inl b ↦
        let above : n ≤ up n =
          round_up-ge n 100 betfair_tick_ladder IsLadder-betfair_tick_ladder (omega arith) in
        let tick = IsTick-of-OnLadder (up n) (omega arith) (
          round_up-OnLadder n 100 betfair_tick_ladder IsLadder-betfair_tick_ladder (omega arith)
            k) in
        (
          up n,
          ceil_to_betfair_tick-eq (ltb→lt _ _ b),
          tick,
          IsTick-IsExchangePrice _ tick,
          above,
          λ t p le.
              round_up_least n 100 betfair_tick_ladder t IsLadder-betfair_tick_ladder
                (OnLadder-of-IsTick t p) le,
        )
    | inr b ↦
        let same : n ≡ 100000 = ground arith in
        (
          n,
          ceil_to_betfair_tick-top (omega arith),
          rw same IsTick-max,
          IsTick-IsExchangePrice n (rw same IsTick-max),
          omega arith,
          λ t p le. le,
        )
  ]

abbrev clip : ℤ → ℤ
clip c = if lt_ℤ (pos 100000) c then pos 100000 else c

clip-low : (c : ℤ) → lt_ℤ c (pos 101) ≡ true → clip c ≡ c
clip-low c h = ground arith

clip-high : (c : ℤ) → le_ℤ (pos 100000) c ≡ true → clip c ≡ pos 100000
clip-high c h = ground arith

first_band-low :
    (c : ℤ) (rest : List (ℕ × ℕ))
    → lt_ℤ c (pos 101) ≡ true
    → floor_bands c 100 ((600, 10) ∷ rest) ≡ pos 0
unfolding floor_bands ◌+ℤ◌ ◌-ℤ◌ ◌*ℤ◌ ◌/ℤ◌
first_band-low c rest h = ground arith

floor_top : floor_bands (pos 100000) 100 betfair_tick_ladder ≡ pos 100000
unfolding floor_bands
floor_top = refl

-- Outside the ladder both helpers stop at its ends: below $1.01 they give 0, whatever the sign, and
-- from $1000 on the top price.
pub ticks_outside :
    (c : ℤ)
    → ((lt_ℤ c (pos 101) ≡ true)
        → (floor_to_betfair_tick c ≡ pos 0) × (ceil_to_betfair_tick c ≡ pos 0))
      × ((le_ℤ (pos 100000) c ≡ true)
          → (floor_to_betfair_tick c ≡ pos 100000) × (ceil_to_betfair_tick c ≡ pos 100000))
unfolding floor_to_betfair_tick ceil_to_betfair_tick
ticks_outside c = (
  λ h. (
    ap (λ d. floor_bands d 100 betfair_tick_ladder) (clip-low c h) ∙ first_band-low c _ h,
    ground arith,
  ),
  λ h. (ap (λ d. floor_bands d 100 betfair_tick_ladder) (clip-high c h) ∙ floor_top, ground arith),
)
