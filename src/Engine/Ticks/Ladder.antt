-- ===== src/Engine/Ticks/Ladder.antt =====
-- Rounding on any ladder of bands: the loops of engine/stake.go against the points of the ladder.
use native.Mathlib.Nat.{div-mul-le_self}
use pegasus_suite.Prelude.{
  ℕ, ◌≤◌, ◌<◌, ◌%◌, ◌/◌, ◌*◌, ◌+◌, ◌-◌, ◌≡◌, refl, ◌⊎◌, inl, inr, ltb, leb, arith, List, [], ◌∷◌,
  if◌then◌else◌, Bool-cases,
}
use pegasus_suite.Prelude.Int.{pos}
use pegasus_suite.Engine.Ticks.{floor_bands, ceil_bands}

-- The points of a ladder that starts at `a`: in each band, whole steps from where the band starts.
abbrev pub OnLadder : ℕ → List (ℕ × ℕ) → ℕ → Type 0
OnLadder a [] t = t ≡ a
OnLadder a ((limit, step) ∷ rest) t =
    ((a ≤ t) × (t < limit) × ((t - a) % step ≡ 0)) ⊎ OnLadder limit rest t

-- Bands are not empty, and each is a whole number of its steps.
abbrev pub IsLadder : ℕ → List (ℕ × ℕ) → Type 0
IsLadder a [] = Unit
IsLadder a ((limit, step) ∷ rest) =
    (0 < step) × (a < limit) × ((limit - a) % step ≡ 0) × IsLadder limit rest

abbrev pub top : ℕ → List (ℕ × ℕ) → ℕ
top a [] = a
top a ((limit, step) ∷ rest) = top limit rest

-- The last point that is not above `n`, and the first that is not below it.
pub round_down : ℕ → ℕ → List (ℕ × ℕ) → ℕ
round_down n a [] = n
round_down n a ((limit, step) ∷ rest) =
    if ltb n limit then a + (n - a) / step * step else round_down n limit rest

pub round_up : ℕ → ℕ → List (ℕ × ℕ) → ℕ
round_up n a [] = n
round_up n a ((limit, step) ∷ rest) =
    if leb n limit then a + (n - a + step - 1) / step * step else round_up n limit rest

below_multiple : (s x y : ℕ) → 0 < s → y ≤ x → y % s ≡ 0 → y ≤ x / s * s
below_multiple s x y h k e = grind arith

multiple_mod : (s x : ℕ) → 0 < s → x / s * s % s ≡ 0
multiple_mod s x h = grind arith

above_multiple : (s x y : ℕ) → 0 < s → x ≤ y → y % s ≡ 0 → (x + s - 1) / s * s ≤ y
above_multiple s x y h k e = grind arith

le_multiple_up : (s x : ℕ) → 0 < s → x ≤ (x + s - 1) / s * s
le_multiple_up s x h = grind arith

le-of-ladder : (a : ℕ) (ls : List (ℕ × ℕ)) (t : ℕ) → IsLadder a ls → OnLadder a ls t → a ≤ t
le-of-ladder a [] t w h = omega arith
le-of-ladder a ((limit, step) ∷ rest) t w (inl h) = omega arith
le-of-ladder a ((limit, step) ∷ rest) t w (inr h) = omega (arith, le-of-ladder limit rest t w.3 h)

le_top : (a : ℕ) (ls : List (ℕ × ℕ)) → IsLadder a ls → a ≤ top a ls
le_top a [] w = omega arith
le_top a ((limit, step) ∷ rest) w = omega (arith, le_top limit rest w.3)

pub round_down-le : (n a : ℕ) (ls : List (ℕ × ℕ)) → a ≤ n → round_down n a ls ≤ n
unfolding round_down
round_down-le n a [] h = omega arith
round_down-le n a ((limit, step) ∷ rest) h =
    ground (arith, round_down-le n limit rest, div-mul-le_self (n - a) step)

ge_round_down : (n a : ℕ) (ls : List (ℕ × ℕ)) → IsLadder a ls → a ≤ n → a ≤ round_down n a ls
unfolding round_down
ge_round_down n a [] w h = h
ge_round_down n a ((limit, step) ∷ rest) w h = ground (arith, ge_round_down n limit rest w.3)

pub round_down-OnLadder :
    (n a : ℕ) (ls : List (ℕ × ℕ))
    → IsLadder a ls
    → a ≤ n
    → n ≤ top a ls
    → OnLadder a ls (round_down n a ls)
unfolding round_down
round_down-OnLadder n a [] w h k = omega arith
round_down-OnLadder n a ((limit, step) ∷ rest) w h k = elim (Bool-cases (ltb n limit)) [
  | inl e ↦ rw e (
      inl (
        ground arith,
        ground (arith, div-mul-le_self (n - a) step),
        ground (arith, multiple_mod step (n - a)),
      ))
  | inr e ↦ rw e (inr (round_down-OnLadder n limit rest w.3 (ground arith) k))
]

pub round_down_greatest :
    (n a : ℕ) (ls : List (ℕ × ℕ)) (t : ℕ)
    → IsLadder a ls
    → OnLadder a ls t
    → t ≤ n
    → t ≤ round_down n a ls
unfolding round_down
round_down_greatest n a [] t w o h = h
round_down_greatest n a ((limit, step) ∷ rest) t w (inl o) h = elim (Bool-cases (ltb n limit)) [
  | inl e ↦ rw e (ground (arith, below_multiple step (n - a) (t - a)))
  | inr e ↦ rw e (omega (arith, ge_round_down n limit rest w.3 (ground arith)))
]
round_down_greatest n a ((limit, step) ∷ rest) t w (inr o) h =
    ground (arith, round_down_greatest n limit rest t w.3 o h, le-of-ladder limit rest t w.3 o)

-- On a number of cents the code's loop rounds down, and gives 0 below 101.
pub floor_bands-eq :
    (n a : ℕ) (ls : List (ℕ × ℕ))
    → IsLadder a ls
    → a ≤ n
    → 101 ≤ n
    → floor_bands (pos n) a ls
      ≡ (if ltb (round_down n a ls) 101 then pos 0 else pos (round_down n a ls))
unfolding floor_bands round_down
floor_bands-eq n a [] w h k = ground arith
floor_bands-eq n a ((limit, step) ∷ rest) w h k = ground (arith, floor_bands-eq n limit rest w.3)

pub round_up-ge : (n a : ℕ) (ls : List (ℕ × ℕ)) → IsLadder a ls → a ≤ n → n ≤ round_up n a ls
unfolding round_up
round_up-ge n a [] w h = omega arith
round_up-ge n a ((limit, step) ∷ rest) w h =
    ground (arith, round_up-ge n limit rest w.3, le_multiple_up step (n - a))

OnLadder-start : (a : ℕ) (ls : List (ℕ × ℕ)) → IsLadder a ls → OnLadder a ls a
OnLadder-start a [] w = refl
OnLadder-start a ((limit, step) ∷ rest) w = inl (omega arith, w.1, ground arith)

OnLadder-point :
    (r a limit step : ℕ) (rest : List (ℕ × ℕ))
    → IsLadder limit rest
    → a ≤ r
    → r ≤ limit
    → (r - a) % step ≡ 0
    → OnLadder a ((limit, step) ∷ rest) r
OnLadder-point r a limit step rest w h k e = elim (Bool-cases (ltb r limit)) [
  | inl b ↦ inl (h, ground arith, e)
  | inr b ↦ let same : r ≡ limit = ground arith in inr (rw same (OnLadder-start limit rest w))
]

pub round_up-OnLadder :
    (n a : ℕ) (ls : List (ℕ × ℕ))
    → IsLadder a ls
    → a ≤ n
    → n ≤ top a ls
    → OnLadder a ls (round_up n a ls)
unfolding round_up
round_up-OnLadder n a [] w h k = omega arith
round_up-OnLadder n a ((limit, step) ∷ rest) w h k = elim (Bool-cases (leb n limit)) [
  | inl e ↦ rw e (
      OnLadder-point _ a limit step rest w.3 (omega arith)
        (ground (arith, above_multiple step (n - a) (limit - a)))
        (ground (arith, multiple_mod step (n - a + step - 1))))
  | inr e ↦ rw e (inr (round_up-OnLadder n limit rest w.3 (ground arith) k))
]

pub round_up_least :
    (n a : ℕ) (ls : List (ℕ × ℕ)) (t : ℕ)
    → IsLadder a ls
    → OnLadder a ls t
    → n ≤ t
    → round_up n a ls ≤ t
unfolding round_up
round_up_least n a [] t w o h = h
round_up_least n a ((limit, step) ∷ rest) t w (inl o) h =
    ground (arith, above_multiple step (n - a) (t - a))
round_up_least n a ((limit, step) ∷ rest) t w (inr o) h = elim (Bool-cases (leb n limit)) [
  | inl e ↦
      rw e
        (ground (arith, above_multiple step (n - a) (limit - a), le-of-ladder limit rest t w.3 o))
  | inr e ↦ rw e (round_up_least n limit rest t w.3 o h)
]

pub ceil_bands-eq :
    (n a : ℕ) (ls : List (ℕ × ℕ))
    → IsLadder a ls
    → a ≤ n
    → ceil_bands (pos n) a ls ≡ pos (round_up n a ls)
unfolding ceil_bands round_up
ceil_bands-eq n a [] w h = refl
ceil_bands-eq n a ((limit, step) ∷ rest) w h = ground (arith, ceil_bands-eq n limit rest w.3)
