-- ===== src/Pegasus/Strategy/Once.antt =====
-- apps/pegasus/strategy/: what the strategies have in common. A strategy keeps a state, takes the
-- messages of all races one after another, and returns bets.
use pegasus_suite.Prelude.{
  ◌≡◌, ◌≢◌, ℕ, ◌+◌, ◌≤◌, String, Bool, true, false, not, ◌&&◌, List, [], ◌∷◌, arith, if◌then◌else◌,
}
use pegasus_suite.Prelude.Assoc.{string_eq}
use pegasus_suite.Prelude.Float.{Float64}
use pegasus_suite.Engine.Side.{Side, same_side}
use pegasus_suite.Pegasus.Core.{RaceRef, Bet}
use pegasus_suite.Pegasus.Strategy.Field.{is_finished}

abbrev pub bit : Bool → ℕ
bit true = 1
bit false = 0

pub beq_false : (a b : String) → a ≢ b → string_eq.beq a b ≡ false
beq_false a b n = ground (arith, string_eq.beq_iff a b)

-- how many of the bets are on this side of this race
unfoldable pub count : {fl : Float64} → Side → String → List (Bet fl) → ℕ
count side key [] = 0
count side key (b ∷ rest) =
    (if same_side side b.side then bit (string_eq.beq b.ref.key key) else 0) + count side key rest

-- the message does not say that this race has finished
abbrev pub keeps : {fl : Float64} → String → RaceRef fl → Bool
keeps key ref = not (string_eq.beq ref.key key && is_finished ref.status)

-- A strategy, with what it knows of the bets that it has placed: `placed` bounds them while the race
-- goes on, and `cap` bounds it.
pub record OnceStrategy (fl : Float64) : Type 1 where
  pub Message : Type 0
  pub State : Type 0
  pub ref_of : Message → RaceRef fl
  pub step : Message → State → State × List (Bet fl)
  pub placed : Side → String → State → ℕ
  pub cap : Side → ℕ
  pub placed_le : (side : Side) (key : String) (s : State) → placed side key s ≤ cap side
  pub step_counts :
      (side : Side) (key : String) (m : Message) (s : State)
      → keeps key (ref_of m) ≡ true
      → let (s', bets) = step m s in count side key bets + placed side key s ≤ placed side key s'

module _ {fl : Float64} (strategy : OnceStrategy fl) where
  -- the messages in order, and the number of bets on this side of this race that they lead to
  unfoldable pub bets_placed : Side → String → List strategy.Message → strategy.State → ℕ
  bets_placed side key [] s = 0
  bets_placed side key (m ∷ rest) s =
      let (s', bets) = strategy.step m s in count side key bets + bets_placed side key rest s'

  -- none of the messages says that this race has finished
  unfoldable pub goes_on : String → List strategy.Message → Bool
  goes_on key [] = true
  goes_on key (m ∷ rest) = keeps key (strategy.ref_of m) && goes_on key rest

  pub at_most_once :
      (side : Side) (key : String) (messages : List strategy.Message) (s : strategy.State)
      → goes_on key messages ≡ true
      → bets_placed side key messages s + strategy.placed side key s ≤ strategy.cap side
  unfolding bets_placed goes_on
  at_most_once side key [] s go = omega (arith, strategy.placed_le side key s)
  at_most_once side key (m ∷ rest) s go =
      let s' = (strategy.step m s).0 in
      omega (
        arith,
        strategy.step_counts side key m s (ground (arith, go)),
        at_most_once side key rest s' (ground (arith, go)),
      )
