-- ===== src/Pegasus/Strategy/ForwardProgress/Runs.antt =====
-- apps/pegasus/strategy/forward_progress.go: the races apart from each other, and any sequence of
-- messages.
use pegasus_suite.Prelude.{
  ◌≡◌, refl, sym, ◌≢◌, ◌+◌, ◌≤◌, String, true, Option, List, arith, Bool-cases, ◌&&◌, inl, inr, not,
}
use pegasus_suite.Prelude.Int.{ℤ}
use pegasus_suite.Prelude.Assoc.{string_eq, lookup, lookup-insert_ne, lookup-erase_ne}
use pegasus_suite.Prelude.Float.{Float64}
use pegasus_suite.Prelude.Time.{GoTime}
use pegasus_suite.Betting.{BetfairRace}
use pegasus_suite.Engine.Side.{Side}
use pegasus_suite.Pegasus.Core.{RaceRef}
use pegasus_suite.Pegasus.Strategy.Field.{RaceMessage, RaceState, ForwardProgress, is_finished}
use pegasus_suite.Pegasus.Strategy.ForwardProgress.{
  select, select_tracked, select_ready, select_started, select_starting,
}
use pegasus_suite.Pegasus.Strategy.ForwardProgress.Counts.{placed}
use pegasus_suite.Pegasus.Strategy.Once.{OnceStrategy, count, goes_on, bets_placed, at_most_once}
use pegasus_suite.Pegasus.Strategy.ForwardProgress.Once.{Once, select-Once}

module _ {fl : Float64} {tm : GoTime} where
  select_tracked-apart :
      (m : RaceMessage fl) (ref : RaceRef fl) (bfd bmd : ℤ) (state : RaceState fl tm)
      (s : ForwardProgress fl tm) (key : String)
      → ref.key ≢ key
      → lookup key (select_tracked m ref bfd bmd state s).0.races ≡ lookup key s.races
  unfolding select_tracked select_starting select_started select_ready
  select_tracked-apart m ref bfd bmd state s key n = grind (arith, lookup-insert_ne)

  -- One call leaves every other race as it was.
  pub select-apart :
      (m : RaceMessage fl) (ref : RaceRef fl) (bfd bmd : ℤ)
      (get : RaceRef fl → Option (BetfairRace fl)) (s : ForwardProgress fl tm) (key : String)
      → ref.key ≢ key
      → lookup key (select m ref bfd bmd get s).0.races ≡ lookup key s.races
  unfolding select
  select-apart m ref bfd bmd get s key n =
      grind (arith, lookup-insert_ne, lookup-erase_ne, select_tracked-apart)

  placed-apart :
      (side : Side) (key : String) (s s' : ForwardProgress fl tm)
      → lookup key s'.races ≡ lookup key s.races
      → placed side key s' ≡ placed side key s
  unfolding placed
  placed-apart side key s s' e = rw (placed, e) refl

  -- a bookmaker is bet at most once: the flag is 0 or 1
  pub placed_le : (side : Side) (key : String) (s : ForwardProgress fl tm) → placed side key s ≤ 1
  unfolding placed
  placed_le side key s = ground arith

  select-finished :
      (m : RaceMessage fl) (ref : RaceRef fl) (bfd bmd : ℤ)
      (get : RaceRef fl → Option (BetfairRace fl)) (s : ForwardProgress fl tm) (side : Side)
      (key : String)
      → is_finished ref.status ≡ true
      → count side key (select m ref bfd bmd get s).1.bets ≡ 0
  unfolding select count
  select-finished m ref bfd bmd get s side key f = rw f refl

  select_counts_other :
      (bfd bmd : ℤ) (get : RaceRef fl → Option (BetfairRace fl)) (side : Side) (key : String)
      (m : RaceMessage fl) (ref : RaceRef fl) (s : ForwardProgress fl tm)
      → ref.key ≢ key
      → count side key (select m ref bfd bmd get s).1.bets ≡ 0
  unfolding Once
  select_counts_other bfd bmd get side key m ref s n = elim (Bool-cases (is_finished ref.status)) [
    | inl f ↦ select-finished m ref bfd bmd get s side key f
    | inr f ↦ (select-Once m ref bfd bmd get s f).1 side key n
  ]

  pub select_counts :
      (bfd bmd : ℤ) (get : RaceRef fl → Option (BetfairRace fl)) (side : Side) (key : String)
      (m : RaceMessage fl) (ref : RaceRef fl) (s : ForwardProgress fl tm)
      → not (string_eq.beq ref.key key && is_finished ref.status) ≡ true
      → let (s', d, e) = select m ref bfd bmd get s in
        count side key d.bets + placed side key s ≤ placed side key s'
  unfolding Once
  select_counts bfd bmd get side key m ref s go = elim (Bool-cases (string_eq.beq ref.key key)) [
    | inl b ↦
        rw (sym ((string_eq.beq_iff ref.key key).0 b))
          ((select-Once m ref bfd bmd get s (ground (arith, b, go))).0 side)
    | inr b ↦
        (let n : ref.key ≢ key = λ e. ground (arith, string_eq.beq_iff ref.key key) in
          omega (
            arith,
            select_counts_other bfd bmd get side key m ref s n,
            placed-apart side key s _ (select-apart m ref bfd bmd get s key n),
          ))
  ]

module _ {fl : Float64} (tm : GoTime) (delays : RaceRef fl → ℤ × ℤ)
    (get : RaceRef fl → Option (BetfairRace fl)) where
  -- `Select` as a process calls it, with the delays (Betfair's first) of the race's scope
  abbrev pub forward_progress : OnceStrategy fl
  forward_progress = record {
    Message = RaceMessage fl × RaceRef fl;
    State = ForwardProgress fl tm;
    ref_of = λ m. m.1;
    step =
        λ m s. let (s', d, e) = select m.0 m.1 (delays m.1).0 (delays m.1).1 get s in (s', d.bets);
    placed = placed;
    cap = λ side. 1;
    placed_le = placed_le;
    step_counts =
        λ side key m s. select_counts (delays m.1).0 (delays m.1).1 get side key m.0 m.1 s;
  }

  -- While no message says that a race has finished, whatever the messages and the order in which
  -- those of all races arrive: at most one betmatic bet, one betfair back and one betfair lay is
  -- placed on that race, and none on a side that was placed before.
  pub select_at_most_once :
      (side : Side) (key : String) (messages : List (RaceMessage fl × RaceRef fl))
      (s : ForwardProgress fl tm)
      → goes_on forward_progress key messages ≡ true
      → bets_placed forward_progress side key messages s + placed side key s ≤ 1
  select_at_most_once side key messages s go = at_most_once forward_progress side key messages s go
