-- ===== src/Pegasus/Process/Once.antt =====
-- apps/pegasus/process/process.go: the bets that a process sends on one race, its handlers taken one at
-- a time.
use pegasus_suite.Prelude.{
  ◌≡◌, refl, ℕ, ◌-◌, ◌+◌, ◌≤◌, String, Bool, true, ◌&&◌, Option, none, some, List, [], ◌∷◌, ◌++◌,
  arith, Option-cases, inl, inr, if◌then◌else◌,
}
use pegasus_suite.Prelude.Int.{ℤ}
use pegasus_suite.Prelude.Assoc.{string_eq}
use pegasus_suite.Prelude.Float.{Float64}
use pegasus_suite.Prelude.Time.{GoTime}
use pegasus_suite.Betting.{BetfairRace}
use pegasus_suite.Engine.Side.{Side, same_side}
use pegasus_suite.Pegasus.Core.{RaceRef, Bet, Decision}
use pegasus_suite.Pegasus.Settings.{ScopeSettings, ProcessSettings}
use pegasus_suite.Pegasus.Strategy.Once.{bit, count, keeps}
use pegasus_suite.Pegasus.Strategy.ForwardProgress.{SelectError}
use pegasus_suite.Pegasus.Strategy.ForwardProgress.{select}
use pegasus_suite.Pegasus.Strategy.ForwardProgress.Counts.{placed as triple_s_placed}
use pegasus_suite.Pegasus.Strategy.ForwardProgress.Runs.{select_counts, placed_le}
use pegasus_suite.Pegasus.Strategy.TpdLeader.{Leader}
use pegasus_suite.Pegasus.Strategy.TpdLeader
use pegasus_suite.Pegasus.Strategy.TpdLeader.Once.{
  cap, placed as tpd_placed, placed_le as tpd_placed_le,
}
use pegasus_suite.Pegasus.Strategy.TpdLeader.Runs.{
  LeaderMessage, select_counts as tpd_select_counts,
}
use pegasus_suite.Pegasus.Process.{
  Process, TripleSMsg, staked_scope, with_scope, act, new, offer_triple_s, offer_tpd, start, stop,
  handle_triple_s, handle_tpd, run_triple_s, run_tpd, handle_triple_s-some, handle_tpd-some,
  handle_triple_s-none, handle_tpd-none,
}
use pegasus_suite.Pegasus.Process.Steps.{
  Handled, of_triple_s, of_tpd, Step, Reach, starts, stops, offers_triple_s, offers_tpd, exits,
  handles_triple_s, handles_tpd, here, next,
}

module _ {fl : Float64} where
  -- how many of the bets that are sent are on this side of this race
  unfoldable pub sent : Side → String → List (Bet fl × ScopeSettings fl) → ℕ
  sent side key [] = 0
  sent side key ((b, scope) ∷ rest) =
      (if same_side side b.side then bit (string_eq.beq b.ref.key key) else 0) + sent side key rest

  sent-with_scope :
      (side : Side) (key : String) (scope : ScopeSettings fl) (bets : List (Bet fl))
      → sent side key (with_scope scope bets) ≡ count side key bets
  unfolding sent count
  sent-with_scope side key scope [] = refl
  sent-with_scope side key scope (b ∷ bets) = omega (arith, sent-with_scope side key scope bets)

  sent-act :
      (side : Side) (key : String) (polls : Bool) (ref : RaceRef fl) (scope : ScopeSettings fl)
      (d : Decision fl) (e : Option SelectError)
      → sent side key (act polls ref scope d e).bets ≤ count side key d.bets
  unfolding act sent
  sent-act side key polls ref scope d (some e) = omega arith
  sent-act side key polls ref scope d none = omega (arith, sent-with_scope side key scope d.bets)

module _ {fl : Float64} {tm : GoTime} where
  -- the bets that one strategy's messages led to
  unfoldable pub triple_s_sent : Side → String → List (Handled fl tm) → ℕ
  triple_s_sent side key [] = 0
  triple_s_sent side key (of_triple_s m acts ∷ hs) =
      sent side key acts.bets + triple_s_sent side key hs
  triple_s_sent side key (of_tpd m acts ∷ hs) = triple_s_sent side key hs

  unfoldable pub tpd_sent : Side → String → List (Handled fl tm) → ℕ
  tpd_sent side key [] = 0
  tpd_sent side key (of_triple_s m acts ∷ hs) = tpd_sent side key hs
  tpd_sent side key (of_tpd m acts ∷ hs) = sent side key acts.bets + tpd_sent side key hs

  -- no message that was handled says that this race has finished
  unfoldable pub goes_on : String → List (Handled fl tm) → Bool
  goes_on key [] = true
  goes_on key (of_triple_s m acts ∷ hs) = keeps key m.1 && goes_on key hs
  goes_on key (of_tpd m acts ∷ hs) = keeps key m.ref && goes_on key hs

  triple_s_sent-append :
      (side : Side) (key : String) (hs hs' : List (Handled fl tm))
      → triple_s_sent side key (hs ++ hs') ≡ triple_s_sent side key hs + triple_s_sent side key hs'
  unfolding triple_s_sent
  triple_s_sent-append side key [] hs' = omega arith
  triple_s_sent-append side key (of_triple_s m acts ∷ hs) hs' =
      omega (arith, triple_s_sent-append side key hs hs')
  triple_s_sent-append side key (of_tpd m acts ∷ hs) hs' = triple_s_sent-append side key hs hs'

  tpd_sent-append :
      (side : Side) (key : String) (hs hs' : List (Handled fl tm))
      → tpd_sent side key (hs ++ hs') ≡ tpd_sent side key hs + tpd_sent side key hs'
  unfolding tpd_sent
  tpd_sent-append side key [] hs' = omega arith
  tpd_sent-append side key (of_triple_s m acts ∷ hs) hs' = tpd_sent-append side key hs hs'
  tpd_sent-append side key (of_tpd m acts ∷ hs) hs' = omega (arith, tpd_sent-append side key hs hs')

  goes_on-append :
      (key : String) (hs hs' : List (Handled fl tm))
      → goes_on key (hs ++ hs') ≡ (goes_on key hs && goes_on key hs')
  unfolding goes_on
  goes_on-append key [] hs' = refl
  goes_on-append key (of_triple_s m acts ∷ hs) hs' = ground (arith, goes_on-append key hs hs')
  goes_on-append key (of_tpd m acts ∷ hs) hs' = ground (arith, goes_on-append key hs hs')

  -- What happened to the states of the two strategies, from p to q.
  unfoldable pub Counts :
      Side → String → Process fl tm → List (Handled fl tm) → Process fl tm → Type 0
  Counts side key p hs q =
      (triple_s_sent side key hs + triple_s_placed side key p.forward_progress
        ≤ triple_s_placed side key q.forward_progress)
      × (tpd_sent side key hs + tpd_placed side key p.tpd_leader ≤ tpd_placed side key q.tpd_leader)

  unchanged :
      (side : Side) (key : String) (p q : Process fl tm)
      → q.forward_progress ≡ p.forward_progress
      → q.tpd_leader ≡ p.tpd_leader
      → Counts side key p [] q
  unfolding Counts triple_s_sent tpd_sent
  unchanged side key p q e f = rw (e, f) (omega arith, omega arith)

  module _ (get : RaceRef fl → Option (BetfairRace fl)) (side : Side) (key : String) where
    handle_triple_s-Counts :
        (m : TripleSMsg fl) (p : Process fl tm)
        → keeps key m.1 ≡ true
        → Counts side key p
            (of_triple_s m (handle_triple_s get m p).1 ∷ [])
            (handle_triple_s get m p).0
    unfolding Counts triple_s_sent tpd_sent sent run_triple_s
    handle_triple_s-Counts m p go = elim (Option-cases (staked_scope p.settings m.1)) [
      | inl n ↦ rw (handle_triple_s-none get m p n) (omega arith, omega arith)
      | inr (scope, f) ↦
          (let out =
              select m.0 m.1 scope.betfair_delay scope.betmatic_delay get p.forward_progress in
            rw (handle_triple_s-some get m p scope f) (
              omega (
                arith,
                sent-act side key p.polls m.1 scope out.1 out.2,
                select_counts scope.betfair_delay scope.betmatic_delay get side key m.0 m.1
                    p.forward_progress go,
              ),
              omega arith,
            ))
    ]

  module _ (atoi : String → Option ℤ) (side : Side) (key : String) where
    handle_tpd-Counts :
        (m : LeaderMessage fl tm) (p : Process fl tm)
        → keeps key m.ref ≡ true
        → Counts side key p (of_tpd m (handle_tpd atoi m p).1 ∷ []) (handle_tpd atoi m p).0
    unfolding Counts triple_s_sent tpd_sent sent run_tpd
    handle_tpd-Counts m p go = elim (Option-cases (staked_scope p.settings m.ref)) [
      | inl n ↦ rw (handle_tpd-none atoi m p n) (omega arith, omega arith)
      | inr (scope, f) ↦
          (let out =
              TpdLeader.select atoi m.p m.ref scope.betfair_delay scope.betmatic_delay m.now m.later
                p.tpd_leader in
            rw (handle_tpd-some atoi m p scope f) (
              omega arith,
              omega (
                arith,
                sent-act side key p.polls m.ref scope out.1 none,
                tpd_select_counts tm atoi (λ r. (scope.betfair_delay, scope.betmatic_delay)) side
                    key m p.tpd_leader go,
              ),
            ))
    ]

  module _ (get : RaceRef fl → Option (BetfairRace fl)) (atoi : String → Option ℤ) (side : Side)
      (key : String) where
    Step-Counts :
        {p q : Process fl tm} {hs : List (Handled fl tm)}
        → Step get atoi p hs q
        → goes_on key hs ≡ true
        → Counts side key p hs q
    unfolding Counts goes_on start stop offer_triple_s offer_tpd
    Step-Counts {p = p} starts go = unchanged side key p (start p) (ground arith) (ground arith)
    Step-Counts {p = p} stops go = unchanged side key p (stop p) (ground arith) (ground arith)
    Step-Counts {p = p} (offers_triple_s m ref) go =
        unchanged side key p (offer_triple_s m ref p).0 (ground arith) (ground arith)
    Step-Counts {p = p} (offers_tpd m) go =
        unchanged side key p (offer_tpd m p).0 (ground arith) (ground arith)
    Step-Counts {p = p} (exits d) go =
        unchanged side key p (record p { draining = p.draining - 1 }) refl refl
    Step-Counts {p = p} (handles_triple_s m rest l e) go =
        handle_triple_s-Counts get side key m (record p { triple_s = rest }) (ground (arith, go))
    Step-Counts {p = p} (handles_tpd m rest l e) go =
        handle_tpd-Counts atoi side key m (record p { tpd = rest }) (ground (arith, go))

    Reach-Counts :
        {p q : Process fl tm} {hs : List (Handled fl tm)}
        → Reach get atoi p hs q
        → goes_on key hs ≡ true
        → Counts side key p hs q
    unfolding Counts
    Reach-Counts {p = p} here go = unchanged side key p p refl refl
    Reach-Counts (next {hs = hs} {hs' = hs'} st r) go =
        let both = goes_on-append key hs hs' in
        let before = Step-Counts st (ground (arith, go, both)) in
        let after = Reach-Counts r (ground (arith, go, both)) in
        (
          omega (arith, before.0, after.0, triple_s_sent-append side key hs hs'),
          omega (arith, before.1, after.1, tpd_sent-append side key hs hs'),
        )

-- Provided that the handling of a message is over before that of another begins, which the code does
-- not enforce where a cancelled goroutine and the current one both take a message after a quick stop and
-- start: for a new process and any order of messages of all races in both inboxes, starts, stops and
-- cancelled goroutines that take one more message, as long as no message handled says that a race has
-- finished, the process sends on that race at most one bet of each side for the Triple-S feed, and for
-- the TPD feed at most one betmatic bet and one betfair back, and no lay.
pub history_at_most_once :
    {fl : Float64} {tm : GoTime} (get : RaceRef fl → Option (BetfairRace fl))
    (atoi : String → Option ℤ) (s : ProcessSettings fl) (polls : Bool) (side : Side) (key : String)
    (hs : List (Handled fl tm)) (p : Process fl tm)
    → Reach get atoi (new s polls) hs p
    → goes_on key hs ≡ true
    → (triple_s_sent side key hs ≤ 1) × (tpd_sent side key hs ≤ cap side)
unfolding Counts
history_at_most_once get atoi s polls side key hs p r go =
    let counts = Reach-Counts get atoi side key r go in
    (
      omega (arith, counts.0, placed_le side key p.forward_progress),
      omega (arith, counts.1, tpd_placed_le side key p.tpd_leader),
    )
