-- ===== src/Pegasus/Process.antt =====
-- apps/pegasus/process/process.go: one account pairing, with its two inboxes and its strategies.
-- `draining` counts the run goroutines whose context is cancelled and that have not returned yet; the
-- run goroutine of the current context exists exactly while `alive`. Steps has what they may do.
mod Steps
mod Invariant
mod Once
mod Tests
use pegasus_suite.Prelude.{
  ◌≡◌, refl, ap, ℕ, suc, String, Bool, true, false, not, ◌&&◌, Option, none, some, List, [], ◌∷◌,
  ◌++◌, length, ltb, is_some, ◌+◌, if◌then◌else◌,
}
use pegasus_suite.Prelude.Int.{ℤ}
use pegasus_suite.Prelude.Assoc.{Assoc, string_eq, lookup, insert, erase}
use pegasus_suite.Prelude.Float.{Float64}
use pegasus_suite.Prelude.Time.{GoTime}
use pegasus_suite.Betting.{BetfairRace}
use pegasus_suite.Engine.Stake.{active}
use pegasus_suite.Pegasus.Core.{RaceRef, Bet, Decision}
use pegasus_suite.Pegasus.Settings.{ScopeSettings, ProcessSettings}
use pegasus_suite.Pegasus.Strategy.Field.{RaceMessage, ForwardProgress, is_finished}
use pegasus_suite.Pegasus.Strategy.ForwardProgress.{SelectError}
use pegasus_suite.Pegasus.Strategy.ForwardProgress
use pegasus_suite.Pegasus.Strategy.TpdLeader.{Leader}
use pegasus_suite.Pegasus.Strategy.TpdLeader
use pegasus_suite.Pegasus.Strategy.TpdLeader.Runs.{LeaderMessage}

abbrev pub inbox_size : ℕ
inbox_size = 100

-- a message of the Triple-S feed, and one of TPD with the clock readings of its handling
abbrev pub TripleSMsg : Float64 → Type 0
TripleSMsg fl = RaceMessage fl × RaceRef fl

pub record Process (fl : Float64) (tm : GoTime) : Type 0 where
  pub settings : ProcessSettings fl
  pub triple_s : List (TripleSMsg fl)
  pub tpd : List (LeaderMessage fl tm)
  -- whether `setPriceFeed` is not nil
  pub polls : Bool
  pub running : Bool
  pub alive : Bool
  pub draining : ℕ
  pub forward_progress : ForwardProgress fl tm
  pub tpd_leader : Leader tm
  pub seen_races : Assoc {0, 0} String Unit

-- what a handled message leads to: the price feed of its race is set, then each bet goes out
pub record Acts (fl : Float64) : Type 0 where
  pub price_feed : Option (RaceRef fl × Bool)
  pub bets : List (Bet fl × ScopeSettings fl)

abbrev pub no_acts : {fl : Float64} → Acts fl
no_acts = record { price_feed = none; bets = [] }

-- a send that does not block: a full inbox drops
abbrev pub send : {M : Type 0} → M → List M → List M
send m inbox = if ltb (length inbox) inbox_size then inbox ++ m ∷ [] else inbox

module _ {fl : Float64} where
  -- the scope of a race, if it is staked
  unfoldable pub staked_scope : ProcessSettings fl → RaceRef fl → Option (ScopeSettings fl)
  staked_scope s ref = elim (lookup ref.scope s.scopes) [
    | none ↦ none
    | some scope ↦ if active fl scope.stake then some scope else none
  ]

  -- the races reported on, after `scopeFor` found the scope
  unfoldable pub mark_seen : RaceRef fl → Assoc {0, 0} String Unit → Assoc {0, 0} String Unit
  mark_seen ref seen = if is_finished ref.status then erase ref.key seen else insert ref.key tt seen

  abbrev pub with_scope : ScopeSettings fl → List (Bet fl) → List (Bet fl × ScopeSettings fl)
  with_scope scope [] = []
  with_scope scope (b ∷ bets) = (b, scope) ∷ with_scope scope bets

  -- `act`
  unfoldable pub act :
      Bool → RaceRef fl → ScopeSettings fl → Decision fl → Option SelectError → Acts fl
  act polls ref scope decision (some e) = no_acts
  act polls ref scope decision none = record {
    price_feed = if polls then some (ref, decision.tracking) else none;
    bets = with_scope scope decision.bets;
  }

module _ {fl : Float64} {tm : GoTime} where
  unfoldable pub new : ProcessSettings fl → Bool → Process fl tm
  new s polls = record {
    settings = s;
    triple_s = [];
    tpd = [];
    polls = polls;
    running = false;
    alive = false;
    draining = 0;
    forward_progress = record { races = [] };
    tpd_leader = record { race_state = [] };
    seen_races = [];
  }

  unfoldable pub wants : RaceRef fl → Process fl tm → Bool
  wants ref p = p.running && is_some (staked_scope p.settings ref)

  unfoldable pub offer_triple_s : RaceMessage fl → RaceRef fl → Process fl tm → Process fl tm × Bool
  offer_triple_s m ref p =
      if not (wants ref p)
      then (p, false)
      else (record p { triple_s = send (m, ref) p.triple_s }, true)

  unfoldable pub offer_tpd : LeaderMessage fl tm → Process fl tm → Process fl tm × Bool
  offer_tpd m p =
      if not (wants m.ref p) then (p, false) else (record p { tpd = send m p.tpd }, true)

  unfoldable pub start : Process fl tm → Process fl tm
  start p = if p.alive then p else record p { alive = true; running = true }

  unfoldable pub stop : Process fl tm → Process fl tm
  stop p =
      if not p.alive
      then p
      else record p { running = false; alive = false; draining = suc p.draining }

  -- `Close`, less `onClose`, which removes the process from the application
  unfoldable pub close : Process fl tm → Process fl tm
  unfolding stop
  close p = stop p

  unfoldable pub scope_for : RaceRef fl → Process fl tm → Process fl tm × Option (ScopeSettings fl)
  scope_for ref p = elim (staked_scope p.settings ref) [
    | none ↦ (p, none)
    | some scope ↦ (record p { seen_races = mark_seen ref p.seen_races }, some scope)
  ]

module _ {fl : Float64} {tm : GoTime} (get : RaceRef fl → Option (BetfairRace fl)) where
  -- the receiving cases of `run`, after `scopeFor`
  unfoldable pub run_triple_s :
      TripleSMsg fl → Process fl tm × Option (ScopeSettings fl) → Process fl tm × Acts fl
  run_triple_s m (p, none) = (p, no_acts)
  run_triple_s m (p, some scope) =
      let (s, d, e) =
        ForwardProgress.select m.0 m.1 scope.betfair_delay scope.betmatic_delay get
          p.forward_progress in
      (record p { forward_progress = s }, act p.polls m.1 scope d e)

  unfoldable pub handle_triple_s : TripleSMsg fl → Process fl tm → Process fl tm × Acts fl
  unfolding run_triple_s
  handle_triple_s m p = run_triple_s m (scope_for m.1 p)

module _ {fl : Float64} {tm : GoTime} (atoi : String → Option ℤ) where
  unfoldable pub run_tpd :
      LeaderMessage fl tm → Process fl tm × Option (ScopeSettings fl) → Process fl tm × Acts fl
  run_tpd m (p, none) = (p, no_acts)
  run_tpd m (p, some scope) =
      let (s, d) =
        TpdLeader.select atoi m.p m.ref scope.betfair_delay scope.betmatic_delay m.now m.later
          p.tpd_leader in
      (record p { tpd_leader = s }, act p.polls m.ref scope d none)

  unfoldable pub handle_tpd : LeaderMessage fl tm → Process fl tm → Process fl tm × Acts fl
  unfolding run_tpd
  handle_tpd m p = run_tpd m (scope_for m.ref p)

-- what a message leads to, by whether its scope is staked
module _ {fl : Float64} {tm : GoTime} where
  scope_for-none :
      (ref : RaceRef fl) (p : Process fl tm)
      → staked_scope p.settings ref ≡ none
      → scope_for ref p ≡ (p, none)
  unfolding scope_for
  scope_for-none ref p e = rw (scope_for, e) refl

  scope_for-some :
      (ref : RaceRef fl) (p : Process fl tm) (scope : ScopeSettings fl)
      → staked_scope p.settings ref ≡ some scope
      → scope_for ref p ≡ (record p { seen_races = mark_seen ref p.seen_races }, some scope)
  unfolding scope_for
  scope_for-some ref p scope e = rw (scope_for, e) refl

  module _ (get : RaceRef fl → Option (BetfairRace fl)) (m : TripleSMsg fl)
      (p : Process fl tm) where
    pub handle_triple_s-none :
        staked_scope p.settings m.1 ≡ none → handle_triple_s get m p ≡ (p, no_acts)
    unfolding handle_triple_s
    handle_triple_s-none e = ap (run_triple_s get m) (scope_for-none m.1 p e)

    pub handle_triple_s-some :
        (scope : ScopeSettings fl)
        → staked_scope p.settings m.1 ≡ some scope
        → handle_triple_s get m p
          ≡ run_triple_s get m (record p { seen_races = mark_seen m.1 p.seen_races }, some scope)
    unfolding handle_triple_s
    handle_triple_s-some scope e = ap (run_triple_s get m) (scope_for-some m.1 p scope e)

  module _ (atoi : String → Option ℤ) (m : LeaderMessage fl tm) (p : Process fl tm) where
    pub handle_tpd-none : staked_scope p.settings m.ref ≡ none → handle_tpd atoi m p ≡ (p, no_acts)
    unfolding handle_tpd
    handle_tpd-none e = ap (run_tpd atoi m) (scope_for-none m.ref p e)

    pub handle_tpd-some :
        (scope : ScopeSettings fl)
        → staked_scope p.settings m.ref ≡ some scope
        → handle_tpd atoi m p
          ≡ run_tpd atoi m (record p { seen_races = mark_seen m.ref p.seen_races }, some scope)
    unfolding handle_tpd
    handle_tpd-some scope e = ap (run_tpd atoi m) (scope_for-some m.ref p scope e)
