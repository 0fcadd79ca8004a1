-- ===== src/Pegasus/Strategy/ForwardProgress/Once.antt =====
-- apps/pegasus/strategy/forward_progress.go: `Select` over a sequence of messages.
use pegasus_suite.Prelude.{
  ◌≡◌, refl, ◌≢◌, ℕ, ◌+◌, ◌≤◌, String, Bool, true, false, Option, none, some, [], arith, if_case,
  if◌then◌else◌, Option-cases, inl, inr, option_case, ◌||◌, not, ◌&&◌,
}
use pegasus_suite.Prelude.Int.{ℤ, le_ℤ}
use pegasus_suite.Prelude.Assoc.{string_eq, lookup, lookup-insert_self}
use pegasus_suite.Prelude.Float.{Float64}
use pegasus_suite.Prelude.Time.{GoTime}
use pegasus_suite.Betting.{BetfairRace}
use pegasus_suite.Engine.Side.{Side}
use pegasus_suite.Pegasus.Core.{RaceRef, Decision}
use pegasus_suite.Pegasus.Strategy.Field.{
  RaceMessage, RaceState, ForwardProgress, is_finished, is_running, no_decision, keep_tracking,
  extremes, starting_positions, unit_for,
}
use pegasus_suite.Pegasus.Strategy.Once.{bit, count, beq_false}
use pegasus_suite.Pegasus.Strategy.ForwardProgress.{
  Selected, put, bets_on, open_race, select_starting, select_ready, select_started, select_tracked,
  select, SelectError, iso8601_to_time, first_timestamp, current_timestamp, milliseconds,
}
use pegasus_suite.Pegasus.Strategy.ForwardProgress.Counts.{
  count-bets_on, count-bets_on_other, flag, placed,
}

not_and : (a b : Bool) → (not a && b) ≡ true → a ≡ false
not_and a b h = ground arith

open_race-fresh :
    (fl : Float64) (tm : GoTime) (ref : RaceRef fl) (get : RaceRef fl → Option (BetfairRace fl))
    (side : Side)
    → flag {tm = tm} side (open_race ref get).0 ≡ false
unfolding open_race
open_race-fresh fl tm ref get side = ground arith

module _ {fl : Float64} {tm : GoTime} where
  -- What one call may do to the race it is about, from what was placed before.
  unfoldable pub Once : RaceRef fl → (Side → ℕ) → Selected fl tm → Type 0
  Once ref before (s', d, e) =
      ((side : Side) → count side ref.key d.bets + before side ≤ placed side ref.key s')
      × ((side : Side) (key : String) → ref.key ≢ key → count side key d.bets ≡ 0)

  -- No bet, and the race's flags are kept.
  nothing_bet :
      (ref : RaceRef fl) (state : RaceState fl tm) (s : ForwardProgress fl tm) (t : Bool)
      (x : Option SelectError)
      → lookup ref.key s.races ≡ some state
      → Once ref (λ side. bit (flag side state)) (s, record { bets = []; tracking = t }, x)
  unfolding Once count placed
  nothing_bet ref state s t x e = (λ side. rw (e, placed, count) ground arith, λ side key n. refl)

  stored_bet :
      (ref : RaceRef fl) (state state' : RaceState fl tm) (s : ForwardProgress fl tm)
      (d : Decision fl) (x : Option SelectError)
      → ((side : Side) → count side ref.key d.bets + bit (flag side state) ≤ bit (flag side state'))
      → ((side : Side) (key : String) → ref.key ≢ key → count side key d.bets ≡ 0)
      → Once ref (λ side. bit (flag side state)) (put ref.key state' s, d, x)
  unfolding Once placed
  stored_bet ref state state' s d x h n =
      (λ side. rw (placed, lookup-insert_self ref.key state' s.races) (h side), n)

  bets_counted :
      (side : Side) (ref : RaceRef fl) (unit : fl.F) (bm bf : Bool) (best worst : ℤ)
      (state : RaceState fl tm)
      → (bf ≡ true → state.betfair_placed ≡ false)
      → (bm ≡ true → state.betmatic_placed ≡ false)
      → count side ref.key (bets_on ref unit bm bf best worst) + bit (flag side state)
        ≤ bit (
            flag side (record state {
              betmatic_placed = state.betmatic_placed || bm;
              betfair_placed = state.betfair_placed || bf;
            }))
  bets_counted side ref unit bm bf best worst state hf hm =
      ground (arith, count-bets_on side ref.key ref unit bm bf best worst)

  select_ready-Once :
      (m : RaceMessage fl) (ref : RaceRef fl) (bf bm : Bool) (state : RaceState fl tm)
      (s : ForwardProgress fl tm)
      → lookup ref.key s.races ≡ some state
      → (bf ≡ true → state.betfair_placed ≡ false)
      → (bm ≡ true → state.betmatic_placed ≡ false)
      → Once ref (λ side. bit (flag side state)) (select_ready m ref bf bm state s)
  unfolding select_ready count
  select_ready-Once m ref bf bm state s l hf hm =
      let Q = Once ref (λ side. bit (flag side state)) in
      option_case Q (extremes state.start m.live_data_sets) _ _
        (λ e. nothing_bet ref state s true none l)
        (λ bw e.
          if_case Q _ _ _
            (λ u.
              stored_bet ref state (record state { ignore = true }) s no_decision none
                (λ side. ground arith) (λ side key n. refl))
            (λ u.
              stored_bet ref state
                (record state {
                  betmatic_placed = state.betmatic_placed || bm;
                  betfair_placed = state.betfair_placed || bf;
                })
                s
                (record {
                  bets = bets_on ref (unit_for fl ref.code state.distance) bm bf bw.0 bw.1;
                  tracking = true;
                })
                none (λ side. bets_counted side ref _ bm bf bw.0 bw.1 state hf hm)
                (λ side key n.
                  count-bets_on_other side key ref _ bm bf bw.0 bw.1 (beq_false ref.key key n))))

  select_starting-Once :
      (m : RaceMessage fl) (ref : RaceRef fl) (state : RaceState fl tm) (s : ForwardProgress fl tm)
      → lookup ref.key s.races ≡ some state
      → Once ref (λ side. bit (flag side state)) (select_starting m ref state s)
  unfolding select_starting count
  select_starting-Once m ref state s l =
      let Q = Once ref (λ side. bit (flag side state)) in
      if_case Q (not (is_running ref.status)) _ _ (λ r. nothing_bet ref state s true none l)
        (λ r.
          option_case Q (iso8601_to_time tm m.timestamp) _ _
            (λ e. nothing_bet ref state s true (some (first_timestamp m.timestamp)) l)
            (λ at e.
              stored_bet ref state
                (record state {
                  started = true;
                  started_at = at;
                  start = starting_positions m.live_data_sets [];
                })
                s keep_tracking none (λ side. ground arith) (λ side key n. refl)))

  select_started-Once :
      (m : RaceMessage fl) (ref : RaceRef fl) (bfd bmd : ℤ) (state : RaceState fl tm)
      (s : ForwardProgress fl tm)
      → lookup ref.key s.races ≡ some state
      → Once ref (λ side. bit (flag side state)) (select_started m ref bfd bmd state s)
  unfolding select_started
  select_started-Once m ref bfd bmd state s l =
      let Q = Once ref (λ side. bit (flag side state)) in
      if_case Q (state.betfair_placed && state.betmatic_placed) _ _
        (λ r. nothing_bet ref state s false none l)
        (λ r.
          option_case Q (iso8601_to_time tm m.timestamp) _ _
            (λ e. nothing_bet ref state s true (some (current_timestamp m.timestamp)) l)
            (λ at e.
              let delta = milliseconds (tm.sub at state.started_at) in
              let bf = not state.betfair_placed && le_ℤ bfd delta in
              let bm = not state.betmatic_placed && le_ℤ bmd delta in
              if_case Q (not bf && not bm) _ _ (λ w. nothing_bet ref state s true none l)
                (λ w. select_ready-Once m ref bf bm state s l (not_and _ _) (not_and _ _))))

  select_tracked-Once :
      (m : RaceMessage fl) (ref : RaceRef fl) (bfd bmd : ℤ) (state : RaceState fl tm)
      (s : ForwardProgress fl tm)
      → lookup ref.key s.races ≡ some state
      → Once ref (λ side. bit (flag side state)) (select_tracked m ref bfd bmd state s)
  unfolding select_tracked
  select_tracked-Once m ref bfd bmd state s l =
      let Q = Once ref (λ side. bit (flag side state)) in
      if_case Q state.ignore _ _ (λ i. nothing_bet ref state s false none l)
        (λ i.
          if_case Q (not state.started) _ _ (λ b. select_starting-Once m ref state s l)
            (λ b. select_started-Once m ref bfd bmd state s l))

  weaken :
      (ref : RaceRef fl) (b b' : Side → ℕ) (x : Selected fl tm)
      → ((side : Side) → b' side ≤ b side)
      → Once ref b x
      → Once ref b' x
  unfolding Once
  weaken ref b b' x le o = (λ side. omega (arith, o.0 side, le side), o.1)

  placed-none :
      (side : Side) (key : String) (s : ForwardProgress fl tm)
      → lookup key s.races ≡ none
      → placed side key s ≤ 0
  unfolding placed
  placed-none side key s e = rw (e, placed) ground arith

  placed-some :
      (side : Side) (key : String) (s : ForwardProgress fl tm) (state : RaceState fl tm)
      → lookup key s.races ≡ some state
      → placed side key s ≤ bit (flag side state)
  unfolding placed
  placed-some side key s state e = rw (e, placed) ground arith

  -- A race not tracked yet has nothing placed.
  select_new-Once :
      (m : RaceMessage fl) (ref : RaceRef fl) (bfd bmd : ℤ) (s : ForwardProgress fl tm)
      (p : RaceState fl tm × Bool)
      → ((side : Side) → flag side p.0 ≡ false)
      → Once ref
          (λ side. 0)
          (if not p.1
            then (put ref.key p.0 s, no_decision, none)
            else select_tracked m ref bfd bmd p.0 (put ref.key p.0 s))
  select_new-Once m ref bfd bmd s p fresh =
      let l = lookup-insert_self ref.key p.0 s.races in
      let s' = put ref.key p.0 s in
      weaken ref (λ side. bit (flag side p.0)) (λ side. 0)
        (if not p.1 then (s', no_decision, none) else select_tracked m ref bfd bmd p.0 s')
        (λ side. ground arith)
        (if_case (Once ref (λ side. bit (flag side p.0))) (not p.1) _ _
          (λ e. nothing_bet ref p.0 s' false none l)
          (λ e. select_tracked-Once m ref bfd bmd p.0 s' l))

  -- One call bets no side of its race that is already placed, records what it bets, and bets no
  -- other race.
  pub select-Once :
      (m : RaceMessage fl) (ref : RaceRef fl) (bfd bmd : ℤ)
      (get : RaceRef fl → Option (BetfairRace fl)) (s : ForwardProgress fl tm)
      → is_finished ref.status ≡ false
      → Once ref (λ side. placed side ref.key s) (select m ref bfd bmd get s)
  unfolding select
  select-Once m ref bfd bmd get s nf =
      let before = λ (side : Side). placed side ref.key s in
      rw nf (elim (Option-cases (lookup ref.key s.races)) [
        | inl e ↦
            weaken ref (λ side. 0) before _ (λ side. placed-none side ref.key s e)
              (rw e (
                select_new-Once m ref bfd bmd s (open_race ref get)
                  (open_race-fresh fl tm ref get)))
        | inr (state, e) ↦
            weaken ref (λ side. bit (flag side state)) before _
              (λ side. placed-some side ref.key s state e)
              (rw e (select_tracked-Once m ref bfd bmd state s e))
      ])
