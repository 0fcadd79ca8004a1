-- ===== src/Pegasus/Strategy/TpdLeader/Once.antt =====
-- apps/pegasus/strategy/tpd_leader.go: the bets on one race over any sequence of packets.
use pegasus_suite.Prelude.{
  ◌≡◌, refl, ℕ, ◌+◌, ◌≤◌, String, Bool, true, false, Option, none, some, [], arith, Bool-cases,
  ◌&&◌, ◌||◌, inl, inr, not, if◌then◌else◌, option_case, if_case, ap, ◌∙◌,
}
use pegasus_suite.Prelude.Int.{ℤ, le_ℤ}
use pegasus_suite.Prelude.Assoc.{string_eq, lookup, erase, lookup-insert, lookup-erase}
use pegasus_suite.Prelude.Float.{Float64}
use pegasus_suite.Prelude.Time.{GoTime}
use pegasus_suite.Engine.Side.{Side, betmatic_win, betfair_back, betfair_lay}
use pegasus_suite.Pegasus.Core.{RaceRef, Decision}
use pegasus_suite.Pegasus.Packet.{Progress}
use pegasus_suite.Pegasus.Strategy.Field.{is_finished, is_running, no_decision, keep_tracking}
use pegasus_suite.Pegasus.Strategy.Once.{bit, count, keeps}
use pegasus_suite.Pegasus.Strategy.ForwardProgress.{milliseconds}
use pegasus_suite.Pegasus.Strategy.TpdLeader.{
  LeaderState, Leader, leader_bets, put, select_leader, scope_block, leader_of, get_unit_size,
  elapsed, select_running, select, state_of, since,
}

count-leader_bets :
    {fl : Float64} (side : Side) (key : String) (ref : RaceRef fl) (unit : fl.F) (bm bf : Bool)
    (leader : ℤ)
    → count side key (leader_bets ref unit bm bf leader)
      ≤ bit (
          string_eq.beq ref.key key
          && elim side [ betmatic_win ↦ bm | betfair_back ↦ bf | betfair_lay ↦ false ])
unfolding count leader_bets
count-leader_bets side key ref unit bm bf leader = ground arith

-- the leader strategy never lays
abbrev pub cap : Side → ℕ
cap betmatic_win = 1
cap betfair_back = 1
cap betfair_lay = 0

module _ {tm : GoTime} where
  -- the bets that the state says are placed
  abbrev pub flag : Side → LeaderState tm → Bool
  flag betmatic_win state = state.betmatic_placed
  flag betfair_back state = state.betfair_placed
  flag betfair_lay state = false

  unfoldable pub placed : Side → String → Leader tm → ℕ
  placed side key s = elim (lookup key s.race_state) [
    | none ↦ 0
    | some state ↦ bit (flag side state)
  ]

  pub placed_le : (side : Side) (key : String) (s : Leader tm) → placed side key s ≤ cap side
  unfolding placed
  placed_le side key s = ground arith

  placed-put :
      (side : Side) (key k : String) (state : LeaderState tm) (s : Leader tm)
      → placed side key (put k state s)
        ≡ (if string_eq.beq k key then bit (flag side state) else placed side key s)
  unfolding placed
  placed-put side key k state s = ground (arith, lookup-insert k key state s.race_state)

module _ {fl : Float64} {tm : GoTime} where
  -- What one call may do, from what was placed before.
  unfoldable pub Counts : Side → String → ℕ → Leader tm × Decision fl → Type 0
  Counts side key before (s', d) = count side key d.bets + before ≤ placed side key s'

  -- A call that stores a state, and bets what the state then says.
  stored :
      (side : Side) (key k : String) (state state' : LeaderState tm) (s : Leader tm)
      (d : Decision fl)
      → placed side k s ≤ bit (flag side state)
      → (string_eq.beq k key ≡ true
          → count side key d.bets + bit (flag side state) ≤ bit (flag side state'))
      → (string_eq.beq k key ≡ false → count side key d.bets ≡ 0)
      → Counts side key (placed side key s) (put k state' s, d)
  unfolding Counts
  stored side key k state state' s d h same other = elim (Bool-cases (string_eq.beq k key)) [
    | inl b ↦
        (let at_key = rw ((string_eq.beq_iff k key).0 b) at h in
          let after =
            placed-put side key k state' s
            ∙ ap (λ c. if c then bit (flag side state') else placed side key s) b in
          omega (arith, same b, at_key, after))
    | inr b ↦
        (let after =
            placed-put side key k state' s
            ∙ ap (λ c. if c then bit (flag side state') else placed side key s) b in
          omega (arith, other b, after))
  ]

kept :
    (fl : Float64) {tm : GoTime} (side : Side) (key : String) (s : Leader tm) (t : Bool)
    → Counts {fl = fl} side key (placed side key s) (s, record { bets = []; tracking = t })
unfolding Counts count
kept fl side key s t = omega arith

finished :
    (fl : Float64) {tm : GoTime} (side : Side) (key k : String) (s : Leader tm)
    → string_eq.beq k key ≡ false
    → Counts {fl = fl} side key
        (placed side key s)
        (record s { race_state = erase k s.race_state }, no_decision)
unfolding Counts count placed
finished fl side key k s b = ground (arith, b, lookup-erase k key s.race_state)

module _ {tm : GoTime} where
  placed-state_of :
      (side : Side) (key : String) (s : Leader tm)
      → placed side key s ≤ bit (flag side (state_of key s))
  unfolding placed
  placed-state_of side key s = ground arith

  placed-put_self :
      (side : Side) (k : String) (state : LeaderState tm) (s : Leader tm)
      → placed side k (put k state s) ≤ bit (flag side state)
  placed-put_self side k state s =
      ground (arith, placed-put side k k state s, string_eq.beq_iff k k)

module _ {fl : Float64} {tm : GoTime} where
  -- the race's start is stored first
  started :
      (side : Side) (key k : String) (state running : LeaderState tm) (s : Leader tm)
      (x : Leader tm × Decision fl)
      → placed side k s ≤ bit (flag side state)
      → flag side running ≡ flag side state
      → Counts side key (placed side key (put k running s)) x
      → Counts side key (placed side key s) x
  unfolding Counts
  started side key k state running s x h e c =
      ground (arith, h, e, c, placed-put side key k running s, string_eq.beq_iff k key)

not_and : (a b : Bool) → (not a && b) ≡ true → a ≡ false
not_and a b h = ground arith

module _ {fl : Float64} {tm : GoTime} (atoi : String → Option ℤ) where
  select_leader-Counts :
      (side : Side) (key : String) (p : Progress fl) (ref : RaceRef fl) (bf bm : Bool)
      (state : LeaderState tm) (s : Leader tm)
      → placed side ref.key s ≤ bit (flag side state)
      → (bf ≡ true → state.betfair_placed ≡ false)
      → (bm ≡ true → state.betmatic_placed ≡ false)
      → Counts side key (placed side key s) (select_leader atoi p ref bf bm state s)
  unfolding select_leader count
  select_leader-Counts side key p ref bf bm state s h hf hm =
      let P = Counts side key (placed side key s) in
      let unit = get_unit_size fl ref.distance in
      option_case P (scope_block p) _ _
        (λ n.
          option_case P (leader_of atoi p.order) _ _ (λ n. kept fl side key s true)
            (λ leader n.
              if_case P (fl.le unit (fl.lit 0 0)) _ _
                (λ u.
                  stored side key ref.key state (record state { ignore = true }) s no_decision h
                    (λ b. ground arith) (λ b. refl))
                (λ u.
                  stored side key ref.key state
                    (record state {
                      betmatic_placed = state.betmatic_placed || bm;
                      betfair_placed = state.betfair_placed || bf;
                    })
                    s (record { bets = leader_bets ref unit bm bf leader; tracking = true }) h
                    (λ b. ground (arith, hf, hm, count-leader_bets side key ref unit bm bf leader))
                    (λ b. ground (arith, b, count-leader_bets side key ref unit bm bf leader)))))
        (λ reason n. kept fl side key s true)

  select_running-Counts :
      (side : Side) (key : String) (p : Progress fl) (ref : RaceRef fl) (bfd bmd : ℤ)
      (later : tm.Time) (state : LeaderState tm) (s : Leader tm)
      → placed side ref.key s ≤ bit (flag side state)
      → Counts side key (placed side key s) (select_running atoi p ref bfd bmd later state s)
  unfolding select_running
  select_running-Counts side key p ref bfd bmd later state s h =
      let P = Counts side key (placed side key s) in
      let ms = milliseconds (elapsed tm p state.running_since later) in
      let bf = not state.betfair_placed && le_ℤ bfd ms in
      let bm = not state.betmatic_placed && le_ℤ bmd ms in
      if_case P (state.betfair_placed && state.betmatic_placed) _ _ (λ b. kept fl side key s false)
        (λ b.
          if_case P (not bf && not bm) _ _ (λ w. kept fl side key s true)
            (λ w. select_leader-Counts side key p ref bf bm state s h (not_and _ _) (not_and _ _)))

  pub select-Counts :
      (side : Side) (key : String) (p : Progress fl) (ref : RaceRef fl) (bfd bmd : ℤ)
      (now later : tm.Time) (s : Leader tm)
      → keeps key ref ≡ true
      → Counts side key (placed side key s) (select atoi p ref bfd bmd now later s)
  unfolding select count
  select-Counts side key p ref bfd bmd now later s go =
      let P = Counts side key (placed side key s) in
      let state = state_of ref.key s in
      let running = since now state in
      if_case P (is_finished ref.status) _ _
        (λ f. finished fl side key ref.key s (ground (arith, go, f)))
        (λ f.
          if_case P state.ignore _ _ (λ i. kept fl side key s false)
            (λ i.
              if_case P (not (is_running ref.status)) _ _
                (λ r.
                  stored side key ref.key state state s keep_tracking
                    (placed-state_of side ref.key s) (λ b. ground arith) (λ b. refl))
                (λ r.
                  started side key ref.key state running s _ (placed-state_of side ref.key s)
                    (ground arith)
                    (select_running-Counts side key p ref bfd bmd later running
                      (put ref.key running s) (placed-put_self side ref.key running s)))))
