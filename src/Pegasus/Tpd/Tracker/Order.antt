-- ===== src/Pegasus/Tpd/Tracker/Order.antt =====
-- apps/pegasus/tpd/update.go: the packets of one race that the tracker lets through, over any sequence
-- of packets of all races and ticks of the sweep.
use pegasus_suite.Prelude.{
  ◌≡◌, refl, sym, ap, ◌∙◌, String, Bool, true, false, not, ◌&&◌, ◌||◌, Option, none, some, List, [],
  ◌∷◌, arith, if_case, option_case, is_some, if◌then◌else◌,
}
use pegasus_suite.Prelude.Int.{pos, lt_ℤ}
use pegasus_suite.Prelude.Assoc.{
  Assoc, string_eq, lookup, insert, erase, lookup-insert, lookup-erase,
}
use pegasus_suite.Prelude.Float.{Float64}
use pegasus_suite.Prelude.Time.{GoTime}
use pegasus_suite.Pegasus.Core.{RaceRef}
use pegasus_suite.Pegasus.Packet.{Progress}
use pegasus_suite.Pegasus.Tpd.{Race}
use pegasus_suite.Pegasus.Tpd.Tracker.{
  TrackedRace, Tracker, warn_unresolved, track_race, race_of, accept, observe, resolve, new_race,
  ref, sweep, sweep_races, race_expiry,
}

-- a packet, and the readings of the clock while it is handled
pub record Arrival (fl : Float64) (tm : GoTime) : Type 0 where
  pub p : Progress fl
  pub now : tm.Time
  pub later : tm.Time

abbrev pub time_of : {fl : Float64} (tm : GoTime) → Progress fl → Option tm.Time
time_of tm p = tm.parse "2006-01-02T15:04:05Z07:00" p.timestamp

module _ {fl : Float64} {tm : GoTime} where
  -- the timestamp of the last packet of a race that was let through
  unfoldable pub last_seen : String → Tracker fl tm → tm.Time
  last_seen key t = elim (lookup key t.races) [ none ↦ tm.zero_time | some race ↦ race.timestamp ]

  -- the race that a packet is about is found with the timestamp that it had, the others are left alone
  abbrev FoundAs : String → tm.Time → String → Tracker fl tm × Option (TrackedRace fl tm) → Type 0
  FoundAs key before id (t', found) =
      (last_seen key t' ≡ before)
      × ((race : TrackedRace fl tm) → found ≡ some race → id ≡ key → race.timestamp ≡ before)

  last_seen-put :
      (key id : String) (race : TrackedRace fl tm) (t : Tracker fl tm)
      → last_seen key (record t { races = insert id race t.races })
        ≡ (if string_eq.beq id key then race.timestamp else last_seen key t)
  unfolding last_seen
  last_seen-put key id race t = ground (arith, lookup-insert id key race t.races)

  last_seen-put_new :
      (key id : String) (race : TrackedRace fl tm) (t : Tracker fl tm)
      → lookup id t.races ≡ none
      → race.timestamp ≡ tm.zero_time
      → last_seen key (record t { races = insert id race t.races }) ≡ last_seen key t
  unfolding last_seen
  last_seen-put_new key id race t e f =
      ground (arith, e, f, lookup-insert id key race t.races, string_eq.beq_iff id key)

  warn_unresolved-last_seen :
      (key id : String) (now later : tm.Time) (t : Tracker fl tm)
      → last_seen key (warn_unresolved id now later t) ≡ last_seen key t
  unfolding warn_unresolved last_seen
  warn_unresolved-last_seen key id now later t = ground arith

  track_race-FoundAs :
      (list : String → Option (Race fl tm)) (key id : String) (now later : tm.Time)
      (t : Tracker fl tm)
      → lookup id t.races ≡ none
      → FoundAs key (last_seen key t) id (track_race list id now later t)
  unfolding track_race warn_unresolved last_seen
  track_race-FoundAs list key id now later t e =
      option_case (FoundAs key (last_seen key t) id) (resolve list id) _ _
        (λ n. (warn_unresolved-last_seen key id now later t, λ race f. absurd cc))
        (λ r n.
          (last_seen-put_new key id (new_race r now) t e refl, λ race f g. ground (arith, e, f, g)))

  race_of-FoundAs :
      (list : String → Option (Race fl tm)) (key id : String) (now later : tm.Time)
      (t : Tracker fl tm)
      → FoundAs key (last_seen key t) id (race_of list id now later t)
  unfolding race_of last_seen
  race_of-FoundAs list key id now later t =
      option_case (FoundAs key (last_seen key t) id) (lookup id t.races) _ _
        (λ e. track_race-FoundAs list key id now later t e)
        (λ race e. (refl, λ race' f g. ground (arith, e, f, g)))

  -- What one packet may do, with `before` the last timestamp of the race: a packet of it is let through
  -- only if it is newer, and its timestamp is then the last one; in any other case that stays.
  abbrev pub Advances :
      String → tm.Time → Progress fl → Tracker fl tm × Option (RaceRef fl) → Type 0
  Advances key before p (t', r) =
      ((is_some r && string_eq.beq p.id key) ≡ true
        → (time_of tm p ≡ some (last_seen key t')) × (tm.is_after (last_seen key t') before ≡ true))
      × ((is_some r && string_eq.beq p.id key) ≡ false → last_seen key t' ≡ before)

  accept-Advances :
      (key : String) (before timestamp later : tm.Time) (p : Progress fl)
      (x : Tracker fl tm × Option (TrackedRace fl tm))
      → time_of tm p ≡ some timestamp
      → FoundAs key before p.id x
      → Advances key before p (accept timestamp later p x)
  unfolding accept observe last_seen
  accept-Advances key before timestamp later p (t, none) e f = ground (arith, e, f)
  accept-Advances key before timestamp later p (t, some race) e f =
      if_case (Advances key before p) (not (tm.is_after timestamp race.timestamp)) _ _
        (λ h. ground (arith, f))
        (λ h. ground (
          arith,
          e,
          f.0,
          f.1 race refl,
          h,
          string_eq.beq_iff p.id key,
          last_seen-put key p.id (observe timestamp later p race).0 t,
        ))

  pub ref-Advances :
      (list : String → Option (Race fl tm)) (key : String) (p : Progress fl) (now later : tm.Time)
      (t : Tracker fl tm)
      → Advances key (last_seen key t) p (ref list p now later t)
  unfolding ref
  ref-Advances list key p now later t =
      option_case (Advances key (last_seen key t) p) (time_of tm p) _ _ (λ n. ground arith)
        (λ timestamp e.
          accept-Advances key (last_seen key t) timestamp later p (race_of list p.id now later t) e
            (race_of-FoundAs list key p.id now later t))

module _ {fl : Float64} {tm : GoTime} where
  -- whether a race of this key was last touched more than ten minutes ago
  unfoldable pub any_stale : String → tm.Time → Assoc String (TrackedRace fl tm) → Bool
  any_stale key now [] = false
  any_stale key now ((id, race) ∷ rest) =
      (string_eq.beq id key && lt_ℤ (pos 600000000000) (tm.sub now race.touched_at))
      || any_stale key now rest

  sweep_races-lookup :
      (key : String) (now : tm.Time) (races : Assoc String (TrackedRace fl tm)) (t : Tracker fl tm)
      → lookup key (sweep_races now races t).races
        ≡ (if any_stale key now races then none else lookup key t.races)
  unfolding sweep_races any_stale
  sweep_races-lookup key now [] t = refl
  sweep_races-lookup key now ((id, race) ∷ rest) t =
      let dropped = record t { races = erase id t.races; unresolved = erase id t.unresolved } in
      let stale = any_stale key now ((id, race) ∷ rest) in
      if_case
        (λ (t' : Tracker fl tm). lookup key t'.races ≡ (if stale then none else lookup key t.races))
        (lt_ℤ race_expiry (tm.sub now race.touched_at)) _ _
        (λ b.
          sweep_races-lookup key now rest dropped
          ∙ (ap (λ found. if any_stale key now rest then none else found)
                (lookup-erase id key t.races)
              ∙ ground (arith, b)))
        (λ b. sweep_races-lookup key now rest t ∙ ground (arith, b))

  -- whether a sweep forgets the race
  abbrev pub forgets : String → tm.Time → Tracker fl tm → Bool
  forgets key now t = any_stale key now t.races

  pub sweep-last_seen :
      (key : String) (now : tm.Time) (t : Tracker fl tm)
      → last_seen key (sweep now t) ≡ (if forgets key now t then tm.zero_time else last_seen key t)
  unfolding last_seen sweep
  sweep-last_seen key now t = ground (arith, sweep_races-lookup key now t.races t)

-- what happens to a tracker: a packet, with the races listed at that time, or a tick of the sweep
pub data Event (fl : Float64) (tm : GoTime) : Type 0 where
  arrives : (String → Option (Race fl tm)) → Arrival fl tm → Event fl tm
  sweeps : tm.Time → Event fl tm

-- of one race: a packet with this timestamp is let through, or a sweep forgets the race
pub data Mark (tm : GoTime) : Type 0 where
  passed : Option tm.Time → Mark tm
  forgotten : Mark tm

module _ {fl : Float64} {tm : GoTime} where
  -- the tracker after the events, in order
  unfoldable pub run : List (Event fl tm) → Tracker fl tm → Tracker fl tm
  run [] t = t
  run (arrives list a ∷ rest) t = run rest (ref list a.p a.now a.later t).0
  run (sweeps now ∷ rest) t = run rest (sweep now t)

  -- the packets of one race that are let through, and the sweeps that forget it
  unfoldable pub stamps : String → List (Event fl tm) → Tracker fl tm → List (Mark tm)
  stamps key [] t = []
  stamps key (arrives list a ∷ rest) t =
      let (t', r) = ref list a.p a.now a.later t in
      let others = stamps key rest t' in
      if is_some r && string_eq.beq a.p.id key then passed (time_of tm a.p) ∷ others else others
  stamps key (sweeps now ∷ rest) t =
      let others = stamps key rest (sweep now t) in
      if forgets key now t then forgotten ∷ others else others

-- each timestamp is after the one before it, the first after `at`, and the first after a gap after the
-- zero time
unfoldable pub Increasing : (tm : GoTime) → tm.Time → List (Mark tm) → Type 0
Increasing tm at [] = Unit
Increasing tm at (forgotten ∷ rest) = Increasing tm tm.zero_time rest
Increasing tm at (passed none ∷ rest) = ⊥
Increasing tm at (passed (some next) ∷ rest) =
    (tm.is_after next at ≡ true) × Increasing tm next rest

-- Whatever packets of all races arrive, in whatever order and however often, with whatever races listed
-- at the time, and whatever ticks of the sweep come in between: the packets of a race that the tracker
-- lets through have strictly increasing timestamps, the first of them after the last one that was let
-- through before; where a sweep comes more than ten minutes after the race was last touched, the order
-- starts anew after the zero time.
pub stamps-Increasing :
    {fl : Float64} {tm : GoTime} (key : String) (events : List (Event fl tm)) (t : Tracker fl tm)
    → Increasing tm (last_seen key t) (stamps key events t)
unfolding Increasing stamps
stamps-Increasing key [] t = tt
stamps-Increasing {tm = tm} key (arrives list a ∷ rest) t =
    let t' = (ref list a.p a.now a.later t).0 in
    let r = (ref list a.p a.now a.later t).1 in
    let others = stamps-Increasing key rest t' in
    let step = ref-Advances list key a.p a.now a.later t in
    if_case (Increasing tm (last_seen key t)) (is_some r && string_eq.beq a.p.id key) _ _
      (λ b. rw (step.0 b).0 ((step.0 b).1, others)) (λ b. rw (sym (step.1 b)) others)
stamps-Increasing {tm = tm} key (sweeps now ∷ rest) t =
    let others = stamps-Increasing key rest (sweep now t) in
    let same = sweep-last_seen key now t in
    if_case (Increasing tm (last_seen key t)) (forgets key now t) _ _
      (λ b.
        let zero : last_seen key (sweep now t) ≡ tm.zero_time = ground (arith, same, b) in
        rw (sym zero) others)
      (λ b.
        let kept : last_seen key (sweep now t) ≡ last_seen key t = ground (arith, same, b) in
        rw (sym kept) others)
