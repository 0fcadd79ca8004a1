-- ===== src/Pegasus/Tpd/Tracker/Finish.antt =====
-- apps/pegasus/tpd/update.go: a race that has finished stays finished.
use pegasus_suite.Prelude.{
  ◌≡◌, refl, String, Bool, true, false, not, Option, none, some, List, [], ◌∷◌, arith, All, if_case,
  option_case, if◌then◌else◌,
}
use pegasus_suite.Prelude.Assoc.{string_eq, lookup, insert, lookup-insert}
use pegasus_suite.Prelude.Float.{Float64}
use pegasus_suite.Prelude.Time.{GoTime}
use pegasus_suite.Pegasus.Core.{RaceRef, status_finished}
use pegasus_suite.Pegasus.Packet.{Progress}
use pegasus_suite.Pegasus.Tpd.{Race}
use pegasus_suite.Pegasus.Tpd.Tracker.{
  TrackedRace, Tracker, warn_unresolved, track_race, race_of, accept, observe, race_status, resolve,
  new_race, ref,
}
use pegasus_suite.Pegasus.Tpd.Tracker.Order.{Arrival}

module _ {fl : Float64} {tm : GoTime} where
  -- the tracker knows that a race has finished
  unfoldable pub knows_finished : String → Tracker fl tm → Bool
  knows_finished key t = elim (lookup key t.races) [ none ↦ false | some race ↦ race.finished ]

  -- What one packet may do to a race that the tracker knows to have finished.
  abbrev Keeps : String → Progress fl → Tracker fl tm × Option (RaceRef fl) → Type 0
  Keeps key p (t', published) =
      (knows_finished key t' ≡ true)
      × ((r : RaceRef fl)
          → published ≡ some r
          → string_eq.beq p.id key ≡ true
          → r.status ≡ status_finished)

  knows_finished-put :
      (key id : String) (race : TrackedRace fl tm) (t : Tracker fl tm)
      → knows_finished key (record t { races = insert id race t.races })
        ≡ (if string_eq.beq id key then race.finished else knows_finished key t)
  unfolding knows_finished
  knows_finished-put key id race t = ground (arith, lookup-insert id key race t.races)

  observe-finished :
      (timestamp later : tm.Time) (p : Progress fl) (race : TrackedRace fl tm)
      → race.finished ≡ true
      → ((observe timestamp later p race).0.finished ≡ true)
        × ((observe timestamp later p race).1.status ≡ status_finished)
  unfolding observe race_status
  observe-finished timestamp later p race f = rw f (refl, refl)

  accept-Keeps :
      (key : String) (timestamp later : tm.Time) (p : Progress fl) (t : Tracker fl tm)
      (found : Option (TrackedRace fl tm))
      → knows_finished key t ≡ true
      → ((race : TrackedRace fl tm)
          → found ≡ some race
          → string_eq.beq p.id key ≡ true
          → race.finished ≡ true)
      → Keeps key p (accept timestamp later p (t, found))
  unfolding accept
  accept-Keeps key timestamp later p t none k f = (k, λ r e. absurd cc)
  accept-Keeps key timestamp later p t (some race) k f =
      let race' = (observe timestamp later p race).0 in
      let done : string_eq.beq p.id key ≡ true → race'.finished ≡ true =
        λ b. (observe-finished timestamp later p race (f race refl b)).0 in
      if_case (Keeps key p) (not (tm.is_after timestamp race.timestamp)) _ _
        (λ h. (k, λ r e. absurd cc))
        (λ h. (
          ground (arith, k, knows_finished-put key p.id race' t, done),
          λ r e b. ground (arith, e, (observe-finished timestamp later p race (f race refl b)).1),
        ))

  abbrev FoundFinished : String → String → Tracker fl tm × Option (TrackedRace fl tm) → Type 0
  FoundFinished key id (t', found) =
      (knows_finished key t' ≡ true)
      × ((race : TrackedRace fl tm)
          → found ≡ some race
          → string_eq.beq id key ≡ true
          → race.finished ≡ true)

  warn_unresolved-knows_finished :
      (key id : String) (now later : tm.Time) (t : Tracker fl tm)
      → knows_finished key (warn_unresolved id now later t) ≡ knows_finished key t
  unfolding warn_unresolved knows_finished
  warn_unresolved-knows_finished key id now later t = ground arith

  apart :
      (key id : String) (t : Tracker fl tm)
      → lookup id t.races ≡ none
      → knows_finished key t ≡ true
      → string_eq.beq id key ≡ false
  unfolding knows_finished
  apart key id t e k = ground (arith, e, k, string_eq.beq_iff id key)

  race_of-FoundFinished :
      (list : String → Option (Race fl tm)) (key id : String) (now later : tm.Time)
      (t : Tracker fl tm)
      → knows_finished key t ≡ true
      → FoundFinished key id (race_of list id now later t)
  unfolding race_of track_race knows_finished
  race_of-FoundFinished list key id now later t k =
      option_case (FoundFinished key id) (lookup id t.races) _ _
        (λ e.
          option_case (FoundFinished key id) (resolve list id) _ _
            (λ n. (
              ground (arith, k, warn_unresolved-knows_finished key id now later t),
              λ race f. absurd cc,
            ))
            (λ r n. (
              ground (arith, k, apart key id t e k, knows_finished-put key id (new_race r now) t),
              λ race f b. absurd (ground (arith, b, apart key id t e k)),
            )))
        (λ race e. (k, λ race' f b. ground (arith, e, f, b, k, string_eq.beq_iff id key)))

  ref-Keeps :
      (list : String → Option (Race fl tm)) (key : String) (p : Progress fl) (now later : tm.Time)
      (t : Tracker fl tm)
      → knows_finished key t ≡ true
      → Keeps key p (ref list p now later t)
  unfolding ref
  ref-Keeps list key p now later t k =
      option_case (Keeps key p) (tm.parse "2006-01-02T15:04:05Z07:00" p.timestamp) _ _
        (λ n. (k, λ r e. absurd cc))
        (λ timestamp e.
          let found = race_of-FoundFinished list key p.id now later t k in
          let (t', race) = race_of list p.id now later t in
          accept-Keeps key timestamp later p t' race found.0 found.1)

  -- a reference that says finished leaves a tracker that knows it
  accept-knows_finished :
      (timestamp later : tm.Time) (p : Progress fl) (x : Tracker fl tm × Option (TrackedRace fl tm))
      (r : RaceRef fl)
      → (accept timestamp later p x).1 ≡ some r
      → r.status ≡ status_finished
      → knows_finished p.id (accept timestamp later p x).0 ≡ true
  unfolding accept observe race_status
  accept-knows_finished timestamp later p (t, none) r e f = absurd cc
  accept-knows_finished timestamp later p (t, some race) r e f =
      let race' = (observe timestamp later p race).0 in
      ground (arith, e, f, knows_finished-put p.id p.id race' t, string_eq.beq_iff p.id p.id)

module _ {fl : Float64} {tm : GoTime} (list : String → Option (Race fl tm)) where
  -- the references that are published for one race, in order
  unfoldable pub published : String → List (Arrival fl tm) → Tracker fl tm → List (RaceRef fl)
  published key [] t = []
  published key (a ∷ rest) t =
      let (t', r) = ref list a.p a.now a.later t in
      let others = published key rest t' in
      elim r [
        | none ↦ others
        | some found ↦ if string_eq.beq a.p.id key then found ∷ others else others
      ]

  published-finished :
      (key : String) (arrivals : List (Arrival fl tm)) (t : Tracker fl tm)
      → knows_finished key t ≡ true
      → All (λ r. r.status ≡ status_finished) (published key arrivals t)
  unfolding published
  published-finished key [] t k = tt
  published-finished key (a ∷ rest) t k =
      let step = ref-Keeps list key a.p a.now a.later t k in
      let others = published-finished key rest (ref list a.p a.now a.later t).0 step.0 in
      let P : List (RaceRef fl) → Type 0 = All (λ r. r.status ≡ status_finished) in
      option_case P (ref list a.p a.now a.later t).1 _ _ (λ n. others)
        (λ r e.
          if_case P (string_eq.beq a.p.id key) _ _ (λ b. (step.1 r e b, others)) (λ b. others))

  ref-knows_finished :
      (p : Progress fl) (now later : tm.Time) (t : Tracker fl tm) (r : RaceRef fl)
      → (ref list p now later t).1 ≡ some r
      → r.status ≡ status_finished
      → knows_finished p.id (ref list p now later t).0 ≡ true
  unfolding ref
  ref-knows_finished p now later t r e f =
      option_case
        (λ (x : Tracker fl tm × Option (RaceRef fl)). x.1 ≡ some r → knows_finished p.id x.0 ≡ true)
        (tm.parse "2006-01-02T15:04:05Z07:00" p.timestamp) _ _ (λ n e. absurd cc)
        (λ timestamp g e.
          accept-knows_finished timestamp later p (race_of list p.id now later t) r e f)
        e

  -- Once the tracker has published a race as finished, it publishes that race as finished for every
  -- packet of it that it lets through afterwards, whatever packets of all races arrive (no race is
  -- swept in between).
  pub ref-stays_finished :
      (p : Progress fl) (now later : tm.Time) (t : Tracker fl tm) (r : RaceRef fl)
      (arrivals : List (Arrival fl tm))
      → (ref list p now later t).1 ≡ some r
      → r.status ≡ status_finished
      → All (λ r'. r'.status ≡ status_finished) (published p.id arrivals (ref list p now later t).0)
  ref-stays_finished p now later t r arrivals e f =
      published-finished p.id arrivals (ref list p now later t).0
        (ref-knows_finished p now later t r e f)
