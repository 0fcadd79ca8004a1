-- ===== src/Betting/Races/Lookup.antt =====
-- betting/betfair/races.go: which race is found after a refresh of the events.
use pegasus_suite.Prelude.{
  ◌≡◌, refl, String, Bool, false, not, ◌&&◌, Option, none, some, List, [], ◌∷◌, arith,
  if◌then◌else◌,
}
use pegasus_suite.Prelude.Int.{ℤ}
use pegasus_suite.Prelude.Assoc.{string_eq, lookup, insert, lookup-insert}
use pegasus_suite.Prelude.Float.{Float64}
use pegasus_suite.Betting.{BetfairCode, betfair_thoroughbred, betfair_trot, betfair_other}
use pegasus_suite.Betting.Races.{
  Event, Loaded, int_eq, is_trot, key_of, event_key, add_events, set_upcoming_events, get_events,
  race_by_key, get_race,
}

-- an event is of a code: an event that is not a trot counts as thoroughbred
abbrev pub is_of : {fl : Float64} → BetfairCode → Event fl → Bool
is_of betfair_trot e = is_trot e.code
is_of betfair_thoroughbred e = not (is_trot e.code)
is_of (betfair_other s) e = false

module _ {fl : Float64} (to_upper normalise : String → String) where
  -- the last event of the code with this key
  unfoldable pub last_event : BetfairCode → String → List (Event fl) → Option (Event fl)
  last_event code key [] = none
  last_event code key (e ∷ rest) = elim (last_event code key rest) [
    | some later ↦ some later
    | none ↦
        if is_of code e && string_eq.beq (event_key to_upper normalise e) key then some e else none
  ]

  add_events-lookup :
      (code : BetfairCode) (key : String) (events : List (Event fl)) (l : Loaded fl)
      → lookup key (get_events code (add_events to_upper normalise events l))
        ≡ (elim (last_event code key events) [
          | some e ↦ some e
          | none ↦ lookup key (get_events code l)
        ])
  unfolding add_events last_event get_events
  add_events-lookup code key [] l = refl
  add_events-lookup betfair_trot key (e ∷ rest) l = ground (
    arith,
    add_events-lookup betfair_trot key rest (
        if is_trot e.code
        then record l { trot = insert (event_key to_upper normalise e) e l.trot }
        else record l { thoroughbred = insert (event_key to_upper normalise e) e l.thoroughbred }),
    lookup-insert (event_key to_upper normalise e) key e l.trot,
  )
  add_events-lookup betfair_thoroughbred key (e ∷ rest) l = ground (
    arith,
    add_events-lookup betfair_thoroughbred key rest (
        if is_trot e.code
        then record l { trot = insert (event_key to_upper normalise e) e l.trot }
        else record l { thoroughbred = insert (event_key to_upper normalise e) e l.thoroughbred }),
    lookup-insert (event_key to_upper normalise e) key e l.thoroughbred,
  )
  add_events-lookup (betfair_other s) key (e ∷ rest) l = ground (
    arith,
    add_events-lookup (betfair_other s) key rest (
        if is_trot e.code
        then record l { trot = insert (event_key to_upper normalise e) e l.trot }
        else record l { thoroughbred = insert (event_key to_upper normalise e) e l.thoroughbred }),
  )

  -- After a refresh with any list of events, `GetRace` finds the race of this number of the last event
  -- of the list that is of the code and has the country and the track, and nothing if there is none.
  pub get_race-set_upcoming_events :
      (events : List (Event fl)) (code : BetfairCode) (country track : String) (number : ℤ)
      → get_race to_upper normalise code country track number
          (set_upcoming_events to_upper normalise events)
        ≡ (elim (last_event code (key_of to_upper country (normalise track)) events) [
          | none ↦ none
          | some e ↦ lookup number e.races
        ])
  unfolding get_race race_by_key set_upcoming_events get_events lookup
  get_race-set_upcoming_events events code country track number = grind (arith, add_events-lookup)
