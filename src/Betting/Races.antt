-- ===== src/Betting/Races.antt =====
-- betting/betfair/races.go: the races that the exchange client has loaded, and their prices. A call
-- runs under the client's lock. `to_upper` (strings.ToUpper) and `normalise` (betting.NormaliseTrackKey)
-- are parameters, as is `parse_int` (strconv.ParseInt, base 10).
pub mod Lookup
use Prim.Native.String
use pegasus_suite.Prelude.{
  String, Bool, true, false, Option, none, some, List, [], ◌∷◌, str_eq, is_some, if◌then◌else◌,
}
use pegasus_suite.Prelude.Int.{ℤ, eq_ℤ, eq_ℤ_iff}
use pegasus_suite.Prelude.Assoc.{Eq, Assoc, string_eq, lookup, insert}
use pegasus_suite.Prelude.Float.{Float64}
use pegasus_suite.Betting.{
  BetfairRace, Runner, OrderBook, BetfairCode, betfair_thoroughbred, betfair_trot, betfair_other,
}

instance abbrev pub int_eq : Eq ℤ
int_eq = record { beq = eq_ℤ; beq_iff = eq_ℤ_iff }

pub record Event (fl : Float64) : Type 0 where
  pub country : String
  pub track_name : String
  pub code : BetfairCode
  pub races : Assoc ℤ (BetfairRace fl)

abbrev pub is_trot : BetfairCode → Bool
is_trot betfair_thoroughbred = false
is_trot betfair_trot = true
is_trot (betfair_other s) = false

pub record Loaded (fl : Float64) : Type 0 where
  pub thoroughbred : Assoc String (Event fl)
  pub trot : Assoc String (Event fl)

-- a `RunnerBook` of `listMarketBook`, and the first book that it returns
pub record RunnerBook (fl : Float64) : Type 0 where
  pub selection_id : ℤ
  pub last_price_traded : fl.F
  pub available_to_back : List (OrderBook fl)
  pub available_to_lay : List (OrderBook fl)

pub record MarketBook (fl : Float64) : Type 0 where
  pub closed : Bool
  pub runners : List (RunnerBook fl)

abbrev pub key_of : (String → String) → String → String → String
key_of to_upper country norm_track = String.◌++◌ (to_upper country) (String.◌++◌ ":" norm_track)

-- `getEventsLocked`
unfoldable pub get_events : {fl : Float64} → BetfairCode → Loaded fl → Assoc String (Event fl)
get_events betfair_trot l = l.trot
get_events betfair_thoroughbred l = l.thoroughbred
get_events (betfair_other s) l = []

module _ {fl : Float64} (to_upper normalise : String → String) where
  abbrev pub event_key : Event fl → String
  event_key e = key_of to_upper e.country (normalise e.track_name)

  -- the loop of `setUpcomingEventsMap`
  unfoldable pub add_events : List (Event fl) → Loaded fl → Loaded fl
  add_events [] l = l
  add_events (e ∷ rest) l = add_events rest (
      if is_trot e.code
      then record l { trot = insert (event_key e) e l.trot }
      else record l { thoroughbred = insert (event_key e) e l.thoroughbred })

  -- `setUpcomingEventsMap`
  unfoldable pub set_upcoming_events : List (Event fl) → Loaded fl
  unfolding add_events
  set_upcoming_events events = add_events events (record { thoroughbred = []; trot = [] })

  -- `raceByKeyLocked`
  unfoldable pub race_by_key :
      BetfairCode → String → String → ℤ → Loaded fl → Option (BetfairRace fl)
  unfolding get_events
  race_by_key code country norm_track number l =
      elim (lookup (key_of to_upper country norm_track) (get_events code l)) [
        | none ↦ none
        | some event ↦ lookup number event.races
      ]

  -- `GetRace`
  unfoldable pub get_race : BetfairCode → String → String → ℤ → Loaded fl → Option (BetfairRace fl)
  unfolding race_by_key
  get_race code country track number l = race_by_key code country (normalise track) number l

  -- `HasRace`
  unfoldable pub has_race : BetfairCode → String → String → ℤ → Loaded fl → Bool
  unfolding race_by_key
  has_race code country track number l =
      is_some (race_by_key code country (normalise track) number l)

module _ {fl : Float64} (parse_int : String → Option ℤ) where
  -- the runners of `updateRunners` by selection: the number under which the race has each
  unfoldable pub by_selection : Assoc ℤ (Runner fl) → Assoc ℤ ℤ → Assoc ℤ ℤ
  by_selection [] found = found
  by_selection ((number, runner) ∷ rest) found =
      by_selection rest
        (elim (parse_int runner.selection_id) [ none ↦ found | some id ↦ insert id number found ])

  abbrev pub with_prices : RunnerBook fl → Runner fl → Runner fl
  with_prices rb runner = record runner {
    ltp = rb.last_price_traded;
    back = rb.available_to_back;
    lay = rb.available_to_lay;
  }

  abbrev pub priced : Assoc ℤ ℤ → RunnerBook fl → Assoc ℤ (Runner fl) → Assoc ℤ (Runner fl)
  priced selections rb runners = elim (lookup rb.selection_id selections) [
    | none ↦ runners
    | some number ↦ elim (lookup number runners) [
      | none ↦ runners
      | some runner ↦ insert number (with_prices rb runner) runners
    ]
  ]

  -- the loop over the book's runners
  unfoldable pub apply_books :
      Assoc ℤ ℤ → List (RunnerBook fl) → Assoc ℤ (Runner fl) → Assoc ℤ (Runner fl)
  apply_books selections [] runners = runners
  apply_books selections (rb ∷ rest) runners =
      apply_books selections rest (priced selections rb runners)

  -- `updateRunners` on the race that it found under the lock
  unfoldable pub update_race : MarketBook fl → BetfairRace fl → BetfairRace fl
  unfolding by_selection apply_books
  update_race book race = record race {
    runners = apply_books (by_selection race.runners []) book.runners race.runners;
  }
