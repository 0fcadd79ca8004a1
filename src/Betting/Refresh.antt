-- ===== src/Betting/Refresh.antt =====
-- betting/betfair/events.go, markets.go and util.go: a refresh of the events that the exchange lists.
-- The three regular expressions are written out. The calls of the exchange go over HTTP and are
-- parameters, as are `strconv.Atoi`, `strconv.FormatInt` and `strings.TrimSpace`.
pub mod Sound
mod Tests
use Prim.Native.Char.{Char, code}
use pegasus_suite.Prelude.{
  ℕ, ◌+◌, String, Bool, true, false, not, ◌&&◌, ◌||◌, leb, ◌==◌, Option, none, some, List, [], ◌∷◌,
  str_eq, is_some, if◌then◌else◌,
}
use pegasus_suite.Prelude.Int.{ℤ, pos, eq_ℤ}
use pegasus_suite.Prelude.Text.{strip_prefix, cons_some}
use pegasus_suite.Prelude.Assoc.{Assoc, insert}
use pegasus_suite.Prelude.Float.{Float64}
use pegasus_suite.Betting.{BetfairRace, Runner, BetfairCode, betfair_thoroughbred, betfair_trot}
use pegasus_suite.Betting.Races.{Event, Loaded, int_eq, set_upcoming_events}

-- `Atoi` gives a number also where it reports an error.
pub record GoText : Type 0 where
  pub atoi : String → ℤ × Bool
  pub format_int : ℤ → String
  pub trim_space : String → String
  pub to_upper : String → String

abbrev pub is_digit : Char → Bool
is_digit c = leb b'0' (code c) && leb (code c) b'9'

abbrev pub lower : ℕ → ℕ
lower n = if leb b'A' n && leb n b'Z' then n + 32 else n

abbrev pub is_word : Char → Bool
is_word c =
    is_digit c || (leb b'a' (lower (code c)) && leb (lower (code c)) b'z') || (code c == b'_')

-- the digits at the start of a text, and what follows them
unfoldable pub digits : String → String × String
digits String.[] = ("", "")
digits (String.◌∷◌ c s) =
    let (ds, rest) = digits s in
    if is_digit c then (String.◌∷◌ c ds, rest) else ("", String.◌∷◌ c s)

-- `(?i)^R(\d+)`: its group
unfoldable pub race_number_digits : String → Option String
unfolding digits
race_number_digits String.[] = none
race_number_digits (String.◌∷◌ c s) =
    if (lower (code c) == b'r') && not (str_eq (digits s).0 "") then some (digits s).0 else none

-- `(\d+)m`: the group of the first match
unfoldable pub distance_digits : String → Option String
unfolding digits
distance_digits String.[] = none
distance_digits (String.◌∷◌ c s) =
    let rest = distance_digits s in
    let (ds, after) = digits (String.◌∷◌ c s) in
    if is_digit c && is_some (strip_prefix "m" after) then some ds else rest

-- whether a text starts with this word in any case, and the word ends there
unfoldable pub starts_with_word : String → String → Bool
starts_with_word String.[] String.[] = true
starts_with_word String.[] (String.◌∷◌ c s) = not (is_word c)
starts_with_word (String.◌∷◌ p w) String.[] = false
starts_with_word (String.◌∷◌ p w) (String.◌∷◌ c s) =
    let rest = starts_with_word w s in if code p == lower (code c) then rest else false

-- `(?i)\b(pace|trot)\b`: whether it matches, behind a letter of a word or not
unfoldable pub is_harness_name : Bool → String → Bool
unfolding starts_with_word
is_harness_name behind String.[] = false
is_harness_name behind (String.◌∷◌ c s) =
    let rest = is_harness_name (is_word c) s in
    let here =
      starts_with_word "pace" (String.◌∷◌ c s) || starts_with_word "trot" (String.◌∷◌ c s) in
    if not behind && here then true else rest

-- `s[:strings.Index(s, " (")]`
unfoldable pub before_paren : String → Option String
before_paren String.[] = none
before_paren (String.◌∷◌ c s) =
    let rest = cons_some c (before_paren s) in
    if is_some (strip_prefix " (" (String.◌∷◌ c s)) then some "" else rest

-- `exchange.CatalogueRunner`, `MarketCatalogue` and `Event`: of what the exchange lists, what a refresh
-- reads
pub record CatalogueRunner : Type 0 where
  pub selection_id : ℤ
  pub cloth_number : String

pub record MarketCatalogue : Type 0 where
  pub market_id : String
  pub market_name : String
  pub runners : List CatalogueRunner

pub record ListedEvent : Type 0 where
  pub id : String
  pub name : String
  pub country_code : String

-- the calls of `bc.api`; none is an error
pub record Exchange : Type 1 where
  pub W : Type 0
  pub list_events : List String → W → W × Option (List ListedEvent)
  pub list_markets : String → W → W × Option (List MarketCatalogue)

module _ (go : GoText) where
  abbrev pub parse_track_name : String → String
  parse_track_name name = elim (before_paren name) [
    | none ↦ go.trim_space name
    | some start ↦ go.trim_space start
  ]

  abbrev pub parse_race_number : String → Option ℤ
  parse_race_number name = elim (race_number_digits name) [
    | none ↦ none
    | some ds ↦ if (go.atoi ds).1 then some (go.atoi ds).0 else none
  ]

  abbrev pub parse_distance : String → ℤ
  parse_distance name = elim (distance_digits name) [ none ↦ pos 0 | some ds ↦ (go.atoi ds).0 ]

module _ {fl : Float64} where
  unfoldable pub racing_code : Assoc ℤ (BetfairRace fl) → BetfairCode
  unfolding is_harness_name
  racing_code [] = betfair_thoroughbred
  racing_code ((number, race) ∷ rest) =
      let code = racing_code rest in if is_harness_name false race.name then betfair_trot else code

  module _ (go : GoText) where
    abbrev pub new_runner : String → ℤ → CatalogueRunner → Runner fl
    new_runner market number cr = record {
      number = number;
      lay = [];
      back = [];
      ltp = fl.lit 0 0;
      selection_id = go.format_int cr.selection_id;
      market_id = market;
    }

    -- the loop of `toRunners`
    unfoldable pub add_runners :
        String → List CatalogueRunner → Assoc ℤ (Runner fl) → Assoc ℤ (Runner fl)
    add_runners market [] runners = runners
    add_runners market (cr ∷ rest) runners =
        let (number, parsed) = go.atoi cr.cloth_number in
        add_runners market rest (
          if not parsed || eq_ℤ number (pos 0)
          then runners
          else insert number (new_runner market number cr) runners)

    abbrev pub to_runners : MarketCatalogue → Assoc ℤ (Runner fl)
    to_runners m = add_runners m.market_id m.runners []

    abbrev pub new_race : ℤ → MarketCatalogue → BetfairRace fl
    new_race number m = record {
      number = number;
      id = m.market_id;
      name = m.market_name;
      distance = parse_distance go m.market_name;
      runners = to_runners m;
    }

    -- the loop of `listRaces`
    unfoldable pub add_races :
        List MarketCatalogue → Assoc ℤ (BetfairRace fl) → Assoc ℤ (BetfairRace fl)
    add_races [] races = races
    add_races (m ∷ rest) races = add_races rest (elim (parse_race_number go m.market_name) [
      | none ↦ races
      | some number ↦ insert number (new_race number m) races
    ])

    abbrev pub new_event : ListedEvent → List MarketCatalogue → Event fl
    new_event er markets =
        let races = add_races markets [] in
        record {
          country = er.country_code;
          track_name = parse_track_name go er.name;
          code = racing_code races;
          races = races;
        }

    -- the loop of `loadUpcomingEvents`, with the call of `listRaces`
    unfoldable pub gather : (x : Exchange) → List ListedEvent → x.W → x.W × List (Event fl)
    gather x [] w = (w, [])
    gather x (er ∷ rest) w =
        let (v, listed) = x.list_markets er.id w in
        let (u, events) = gather x rest v in
        elim listed [ none ↦ (u, events) | some markets ↦ (u, new_event er markets ∷ events) ]

    -- `loadUpcomingEvents`
    unfoldable pub load_upcoming_events :
        (String → String) → (x : Exchange) → List String → x.W × Loaded fl → x.W × Loaded fl
    unfolding gather set_upcoming_events
    load_upcoming_events normalise x codes (w, l) =
        let (v, listed) = x.list_events codes w in
        elim listed [
          | none ↦ (v, l)
          | some results ↦
              (let (u, events) = gather x results v in
                (u, set_upcoming_events go.to_upper normalise events))
        ]
