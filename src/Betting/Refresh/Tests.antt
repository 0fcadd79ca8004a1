-- ===== src/Betting/Refresh/Tests.antt =====
-- betting/betfair/events.go, markets.go and util.go: market names, and a refresh whose second event
-- cannot be read.
use pegasus_suite.Prelude.{
  ◌≡◌, refl, String, Bool, true, false, none, some, List, [], ◌∷◌, str_eq, if◌then◌else◌,
}
use pegasus_suite.Prelude.Int.{ℤ, pos}
use pegasus_suite.Prelude.Assoc.{lookup, insert}
use pegasus_suite.Prelude.Toy.{toy_float}
use pegasus_suite.Betting.{BetfairRace, betfair_trot}
use pegasus_suite.Betting.Races.{
  int_eq, get_events, add_events, set_upcoming_events, race_by_key, get_race,
}
use pegasus_suite.Betting.Refresh.{
  GoText, Exchange, MarketCatalogue, digits, race_number_digits, distance_digits, starts_with_word,
  is_harness_name, before_paren, parse_track_name, add_runners, add_races, racing_code, gather,
  load_upcoming_events, new_race,
}
use pegasus_suite.Betting.Refresh.Sound.{refresh_all, IsSoundRace, refreshed_race-IsSound}
use pegasus_suite.Prelude.Text.{strip_prefix}

abbrev toy_atoi : String → ℤ × Bool
toy_atoi s =
    if str_eq s "4"
    then (pos 4, true)
    else if str_eq s "1609"
    then (pos 1609, true)
    else if str_eq s "7"
    then (pos 7, true)
    else (pos 0, false)

abbrev toy_go : GoText
toy_go = record { atoi = toy_atoi; format_int = λ n. "12"; trim_space = λ s. s; to_upper = λ s. s }

-- The second event's markets cannot be read.
abbrev menangle : MarketCatalogue
menangle = record {
  market_id = "1.1";
  market_name = "R4 1609m Pace M";
  runners =
      record { selection_id = pos 12; cloth_number = "7" }
      ∷ record { selection_id = pos 13; cloth_number = "x" }
      ∷ [];
}

abbrev toy_exchange : Exchange
toy_exchange = record {
  W = Unit;
  list_events = λ codes w. (
    w,
    some (
        record { id = "a"; name = "Menangle (AUS) 3rd Jan"; country_code = "AU" }
        ∷ record { id = "b"; name = "Ascot"; country_code = "GB" }
        ∷ []),
  );
  list_markets = λ id w. (w, if str_eq id "a" then some (menangle ∷ []) else none);
}

race_number_of : race_number_digits "r12 1200m Hcp" ≡ some "12"
unfolding race_number_digits digits
race_number_of = refl

distance_of : distance_digits "R4 1609m Pace" ≡ some "1609"
unfolding distance_digits digits strip_prefix
distance_of = refl

is_pace : is_harness_name false "R4 1609m PACE M" ≡ true
unfolding is_harness_name starts_with_word
is_pace = refl

is_no_trot : is_harness_name false "R2 2400m Trotter Hcp" ≡ false
unfolding is_harness_name starts_with_word
is_no_trot = refl

track_of : parse_track_name toy_go "Menangle (AUS) 3rd Jan" ≡ "Menangle"
unfolding before_paren strip_prefix
track_of = refl

abbrev calls : List (List String)
calls = ("AU" ∷ "GB" ∷ []) ∷ []

abbrev race_4 : BetfairRace toy_float
race_4 = new_race toy_go (pos 4) menangle

found_4 :
    get_race toy_go.to_upper
      (λ s. s)
      betfair_trot
      "AU"
      "Menangle"
      (pos 4)
      (refresh_all toy_go
        (λ s. s)
        toy_exchange
        calls
        (tt, record { thoroughbred = []; trot = [] })).1
    ≡ some race_4
unfolding get_race race_by_key refresh_all load_upcoming_events gather add_races add_runners
    racing_code is_harness_name starts_with_word race_number_digits digits set_upcoming_events
    add_events get_events lookup insert before_paren strip_prefix distance_digits
found_4 = refl

refreshed_race-IsSound_example : IsSoundRace toy_go (pos 4) race_4
refreshed_race-IsSound_example =
    refreshed_race-IsSound toy_go (λ s. s) toy_exchange calls tt betfair_trot "AU" "Menangle"
      (pos 4) race_4 found_4
