-- ===== src/Engine/Place/Tests.antt =====
-- engine/place.go on a back bet.
use pegasus_suite.Prelude.{◌≡◌, refl, true, false, none, some, [], ◌∷◌, if◌then◌else◌}
use pegasus_suite.Prelude.Int.{pos, ◌+ℤ◌, ◌-ℤ◌, ◌*ℤ◌, ◌/ℤ◌}
use pegasus_suite.Prelude.Assoc.{lookup}
use pegasus_suite.Prelude.Toy.{toy_float}
use pegasus_suite.Betting.{Runner, thoroughbred}
use pegasus_suite.Clients.{ok}
use pegasus_suite.Engine.Side.{betfair_back}
use pegasus_suite.Engine.Stake.{is_positive, floor_price}
use pegasus_suite.Engine.Ticks.{floor_to_betfair_tick, floor_bands}
use pegasus_suite.Engine.Place.{
  Text, Order, BspBet, to_betfair, is_lay, check_price, back_terms, bet_runner, place_betfair,
  place,
}
use pegasus_suite.Engine.Place.Limits.{IsRunner, IsWithin, place-IsWithin}

abbrev text : Text
text = record { to_upper = λ s. s; join = λ s. ""; parse_int = λ s. some (pos 7); cut_32 = λ s. s }

abbrev horse : Runner toy_float
horse = record {
  number = pos 4;
  lay = [];
  back = record { price = pos 200; size = pos 100 } ∷ [];
  ltp = pos 190;
  selection_id = "7";
  market_id = "m";
}

abbrev back_order : Order toy_float
back_order = record {
  account = record { bot_id = ""; bookmakers = []; has_betmatic = false; has_betfair = true };
  event = record {
    key = "k";
    venue_name = "Flemington";
    race_number = pos 3;
    country = "AU";
    code = thoroughbred;
    betmatic = none;
    betfair = some (record {
      number = pos 3;
      id = "1";
      name = "R3";
      distance = pos 1100;
      runners = (pos 4, horse) ∷ [];
    });
  };
  side = betfair_back;
  runner = pos 4;
  unit = pos 10;
  stake = record {
    betmatic = record { win_stake = pos 0; win_mbl = false; min_odds = pos 0; max_odds = pos 0 };
    betfair = record {
      back_stake = pos 1000;
      lay_stake = pos 0;
      min_odds = pos 15;
      max_odds = pos 0;
    };
  };
  label = "lbl";
}

abbrev bet_sent : BspBet toy_float
bet_sent = record {
  market_id = "m";
  selection_id = pos 7;
  customer_ref = "lbl";
  lay = false;
  limit_price = pos 180;
  liability = pos 52;
}

order_placed : place text back_order ≡ ok (to_betfair bet_sent)
unfolding place place_betfair bet_runner check_price back_terms floor_price floor_to_betfair_tick
    floor_bands lookup ◌+ℤ◌ ◌-ℤ◌ ◌*ℤ◌ ◌/ℤ◌
order_placed = refl

place-IsWithin_example :
    (is_positive toy_float (if is_lay betfair_back then pos 0 else pos 1000) ≡ true)
    × (back_order.account.has_betfair ≡ true)
    × (runner : Runner toy_float) × IsRunner back_order runner
    × IsWithin text back_order runner bet_sent
place-IsWithin_example = place-IsWithin text back_order bet_sent order_placed
