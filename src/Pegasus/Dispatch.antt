-- ===== src/Pegasus/Dispatch.antt =====
-- apps/pegasus/dispatch/dispatch.go: from a bet to the engine's order. `normalise_track` is the
-- parameter of the venue tables; `append` the concatenation of texts.
use Prim.Native.String
use pegasus_suite.Prelude.{String, Option, none, some, if◌then◌else◌}
use pegasus_suite.Prelude.Float.{Float64}
use pegasus_suite.Betting.{BetfairRace}
use pegasus_suite.Clients.{Result}
use pegasus_suite.Engine.Side.{betmatic_win, same_side}
use pegasus_suite.Engine.Place.{Account, Text, Skip, Event, Order, Request}
use pegasus_suite.Engine.Place
use pegasus_suite.Pegasus.Core.{RaceRef, Bet}
use pegasus_suite.Pegasus.Venues.{betmatic_venue_for}
use pegasus_suite.Pegasus.Settings.{ScopeSettings, ProcessSettings}

module _ (fl : Float64) where
  pub record Dispatcher : Type 0 where
    pub account : Account
    pub settings : ProcessSettings fl
    pub get_betfair_race : Option (RaceRef fl → Option (BetfairRace fl))

module _ {fl : Float64} (normalise_track : String → String) where
  unfoldable pub event_of : Dispatcher fl → Bet fl → Event fl
  event_of d b = record {
    key = b.ref.key;
    venue_name = b.ref.venue_name;
    race_number = b.ref.race_number;
    country = b.ref.country;
    code = b.ref.code;
    betmatic = betmatic_venue_for normalise_track b.ref.provider b.ref.venue;
    betfair =
        if same_side b.side betmatic_win
        then none
        else elim d.get_betfair_race [ none ↦ none | some get ↦ get b.ref ];
  }

  unfoldable pub order_of : Dispatcher fl → Bet fl → ScopeSettings fl → Order fl
  unfolding event_of
  order_of d b scope = record {
    account = d.account;
    event = event_of d b;
    side = b.side;
    runner = b.runner;
    unit = b.unit;
    stake = scope.stake;
    label = String.◌++◌ "pegasus_" d.settings.id;
  }

  -- `Dispatcher.Place`
  unfoldable pub place : Text → Dispatcher fl → Bet fl → ScopeSettings fl → Result Skip (Request fl)
  unfolding order_of
  place tx d b scope = Place.place tx (order_of d b scope)
