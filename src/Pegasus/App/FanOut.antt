-- ===== src/Pegasus/App/FanOut.antt =====
-- apps/pegasus/app.go: a message of a feed goes to every process that wants it, and prices are polled
-- and races looked up on the exchange account of the application. `normalise_track` is the parameter
-- of the venue tables.
pub mod Delivery
use pegasus_suite.Prelude.{
  String, Bool, true, false, not, ◌&&◌, ◌||◌, Option, none, some, List, [], ◌∷◌, str_eq, is_some,
  if◌then◌else◌,
}
use pegasus_suite.Prelude.Int.{ℤ}
use pegasus_suite.Prelude.Assoc.{Assoc, string_eq, lookup, insert, erase}
use pegasus_suite.Prelude.Float.{Float64}
use pegasus_suite.Prelude.Time.{GoTime}
use pegasus_suite.Betting.{BetfairRace}
use pegasus_suite.Clients.{ProcessKey}
use pegasus_suite.Pegasus.Core.{RaceRef}
use pegasus_suite.Pegasus.Process.{Process, offer_triple_s, offer_tpd}
use pegasus_suite.Pegasus.Strategy.Field.{is_finished}
use pegasus_suite.Pegasus.Strategy.TpdLeader.Runs.{LeaderMessage}
use pegasus_suite.Pegasus.TripleS.{FeedMessage}
use pegasus_suite.Pegasus.TripleS
use pegasus_suite.Pegasus.Venues.{betfair_track_for, betfair_racing_code, canonical_venue}
use pegasus_suite.Pegasus.App.{Clients, Member, App}

module _ {fl : Float64} {tm : GoTime} where
  -- the range over the processes: every one is offered the message
  unfoldable pub offer_all :
      (Process fl tm → Process fl tm × Bool)
      → Assoc ProcessKey (Member fl tm)
      → Assoc ProcessKey (Member fl tm) × Bool
  offer_all offer [] = ([], false)
  offer_all offer ((key, m) ∷ rest) =
      let (rest', wanted) = offer_all offer rest in
      let (p, took) = offer m.process in ((key, record m { process = p }) ∷ rest', took || wanted)

-- `LoadOrStore` of a key that is there already stores nothing
abbrev pub note : String → Assoc {0, 0} String Unit → Assoc {0, 0} String Unit
note key seen = if is_some (lookup key seen) then seen else insert key tt seen

abbrev pub canonical : {fl : Float64} → (String → String) → RaceRef fl → RaceRef fl
canonical normalise_track ref = record ref {
  venue_name = canonical_venue normalise_track ref.provider ref.venue ref.venue_name;
}

module _ {fl : Float64} {tm : GoTime} {W : Type 0} (c : Clients fl W) where
  -- `afterFanOut` and `noMatch`
  unfoldable pub after_fan_out : RaceRef fl → Bool → App tm c → App tm c
  after_fan_out ref wanted a =
      if is_finished ref.status
      then record a {
        unmatched = erase ref.key a.unmatched;
        betfair_missing = erase ref.key a.betfair_missing;
      }
      else if not wanted
      then record a { unmatched = note ref.key a.unmatched }
      else a

  unfoldable pub fan_out : (Process fl tm → Process fl tm × Bool) → RaceRef fl → App tm c → App tm c
  unfolding offer_all after_fan_out
  fan_out offer ref a =
      let (procs, wanted) = offer_all offer a.procs in
      after_fan_out ref wanted (record a { procs = procs })

  module _ (normalise_track : String → String) where
    -- `onTripleS`
    unfoldable pub on_triple_s : (ℤ → String) → FeedMessage fl → App tm c → App tm c
    unfolding fan_out
    on_triple_s itoa m a = elim (TripleS.ref itoa m) [
      | none ↦ a
      | some ref ↦
          if str_eq ref.scope ""
          then a
          else fan_out (offer_triple_s m.message (canonical normalise_track ref))
              (canonical normalise_track ref) a
    ]

    -- `onTPD`
    unfoldable pub on_tpd : LeaderMessage fl tm → App tm c → App tm c
    unfolding fan_out
    on_tpd m a =
        if str_eq m.ref.scope ""
        then a
        else fan_out (offer_tpd (record m { ref = canonical normalise_track m.ref }))
            (canonical normalise_track m.ref) a

    -- `lookupBetfairRace`
    unfoldable pub lookup_betfair_race : App tm c → W → RaceRef fl → Option (BetfairRace fl)
    lookup_betfair_race a w ref = elim a.betfair [
      | none ↦ none
      | some bf ↦ elim (betfair_track_for normalise_track ref.provider ref.venue) [
        | none ↦ none
        | some track ↦
            c.get_race bf (betfair_racing_code ref.code) ref.country track ref.race_number w
      ]
    ]

    -- `setBetfairPriceFeed`, with `HasRace` as a `GetRace` that finds one
    unfoldable pub set_betfair_price_feed : RaceRef fl → Bool → App tm c → W → App tm c × W
    set_betfair_price_feed ref on a w = elim a.betfair [
      | none ↦ (a, w)
      | some bf ↦ elim (betfair_track_for normalise_track ref.provider ref.venue) [
        | none ↦ (a, w)
        | some track ↦
            (let code = betfair_racing_code ref.code in
              if not on
              then (a, c.stop_runner_updates bf code ref.country track ref.race_number w)
              else if not (is_some (c.get_race bf code ref.country track ref.race_number w))
              then (record a { betfair_missing = note ref.key a.betfair_missing }, w)
              else (a, c.start_runner_updates bf code ref.country track ref.race_number w))
      ]
    ]
