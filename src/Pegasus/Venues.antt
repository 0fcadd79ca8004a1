-- ===== src/Pegasus/Venues.antt =====
-- apps/pegasus/core/mapping.go: from a feed's venue to the bookmakers' names. `normalise_track` is
-- `betfair.NormaliseTrack`, which the package does not define: a parameter.
mod Tracks
mod TripleS
mod Tpd
mod Agree
mod Tests
use pegasus_suite.Prelude.{
  String, Bool, true, false, Option, none, some, str_eq, ◌||◌, if◌then◌else◌,
}
use pegasus_suite.Prelude.Assoc.{string_eq, lookup}
use pegasus_suite.Betting.{
  RacingCode, BetmaticVenue, BetfairCode, betfair_thoroughbred, betfair_trot, is_harness,
}
use pegasus_suite.Pegasus.Core.{Provider, provider_triple_s, provider_tpd}
use pegasus_suite.Pegasus.Venues.Tracks.{triples_to_betfair, tpd_to_betfair}
use pegasus_suite.Pegasus.Venues.TripleS.{triples_to_betmatic}
use pegasus_suite.Pegasus.Venues.Tpd.{tpd_to_betmatic}

-- `BetfairRacingCode`
unfoldable pub betfair_racing_code : RacingCode → BetfairCode
betfair_racing_code code = if is_harness code then betfair_trot else betfair_thoroughbred

unfoldable pub provider_for : String → Option Provider
provider_for country =
    if str_eq country "AU"
    then some provider_triple_s
    else if str_eq country "GB"
        || str_eq country "US"
        || str_eq country "CA"
        || str_eq country "SA"
        || str_eq country "CL"
        || str_eq country "IN"
    then some provider_tpd
    else none

unfoldable pub betfair_track_for : (String → String) → Provider → String → Option String
betfair_track_for normalise_track provider_triple_s venue =
    lookup (normalise_track venue) triples_to_betfair
betfair_track_for normalise_track provider_tpd venue = lookup venue tpd_to_betfair

unfoldable pub betmatic_venue_for : (String → String) → Provider → String → Option BetmaticVenue
betmatic_venue_for normalise_track provider_triple_s venue =
    lookup (normalise_track venue) triples_to_betmatic
betmatic_venue_for normalise_track provider_tpd venue = lookup venue tpd_to_betmatic

unfoldable pub canonical_venue : (String → String) → Provider → String → String → String
unfolding betmatic_venue_for
canonical_venue normalise_track provider venue feed_name =
    elim (betmatic_venue_for normalise_track provider venue) [ some v ↦ v.name | none ↦ feed_name ]
