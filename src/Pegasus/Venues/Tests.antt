-- ===== src/Pegasus/Venues/Tests.antt =====
-- apps/pegasus/core/mapping.go on two courses.
use pegasus_suite.Prelude.{◌≡◌, refl, true, not, ◌||◌, is_some}
use pegasus_suite.Prelude.Assoc.{lookup}
use pegasus_suite.Prelude.Text.{trim_prefix}
use pegasus_suite.Pegasus.Core.{provider_tpd}
use pegasus_suite.Pegasus.Venues.{betfair_track_for, betmatic_venue_for}
use pegasus_suite.Pegasus.Venues.Agree.{zero_codes, member, tpd_venues_agree}

ascot_track : is_some (betfair_track_for (λ s. s) provider_tpd "01") ≡ true
unfolding betfair_track_for lookup
ascot_track = refl

tpd_venues_agree_example :
    (is_some (betmatic_venue_for (λ s. s) provider_tpd "01") ≡ not (member "01" zero_codes))
    × ((not (member "01" zero_codes)
          || is_some (betmatic_venue_for (λ s. s) provider_tpd (trim_prefix "0" "01")))
        ≡ true)
tpd_venues_agree_example = tpd_venues_agree (λ s. s) "01" ascot_track
