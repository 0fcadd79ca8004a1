-- ===== src/Pegasus/Venues/Agree.antt =====
-- apps/pegasus/core/mapping.go: the venue tables against each other.
use pegasus_suite.Prelude.{
  is_some, ◌≡◌, refl, sym, String, Bool, true, false, not, ◌&&◌, ◌||◌, List, [], ◌∷◌, str_eq, arith,
  Bool-cases, inl, inr,
}
use pegasus_suite.Prelude.Assoc.{Assoc, string_eq, lookup}
use pegasus_suite.Prelude.Text.{trim_prefix, strip_prefix}
use pegasus_suite.Pegasus.Core.{provider_triple_s, provider_tpd}
use pegasus_suite.Pegasus.Venues.{betfair_track_for, betmatic_venue_for}
use pegasus_suite.Pegasus.Venues.Tracks.{triples_to_betfair, tpd_to_betfair}
use pegasus_suite.Pegasus.Venues.TripleS.{triples_to_betmatic}
use pegasus_suite.Pegasus.Venues.Tpd.{tpd_to_betmatic}

iff_eq : (a b : Bool) → (a ≡ true → b ≡ true) → (b ≡ true → a ≡ true) → a ≡ b
iff_eq a b f g = ground (arith, f, g)

-- every key of the table passes the test
keys_pass {ℓ} : {V : Type ℓ} → (String → Bool) → Assoc String V → Bool
keys_pass test [] = true
keys_pass test ((k, v) ∷ m) = test k && keys_pass test m

keys_pass-lookup {ℓ} :
    {V : Type ℓ} (test : String → Bool) (m : Assoc String V) (k : String)
    → keys_pass test m ≡ true
    → is_some (lookup k m) ≡ true
    → test k ≡ true
unfolding keys_pass lookup
keys_pass-lookup test [] k e h = ground arith
keys_pass-lookup test ((j, v) ∷ m) k e h = elim (Bool-cases (string_eq.beq j k)) [
  | inl b ↦ rw (sym ((string_eq.beq_iff j k).0 b)) (ground (arith, e))
  | inr b ↦ keys_pass-lookup test m k (ground (arith, e)) (ground (arith, h, b))
]

same_bool : Bool → Bool → Bool
same_bool a b = (a && b) || (not a && not b)

same_bool-eq : (a b : Bool) → same_bool a b ≡ true → a ≡ b
unfolding same_bool
same_bool-eq a b h = ground arith

triple_s_tracks : keys_pass (λ k. is_some (lookup k triples_to_betmatic)) triples_to_betfair ≡ true
unfolding keys_pass lookup
triple_s_tracks = refl

triple_s_venues : keys_pass (λ k. is_some (lookup k triples_to_betfair)) triples_to_betmatic ≡ true
unfolding keys_pass lookup
triple_s_venues = refl

-- The codes that one TPD table writes with a leading zero, and the other without.
abbrev pub zero_codes : List String
zero_codes = "01" ∷ "02" ∷ "03" ∷ "04" ∷ "05" ∷ "06" ∷ "07" ∷ "08" ∷ "09" ∷ []

pub member : String → List String → Bool
member k [] = false
member k (j ∷ rest) = str_eq j k || member k rest

tpd_tracks :
    keys_pass
      (λ k. same_bool (is_some (lookup k tpd_to_betmatic)) (not (member k zero_codes)))
      tpd_to_betfair
    ≡ true
unfolding keys_pass lookup same_bool member
tpd_tracks = refl

-- a code without its leading zero has a Betmatic venue
without_zero : String → Bool
without_zero k = not (member k zero_codes) || is_some (lookup (trim_prefix "0" k) tpd_to_betmatic)

zero_tracks : keys_pass without_zero tpd_to_betfair ≡ true
unfolding keys_pass without_zero lookup member strip_prefix
zero_tracks = refl

-- Whatever `NormaliseTrack` does: a venue that the Triple-S feed names has a Betfair track exactly
-- if it has a Betmatic venue.
pub triple_s_venues_agree :
    (normalise_track : String → String) (venue : String)
    → is_some (betfair_track_for normalise_track provider_triple_s venue)
      ≡ is_some (betmatic_venue_for normalise_track provider_triple_s venue)
unfolding betfair_track_for betmatic_venue_for
triple_s_venues_agree normalise_track venue =
    let k = normalise_track venue in
    iff_eq _ _
      (keys_pass-lookup (λ k. is_some (lookup k triples_to_betmatic)) triples_to_betfair k
        triple_s_tracks)
      (keys_pass-lookup (λ k. is_some (lookup k triples_to_betfair)) triples_to_betmatic k
        triple_s_venues)

-- A TPD course with a Betfair track has a Betmatic venue exactly if its code is none of 01 to 09, and
-- one of those nine has a Betmatic venue under its code without the leading zero.
pub tpd_venues_agree :
    (normalise_track : String → String) (code : String)
    → is_some (betfair_track_for normalise_track provider_tpd code) ≡ true
    → (is_some (betmatic_venue_for normalise_track provider_tpd code)
        ≡ not (member code zero_codes))
      × ((not (member code zero_codes)
            || is_some (betmatic_venue_for normalise_track provider_tpd (trim_prefix "0" code)))
          ≡ true)
unfolding betfair_track_for betmatic_venue_for without_zero
tpd_venues_agree normalise_track code h = (
  same_bool-eq _ _ (keys_pass-lookup _ tpd_to_betfair code tpd_tracks h),
  keys_pass-lookup without_zero tpd_to_betfair code zero_tracks h,
)
