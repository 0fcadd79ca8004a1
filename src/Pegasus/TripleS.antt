-- ===== src/Pegasus/TripleS.antt =====
-- apps/pegasus/triples/: the Triple-S feed. The topic of a message (topics.go), what a message says of
-- its race (types.go) and whom it is about (update.go). `itoa` is what `%d` prints of a number.
mod Reconnect
mod Topics
pub mod Refs
mod Tests
use Prim.Native.Char.{Char, code}
use Prim.Native.String
use pegasus_suite.Prelude.{
  ℕ, suc, String, Bool, ◌&&◌, ◌||◌, Option, none, some, [], ◌∷◌, ltb, leb, ◌==◌, if◌then◌else◌,
}
use pegasus_suite.Prelude.Int.{ℤ, pos, eq_ℤ}
use pegasus_suite.Prelude.Assoc.{Assoc, string_eq, lookup}
use pegasus_suite.Prelude.Float.{Float64}
use pegasus_suite.Betting.{RacingCode, thoroughbred, harness}
use pegasus_suite.Pegasus.Core.{
  RaceRef, provider_triple_s, RaceStatus, status_unknown, status_pre_off, status_running,
  status_finished,
}
use pegasus_suite.Pegasus.Scope.{scope_key}
use pegasus_suite.Pegasus.Strategy.Field.{RaceMessage}

-- The loop of `TopicCode` after n slashes: the number of slashes when it ends, and the text from after
-- the second slash up to there.
unfoldable pub scan : ℕ → String → ℕ × String
scan n String.[] = (n, "")
scan n (String.◌∷◌ c s) =
    let slashes = if code c == b'/' then suc n else n in
    let (k, text) = scan slashes s in
    if (code c == b'/') && (slashes == 4)
    then (4, "")
    else (k, if leb 2 n then String.◌∷◌ c text else text)

-- `TopicCode`
unfoldable pub topic_code : String → String
unfolding scan
topic_code topic = let (slashes, text) = scan 0 topic in if ltb slashes 3 then "" else text

abbrev pub triples_racing_codes : Assoc String RacingCode
triples_racing_codes =
    ("AUS/RVIC", thoroughbred)
    ∷ ("AUS/RSA", thoroughbred)
    ∷ ("AUS/RQLD", thoroughbred)
    ∷ ("AUS/HRNSW", harness)
    ∷ ("AUS/HRVIC", harness)
    ∷ ("AUS/HRQLD", harness)
    ∷ []

-- what `Ref` reads of a `RaceMessage`, and what the strategy reads of it
pub record FeedMessage (fl : Float64) : Type 0 where
  pub country_race_code : String
  pub venue_name : String
  pub event_date : String
  pub race_number : ℤ
  pub race_state : ℤ
  pub message : RaceMessage fl

-- `handleMessage`, of a payload that was decoded
unfoldable pub with_topic : {fl : Float64} → String → FeedMessage fl → FeedMessage fl
unfolding topic_code
with_topic topic m = record m { country_race_code = topic_code topic }

-- `RaceState.status`
unfoldable pub status_of : ℤ → RaceStatus
status_of r =
    if eq_ℤ r (pos 4)
    then status_running
    else if eq_ℤ r (pos 5)
    then status_finished
    else if eq_ℤ r (pos 0) || eq_ℤ r (pos 1) || eq_ℤ r (pos 2) || eq_ℤ r (pos 3)
    then status_pre_off
    else status_unknown

module _ {fl : Float64} (itoa : ℤ → String) where
  abbrev pub key_of : FeedMessage fl → String
  key_of m = String.◌++◌ "triple-s/" (
      String.◌++◌ m.event_date
        (String.◌++◌ "/" (String.◌++◌ m.venue_name (String.◌++◌ "/" (itoa m.race_number)))))

  abbrev pub ref_with : FeedMessage fl → RacingCode → RaceStatus → RaceRef fl
  ref_with m code status = record {
    provider = provider_triple_s;
    key = key_of m;
    scope = scope_key "AU" code;
    venue = m.venue_name;
    venue_name = m.venue_name;
    country = "AU";
    race_number = m.race_number;
    code = code;
    distance = fl.lit 0 0;
    status = status;
  }

  -- `Ref`
  unfoldable pub ref : FeedMessage fl → Option (RaceRef fl)
  unfolding status_of
  ref m = elim (lookup m.country_race_code triples_racing_codes) [
    | none ↦ none
    | some code ↦ elim (status_of m.race_state) [
      | status_unknown ↦ none
      | status_pre_off ↦ some (ref_with m code status_pre_off)
      | status_running ↦ some (ref_with m code status_running)
      | status_finished ↦ some (ref_with m code status_finished)
    ]
  ]
