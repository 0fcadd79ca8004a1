-- ===== src/Pegasus/Tpd/Tracker.antt =====
-- apps/pegasus/tpd/update.go: the tracker, which finds the race that a packet is about and refuses a
-- packet that is not newer than the last one. `lookup` of the race list is a parameter; a call runs
-- under the tracker's lock, with the readings `now` and `later` of the clock.
pub mod Order
pub mod Replay
pub mod Finish
use pegasus_suite.Prelude.{
  String, Bool, true, false, not, ◌&&◌, ◌||◌, Option, none, some, List, [], ◌∷◌, if◌then◌else◌,
}
use pegasus_suite.Prelude.Int.{ℤ, pos, lt_ℤ}
use pegasus_suite.Prelude.Assoc.{Assoc, string_eq, lookup, insert, erase}
use pegasus_suite.Prelude.Float.{Float64}
use pegasus_suite.Prelude.Time.{GoTime}
use pegasus_suite.Betting.{RacingCode}
use pegasus_suite.Pegasus.Core.{
  RaceRef, provider_tpd, RaceStatus, status_unknown, status_pre_off, status_running,
  status_finished,
}
use pegasus_suite.Pegasus.Packet.{Progress}
use pegasus_suite.Pegasus.Scope.{scope_key}
use pegasus_suite.Pegasus.Tpd.{Race, parse_sharecode}
use pegasus_suite.Pegasus.Tpd.Courses.{course_codes}

-- `raceState`
pub record TrackedRace (fl : Float64) (tm : GoTime) : Type 0 where
  pub ref : RaceRef fl
  pub official_distance : fl.F
  pub finished : Bool
  pub timestamp : tm.Time
  pub touched_at : tm.Time
  pub last_status : RaceStatus

pub record Tracker (fl : Float64) (tm : GoTime) : Type 0 where
  pub races : Assoc String (TrackedRace fl tm)
  pub unresolved : Assoc String tm.Time

-- 5 and 10 minutes
abbrev pub unresolved_quiet : ℤ
unresolved_quiet = pos 300000000000

abbrev pub race_expiry : ℤ
race_expiry = pos 600000000000

abbrev pub off_margin : (fl : Float64) → fl.F
off_margin fl = fl.lit 5 0

module _ {fl : Float64} {tm : GoTime} where
  -- `warnUnresolvedLocked`, less the line it logs
  unfoldable pub warn_unresolved : String → tm.Time → tm.Time → Tracker fl tm → Tracker fl tm
  warn_unresolved sharecode now later t =
      let warned = record t { unresolved = insert sharecode later t.unresolved } in
      elim (lookup sharecode t.unresolved) [
        | none ↦ warned
        | some last ↦ if lt_ℤ (tm.sub now last) unresolved_quiet then t else warned
      ]

  abbrev pub listed_ref : String → String → RacingCode → Race fl tm → RaceRef fl
  listed_ref sharecode course code listed = record {
    provider = provider_tpd;
    key = sharecode;
    scope = scope_key listed.country code;
    venue = course;
    venue_name = listed.racecourse;
    country = listed.country;
    race_number = listed.race_number;
    code = code;
    distance = listed.length;
    status = status_unknown;
  }

  -- the race that a sharecode names, if its course is known and the race is listed
  unfoldable pub resolve : (String → Option (Race fl tm)) → String → Option (RaceRef fl)
  resolve list sharecode = elim (parse_sharecode tm sharecode) [
    | none ↦ none
    | some (course, off) ↦ elim (lookup course course_codes) [
      | none ↦ none
      | some code ↦ elim (list sharecode) [
        | none ↦ none
        | some listed ↦ some (listed_ref sharecode course code listed)
      ]
    ]
  ]

  abbrev pub new_race : RaceRef fl → tm.Time → TrackedRace fl tm
  new_race ref now = record {
    ref = ref;
    official_distance = fl.lit 0 0;
    finished = false;
    timestamp = tm.zero_time;
    touched_at = now;
    last_status = status_unknown;
  }

  -- `trackRaceLocked`
  unfoldable pub track_race :
      (String → Option (Race fl tm))
      → String
      → tm.Time
      → tm.Time
      → Tracker fl tm
      → Tracker fl tm × Option (TrackedRace fl tm)
  unfolding warn_unresolved
  track_race list sharecode now later t = elim (resolve list sharecode) [
    | none ↦ (warn_unresolved sharecode now later t, none)
    | some ref ↦
        (record t { races = insert sharecode (new_race ref now) t.races }, some (new_race ref now))
  ]

  -- `raceState.status`
  unfoldable pub race_status : TrackedRace fl tm → Progress fl → RaceStatus
  race_status r p =
      let distance =
        if fl.eq r.ref.distance (fl.lit 0 0) then r.official_distance else r.ref.distance in
      if r.finished
      then status_finished
      else if fl.lt (fl.lit 0 0) p.running_time
      then status_running
      else if fl.lt (fl.lit 0 0) distance && fl.lt p.progress (fl.sub distance (off_margin fl))
      then status_running
      else status_pre_off

  -- `Ref` on a packet that is newer: the race after it, and the reference that is published
  unfoldable pub observe :
      tm.Time → tm.Time → Progress fl → TrackedRace fl tm → TrackedRace fl tm × RaceRef fl
  unfolding race_status
  observe timestamp later p race =
      let seen = record race {
        timestamp = timestamp;
        touched_at = later;
        official_distance = fl.max race.official_distance p.progress;
        finished = race.finished || fl.le p.progress (fl.lit 0 0);
      } in
      let status = race_status seen p in
      let distance =
        if fl.eq race.ref.distance (fl.lit 0 0)
        then seen.official_distance
        else race.ref.distance in
      (
        record seen { last_status = status },
        record (race.ref) { status = status; distance = distance },
      )

  unfoldable pub accept :
      tm.Time
      → tm.Time
      → Progress fl
      → Tracker fl tm × Option (TrackedRace fl tm)
      → Tracker fl tm × Option (RaceRef fl)
  unfolding observe
  accept timestamp later p (t, none) = (t, none)
  accept timestamp later p (t, some race) =
      let (race', ref) = observe timestamp later p race in
      if not (tm.is_after timestamp race.timestamp)
      then (t, none)
      else (record t { races = insert p.id race' t.races }, some ref)

  unfoldable pub race_of :
      (String → Option (Race fl tm))
      → String
      → tm.Time
      → tm.Time
      → Tracker fl tm
      → Tracker fl tm × Option (TrackedRace fl tm)
  unfolding track_race
  race_of list sharecode now later t = elim (lookup sharecode t.races) [
    | some race ↦ (t, some race)
    | none ↦ track_race list sharecode now later t
  ]

  -- `Ref`
  unfoldable pub ref :
      (String → Option (Race fl tm))
      → Progress fl
      → tm.Time
      → tm.Time
      → Tracker fl tm
      → Tracker fl tm × Option (RaceRef fl)
  unfolding accept race_of
  ref list p now later t = elim (tm.parse "2006-01-02T15:04:05Z07:00" p.timestamp) [
    | none ↦ (t, none)
    | some timestamp ↦ accept timestamp later p (race_of list p.id now later t)
  ]

  -- the body of a tick of `SweepExpired`: the range over the races, `left` the map that is deleted from
  unfoldable pub sweep_races :
      tm.Time → Assoc String (TrackedRace fl tm) → Tracker fl tm → Tracker fl tm
  sweep_races now [] t = t
  sweep_races now ((sharecode, race) ∷ rest) t =
      let kept = sweep_races now rest t in
      let dropped =
        sweep_races now rest (record t {
          races = erase sharecode t.races;
          unresolved = erase sharecode t.unresolved;
        }) in
      if lt_ℤ race_expiry (tm.sub now race.touched_at) then dropped else kept

  unfoldable pub sweep : tm.Time → Tracker fl tm → Tracker fl tm
  sweep now t = sweep_races now t.races t
