-- ===== src/Pegasus/Tpd/RaceList.antt =====
-- apps/pegasus/tpd/gmax.go: the race list, loaded day by day. `page` is the answer of the race list's
-- server for a day (goreq.GetType); a map is ranged over in the order of the list that stands for it.
pub mod Refresh
use Prim.Native.Nat.{Ordering}
use Prim.Native.String
use pegasus_suite.Prelude.{
  ℕ, ◌+◌, String, Bool, true, false, not, ◌&&◌, ◌||◌, Option, none, some, List, [], ◌∷◌, ◌++◌,
  length, ltb, ◌==◌, str_eq, is_some, filter, if◌then◌else◌,
}
use pegasus_suite.Prelude.Int.{ℤ, pos, negsuc}
use pegasus_suite.Prelude.Assoc.{Assoc, string_eq, lookup, insert, erase}
use pegasus_suite.Prelude.Float.{Float64}
use pegasus_suite.Prelude.Time.{GoTime}
use pegasus_suite.Clients.{Result, ok, err}
use pegasus_suite.Pegasus.Tpd.{Race, byte_length, cut, sharecode_len}

-- `GmaxClient`
pub record RaceList (fl : Float64) (tm : GoTime) : Type 0 where
  pub races : Assoc String (Race fl tm)
  pub loaded : Assoc {0, 0} String Unit
  pub last_success : tm.Time
  pub wanted : List String

abbrev pub wanted_size : ℕ
wanted_size = 8

-- `s[a:a+n]`, if neither end is inside a character; `get` sends such a date on, here it is refused
abbrev pub slice : ℕ → ℕ → String → Option String
slice a n s = elim (cut a s) [
  | none ↦ none
  | some (x, rest) ↦ elim (cut n rest) [ none ↦ none | some (y, z) ↦ some y ]
]

-- the date in a sharecode of the right length: `sharecode[2:10]`
unfoldable pub date_of : String → Option String
date_of sharecode = if byte_length sharecode == sharecode_len then slice 2 8 sharecode else none

-- Go's `<` on strings
abbrev pub str_lt : String → String → Bool
str_lt a b = elim (String.compare a b) [ Ordering.lt ↦ true | _ ↦ false ]

module _ {fl : Float64} {tm : GoTime} where
  abbrev pub put_wanted : Option String → RaceList fl tm → RaceList fl tm
  put_wanted none l = l
  put_wanted (some date) l =
      if ltb (length l.wanted) wanted_size then record l { wanted = l.wanted ++ date ∷ [] } else l

  -- `Lookup`; a miss asks for the day of the race, unless the queue is full
  unfoldable pub lookup_race : String → RaceList fl tm → RaceList fl tm × Option (Race fl tm)
  lookup_race sharecode l = elim (lookup sharecode l.races) [
    | some race ↦ (l, some race)
    | none ↦ (put_wanted (date_of sharecode) l, none)
  ]

  -- the loop of `RaceDueWithin`, at the clock reading `now`, with `before` (time.Time.Before) as `After`
  -- the other way round
  unfoldable pub due_within : tm.Time → tm.Time → Assoc String (Race fl tm) → Option (Race fl tm)
  due_within earliest latest [] = none
  due_within earliest latest ((sharecode, race) ∷ rest) =
      let others = due_within earliest latest rest in
      if not race.published || tm.is_zero race.post_time
      then others
      else if tm.is_after earliest race.post_time || tm.is_after race.post_time latest
      then others
      else some race

  -- `drop`: the range over the races
  unfoldable pub drop_races : String → Assoc String (Race fl tm) → Assoc String (Race fl tm)
  drop_races date [] = []
  drop_races date ((sharecode, race) ∷ rest) =
      let others = drop_races date rest in
      elim (date_of sharecode) [
        | none ↦ (sharecode, race) ∷ others
        | some d ↦ if str_eq d date then others else (sharecode, race) ∷ others
      ]

  unfoldable pub drop : String → RaceList fl tm → RaceList fl tm
  unfolding drop_races
  drop date l = record l { loaded = erase date l.loaded; races = drop_races date l.races }

  unfoldable pub add_races :
      List (Race fl tm) → Assoc String (Race fl tm) → Assoc String (Race fl tm)
  add_races [] races = races
  add_races (r ∷ rest) races = add_races rest (insert r.id r races)

-- the keys of a Go map, in the order of a range over it
abbrev pub keys_of : Assoc {0, 0} String Unit → List String
keys_of [] = []
keys_of ((k, u) ∷ rest) = k ∷ keys_of rest

-- `loadedDates` put into the map of dates
unfoldable pub add_dates : List String → Assoc {0, 0} String Unit → Assoc {0, 0} String Unit
add_dates [] dates = dates
add_dates (d ∷ rest) dates = add_dates rest (insert d tt dates)

module _ {fl : Float64} {tm : GoTime} (page : String → Result String (List (Race fl tm))) where
  -- `get`
  unfoldable pub get : String → Result String (List (Race fl tm))
  get date =
      if not (byte_length date == 8) then err "tpd: bad race list date" else elim (slice 0 4 date) [
        | none ↦ err "tpd: bad race list date"
        | some year ↦ elim (slice 4 2 date) [
          | none ↦ err "tpd: bad race list date"
          | some month ↦ elim (slice 6 2 date) [
            | none ↦ err "tpd: bad race list date"
            | some day ↦
                page (String.◌++◌ year (String.◌++◌ "-" (String.◌++◌ month (String.◌++◌ "-" day))))
          ]
        ]
      ]

  -- `fetch`, and `load` less the line it logs, at the clock reading `now`
  unfoldable pub load : String → tm.Time → RaceList fl tm → RaceList fl tm × Option String
  unfolding get
  load date now l = elim (get date) [
    | err e ↦ (l, some e)
    | ok races ↦ (
      record l {
        races = add_races races l.races;
        loaded = insert date tt l.loaded;
        last_success = now;
      },
      none,
    )
  ]

  -- `refreshAll`: the range over the dates. With each stands what `ctx.Err()` says before it, and the
  -- count of the days loaded and the last error so far are carried along.
  unfoldable pub refresh_dates :
      tm.Time
      → String
      → List (String × Option String)
      → ℕ
      → Option String
      → RaceList fl tm
      → RaceList fl tm × Option String
  unfolding load
  refresh_dates now oldest [] loaded last l =
      if (loaded == 0) && is_some last then (l, last) else (l, none)
  refresh_dates now oldest ((date, some e) ∷ rest) loaded last l = (l, some e)
  refresh_dates now oldest ((date, none) ∷ rest) loaded last l =
      let dropped = refresh_dates now oldest rest loaded last (drop date l) in
      let (l', e) = load date now l in
      let failed = refresh_dates now oldest rest loaded e l' in
      let succeeded = refresh_dates now oldest rest (loaded + 1) last l' in
      if str_lt date oldest then dropped else if is_some e then failed else succeeded

  -- the dates of `refreshAll`: yesterday, today and tomorrow (`day k` is `k` days from now) and those
  -- that are loaded
  unfoldable pub refresh_keys : (ℤ → String) → RaceList fl tm → List String
  refresh_keys day l = keys_of (
      add_dates (keys_of l.loaded) (add_dates (day (negsuc 0) ∷ day (pos 0) ∷ day (pos 1) ∷ []) []))
