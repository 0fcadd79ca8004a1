-- ===== src/Pegasus/Tpd/RaceList/Refresh.antt =====
-- apps/pegasus/tpd/gmax.go: when a refresh fails, and which races a dropped day takes away.
use pegasus_suite.Prelude.{
  ◌≡◌, ◌∙◌, if_case, ℕ, ◌+◌, String, Bool, true, false, not, ◌&&◌, ◌||◌, Option, none, some, List,
  [], ◌∷◌, ◌==◌, str_eq, str_eq_iff, is_some, arith, if◌then◌else◌,
}
use pegasus_suite.Prelude.Assoc.{Assoc, string_eq, lookup}
use pegasus_suite.Prelude.Float.{Float64}
use pegasus_suite.Prelude.Time.{GoTime}
use pegasus_suite.Clients.{Result, ok, err}
use pegasus_suite.Pegasus.Tpd.{Race}
use pegasus_suite.Pegasus.Tpd.RaceList.{
  RaceList, date_of, str_lt, drop, drop_races, get, load, refresh_dates,
}

-- a race is of a day
abbrev pub is_on : String → String → Bool
is_on date sharecode = elim (date_of sharecode) [ none ↦ false | some d ↦ str_eq d date ]

drop_races-lookup :
    {fl : Float64} {tm : GoTime} (date key : String) (races : Assoc String (Race fl tm))
    → lookup key (drop_races date races) ≡ (if is_on date key then none else lookup key races)
unfolding drop_races lookup
drop_races-lookup date key [] = ground arith
drop_races-lookup date key ((sharecode, race) ∷ rest) =
    ground (arith, drop_races-lookup date key rest, str_eq_iff sharecode key)

module _ {fl : Float64} {tm : GoTime} where
  -- `drop` takes away exactly the races whose sharecodes have that day.
  pub drop-lookup :
      (date key : String) (l : RaceList fl tm)
      → lookup key (drop date l).races ≡ (if is_on date key then none else lookup key l.races)
  unfolding drop
  drop-lookup date key l = drop_races-lookup date key l.races

  module _ (page : String → Result String (List (Race fl tm))) (oldest : String) where
    abbrev pub fails : String → Bool
    fails date = elim (get page date) [ err e ↦ true | ok races ↦ false ]

    -- of the days that are not too old: some is loaded, some is not
    unfoldable pub any_loads : List (String × Option String) → Bool
    any_loads [] = false
    any_loads ((date, c) ∷ rest) = not (str_lt date oldest) && not (fails date) || any_loads rest

    unfoldable pub any_fails : List (String × Option String) → Bool
    any_fails [] = false
    any_fails ((date, c) ∷ rest) = not (str_lt date oldest) && fails date || any_fails rest

    -- the context is live before every day
    unfoldable pub is_live : List (String × Option String) → Bool
    is_live [] = true
    is_live ((date, c) ∷ rest) = not (is_some c) && is_live rest

    live_rest :
        (date : String) (c : Option String) (rest : List (String × Option String))
        → is_live ((date, c) ∷ rest) ≡ true
        → is_live rest ≡ true
    unfolding is_live
    live_rest date c rest h = ground (arith, h)

    load-fails :
        (date : String) (now : tm.Time) (l : RaceList fl tm)
        → is_some (load page date now l).1 ≡ fails date
    unfolding load
    load-fails date now l = ground arith

    refresh_dates-some :
        (now : tm.Time) (dates : List (String × Option String)) (loaded : ℕ) (last : Option String)
        (l : RaceList fl tm)
        → is_live dates ≡ true
        → is_some (refresh_dates page now oldest dates loaded last l).1
          ≡ ((loaded == 0) && not (any_loads dates) && (is_some last || any_fails dates))
    unfolding refresh_dates any_loads any_fails is_live
    refresh_dates-some now [] loaded last l h = ground arith
    refresh_dates-some now ((date, some e) ∷ rest) loaded last l h = absurd (ground (arith, h))
    refresh_dates-some now ((date, none) ∷ rest) loaded last l h =
        let live : is_live rest ≡ true = live_rest date none rest h in
        let (l', e) = load page date now l in
        let error = load-fails date now l in
        let P : RaceList fl tm × Option String → Type 0 = λ x. is_some x.1 ≡ (
          (loaded == 0)
          && not (any_loads ((date, none) ∷ rest))
          && (is_some last || any_fails ((date, none) ∷ rest))) in
        if_case P (str_lt date oldest) _ _
          (λ o. refresh_dates-some now rest loaded last (drop date l) live ∙ ground (arith, o))
          (λ o.
            if_case P (is_some e) _ _
              (λ f. refresh_dates-some now rest loaded e l' live ∙ ground (arith, o, f, error))
              (λ f.
                refresh_dates-some now rest (loaded + 1) last l' live
                ∙ ground (arith, o, f, error)))

    -- `refreshAll` over any days, with a live context, returns an error exactly when no day that is not
    -- too old could be loaded and some such day was asked for.
    pub refresh_dates-fails :
        (now : tm.Time) (dates : List (String × Option String)) (l : RaceList fl tm)
        → is_live dates ≡ true
        → is_some (refresh_dates page now oldest dates 0 none l).1
          ≡ (not (any_loads dates) && any_fails dates)
    refresh_dates-fails now dates l h = refresh_dates-some now dates 0 none l h
