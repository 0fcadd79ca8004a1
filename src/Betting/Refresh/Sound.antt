-- ===== src/Betting/Refresh/Sound.antt =====
-- betting/betfair/events.go and markets.go: what a client that refreshes its events holds.
use pegasus_suite.Prelude.{
  String, ◌≡◌, refl, sym, false, not, ◌||◌, Option, none, some, List, [], ◌∷◌, All, arith, if_case,
  option_case, inl, inr,
}
use pegasus_suite.Prelude.Int.{ℤ, pos, eq_ℤ}
use pegasus_suite.Prelude.Assoc.{
  Eq, Assoc, string_eq, lookup, insert, lookup-insert_cases, none_in_nil,
}
use pegasus_suite.Prelude.Float.{Float64}
use pegasus_suite.Betting.{
  BetfairRace, Runner, BetfairCode, betfair_thoroughbred, betfair_trot, betfair_other,
}
use pegasus_suite.Betting.Races.{
  Event, Loaded, int_eq, is_trot, key_of, event_key, get_events, add_events, set_upcoming_events,
  race_by_key, get_race,
}
use pegasus_suite.Betting.Refresh.{
  GoText, CatalogueRunner, MarketCatalogue, ListedEvent, Exchange, parse_race_number, add_runners,
  new_race, add_races, gather, load_upcoming_events,
}

-- what holds of each entry of a map
abbrev pub Each : {K V : Type 0} → ⦃e : Eq K⦄ → (K → V → Type 0) → Assoc K V → Type 0
Each {K} {V} P m = (k : K) (v : V) → lookup k m ≡ some v → P k v

Each-nil : {K V : Type 0} ⦃e : Eq K⦄ (P : K → V → Type 0) → Each P []
Each-nil P k v h = absurd (none_in_nil k v h)

Each-insert :
    {K V : Type 0} ⦃e : Eq K⦄ (P : K → V → Type 0) (k : K) (v : V) (m : Assoc K V)
    → P k v
    → Each P m
    → Each P (insert k v m)
Each-insert P k v m p h j w q = elim (lookup-insert_cases k j v m q) [
  | inl (same, eq) ↦ coe 0 1 (i. P (same i) (sym eq i)) p
  | inr old ↦ h j w old
]

module _ {fl : Float64} (go : GoText) where
  -- a runner stands under its own number, which is not zero, and bets go to the market of its race
  abbrev pub IsSoundRunner : String → ℤ → Runner fl → Type 0
  IsSoundRunner market number r =
      (r.number ≡ number) × (r.market_id ≡ market) × (eq_ℤ number (pos 0) ≡ false)

  -- a race stands under its own number, the one that its name states
  abbrev pub IsSoundRace : ℤ → BetfairRace fl → Type 0
  IsSoundRace number race =
      (race.number ≡ number)
      × (parse_race_number go race.name ≡ some number)
      × Each (IsSoundRunner race.id) race.runners

  abbrev pub IsSoundEvent : Event fl → Type 0
  IsSoundEvent e = Each IsSoundRace e.races

  abbrev pub IsSound : Loaded fl → Type 0
  IsSound l = (code : BetfairCode) → Each (λ (key : String) e. IsSoundEvent e) (get_events code l)

  add_runners-IsSound :
      (market : String) (listed : List CatalogueRunner) (runners : Assoc ℤ (Runner fl))
      → Each (IsSoundRunner market) runners
      → Each (IsSoundRunner market) (add_runners go market listed runners)
  unfolding add_runners
  add_runners-IsSound market [] runners h = h
  add_runners-IsSound market (cr ∷ rest) runners h = add_runners-IsSound market rest _ (
      if_case (Each (IsSoundRunner market))
        (not (go.atoi cr.cloth_number).1 || eq_ℤ (go.atoi cr.cloth_number).0 (pos 0)) _ _ (λ b. h)
        (λ b.
          Each-insert (IsSoundRunner market) (go.atoi cr.cloth_number).0 _ runners
            (refl, refl, ground (arith, b)) h))

  add_races-IsSound :
      (listed : List MarketCatalogue) (races : Assoc ℤ (BetfairRace fl))
      → Each IsSoundRace races
      → Each IsSoundRace (add_races go listed races)
  unfolding add_races
  add_races-IsSound [] races h = h
  add_races-IsSound (m ∷ rest) races h = add_races-IsSound rest _ (
      option_case (Each IsSoundRace) (parse_race_number go m.market_name) _ _ (λ e. h)
        (λ number e.
          Each-insert IsSoundRace number (new_race go number m) races
            (
              refl,
              e,
              add_runners-IsSound m.market_id m.runners [] (Each-nil (IsSoundRunner m.market_id)),
            )
            h))

gather-IsSound :
    (fl : Float64) (go : GoText) (x : Exchange) (listed : List ListedEvent) (w : x.W)
    → All (IsSoundEvent go) (gather {fl = fl} go x listed w).1
unfolding gather
gather-IsSound fl go x [] w = tt
gather-IsSound fl go x (er ∷ rest) w =
    let call = x.list_markets er.id w in
    let later = gather-IsSound fl go x rest call.0 in
    option_case (λ (r : x.W × List (Event fl)). All (IsSoundEvent go) r.1) call.1 _ _ (λ e. later)
      (λ markets e. (add_races-IsSound go markets [] (Each-nil (IsSoundRace go)), later))

module _ {fl : Float64} (go : GoText) where
  in_trots :
      (key : String) (e : Event fl) (l : Loaded fl)
      → IsSoundEvent go e
      → IsSound go l
      → IsSound go (record l { trot = insert key e l.trot })
  unfolding get_events
  in_trots key e l p h betfair_trot = Each-insert _ key e l.trot p (h betfair_trot)
  in_trots key e l p h betfair_thoroughbred = h betfair_thoroughbred
  in_trots key e l p h (betfair_other s) = h (betfair_other s)

  in_thoroughbreds :
      (key : String) (e : Event fl) (l : Loaded fl)
      → IsSoundEvent go e
      → IsSound go l
      → IsSound go (record l { thoroughbred = insert key e l.thoroughbred })
  unfolding get_events
  in_thoroughbreds key e l p h betfair_trot = h betfair_trot
  in_thoroughbreds key e l p h betfair_thoroughbred =
      Each-insert _ key e l.thoroughbred p (h betfair_thoroughbred)
  in_thoroughbreds key e l p h (betfair_other s) = h (betfair_other s)

  add_events-IsSound :
      (to_upper normalise : String → String) (events : List (Event fl)) (l : Loaded fl)
      → All (IsSoundEvent go) events
      → IsSound go l
      → IsSound go (add_events to_upper normalise events l)
  unfolding add_events
  add_events-IsSound to_upper normalise [] l hs h = h
  add_events-IsSound to_upper normalise (e ∷ rest) l (p, hs) h =
      add_events-IsSound to_upper normalise rest _ hs (
        if_case (IsSound go) (is_trot e.code) _ _
          (λ b. in_trots (event_key to_upper normalise e) e l p h)
          (λ b. in_thoroughbreds (event_key to_upper normalise e) e l p h))

  nothing-IsSound : IsSound {fl = fl} go (record { thoroughbred = []; trot = [] })
  unfolding get_events
  nothing-IsSound betfair_trot = Each-nil _
  nothing-IsSound betfair_thoroughbred = Each-nil _
  nothing-IsSound (betfair_other s) = Each-nil _

  pub load-IsSound :
      (normalise : String → String) (x : Exchange) (codes : List String) (w : x.W) (l : Loaded fl)
      → IsSound go l
      → IsSound go (load_upcoming_events go normalise x codes (w, l)).1
  unfolding load_upcoming_events set_upcoming_events
  load-IsSound normalise x codes w l h =
      let call = x.list_events codes w in
      option_case (λ (r : x.W × Loaded fl). IsSound go r.1) call.1 _ _ (λ e. h)
        (λ results e.
          add_events-IsSound go.to_upper normalise (gather go x results call.0).1 _
            (gather-IsSound fl go x results call.0) nothing-IsSound)

  -- refreshes one after the other, each for some countries
  unfoldable pub refresh_all :
      (String → String) → (x : Exchange) → List (List String) → x.W × Loaded fl → x.W × Loaded fl
  refresh_all normalise x [] s = s
  refresh_all normalise x (codes ∷ rest) s =
      refresh_all normalise x rest (load_upcoming_events go normalise x codes s)

  refresh_all-IsSound :
      (normalise : String → String) (x : Exchange) (calls : List (List String)) (w : x.W)
      → (l : Loaded fl) → IsSound go l
      → IsSound go (refresh_all normalise x calls (w, l)).1
  unfolding refresh_all
  refresh_all-IsSound normalise x [] w l h = h
  refresh_all-IsSound normalise x (codes ∷ rest) w l h =
      let next = load_upcoming_events go normalise x codes (w, l) in
      refresh_all-IsSound normalise x rest next.0 next.1 (load-IsSound normalise x codes w l h)

  -- From a client that has loaded nothing, after any refreshes, whichever of their calls fail: a race
  -- that `GetRace` finds has the number that was asked for, which is the number that its name states,
  -- and each of its runners stands under its own number, which is not zero, with the race's market.
  pub refreshed_race-IsSound :
      (normalise : String → String) (x : Exchange) (calls : List (List String)) (w : x.W)
      → (code : BetfairCode) (country track : String) (number : ℤ) (race : BetfairRace fl)
      → get_race go.to_upper normalise code country track number
          (refresh_all normalise x calls (w, record { thoroughbred = []; trot = [] })).1
        ≡ some race
      → IsSoundRace go number race
  unfolding get_race race_by_key
  refreshed_race-IsSound normalise x calls w code country track number race h =
      let l = (refresh_all normalise x calls (w, record { thoroughbred = []; trot = [] })).1 in
      let key = key_of go.to_upper country (normalise track) in
      let (event, e, q) = found (lookup key (get_events code l)) h in
      refresh_all-IsSound normalise x calls w _ nothing-IsSound code key event e number race q
    where
      found :
          (o : Option (Event fl))
          → (elim o [ none ↦ none | some event ↦ lookup number event.races ]) ≡ some race
          → (event : Event fl) × (o ≡ some event) × (lookup number event.races ≡ some race)
      found none h = absurd (ground (arith, h))
      found (some event) h = (event, refl, h)
