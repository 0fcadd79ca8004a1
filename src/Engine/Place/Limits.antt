-- ===== src/Engine/Place/Limits.antt =====
-- engine/place.go: the limits that a Betfair bet keeps.
use pegasus_suite.Prelude.{
  ◌≡◌, sym, ◌∙◌, Bool-cases, Option-cases, inl, inr, Bool, true, false, ◌&&◌, Option, none, some,
  List, [], ◌∷◌, if◌then◌else◌, arith,
}
use pegasus_suite.Prelude.Int.{ℤ, int_eq}
use pegasus_suite.Prelude.Assoc.{lookup}
use pegasus_suite.Prelude.Float.{Float64}
use pegasus_suite.Betting.{OrderBook, Runner, BetfairRace}
use pegasus_suite.Clients.{ok, Result-cases}
use pegasus_suite.Engine.Stake.{BetfairStake, is_positive}
use pegasus_suite.Engine.Place.{
  Text, Order, BspBet, to_betfair, is_lay, check_price, lay_terms, back_terms, bet_runner,
  place_betfair, place,
}

module _ {fl : Float64} where
  -- The price stands inside the odds that the stake allows.
  pub IsAllowed : BetfairStake fl → fl.F → Type 0
  IsAllowed st price =
      (fl.lt price (fl.lit 101 2) ≡ false)
      × (fl.lt price st.min_odds ≡ false)
      × ((is_positive fl st.max_odds && fl.lt st.max_odds price) ≡ false)

  check_price-IsAllowed :
      (st : BetfairStake fl) (runner : Runner fl) (book : List (OrderBook fl)) (price : fl.F)
      → check_price st runner book ≡ ok price
      → IsAllowed st price
  unfolding check_price IsAllowed
  check_price-IsAllowed st runner [] price h = ground (arith, h)
  check_price-IsAllowed st runner (offer ∷ book) price h = ground (arith, h)

  -- the limit of a lay bet is no shorter than the price, the limit of a back bet no shorter than
  -- the least odds
  pub IsLimit : BetfairStake fl → Bool → fl.F → fl.F → Type 0
  IsLimit st lay price limit =
      (fl.eq limit (fl.lit 0 0) ≡ false)
      × (fl.lt limit (if lay then price else st.min_odds) ≡ false)

  terms-IsLimit :
      (st : BetfairStake fl) (lay : Bool) (unit price : fl.F) (terms : fl.F × fl.F)
      → (if lay then lay_terms st unit price else back_terms st unit price) ≡ ok terms
      → IsLimit st lay price terms.0
  unfolding lay_terms back_terms IsLimit
  terms-IsLimit st true unit price terms h = ground (arith, h)
  terms-IsLimit st false unit price terms h = ground (arith, h)

  -- the price of the book's first offer
  abbrev pub first_offer : List (OrderBook fl) → Option fl.F
  first_offer [] = none
  first_offer (offer ∷ book) = some offer.price

  check_price-first :
      (st : BetfairStake fl) (runner : Runner fl) (book : List (OrderBook fl)) (price : fl.F)
      → check_price st runner book ≡ ok price
      → first_offer book ≡ some price
  unfolding check_price
  check_price-first st runner [] price h = ground (arith, h)
  check_price-first st runner (offer ∷ book) price h = ground (arith, h)

  -- the guarantees of a bet sent to Betfair on a runner
  pub IsWithin : Text → Order fl → Runner fl → BspBet fl → Type 0
  IsWithin tx o runner r =
      (price : fl.F) × (first_offer (if is_lay o.side then runner.lay else runner.back)
        ≡ some price)
      × IsAllowed o.stake.betfair price
      × IsLimit o.stake.betfair (is_lay o.side) price r.limit_price
      × (r.lay ≡ is_lay o.side)
      × (r.market_id ≡ runner.market_id)
      × (tx.parse_int runner.selection_id ≡ some r.selection_id)

  bet_runner-IsWithin :
      (tx : Text) (o : Order fl) (runner : Runner fl) (id : ℤ) (r : BspBet fl)
      → tx.parse_int runner.selection_id ≡ some id
      → bet_runner tx o runner id ≡ ok r
      → IsWithin tx o runner r
  unfolding bet_runner IsWithin
  bet_runner-IsWithin tx o runner id r named h =
      let st = o.stake.betfair in
      let book = if is_lay o.side then runner.lay else runner.back in
      elim (Result-cases (check_price st runner book)) [
        | inl (x, e) ↦ ground (arith, h, e)
        | inr (price, e) ↦
            elim (Result-cases
              (if is_lay o.side then lay_terms st o.unit price else back_terms st o.unit price)) [
                | inl (x, f) ↦ ground (arith, h, e, f)
                | inr (terms, f) ↦
                    (let l : terms.0 ≡ r.limit_price = ground (arith, h, e, f) in
                      let s : r.lay ≡ is_lay o.side = ground (arith, h, e, f) in
                      let market : r.market_id ≡ runner.market_id = ground (arith, h, e, f) in
                      let selection : some id ≡ some r.selection_id = ground (arith, h, e, f) in
                      (
                        price,
                        check_price-first st runner book price e,
                        check_price-IsAllowed st runner book price e,
                        rw (sym l) (terms-IsLimit st (is_lay o.side) o.unit price terms f),
                        s,
                        market,
                        named ∙ selection,
                      ))
              ]
      ]

  -- the runner ordered, of the race that the order found
  pub IsRunner : Order fl → Runner fl → Type 0
  IsRunner o runner =
      (race : BetfairRace fl) × (o.event.betfair ≡ some race)
      × (lookup o.runner race.runners ≡ some runner)

  place_betfair-runner :
      (tx : Text) (o : Order fl) (r : BspBet fl)
      → place_betfair tx o ≡ ok r
      → (o.account.has_betfair ≡ true)
        × (runner : Runner fl) × IsRunner o runner
        × (id : ℤ) × (tx.parse_int runner.selection_id ≡ some id)
        × (bet_runner tx o runner id ≡ ok r)
  unfolding place_betfair IsRunner
  place_betfair-runner tx o r h = elim (Bool-cases o.account.has_betfair) [
    | inr n ↦ ground (arith, h, n)
    | inl s ↦ elim (Option-cases o.event.betfair) [
      | inl n ↦ ground (arith, h, s, n)
      | inr (race, e) ↦ elim (Option-cases (lookup o.runner race.runners)) [
        | inl n ↦ ground (arith, h, s, e, n)
        | inr (runner, f) ↦ elim (Option-cases (tx.parse_int runner.selection_id)) [
          | inl n ↦ ground (arith, h, s, e, f, n)
          | inr (id, g) ↦ (s, runner, (race, e, f), id, g, ground (arith, h, s, e, f, g))
        ]
      ]
    ]
  ]

  place-betfair :
      (tx : Text) (o : Order fl) (r : BspBet fl)
      → place tx o ≡ ok (to_betfair r)
      → (is_positive fl
            (if is_lay o.side then o.stake.betfair.lay_stake else o.stake.betfair.back_stake)
          ≡ true)
        × (place_betfair tx o ≡ ok r)
  unfolding place
  place-betfair tx o r h = ground (arith, h)

  -- A bet that `Place` sends to Betfair is staked, has a session to go out on, is on the side
  -- ordered, and names the market and the selection of the runner ordered, which the order's race has;
  -- the first price that the runner's book offers on that side is at least 1.01 and inside the stake's
  -- odds; and the limit is not zero and, for a lay, not under that price, for a back, not under the
  -- least odds.
  pub place-IsWithin :
      (tx : Text) (o : Order fl) (r : BspBet fl)
      → place tx o ≡ ok (to_betfair r)
      → (is_positive fl
            (if is_lay o.side then o.stake.betfair.lay_stake else o.stake.betfair.back_stake)
          ≡ true)
        × (o.account.has_betfair ≡ true)
        × (runner : Runner fl) × IsRunner o runner
        × IsWithin tx o runner r
  place-IsWithin tx o r h =
      let (staked, b) = place-betfair tx o r h in
      let (session, runner, found, id, named, e) = place_betfair-runner tx o r b in
      (staked, session, runner, found, bet_runner-IsWithin tx o runner id r named e)
