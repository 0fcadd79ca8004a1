-- ===== src/Engine/Place.antt =====
-- engine/place.go: from an order to the request that goes to a bookmaker. Where the code logs and
-- returns, the model returns the reason; what a bookmaker answers to a request is only logged.
pub mod Limits
mod Tests
use pegasus_suite.Prelude.{
  String, Bool, true, false, ◌&&◌, ◌||◌, Option, none, some, List, [], ◌∷◌, if◌then◌else◌,
}
use pegasus_suite.Prelude.Int.{ℤ, int_eq}
use pegasus_suite.Prelude.Assoc.{lookup}
use pegasus_suite.Prelude.Float.{Float64}
use pegasus_suite.Betting.{RacingCode, BetmaticVenue, OrderBook, Runner, BetfairRace}
use pegasus_suite.Clients.{Result, ok, err}
use pegasus_suite.Engine.Side.{Side, betmatic_win, betfair_back, betfair_lay}
use pegasus_suite.Engine.Stake.{
  Stake, BetmaticStake, BetfairStake, is_positive, bets_betmatic, get_liability, floor_price,
  ceil_price,
}

-- strings.ToUpper, strings.Join with a comma, strconv.ParseInt, and `ref[:32]` of a longer text
pub record Text : Type 0 where
  pub to_upper : String → String
  pub join : List String → String
  pub parse_int : String → Option ℤ
  pub cut_32 : String → String

-- `Account`, as far as an order reads it: the sessions only by their presence
pub record Account : Type 0 where
  pub bot_id : String
  pub bookmakers : List String
  pub has_betmatic : Bool
  pub has_betfair : Bool

pub data Skip : Type 0 where
  not_staked no_session no_venue no_race no_runner bad_selection no_price out_of_odds ltp_too_low
        bad_limit :
      Skip

abbrev pub is_lay : Side → Bool
is_lay betmatic_win = false
is_lay betfair_back = false
is_lay betfair_lay = true

module _ (fl : Float64) where
  pub record Event : Type 0 where
    pub key : String
    pub venue_name : String
    pub race_number : ℤ
    pub country : String
    pub code : RacingCode
    pub betmatic : Option BetmaticVenue
    pub betfair : Option (BetfairRace fl)

  pub record Order : Type 0 where
    pub account : Account
    pub event : Event
    pub side : Side
    pub runner : ℤ
    pub unit : fl.F
    pub stake : Stake fl
    pub label : String

  -- `NotificationRequest`, less its constants; the odds before their conversion to float32
  pub record Notification : Type 0 where
    pub competition : String
    pub code : RacingCode
    pub event_number : ℤ
    pub max_odds : fl.F
    pub min_odds : fl.F
    pub selection : ℤ
    pub bookies_override : String
    pub target_profit : fl.F
    pub target_bot : String
    pub label : String

  pub record BspBet : Type 0 where
    pub market_id : String
    pub selection_id : ℤ
    pub customer_ref : String
    pub lay : Bool
    pub limit_price : fl.F
    pub liability : fl.F

  pub data Request : Type 0 where
    to_betmatic : Notification → Request
    to_betfair : BspBet → Request

module _ {fl : Float64} where
  -- the checks of `placeBetfair` on a price that the book offers
  unfoldable pub check_price : BetfairStake fl → Runner fl → List (OrderBook fl) → Result Skip fl.F
  check_price st runner [] = err no_price
  check_price st runner (offer ∷ book) =
      let price = offer.price in
      if fl.lt price (fl.lit 101 2)
      then err no_price
      else if fl.lt price st.min_odds || is_positive fl st.max_odds && fl.lt st.max_odds price
      then err out_of_odds
      else if fl.lt runner.ltp st.min_odds
      then err ltp_too_low
      else ok price

  -- the limit and the liability of `placeBetfair`
  unfoldable pub lay_terms : BetfairStake fl → fl.F → fl.F → Result Skip (fl.F × fl.F)
  lay_terms st unit price =
      let wide = ceil_price fl (fl.mul price (fl.lit 11 1)) in
      let limit =
        if is_positive fl st.max_odds && fl.lt st.max_odds wide
        then floor_price fl st.max_odds
        else wide in
      if fl.eq limit (fl.lit 0 0) || fl.lt limit price
      then err bad_limit
      else ok (limit, fl.round (fl.mul st.lay_stake unit))

  unfoldable pub back_terms : BetfairStake fl → fl.F → fl.F → Result Skip (fl.F × fl.F)
  back_terms st unit price =
      let limit = floor_price fl (fl.mul price (fl.lit 9 1)) in
      if fl.eq limit (fl.lit 0 0) || fl.lt limit st.min_odds
      then err bad_limit
      else ok (
        limit,
        fl.max (fl.lit 1 0) (
            fl.div
              (fl.round (
                fl.mul (fl.div (fl.mul st.back_stake unit) (fl.sub price (fl.lit 1 0)))
                  (fl.lit 100 0)))
              (fl.lit 100 0)),
      )

module _ {fl : Float64} (tx : Text) where
  unfoldable pub place_betmatic : Order fl → Result Skip (Notification fl)
  place_betmatic o =
      if o.account.has_betmatic
      then elim o.event.betmatic [
        | none ↦ err no_venue
        | some venue ↦
            (let st = o.stake.betmatic in
              let lia =
                if st.win_mbl
                then (get_liability fl venue.is_metro true true false (fl.lit 0 0) (fl.lit 0 0)).0
                else st.win_stake in
              ok (record {
                competition = tx.to_upper venue.name;
                code = o.event.code;
                event_number = o.event.race_number;
                max_odds = st.max_odds;
                min_odds = st.min_odds;
                selection = o.runner;
                bookies_override = tx.join o.account.bookmakers;
                target_profit = fl.mul lia o.unit;
                target_bot = o.account.bot_id;
                label = o.label;
              }))
      ]
      else err no_session

  -- `placeBetfair` once its runner is found
  unfoldable pub bet_runner : Order fl → Runner fl → ℤ → Result Skip (BspBet fl)
  bet_runner o runner selection_id =
      let st = o.stake.betfair in
      elim (check_price st runner (if is_lay o.side then runner.lay else runner.back)) [
        | err x ↦ err x
        | ok price ↦
            elim (if is_lay o.side then lay_terms st o.unit price else back_terms st o.unit price) [
              | err x ↦ err x
              | ok terms ↦ ok (record {
                market_id = runner.market_id;
                selection_id = selection_id;
                customer_ref = tx.cut_32 o.label;
                lay = is_lay o.side;
                limit_price = terms.0;
                liability = terms.1;
              })
            ]
      ]

  unfoldable pub place_betfair : Order fl → Result Skip (BspBet fl)
  place_betfair o =
      if o.account.has_betfair
      then elim o.event.betfair [
        | none ↦ err no_race
        | some race ↦ elim (lookup o.runner race.runners) [
          | none ↦ err no_runner
          | some runner ↦ elim (tx.parse_int runner.selection_id) [
            | none ↦ err bad_selection
            | some id ↦ bet_runner o runner id
          ]
        ]
      ]
      else err no_session

  abbrev pub sent : {A : Type 0} → (A → Request fl) → Result Skip A → Result Skip (Request fl)
  sent f (ok r) = ok (f r)
  sent f (err x) = err x

  -- `Place`
  unfoldable pub place : Order fl → Result Skip (Request fl)
  place o = elim o.side [
    | betmatic_win ↦
        (if bets_betmatic fl o.stake then sent to_betmatic (place_betmatic o) else err not_staked)
    | betfair_back ↦
        (if is_positive fl o.stake.betfair.back_stake
          then sent to_betfair (place_betfair o)
          else err not_staked)
    | betfair_lay ↦
        (if is_positive fl o.stake.betfair.lay_stake
          then sent to_betfair (place_betfair o)
          else err not_staked)
  ]
