-- ===== src/Logger/Telegram/Format/Cards.antt =====
-- logger/telegram/format.go: the card of a bet, and all cards together.

use pegasus_suite.Prelude.{
  String, ◌≡◌, refl, true, false, List, [], ◌∷◌, ◌&&◌, All, All-append, str_eq, if_case,
  option_case,
}
use pegasus_suite.Prelude.Int.{ℤ}
use pegasus_suite.Prelude.Float.{Float64}
use pegasus_suite.Prelude.Time.{GoTime}
use pegasus_suite.Platform.Claims.{one_of}
use pegasus_suite.Logger.Line.{BetLog, Line}
use pegasus_suite.Logger.Telegram.Format.{
  Printer, is_zero, figure, with_odds, with_plug, money_line, outcome_line, sources, source_line,
  format_bet, format_telegram, format_suppressed,
}
use pegasus_suite.Logger.Telegram.Format.Escaped.{
  IsEscaped, fixed, number, amount, escaped, joined, after, join-IsEscaped, any-IsEscaped,
  header-IsEscaped, message-IsEscaped, lines-IsEscaped, one-IsEscaped, runner_line-IsEscaped,
  race-IsEscaped, who-IsEscaped, log-IsEscaped, money-IsEscaped, signed-IsEscaped, fixed_texts,
}

module _ {fl : Float64} (pr : Printer fl) where
  figure-IsEscaped :
      (name : String) (v : fl.F)
      → one_of name fixed_texts ≡ true
      → All (IsEscaped pr) (figure pr name v)
  unfolding figure
  figure-IsEscaped name v h =
      one-IsEscaped pr (is_zero pr v) _ (after pr name h (money-IsEscaped pr v))

  money_of :
      (b : BetLog fl) (xs : List String)
      → All (IsEscaped pr) xs
      → All (IsEscaped pr) (with_odds pr b xs)
  unfolding one_of with_odds
  money_of b [] h = tt
  money_of b (x ∷ xs) h = (
    joined _ _ (after pr "💵 " refl (join-IsEscaped pr " · " (x ∷ xs) (fixed " · " refl) h)) (
        if_case (IsEscaped pr) (is_zero pr b.odds) _ _ (λ c. fixed "" refl)
          (λ c. after pr " @ " refl (amount b.odds))),
    tt,
  )

  money_line-IsEscaped : (b : BetLog fl) → All (IsEscaped pr) (money_line pr b)
  unfolding money_line one_of
  money_line-IsEscaped b = money_of b _ (
      All-append (IsEscaped pr) _ _ (figure-IsEscaped "Stake " b.stake refl) (
        All-append (IsEscaped pr) _ _ (figure-IsEscaped "Requested " b.requested refl)
          (figure-IsEscaped "Accepted " b.accepted refl)))

  outcome_line-IsEscaped : (b : BetLog fl) → All (IsEscaped pr) (outcome_line pr b)
  unfolding outcome_line one_of
  outcome_line-IsEscaped b = one-IsEscaped pr (str_eq b.result "" && is_zero pr b.profit) _ (
      after pr "🏁 " refl (
        join-IsEscaped pr " · " _ (fixed " · " refl) (
          All-append (IsEscaped pr) _ _
            (one-IsEscaped pr (str_eq b.result "") _
              (after pr "<b>" refl (joined _ _ (escaped b.result) (fixed "</b>" refl))))
            (after pr "💰 " refl (signed-IsEscaped pr b.profit), tt))))

  sources-IsEscaped : (xs : List String) → All (IsEscaped pr) (sources pr xs)
  unfolding sources
  sources-IsEscaped [] = tt
  sources-IsEscaped (s ∷ xs) =
      if_case (All (IsEscaped pr)) (str_eq s "") _ _ (λ b. sources-IsEscaped xs)
        (λ b. (escaped s, sources-IsEscaped xs))

  source_of : (xs : List String) → All (IsEscaped pr) xs → All (IsEscaped pr) (with_plug xs)
  unfolding one_of with_plug
  source_of [] h = tt
  source_of (x ∷ xs) h =
      (after pr "🔌 " refl (join-IsEscaped pr " · " (x ∷ xs) (fixed " · " refl) h), tt)

  source_line-IsEscaped : (b : BetLog fl) → All (IsEscaped pr) (source_line pr b)
  unfolding source_line
  source_line-IsEscaped b =
      source_of _ (sources-IsEscaped (b.endpoint ∷ (b.bet_type ∷ (b.ref ∷ []))))

  bet-IsEscaped : {tm : GoTime} (e : Line fl tm) (b : BetLog fl) → IsEscaped pr (format_bet pr e b)
  unfolding format_bet one_of
  bet-IsEscaped e b =
      let both = All-append (IsEscaped pr) in
      joined _ _ (header-IsEscaped pr e) (
        joined _ _ (message-IsEscaped pr e.message) (
          lines-IsEscaped pr _ (
            both _ _ (any-IsEscaped pr _ (race-IsEscaped pr e.race b.market false)) (
              both _ _ (any-IsEscaped pr _ (runner_line-IsEscaped pr e.race)) (
                both _ _ (money_line-IsEscaped b) (
                  both _ _
                    (one-IsEscaped pr (is_zero pr b.target_lia) _
                      (after pr "🎯 Target " refl (money-IsEscaped pr b.target_lia)))
                    (both _ _ (outcome_line-IsEscaped b) (
                      both _ _
                        (one-IsEscaped pr (str_eq b.race_state "") _
                          (after pr "📍 " refl (escaped b.race_state)))
                        (both _ _ (source_line-IsEscaped b)
                          (any-IsEscaped pr _ (who-IsEscaped pr e)))))))))))

  -- Whatever a record holds, its card, and the summary of its repeats, is put together from the fixed
  -- texts of the formats, numbers and escaped texts: nothing that is logged reaches Telegram's HTML as it
  -- is.
  pub format_telegram-IsEscaped :
      {tm : GoTime} (e : Line fl tm) (count : ℤ)
      → IsEscaped pr (format_telegram pr e) × IsEscaped pr (format_suppressed pr e count)
  unfolding format_telegram format_suppressed one_of
  format_telegram-IsEscaped e count = (
    option_case (IsEscaped pr) e.bet _ _ (λ n. log-IsEscaped pr e) (λ b n. bet-IsEscaped e b),
    joined _ _ (header-IsEscaped pr e) (
        after pr "\n\n🔁 <b>" refl (
          joined _ _ (number count)
            (after pr " more</b> identical to:\n" refl (escaped (pr.trim e.message))))),
  )
