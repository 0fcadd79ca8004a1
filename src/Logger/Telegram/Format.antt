-- ===== src/Logger/Telegram/Format.antt =====
-- logger/telegram/format.go: the cards, as Telegram HTML.
pub mod Escaped
pub mod Cards
use Prim.Native.String
use pegasus_suite.Prelude.{
  ℕ, String, Bool, true, false, not, ◌&&◌, ◌||◌, Option, none, some, List, [], ◌∷◌, ◌++◌, str_eq,
  if◌then◌else◌,
}
use pegasus_suite.Prelude.Int.{ℤ, pos, eq_ℤ}
use pegasus_suite.Prelude.Float.{Float64}
use pegasus_suite.Prelude.Time.{GoTime}
use pegasus_suite.Logger.Line.{RaceDetails, BetLog, Line}

-- `html.EscapeString`, `strings.TrimSpace`, and the verbs %d and %.2f
pub record Printer (fl : Float64) : Type 0 where
  pub escape : String → String
  pub trim : String → String
  pub decimal : ℤ → String
  pub two_places : fl.F → String

infixr 60 ◌<>◌
abbrev pub ◌<>◌ : String → String → String
a <> b = String.◌++◌ a b

-- `strings.Join`
unfoldable pub join_with : String → List String → String
join_with sep [] = ""
join_with sep (x ∷ []) = x
join_with sep (x ∷ (y ∷ xs)) = x <> (sep <> join_with sep (y ∷ xs))

-- `append` of a line that is not empty
abbrev pub if_any : String → List String
if_any s = if str_eq s "" then [] else s ∷ []

unfoldable pub level_icon : String → String
level_icon level =
    if str_eq level "ERROR"
    then "🔴"
    else if str_eq level "WARN"
    then "🟠"
    else if str_eq level "BET"
    then "🟢"
    else if str_eq level "INFO"
    then "🔵"
    else "⚪"

unfoldable pub write_lines : List String → String
write_lines [] = ""
write_lines (l ∷ lines) = "\n\n" <> join_with "\n" (l ∷ lines)

unfoldable pub with_plug : List String → List String
with_plug [] = []
with_plug (s ∷ source) = ("🔌 " <> join_with " · " (s ∷ source)) ∷ []

module _ {fl : Float64} (pr : Printer fl) where
  unfoldable pub write_header : {tm : GoTime} → Line fl tm → String
  write_header e =
      (level_icon e.level <> (" <b>" <> (pr.escape e.level <> "</b>")))
      <> (if str_eq e.application "" then "" else " · " <> pr.escape e.application)

  unfoldable pub write_message : String → String
  write_message msg = if str_eq (pr.trim msg) "" then "" else "\n\n" <> pr.escape (pr.trim msg)

  unfoldable pub runner_text : Option RaceDetails → String
  runner_text none = ""
  runner_text (some r) = join_with " " (
      (if eq_ℤ r.runner_number (pos 0)
        then []
        else ("<b>#" <> (pr.decimal r.runner_number <> "</b>")) ∷ [])
      ++ (if str_eq r.runner_name "" then [] else pr.escape r.runner_name ∷ []))

  unfoldable pub runner_line : Option RaceDetails → String
  runner_line r = if str_eq (runner_text r) "" then "" else "🐎 Runner " <> runner_text r

  unfoldable pub race_line : Option RaceDetails → String → Bool → String
  race_line none market with_runner = ""
  race_line (some r) market with_runner =
      if str_eq r.venue ""
      then ""
      else ("🏇 <b>" <> pr.escape r.venue)
        <> ((if eq_ℤ r.race_number (pos 0) then "" else " R" <> pr.decimal r.race_number)
            <> ("</b>"
                <> ((if str_eq market "" then "" else " · " <> pr.escape market)
                    <> (if with_runner && not (str_eq (runner_text (some r)) "")
                        then " · 🐎 " <> runner_text (some r)
                        else ""))))

  unfoldable pub who_line : {tm : GoTime} → Line fl tm → String
  who_line e = join_with " · " (
      (if str_eq e.username "" then [] else ("👤 " <> pr.escape e.username) ∷ [])
      ++ (if str_eq e.process_id "" then [] else ("⚙\u{fe0f} " <> pr.escape e.process_id) ∷ []))

  unfoldable pub format_log : {tm : GoTime} → Line fl tm → String
  format_log e =
      write_header e
      <> (write_message e.message
          <> write_lines (if_any (race_line e.race "" true) ++ if_any (who_line e)))

  unfoldable pub format_money : fl.F → String
  format_money v =
      if fl.lt v (fl.lit 0 0)
      then "-$" <> pr.two_places (fl.sub (fl.lit 0 0) v)
      else "$" <> pr.two_places v

  unfoldable pub format_signed_money : fl.F → String
  format_signed_money v = if fl.lt (fl.lit 0 0) v then "+" <> format_money v else format_money v

  abbrev pub is_zero : fl.F → Bool
  is_zero v = fl.eq v (fl.lit 0 0)

  -- a figure of a bet under its name, if it is not 0
  unfoldable pub figure : String → fl.F → List String
  figure name v = if is_zero v then [] else (name <> format_money v) ∷ []

  -- the line of the figures, with the odds, if there is a figure
  unfoldable pub with_odds : BetLog fl → List String → List String
  with_odds b [] = []
  with_odds b (m ∷ money) =
      (("💵 " <> join_with " · " (m ∷ money))
        <> (if is_zero b.odds then "" else " @ " <> pr.two_places b.odds))
      ∷ []

  unfoldable pub money_line : BetLog fl → List String
  money_line b = with_odds b (
      figure "Stake " b.stake ++ (figure "Requested " b.requested ++ figure "Accepted " b.accepted))

  unfoldable pub outcome_line : BetLog fl → List String
  outcome_line b =
      if str_eq b.result "" && is_zero b.profit
      then []
      else ("🏁 "
          <> join_with " · " (
              (if str_eq b.result "" then [] else ("<b>" <> (pr.escape b.result <> "</b>")) ∷ [])
              ++ ("💰 " <> format_signed_money b.profit) ∷ []))
        ∷ []

  -- the loop over the endpoint, the bet type and the reference
  unfoldable pub sources : List String → List String
  sources [] = []
  sources (s ∷ rest) = let more = sources rest in if str_eq s "" then more else pr.escape s ∷ more

  unfoldable pub source_line : BetLog fl → List String
  source_line b = with_plug (sources (b.endpoint ∷ (b.bet_type ∷ (b.ref ∷ []))))

  unfoldable pub format_bet : {tm : GoTime} → Line fl tm → BetLog fl → String
  format_bet e b =
      write_header e
      <> (write_message e.message
          <> write_lines (
              if_any (race_line e.race b.market false)
              ++ (if_any (runner_line e.race)
                  ++ (money_line b
                      ++ ((if is_zero b.target_lia
                            then []
                            else ("🎯 Target " <> format_money b.target_lia) ∷ [])
                          ++ (outcome_line b
                              ++ ((if str_eq b.race_state ""
                                    then []
                                    else ("📍 " <> pr.escape b.race_state) ∷ [])
                                  ++ (source_line b ++ if_any (who_line e)))))))))

  unfoldable pub format_telegram : {tm : GoTime} → Line fl tm → String
  format_telegram e = elim e.bet [ none ↦ format_log e | some b ↦ format_bet e b ]

  unfoldable pub format_suppressed : {tm : GoTime} → Line fl tm → ℤ → String
  format_suppressed sample count =
      write_header sample
      <> ("\n\n🔁 <b>"
          <> (pr.decimal count
              <> (" more</b> identical to:\n" <> pr.escape (pr.trim sample.message))))
