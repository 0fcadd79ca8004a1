-- ===== src/Logger/Telegram/Format/Escaped.antt =====
-- logger/telegram/format.go: nothing that is logged reaches a card unescaped.

use pegasus_suite.Prelude.{
  String, ◌≡◌, refl, Bool, true, not, ◌&&◌, Option, none, some, List, [], ◌∷◌, All, All-append,
  str_eq, if_case, if◌then◌else◌,
}
use pegasus_suite.Prelude.Int.{ℤ, pos, eq_ℤ}
use pegasus_suite.Prelude.Float.{Float64}
use pegasus_suite.Prelude.Time.{GoTime}
use pegasus_suite.Platform.Claims.{one_of}
use pegasus_suite.Logger.Line.{RaceDetails, Line}
use pegasus_suite.Logger.Telegram.Format.{
  Printer, ◌<>◌, join_with, if_any, level_icon, write_header, write_message, write_lines,
  runner_text, runner_line, race_line, who_line, format_log, format_money, format_signed_money,
}

-- every fixed text of the cards: all the markup there is
abbrev pub fixed_texts : List String
fixed_texts =
    "" ∷ "🔴" ∷ "🟠" ∷ "🟢" ∷ "🔵" ∷ "⚪" ∷ " <b>" ∷ "</b>" ∷ "<b>" ∷ "<b>#" ∷ " · " ∷ "\n\n" ∷ "\n"
    ∷ " " ∷ "🐎 Runner " ∷ "🏇 <b>" ∷ " R" ∷ " · 🐎 " ∷ "👤 " ∷ "⚙\u{fe0f} " ∷ "-$" ∷ "$" ∷ "+" ∷ "💵 "
    ∷ " @ " ∷ "🏁 " ∷ "💰 " ∷ "🔌 " ∷ "🎯 Target " ∷ "📍 " ∷ "Stake " ∷ "Requested " ∷ "Accepted "
    ∷ "\n\n🔁 <b>" ∷ " more</b> identical to:\n" ∷ []

module _ {fl : Float64} (pr : Printer fl) where
  -- a text put together from fixed texts, numbers and escaped texts
  pub data IsEscaped : String → Type 0 where
    fixed : (s : String) → one_of s fixed_texts ≡ true → IsEscaped s
    number : (n : ℤ) → IsEscaped (pr.decimal n)
    amount : (v : fl.F) → IsEscaped (pr.two_places v)
    escaped : (s : String) → IsEscaped (pr.escape s)
    joined : (a b : String) → IsEscaped a → IsEscaped b → IsEscaped (a <> b)

  pub join-IsEscaped :
      (sep : String) (xs : List String)
      → IsEscaped sep
      → All IsEscaped xs
      → IsEscaped (join_with sep xs)
  unfolding join_with one_of
  join-IsEscaped sep [] s h = fixed "" refl
  join-IsEscaped sep (x ∷ []) s (p, h) = p
  join-IsEscaped sep (x ∷ (y ∷ xs)) s (p, h) =
      joined x _ p (joined sep _ s (join-IsEscaped sep (y ∷ xs) s h))

  pub any-IsEscaped : (s : String) → IsEscaped s → All IsEscaped (if_any s)
  any-IsEscaped s h = if_case (All IsEscaped) (str_eq s "") _ _ (λ b. tt) (λ b. (h, tt))

  icon-IsEscaped : (level : String) → IsEscaped (level_icon level)
  unfolding level_icon one_of
  icon-IsEscaped level =
      if_case IsEscaped (str_eq level "ERROR") _ _ (λ b. fixed "🔴" refl)
        (λ b.
          if_case IsEscaped (str_eq level "WARN") _ _ (λ b. fixed "🟠" refl)
            (λ b.
              if_case IsEscaped (str_eq level "BET") _ _ (λ b. fixed "🟢" refl)
                (λ b.
                  if_case IsEscaped (str_eq level "INFO") _ _ (λ b. fixed "🔵" refl)
                    (λ b. fixed "⚪" refl))))

  -- a fixed text and then another
  pub after :
      (s : String) {a : String} → one_of s fixed_texts ≡ true → IsEscaped a → IsEscaped (s <> a)
  after s {a} e h = joined s a (fixed s e) h

  pub header-IsEscaped : {tm : GoTime} (e : Line fl tm) → IsEscaped (write_header pr e)
  unfolding write_header one_of
  header-IsEscaped e =
      joined _ _
        (joined _ _ (icon-IsEscaped e.level)
          (after " <b>" refl (joined _ _ (escaped e.level) (fixed "</b>" refl))))
        (if_case IsEscaped (str_eq e.application "") _ _ (λ b. fixed "" refl)
          (λ b. after " · " refl (escaped e.application)))

  pub message-IsEscaped : (s : String) → IsEscaped (write_message pr s)
  unfolding write_message one_of
  message-IsEscaped s =
      if_case IsEscaped (str_eq (pr.trim s) "") _ _ (λ b. fixed "" refl)
        (λ b. after "\n\n" refl (escaped (pr.trim s)))

  pub lines-IsEscaped : (xs : List String) → All IsEscaped xs → IsEscaped (write_lines xs)
  unfolding write_lines one_of
  lines-IsEscaped [] h = fixed "" refl
  lines-IsEscaped (x ∷ xs) h = after "\n\n" refl (join-IsEscaped "\n" (x ∷ xs) (fixed "\n" refl) h)

  -- one text if a test holds
  pub one-IsEscaped :
      (b : Bool) (s : String) → IsEscaped s → All IsEscaped (if b then [] else s ∷ [])
  one-IsEscaped b s h = if_case (All IsEscaped) b _ _ (λ c. tt) (λ c. (h, tt))

  pub runner-IsEscaped : (r : Option RaceDetails) → IsEscaped (runner_text pr r)
  unfolding runner_text one_of
  runner-IsEscaped none = fixed "" refl
  runner-IsEscaped (some r) = join-IsEscaped " " _ (fixed " " refl) (
      All-append IsEscaped _ _
        (one-IsEscaped (eq_ℤ r.runner_number (pos 0)) _
          (after "<b>#" refl (joined _ _ (number r.runner_number) (fixed "</b>" refl))))
        (one-IsEscaped (str_eq r.runner_name "") _ (escaped r.runner_name)))

  pub runner_line-IsEscaped : (r : Option RaceDetails) → IsEscaped (runner_line pr r)
  unfolding runner_line one_of
  runner_line-IsEscaped r =
      if_case IsEscaped (str_eq (runner_text pr r) "") _ _ (λ b. fixed "" refl)
        (λ b. after "🐎 Runner " refl (runner-IsEscaped r))

  pub race-IsEscaped :
      (r : Option RaceDetails) (market : String) (w : Bool) → IsEscaped (race_line pr r market w)
  unfolding race_line one_of
  race-IsEscaped none market w = fixed "" refl
  race-IsEscaped (some r) market w =
      if_case IsEscaped (str_eq r.venue "") _ _ (λ b. fixed "" refl)
        (λ b. joined _ _ (after "🏇 <b>" refl (escaped r.venue)) (
          joined _ _
            (if_case IsEscaped (eq_ℤ r.race_number (pos 0)) _ _ (λ c. fixed "" refl)
              (λ c. after " R" refl (number r.race_number)))
            (after "</b>" refl (
              joined _ _
                (if_case IsEscaped (str_eq market "") _ _ (λ c. fixed "" refl)
                  (λ c. after " · " refl (escaped market)))
                (if_case IsEscaped (w && not (str_eq (runner_text pr (some r)) "")) _ _
                  (λ c. after " · 🐎 " refl (runner-IsEscaped (some r))) (λ c. fixed "" refl))))))

  pub who-IsEscaped : {tm : GoTime} (e : Line fl tm) → IsEscaped (who_line pr e)
  unfolding who_line one_of
  who-IsEscaped e = join-IsEscaped " · " _ (fixed " · " refl) (
      All-append IsEscaped _ _
        (one-IsEscaped (str_eq e.username "") _ (after "👤 " refl (escaped e.username)))
        (one-IsEscaped (str_eq e.process_id "") _ (after "⚙\u{fe0f} " refl (escaped e.process_id))))

  pub log-IsEscaped : {tm : GoTime} (e : Line fl tm) → IsEscaped (format_log pr e)
  unfolding format_log
  log-IsEscaped e = joined _ _ (header-IsEscaped e) (
      joined _ _ (message-IsEscaped e.message) (
        lines-IsEscaped _ (
          All-append IsEscaped _ _ (any-IsEscaped _ (race-IsEscaped e.race "" true))
            (any-IsEscaped _ (who-IsEscaped e)))))

  pub money-IsEscaped : (v : fl.F) → IsEscaped (format_money pr v)
  unfolding format_money one_of
  money-IsEscaped v =
      if_case IsEscaped (fl.lt v (fl.lit 0 0)) _ _ (λ b. after "-$" refl (amount _))
        (λ b. after "$" refl (amount v))

  pub signed-IsEscaped : (v : fl.F) → IsEscaped (format_signed_money pr v)
  unfolding format_signed_money one_of
  signed-IsEscaped v =
      if_case IsEscaped (fl.lt (fl.lit 0 0) v) _ _ (λ b. after "+" refl (money-IsEscaped v))
        (λ b. money-IsEscaped v)
