-- ===== src/Logger/Telegram/Tests.antt =====
-- logger/: the outputs of a line, and the Telegram sink on a line that is repeated.
use pegasus_suite.Prelude.{
  String, ◌≡◌, refl, Bool, true, false, Option, none, List, [], ◌∷◌, arith, str_eq, if◌then◌else◌,
}
use pegasus_suite.Prelude.Int.{ℤ, pos}
use pegasus_suite.Prelude.Assoc.{lookup, insert}
use pegasus_suite.Prelude.Toy.{toy_float, toy_time}
use pegasus_suite.Logger.Line.{Line, Payload, log, new_record}
use pegasus_suite.Logger.Emit.{Config, emit}
use pegasus_suite.Logger.Emit.Routing.{outputs, emit_lem}
use pegasus_suite.Logger.Telegram
use pegasus_suite.Logger.Telegram.{
  Event, taken, ticked, closed, handle, dispatch, dispatch_new, sweep, dedupe_key, channel_for,
}
use pegasus_suite.Logger.Telegram.Dedupe.{run, told}
use pegasus_suite.Logger.Telegram.Format.{Printer, format_telegram, format_suppressed}
use pegasus_suite.Logger.Telegram.Format.Escaped.{IsEscaped}
use pegasus_suite.Logger.Telegram.Format.Cards.{format_telegram-IsEscaped}
use pegasus_suite.Logger.Telegram.Spacing.{Spaced, cards, width}
use pegasus_suite.Logger.Telegram.Spacing.Runs.{run-Spaced}

abbrev line : Line toy_float toy_time
line = record {
  time = pos 0;
  level = "INFO";
  application = "pegasus";
  message = "feed connected";
  user_id = "";
  username = "";
  process_id = "p";
  race = none;
  trace = "";
  request = "";
  response = "";
  bet = none;
}

abbrev cfg : Telegram.Config
cfg = record {
  level = pos 0;
  log_channel = pos 7;
  bet_channel = pos 8;
  queue_size = pos 0;
  dedupe_window = pos 100;
}

abbrev events : List (Event toy_float toy_time)
events = taken 1 line ∷ taken 10 line ∷ ticked 25 ∷ taken 40 line ∷ ticked 101 ∷ taken 102 line ∷ []

run-Spaced_example : Spaced (width cfg) (cards (run cfg events []).1)
run-Spaced_example =
    run-Spaced cfg events refl
      (omega arith, (omega arith, (omega arith, (omega arith, (omega arith, (omega arith, tt))))))

-- A repeat behind the window that comes before the next tick takes the place of the entry, so the
-- repeat inside the window is never told of.
abbrev unswept : List (Event toy_float toy_time)
unswept = taken 1 line ∷ taken 10 line ∷ taken 102 line ∷ closed 103 ∷ []

one_lost : told (run cfg unswept []).1 ≡ 2
unfolding told run handle dispatch dispatch_new sweep dedupe_key channel_for lookup insert
one_lost = refl

abbrev started : Payload toy_float
started = log (record {
  application = "";
  user_id = "";
  username = "";
  process_id = "";
  formatted_message = "started";
  request = "";
  response = "";
  trace = none;
  race_details = none;
})

abbrev emit_cfg : Config
emit_cfg = record {
  application = "pegasus_suite";
  default_user_id = "admin";
  std_err_level = pos 4;
  ring_level = pos 0;
}

abbrev level_text : ℤ → String
level_text l = "INFO"

abbrev no_trace : Option String → String
no_trace t = ""

abbrev sinks : List (ℤ → Bool)
sinks = (λ l. true) ∷ (λ l. false) ∷ []

emit_lem_example :
    emit {tm = toy_time} emit_cfg true sinks level_text no_trace (pos 0) (pos 0) started
    ≡ outputs emit_cfg true sinks
        (pos 0)
        (new_record level_text no_trace started (pos 0) (pos 0) "pegasus_suite" "admin")
emit_lem_example = emit_lem emit_cfg true sinks level_text no_trace (pos 0) (pos 0) started

abbrev printer : Printer toy_float
printer = record {
  escape = λ s. if str_eq s "<b>" then "&lt;b&gt;" else s;
  trim = λ s. s;
  decimal = λ n. "7";
  two_places = λ v. "4.60";
}

format_telegram-IsEscaped_example :
    IsEscaped printer (format_telegram printer (record line { message = "<b>" }))
    × IsEscaped printer (format_suppressed printer (record line { message = "<b>" }) (pos 7))
format_telegram-IsEscaped_example =
    format_telegram-IsEscaped printer (record line { message = "<b>" }) (pos 7)
