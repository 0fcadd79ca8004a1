-- ===== src/Logger/Telegram.antt =====
-- logger/telegram/telegram.go: the sink that posts to Telegram. Here its queue, what it sends of the
-- records that it takes from it, and what it holds back. The goroutine that drains the queue is the only
-- one that touches this state, so taking a record and a sweep are steps. `Sink.now` reads a clock of
-- nanoseconds that does not run backwards.
pub mod Format
pub mod Dedupe
pub mod Spacing
mod Tests
use Prim.Native.String
use pegasus_suite.Prelude.{
  ℕ, suc, ◌+◌, String, Bool, true, false, not, ◌&&◌, Option, none, some, List, [], ◌∷◌, ◌++◌,
  length, ltb, str_eq, if◌then◌else◌,
}
use pegasus_suite.Prelude.Int.{ℤ, pos, negsuc, sub_ℕ, lt_ℤ, le_ℤ, eq_ℤ}
use pegasus_suite.Prelude.Assoc.{Assoc, lookup, insert, erase, string_eq}
use pegasus_suite.Prelude.Float.{Float64}
use pegasus_suite.Prelude.Time.{GoTime}
use pegasus_suite.Logger.Line.{Line, level_bet}

-- `Config`, without the token
pub record Config : Type 0 where
  pub level : ℤ
  pub log_channel : ℤ
  pub bet_channel : ℤ
  pub queue_size : ℤ
  pub dedupe_window : ℤ

abbrev pub default_queue_size : ℕ
default_queue_size = 1000

-- the size of the queue that `newSink` makes
unfoldable pub queue_capacity : Config → ℕ
queue_capacity cfg = elim cfg.queue_size [
  | pos n ↦ if ltb 0 n then n else default_queue_size
  | negsuc n ↦ default_queue_size
]

-- `Enabled`
unfoldable pub enabled : Config → ℤ → Bool
enabled cfg level =
    if eq_ℤ level level_bet
    then not (eq_ℤ cfg.bet_channel (pos 0))
    else not (eq_ℤ cfg.log_channel (pos 0)) && le_ℤ cfg.level level

-- `channelFor`
unfoldable pub channel_for : Config → String → ℤ
channel_for cfg level = if str_eq level "BET" then cfg.bet_channel else cfg.log_channel

-- `Enqueue`: a full queue drops the record
unfoldable pub enqueue : {A : Type 0} → Config → A → List A → List A
enqueue cfg r queue = if ltb (length queue) (queue_capacity cfg) then queue ++ r ∷ [] else queue

-- `suppression`
pub record Suppression (fl : Float64) (tm : GoTime) : Type 0 where
  pub first_sent : ℕ
  pub count : ℕ
  pub channel_id : ℤ
  pub sample : Line fl tm

abbrev pub Suppressed : Float64 → GoTime → Type 0
Suppressed fl tm = Assoc String (Suppression fl tm)

-- what `send` is called with, and when: the card of a record, or the summary of its repeats
pub data Message (fl : Float64) (tm : GoTime) : Type 0 where
  card : ℕ → ℤ → Line fl tm → Message fl tm
  more : ℕ → ℤ → Line fl tm → ℕ → Message fl tm

-- what `run` does on its goroutine: a record from the queue, a tick, or the end of the queue
pub data Event (fl : Float64) (tm : GoTime) : Type 0 where
  taken : ℕ → Line fl tm → Event fl tm
  ticked : ℕ → Event fl tm
  closed : ℕ → Event fl tm

module _ {fl : Float64} {tm : GoTime} where
  -- the key of `dispatch`
  unfoldable pub dedupe_key : Line fl tm → String
  dedupe_key r =
      String.◌++◌ r.level (String.◌++◌ "\0" (String.◌++◌ r.message (String.◌++◌ "\0" r.process_id)))

  -- whether a record of this time is inside the window of one that was sent
  abbrev pub inside : Config → ℕ → Suppression fl tm → Bool
  inside cfg now sup = lt_ℤ (sub_ℕ now sup.first_sent) cfg.dedupe_window

  -- `dispatch` past its guard, where the window is positive
  unfoldable pub dispatch_new :
      ℕ → ℤ → Line fl tm → Suppressed fl tm → Suppressed fl tm × List (Message fl tm)
  dispatch_new now ch r s =
      let sup : Suppression fl tm = record {
        first_sent = now;
        count = 0;
        channel_id = ch;
        sample = r;
      } in
      (insert (dedupe_key r) sup s, card now ch r ∷ [])

  unfoldable pub dispatch :
      Config → ℕ → Line fl tm → Suppressed fl tm → Suppressed fl tm × List (Message fl tm)
  dispatch cfg now r s =
      let ch = channel_for cfg r.level in
      if eq_ℤ ch (pos 0)
      then (s, [])
      else if not (lt_ℤ (pos 0) cfg.dedupe_window)
      then (s, card now ch r ∷ [])
      else elim (lookup (dedupe_key r) s) [
        | none ↦ dispatch_new now ch r s
        | some sup ↦
            if inside cfg now sup
            then (insert (dedupe_key r) (record sup { count = suc sup.count }) s, [])
            else dispatch_new now ch r s
      ]

  -- `sweep`, over the held records in the map's order
  unfoldable pub sweep :
      Config → Bool → ℕ → Suppressed fl tm → Suppressed fl tm × List (Message fl tm)
  sweep cfg force now [] = ([], [])
  sweep cfg force now ((key, sup) ∷ s) =
      let (kept, sent) = sweep cfg force now s in
      if not force && inside cfg now sup then ((key, sup) ∷ kept, sent) else (
        kept,
        if ltb 0 sup.count then more now sup.channel_id sup.sample sup.count ∷ sent else sent,
      )

  unfoldable pub handle :
      Config → Event fl tm → Suppressed fl tm → Suppressed fl tm × List (Message fl tm)
  handle cfg (taken now r) s = dispatch cfg now r s
  handle cfg (ticked now) s = sweep cfg false now s
  handle cfg (closed now) s = sweep cfg true now s
