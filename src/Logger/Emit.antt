-- ===== src/Logger/Emit.antt =====
-- logger/logger.go `emit`: one payload to each output that wants it. The order of the outputs is
-- the order of the code; the text on stderr is not modelled, only that it is written.
pub mod Routing
use pegasus_suite.Prelude.{
  String, Bool, true, false, not, ◌&&◌, ◌||◌, Option, none, some, List, [], ◌∷◌, ◌++◌,
  if◌then◌else◌,
}
use pegasus_suite.Prelude.Int.{ℤ, le_ℤ, eq_ℤ}
use pegasus_suite.Prelude.Float.{Float64}
use pegasus_suite.Prelude.Time.{GoTime}
use pegasus_suite.Logger.Line.{Payload, Line, level_bet, new_record}

-- `Config` with `RingConfig.Level`
pub record Config : Type 0 where
  pub application : String
  pub default_user_id : String
  pub std_err_level : ℤ
  pub ring_level : ℤ

-- what `emit` does: a line on stderr, a record added to the ring, or one handed to the sink with this
-- place in the list of sinks
pub data Output (fl : Float64) (tm : GoTime) : Type 0 where
  to_stderr : Output fl tm
  to_ring : Line fl tm → Output fl tm
  to_sink : (ℤ → Bool) → Line fl tm → Output fl tm

-- the loop that asks whether any sink wants the level; a sink is its method `Enabled`
unfoldable pub any_enabled : ℤ → List (ℤ → Bool) → Bool
any_enabled level [] = false
any_enabled level (s ∷ sinks) = if s level then true else any_enabled level sinks

module _ {fl : Float64} {tm : GoTime} where
  -- the loop that enqueues
  unfoldable pub enqueue_all : ℤ → Line fl tm → List (ℤ → Bool) → List (Output fl tm)
  enqueue_all level rec [] = []
  enqueue_all level rec (s ∷ sinks) =
      let rest = enqueue_all level rec sinks in if s level then to_sink s rec ∷ rest else rest

  -- `has_ring` is `l.ring != nil`; the last two parameters are those of `newRecord`
  unfoldable pub emit :
      Config
      → Bool
      → List (ℤ → Bool)
      → (ℤ → String)
      → (Option String → String)
      → tm.Time
      → ℤ
      → Payload fl
      → List (Output fl tm)
  emit cfg has_ring sinks slog_name trace_json now level p =
      let stderr = le_ℤ cfg.std_err_level level in
      let ring = has_ring && (not (eq_ℤ level level_bet) && le_ℤ cfg.ring_level level) in
      let sink = any_enabled level sinks in
      let out : List (Output fl tm) = if stderr then to_stderr ∷ [] else [] in
      if not stderr && (not ring && not sink)
      then []
      else if not ring && not sink
      then out
      else (let rec =
            new_record slog_name trace_json p level now cfg.application cfg.default_user_id in
          out ++ ((if ring then to_ring rec ∷ [] else []) ++ enqueue_all level rec sinks))
