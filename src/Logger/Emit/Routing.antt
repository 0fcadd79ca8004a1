-- ===== src/Logger/Emit/Routing.antt =====
-- logger/logger.go `emit`: the early returns change nothing, and who gets what.
use pegasus_suite.Prelude.{
  String, ◌≡◌, refl, Bool, false, not, ◌&&◌, Option, List, [], ◌∷◌, ◌++◌, map, filter, arith,
  if◌then◌else◌, Bool-cases, inl, inr,
}
use pegasus_suite.Prelude.Int.{ℤ, le_ℤ, eq_ℤ}
use pegasus_suite.Prelude.Float.{Float64}
use pegasus_suite.Prelude.Time.{GoTime}
use pegasus_suite.Logger.Line.{Payload, Line, level_bet, new_record}
use pegasus_suite.Logger.Emit.{
  Config, Output, to_stderr, to_ring, to_sink, any_enabled, enqueue_all, emit,
}

module _ {fl : Float64} {tm : GoTime} where
  -- one output, if it wants the line
  abbrev only_if : Bool → Output fl tm → List (Output fl tm)
  only_if b o = if b then o ∷ [] else []

  -- each output by itself
  unfoldable pub outputs : Config → Bool → List (ℤ → Bool) → ℤ → Line fl tm → List (Output fl tm)
  outputs cfg has_ring sinks level rec =
      only_if (le_ℤ cfg.std_err_level level) to_stderr
      ++ (only_if (has_ring && (not (eq_ℤ level level_bet) && le_ℤ cfg.ring_level level))
            (to_ring rec)
          ++ map (λ s. to_sink s rec) (filter (λ s. s level) sinks))

  enqueue_all_lem :
      (level : ℤ) (rec : Line fl tm) (sinks : List (ℤ → Bool))
      → enqueue_all level rec sinks ≡ map (λ s. to_sink s rec) (filter (λ s. s level) sinks)
  unfolding enqueue_all
  enqueue_all_lem level rec [] = refl
  enqueue_all_lem level rec (s ∷ sinks) = ground (arith, enqueue_all_lem level rec sinks)

  nobody :
      (level : ℤ) (rec : Line fl tm) (sinks : List (ℤ → Bool))
      → any_enabled level sinks ≡ false
      → enqueue_all level rec sinks ≡ []
  unfolding any_enabled enqueue_all
  nobody level rec [] h = refl
  nobody level rec (s ∷ sinks) h = ground (arith, h, nobody level rec sinks)

  -- A payload reaches exactly the outputs that want its level, each once and with the same record:
  -- stderr from its least level on, the ring, if there is one, from its own on but never a bet, and
  -- every sink that says it is enabled; the early returns of `emit` lose nothing.
  pub emit_lem :
      (cfg : Config) (has_ring : Bool) (sinks : List (ℤ → Bool)) (slog_name : ℤ → String)
      (trace_json : Option String → String) (now : tm.Time) (level : ℤ) (p : Payload fl)
      → emit cfg has_ring sinks slog_name trace_json now level p
        ≡ outputs cfg has_ring sinks level
            (new_record slog_name trace_json p level now cfg.application cfg.default_user_id)
  unfolding emit outputs
  emit_lem cfg has_ring sinks slog_name trace_json now level p =
      let rec = new_record slog_name trace_json p level now cfg.application cfg.default_user_id in
      let same = enqueue_all_lem level rec sinks in
      elim (Bool-cases (any_enabled level sinks)) [
        | inl b ↦ ground (arith, b, same)
        | inr b ↦ ground (arith, b, same, nobody level rec sinks b)
      ]
