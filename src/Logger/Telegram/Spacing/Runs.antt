-- ===== src/Logger/Telegram/Spacing/Runs.antt =====
-- logger/telegram/telegram.go: identical lines within the dedupe window go out once, over a whole run.
use pegasus_suite.Prelude.{
  ℕ, ◌+◌, ◌≤◌, String, ◌≡◌, ◌⊎◌, inl, inr, refl, true, false, not, List, [], ◌∷◌, ◌++◌, All,
  All-append, arith, if_case, option_case,
}
use pegasus_suite.Prelude.Int.{ℤ, pos, lt_ℤ, eq_ℤ}
use pegasus_suite.Prelude.Assoc.{lookup, string_eq, lookup-insert_self}
use pegasus_suite.Prelude.Float.{Float64}
use pegasus_suite.Prelude.Time.{GoTime}
use pegasus_suite.Logger.Line.{Line}
use pegasus_suite.Logger.Telegram.{
  Config, Suppressed, Message, dedupe_key, inside, channel_for, dispatch_new, dispatch, sweep,
  Event, taken, ticked, closed, handle,
}
use pegasus_suite.Logger.Telegram.Dedupe.{run}
use pegasus_suite.Logger.Telegram.Spacing.{
  Ordered, cards, cards-append, cards-sweep, Spaced, width, Held, dispatch-Keeps, tick-Keeps,
  Held-later,
}

-- a card of this key is not sent before its window is over
abbrev Waits : Config → ℕ → String → ℕ × String → Type 0
Waits cfg t k c = c.1 ≡ k → width cfg + t ≤ c.0

module _ {fl : Float64} {tm : GoTime} (cfg : Config) where
  -- the cards of one step and of the steps after it
  cards-step :
      (P : ℕ × String → Type 0) (r : Suppressed fl tm × List (Message fl tm))
      (es : List (Event fl tm))
      → All P (cards r.1)
      → All P (cards (run cfg es r.0).1)
      → All P (cards (r.1 ++ (run cfg es r.0).1))
  cards-step P r es h g =
      rw (cards-append r.1 (run cfg es r.0).1)
        (All-append P (cards r.1) (cards (run cfg es r.0).1) h g)

  -- no card of the key goes out before its window is over
  run-Keeps :
      (t : ℕ) (k : String) (past : ℕ) (es : List (Event fl tm)) (s : Suppressed fl tm)
      → lt_ℤ (pos 0) cfg.dedupe_window ≡ true
      → t ≤ past
      → Ordered past es
      → Held cfg t k past s
      → All (Waits cfg t k) (cards (run cfg es s).1)
  unfolding run handle cards
  run-Keeps t k past [] s p l o h = tt
  run-Keeps t k past (taken now r ∷ es) s p l (ordered, o) h =
      let (held, ok) =
        dispatch-Keeps cfg t k now r s p (omega (arith, l, ordered))
          (Held-later cfg t k past now s ordered h) in
      cards-step (Waits cfg t k) (dispatch cfg now r s) es ok
        (run-Keeps t k now es (dispatch cfg now r s).0 p (omega (arith, l, ordered)) o held)
  run-Keeps t k past (ticked now ∷ es) s p l (ordered, o) h =
      let (held, ok) = tick-Keeps cfg t k now s p (Held-later cfg t k past now s ordered h) in
      cards-step (Waits cfg t k) (sweep cfg false now s) es ok
        (run-Keeps t k now es (sweep cfg false now s).0 p (omega (arith, l, ordered)) o held)
  run-Keeps t k past (closed now ∷ es) s p l o h = absurd o

  -- the cards of a step at `now`: none, or one that the sink remembers
  abbrev Sent : ℕ → Suppressed fl tm × List (Message fl tm) → Type 0
  Sent now r =
      (cards r.1 ≡ []) ⊎ ((k : String) × (cards r.1 ≡ (now, k) ∷ []) × Held cfg now k now r.0)

  dispatch_new-Sent :
      (now : ℕ) (ch : ℤ) (r : Line fl tm) (s : Suppressed fl tm)
      → Sent now (dispatch_new now ch r s)
  unfolding dispatch_new cards
  dispatch_new-Sent now ch r s =
      inr (dedupe_key r, refl, inl (_, lookup-insert_self (dedupe_key r) _ s, omega arith))

  dispatch-Sent :
      (now : ℕ) (r : Line fl tm) (s : Suppressed fl tm)
      → lt_ℤ (pos 0) cfg.dedupe_window ≡ true
      → Sent now (dispatch cfg now r s)
  unfolding dispatch cards
  dispatch-Sent now r s p =
      if_case (Sent now) (eq_ℤ (channel_for cfg r.level) (pos 0)) _ _ (λ b. inl refl)
        (λ b.
          if_case (Sent now) (not (lt_ℤ (pos 0) cfg.dedupe_window)) _ _
            (λ c. absurd (ground (arith, p, c)))
            (λ c.
              option_case (Sent now) (lookup (dedupe_key r) s) _ _
                (λ e. dispatch_new-Sent now (channel_for cfg r.level) r s)
                (λ v e.
                  if_case (Sent now) (inside cfg now v) _ _ (λ d. inl refl)
                    (λ d. dispatch_new-Sent now (channel_for cfg r.level) r s))))

  Spaced-step :
      (now : ℕ) (r : Suppressed fl tm × List (Message fl tm)) (es : List (Event fl tm))
      → lt_ℤ (pos 0) cfg.dedupe_window ≡ true
      → Ordered now es
      → Sent now r
      → Spaced (width cfg) (cards (run cfg es r.0).1)
      → Spaced (width cfg) (cards (r.1 ++ (run cfg es r.0).1))
  Spaced-step now r es p o (inl n) h = rw (cards-append r.1 (run cfg es r.0).1, n) h
  Spaced-step now r es p o (inr (k, e, held)) h =
      rw (cards-append r.1 (run cfg es r.0).1, e)
        (run-Keeps now k now es r.0 p (omega arith) o held, h)

  run-Spaced_from :
      (past : ℕ) (es : List (Event fl tm)) (s : Suppressed fl tm)
      → lt_ℤ (pos 0) cfg.dedupe_window ≡ true
      → Ordered past es
      → Spaced (width cfg) (cards (run cfg es s).1)
  unfolding run handle cards
  run-Spaced_from past [] s p o = tt
  run-Spaced_from past (taken now r ∷ es) s p (l, o) =
      Spaced-step now (dispatch cfg now r s) es p o (dispatch-Sent now r s p)
        (run-Spaced_from now es (dispatch cfg now r s).0 p o)
  run-Spaced_from past (ticked now ∷ es) s p (l, o) =
      Spaced-step now (sweep cfg false now s) es p o (inl (cards-sweep cfg false now s))
        (run-Spaced_from now es (sweep cfg false now s).0 p o)
  run-Spaced_from past (closed now ∷ es) s p o = absurd o

  -- With a positive dedupe window and a clock that does not run backwards, between two cards of the
  -- same level, message and process lies the whole window, whatever records and ticks come in whatever
  -- order until the queue is closed.
  pub run-Spaced :
      (es : List (Event fl tm))
      → lt_ℤ (pos 0) cfg.dedupe_window ≡ true
      → Ordered 0 es
      → Spaced (width cfg) (cards (run cfg es []).1)
  run-Spaced es p o = run-Spaced_from 0 es [] p o
