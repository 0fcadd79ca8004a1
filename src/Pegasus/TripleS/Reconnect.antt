-- ===== src/Pegasus/TripleS/Reconnect.antt =====
-- apps/pegasus/triples/client.go: the reconnect loop. `M` is the broker's client; an attempt says
-- whether the context ended before its wait was over, and otherwise what the dial returned. Waits are
-- in seconds.
use pegasus_suite.Prelude.{
  ◌≡◌, ℕ, zero, suc, ◌+◌, ◌*◌, ◌≤◌, String, Bool, true, false, not, ◌&&◌, arith, if◌then◌else◌,
}
use pegasus_suite.Clients.{Result, ok, err}

pub record Attempt (M : Type 0) : Type 0 where
  pub ended : Bool
  pub dial : Result String M

-- how the loop ends; only giving up calls `onFatal`
pub data Outcome (M : Type 0) : Type 0 where
  stopped gave_up : Outcome M
  connected : M → Outcome M

abbrev pub max_reconnect_attempts : ℕ
max_reconnect_attempts = 5

module _ {M : Type 0} (attempts : ℕ → Attempt M) (ended : Bool) where
  -- The loop from attempt k on, with `left` attempts to go: how it ends, and a bound of the seconds that
  -- it waits. `ended` is the context after the last attempt.
  unfoldable pub reconnect_from : ℕ → ℕ → ℕ → Outcome M × ℕ
  reconnect_from zero k backoff = (if ended then stopped else gave_up, 0)
  reconnect_from (suc left) k backoff =
      let (outcome, waited) = reconnect_from left (k + 1) (backoff * 2) in
      if (attempts k).ended then (stopped, backoff) else elim (attempts k).dial [
        | ok m ↦ (connected m, backoff)
        | err e ↦ (outcome, backoff + waited)
      ]

  -- `reconnectLoop`, of the one run that got the flag
  unfoldable pub reconnect : Outcome M × ℕ
  unfolding reconnect_from
  reconnect = reconnect_from max_reconnect_attempts 1 1

  -- the waits of so many attempts
  unfoldable total : ℕ → ℕ → ℕ
  total zero backoff = 0
  total (suc left) backoff = backoff + total left (backoff * 2)

  reconnect_from-total :
      (left k backoff : ℕ) → (reconnect_from left k backoff).1 ≤ total left backoff
  unfolding reconnect_from total
  reconnect_from-total zero k backoff = omega arith
  reconnect_from-total (suc left) k backoff =
      ground (arith, reconnect_from-total left (k + 1) (backoff * 2))

  -- every attempt from the k-th on fails, with a live context throughout
  unfoldable pub all_fail : ℕ → ℕ → Bool
  all_fail zero k = not ended
  all_fail (suc left) k =
      not (attempts k).ended
      && elim (attempts k).dial [ ok m ↦ false | err e ↦ true ]
      && all_fail left (k + 1)

  abbrev pub is_gave_up : Outcome M → Bool
  is_gave_up stopped = false
  is_gave_up gave_up = true
  is_gave_up (connected m) = false

  reconnect_from-gave_up :
      (left k backoff : ℕ) → is_gave_up (reconnect_from left k backoff).0 ≡ all_fail left k
  unfolding reconnect_from all_fail
  reconnect_from-gave_up zero k backoff = ground arith
  reconnect_from-gave_up (suc left) k backoff =
      ground (arith, reconnect_from-gave_up left (k + 1) (backoff * 2))

  -- Whatever the broker answers, the reconnect loop ends after waits of at most 31 seconds in all, and
  -- it gives up exactly when all five attempts fail and the context is live to the end.
  pub reconnect-ends :
      (reconnect.1 ≤ 31) × (is_gave_up reconnect.0 ≡ all_fail max_reconnect_attempts 1)
  unfolding reconnect total
  reconnect-ends = (
    reconnect_from-total max_reconnect_attempts 1 1,
    reconnect_from-gave_up max_reconnect_attempts 1 1,
  )
