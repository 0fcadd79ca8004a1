-- ===== src/Logger/Telegram/Dedupe.antt =====
-- logger/telegram/telegram.go: what the dedupe window promises, over a whole run of the goroutine.
use pegasus_suite.Prelude.{
  ℕ, suc, ◌+◌, ◌≤◌, String, ◌≡◌, inl, inr, refl, ap, Bool, true, false, not, ◌&&◌, some, List, [],
  ◌∷◌, ◌++◌, ltb, str_eq, arith, if_case, option_case, Bool-cases,
}
use pegasus_suite.Prelude.Int.{pos, lt_ℤ, eq_ℤ}
use pegasus_suite.Prelude.Assoc.{lookup, insert, string_eq}
use pegasus_suite.Prelude.Float.{Float64}
use pegasus_suite.Prelude.Time.{GoTime}
use pegasus_suite.Logger.Line.{Line}
use pegasus_suite.Logger.Telegram.{
  Config, Suppression, Suppressed, Message, card, more, dedupe_key, inside, channel_for,
  dispatch_new, dispatch, sweep, Event, taken, ticked, closed, handle,
}

module _ {fl : Float64} {tm : GoTime} where
  -- how many records a message stands for
  abbrev pub stands_for : Message fl tm → ℕ
  stands_for (card now ch r) = 1
  stands_for (more now ch r n) = n

  unfoldable pub told : List (Message fl tm) → ℕ
  told [] = 0
  told (x ∷ xs) = stands_for x + told xs

  -- the records that are held back and not told of yet
  unfoldable pub pending : Suppressed fl tm → ℕ
  pending [] = 0
  pending ((key, sup) ∷ s) = sup.count + pending s

  abbrev arrives : Event fl tm → ℕ
  arrives (taken now r) = 1
  arrives (ticked now) = 0
  arrives (closed now) = 0

  -- the records that were taken from the queue
  unfoldable pub arrived : List (Event fl tm) → ℕ
  arrived [] = 0
  arrived (e ∷ es) = arrives e + arrived es

  unfoldable pub run :
      Config → List (Event fl tm) → Suppressed fl tm → Suppressed fl tm × List (Message fl tm)
  run cfg [] s = (s, [])
  run cfg (e ∷ es) s =
      let (s', out) = handle cfg e s in let (s'', rest) = run cfg es s' in (s'', out ++ rest)

  told-append : (xs ys : List (Message fl tm)) → told (xs ++ ys) ≡ told xs + told ys
  unfolding told
  told-append [] ys = omega arith
  told-append (x ∷ xs) ys = omega (arith, told-append xs ys)

  pending-insert :
      (key : String) (sup : Suppression fl tm) (s : Suppressed fl tm)
      → pending (insert key sup s) ≤ sup.count + pending s
  unfolding pending insert
  pending-insert key sup [] = omega arith
  pending-insert key sup ((k, v) ∷ s) = ground (arith, pending-insert key sup s)

  pending-count :
      (key : String) (sup : Suppression fl tm) (s : Suppressed fl tm)
      → lookup key s ≡ some sup
      → pending (insert key (record sup { count = suc sup.count }) s) ≡ suc (pending s)
  unfolding pending insert lookup
  pending-count key sup [] h = absurd cc
  pending-count key sup ((k, v) ∷ s) h = elim (Bool-cases (str_eq k key)) [
    | inl b ↦
        (let same : v ≡ sup = ground (arith, h, b) in
          ground (arith, b, ap (λ (x : Suppression fl tm). x.count) same))
    | inr b ↦ ground (arith, b, pending-count key sup s (ground (arith, h, b)))
  ]

  -- after a step, what is told and what is held back are at most what was held back and what arrived
  abbrev Accounts : ℕ → Suppressed fl tm → Suppressed fl tm × List (Message fl tm) → Type 0
  Accounts n s r = told r.1 + pending r.0 ≤ n + pending s

  dispatch-Accounts :
      (cfg : Config) (now : ℕ) (r : Line fl tm) (s : Suppressed fl tm)
      → Accounts 1 s (dispatch cfg now r s)
  unfolding dispatch dispatch_new told
  dispatch-Accounts cfg now r s =
      let fresh : Accounts 1 s (dispatch_new now (channel_for cfg r.level) r s) =
        (let p =
            pending-insert (dedupe_key r)
              (record {
                first_sent = now;
                count = 0;
                channel_id = channel_for cfg r.level;
                sample = r;
              })
              s in
          omega (arith, p)) in
      if_case (Accounts 1 s) (eq_ℤ (channel_for cfg r.level) (pos 0)) _ _ (λ b. omega arith)
        (λ b.
          if_case (Accounts 1 s) (not (lt_ℤ (pos 0) cfg.dedupe_window)) _ _ (λ c. omega arith)
            (λ c.
              option_case (Accounts 1 s) (lookup (dedupe_key r) s) _ _ (λ e. fresh)
                (λ sup e.
                  if_case (Accounts 1 s) (inside cfg now sup) _ _
                    (λ d. omega (arith, pending-count (dedupe_key r) sup s e)) (λ d. fresh))))

  sweep-Accounts :
      (cfg : Config) (force : Bool) (now : ℕ) (s : Suppressed fl tm)
      → told (sweep cfg force now s).1 + pending (sweep cfg force now s).0 ≡ pending s
  unfolding sweep told pending
  sweep-Accounts cfg force now [] = refl
  sweep-Accounts cfg force now ((key, sup) ∷ s) =
      let ih = sweep-Accounts cfg force now s in
      if_case
        (λ (r : Suppressed fl tm × List (Message fl tm)).
          told r.1 + pending r.0 ≡ sup.count + pending s)
        (not force && inside cfg now sup) _ _ (λ b. omega (arith, ih))
        (λ b.
          if_case
            (λ (l : List (Message fl tm)).
              told l + pending (sweep cfg force now s).0 ≡ sup.count + pending s)
            (ltb 0 sup.count) _ _ (λ c. omega (arith, ih)) (λ c. ground (arith, ih, c)))

  handle-Accounts :
      (cfg : Config) (e : Event fl tm) (s : Suppressed fl tm)
      → Accounts (arrives e) s (handle cfg e s)
  unfolding handle
  handle-Accounts cfg (taken now r) s = dispatch-Accounts cfg now r s
  handle-Accounts cfg (ticked now) s = omega (arith, sweep-Accounts cfg false now s)
  handle-Accounts cfg (closed now) s = omega (arith, sweep-Accounts cfg true now s)

  run-Accounts :
      (cfg : Config) (es : List (Event fl tm)) (s : Suppressed fl tm)
      → Accounts (arrived es) s (run cfg es s)
  unfolding run arrived told
  run-Accounts cfg [] s = omega arith
  run-Accounts cfg (e ∷ es) s =
      let first = handle-Accounts cfg e s in
      let rest = run-Accounts cfg es (handle cfg e s).0 in
      omega (arith, first, rest, told-append (handle cfg e s).1 (run cfg es (handle cfg e s).0).1)

  -- Over any run, the messages sent and the records still held back stand for no more records than
  -- were taken from the queue: no card is sent twice for a record, and no summary counts a record
  -- that was told of before.
  pub told-le :
      (cfg : Config) (es : List (Event fl tm))
      → told (run cfg es []).1 + pending (run cfg es []).0 ≤ arrived es
  unfolding pending
  told-le cfg es = omega (arith, run-Accounts cfg es [])
