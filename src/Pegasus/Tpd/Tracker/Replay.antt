-- ===== src/Pegasus/Tpd/Tracker/Replay.antt =====
-- apps/pegasus/tpd/update.go: a packet that arrives twice, as it does from two parallel feeds.
use pegasus_suite.Prelude.{
  ◌≡◌, refl, sym, ◌∙◌, ◌⊎◌, inl, inr, String, Bool, true, false, not, ◌&&◌, Option, some, List, [],
  ◌∷◌, arith, Bool-cases, is_some,
}
use pegasus_suite.Prelude.Assoc.{string_eq}
use pegasus_suite.Prelude.Float.{Float64}
use pegasus_suite.Prelude.Time.{GoTime}
use pegasus_suite.Pegasus.Packet.{Progress}
use pegasus_suite.Pegasus.Tpd.{Race}
use pegasus_suite.Pegasus.Tpd.Tracker.{Tracker, ref, sweep}
use pegasus_suite.Pegasus.Tpd.Tracker.Order.{
  Event, arrives, sweeps, last_seen, forgets, sweep-last_seen, ref-Advances, run,
}

-- an order on instants, as `After` is one
pub record IsAfterOrder (tm : GoTime) : Type 0 where
  pub irreflexive : (x : tm.Time) → tm.is_after x x ≡ false
  pub transitive :
      (x y z : tm.Time) → tm.is_after x y ≡ true → tm.is_after y z ≡ true → tm.is_after x z ≡ true

-- no sweep among the events comes more than ten minutes after the race was last touched
unfoldable pub is_kept :
    {fl : Float64} {tm : GoTime} → String → List (Event fl tm) → Tracker fl tm → Bool
is_kept key [] t = true
is_kept key (arrives list a ∷ rest) t = is_kept key rest (ref list a.p a.now a.later t).0
is_kept key (sweeps now ∷ rest) t = not (forgets key now t) && is_kept key rest (sweep now t)

module _ {tm : GoTime} (order : IsAfterOrder tm) where
  IsAtLeast : tm.Time → tm.Time → Type 0
  IsAtLeast x y = (x ≡ y) ⊎ (tm.is_after x y ≡ true)

  IsAtLeast-after :
      (x y z : tm.Time) → IsAtLeast x y → tm.is_after y z ≡ true → tm.is_after x z ≡ true
  unfolding IsAtLeast
  IsAtLeast-after x y z (inl e) h = rw e h
  IsAtLeast-after x y z (inr g) h = order.transitive x y z g h

  IsAtLeast-trans : (x y z : tm.Time) → IsAtLeast x y → IsAtLeast y z → IsAtLeast x z
  unfolding IsAtLeast
  IsAtLeast-trans x y z h (inl e) = rw (sym e) h
  IsAtLeast-trans x y z h (inr g) = inr (IsAtLeast-after x y z h g)

  not-newer : (x y z : tm.Time) → tm.is_after x y ≡ true → IsAtLeast y z → some x ≡ some z → ⊥
  unfolding IsAtLeast
  not-newer x y z g (inl e) f = ground (arith, g, e, f, order.irreflexive z)
  not-newer x y z g (inr h) f = ground (arith, order.transitive x y z g h, f, order.irreflexive z)

  module _ {fl : Float64} where
    ref-IsAtLeast :
        (list : String → Option (Race fl tm)) (key : String) (p : Progress fl) (now later : tm.Time)
        (t : Tracker fl tm)
        → IsAtLeast (last_seen key (ref list p now later t).0) (last_seen key t)
    unfolding IsAtLeast
    ref-IsAtLeast list key p now later t =
        let (t', r) = ref list p now later t in
        let step = ref-Advances list key p now later t in
        elim (Bool-cases (is_some r && string_eq.beq p.id key)) [
          | inl b ↦ inr (step.0 b).1
          | inr b ↦ inl (step.1 b)
        ]

    run-IsAtLeast :
        (key : String) (events : List (Event fl tm)) (t : Tracker fl tm) (before : tm.Time)
        → is_kept key events t ≡ true
        → IsAtLeast (last_seen key t) before
        → IsAtLeast (last_seen key (run events t)) before
    unfolding run IsAtLeast is_kept
    run-IsAtLeast key [] t before k h = h
    run-IsAtLeast key (arrives list a ∷ rest) t before k h =
        let t' = (ref list a.p a.now a.later t).0 in
        run-IsAtLeast key rest t' before k (
          IsAtLeast-trans (last_seen key t') (last_seen key t) before
            (ref-IsAtLeast list key a.p a.now a.later t) h)
    run-IsAtLeast key (sweeps now ∷ rest) t before k h =
        let same : last_seen key (sweep now t) ≡ last_seen key t =
          ground (arith, k, sweep-last_seen key now t) in
        run-IsAtLeast key rest (sweep now t) before (ground (arith, k)) (rw same h)

    -- Where `After` is a strict order on instants: a packet that was let through is refused when it
    -- arrives once more, whatever packets arrived and whatever ticks of the sweep came in between,
    -- and whatever races were listed then, unless a sweep came more than ten minutes after its race was
    -- last touched.
    pub ref-replay :
        (list list' : String → Option (Race fl tm)) (p : Progress fl)
        (now later now' later' : tm.Time) (events : List (Event fl tm)) (t : Tracker fl tm)
        → is_some (ref list p now later t).1 ≡ true
        → is_kept p.id events (ref list p now later t).0 ≡ true
        → is_some (ref list' p now' later' (run events (ref list p now later t).0)).1 ≡ false
    unfolding IsAtLeast
    ref-replay list list' p now later now' later' events t h k =
        let t1 = (ref list p now later t).0 in
        let t2 = run events t1 in
        let first =
          (ref-Advances list p.id p now later t).0
            (ground (arith, h, string_eq.beq_iff p.id p.id)) in
        let since = run-IsAtLeast p.id events t1 (last_seen p.id t1) k (inl refl) in
        elim (Bool-cases (is_some (ref list' p now' later' t2).1)) [
          | inr b ↦ b
          | inl b ↦
              (let again =
                  (ref-Advances list' p.id p now' later' t2).0
                    (ground (arith, b, string_eq.beq_iff p.id p.id)) in
                absurd (
                  not-newer _ (last_seen p.id t2) (last_seen p.id t1) again.1 since
                    (sym again.0 ∙ first.0)))
        ]
