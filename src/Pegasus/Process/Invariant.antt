-- ===== src/Pegasus/Process/Invariant.antt =====
-- apps/pegasus/process/process.go: what holds of a process whatever happened to it, and of every
-- message that it handles.
use mathlib.Core.Path.{subst}
use pegasus_suite.Prelude.{
  ◌≡◌, refl, sym, ◌≤◌, String, Bool, true, false, not, Option, none, some, List, [], ◌∷◌, ◌++◌,
  arith, length, length-append, All, is_some, if_case, Option-cases, inl, inr, ltb,
}
use pegasus_suite.Prelude.Int.{ℤ}
use pegasus_suite.Prelude.Float.{Float64}
use pegasus_suite.Prelude.Time.{GoTime}
use pegasus_suite.Betting.{BetfairRace}
use pegasus_suite.Pegasus.Core.{RaceRef, Bet, Decision}
use pegasus_suite.Pegasus.Settings.{ScopeSettings, ProcessSettings}
use pegasus_suite.Pegasus.Strategy.Field.{RaceMessage}
use pegasus_suite.Pegasus.Strategy.ForwardProgress.{SelectError}
use pegasus_suite.Pegasus.Strategy.TpdLeader.Runs.{LeaderMessage}
use pegasus_suite.Pegasus.Process.{
  Process, TripleSMsg, Acts, inbox_size, send, staked_scope, with_scope, act, new, wants,
  offer_triple_s, offer_tpd, start, stop, scope_for, handle_triple_s, handle_tpd, run_triple_s,
  run_tpd, handle_triple_s-some, handle_tpd-some,
}
use pegasus_suite.Pegasus.Process.Steps.{
  Handled, of_triple_s, of_tpd, Step, Reach, starts, stops, offers_triple_s, offers_tpd, exits,
  handles_triple_s, handles_tpd, here, next,
}

pub All-append {ℓ κ} :
    {A : Type ℓ} (P : A → Type κ) (xs ys : List A) → All P xs → All P ys → All P (xs ++ ys)
All-append P [] ys hx hy = hy
All-append P (x ∷ xs) ys hx hy = (hx.0, All-append P xs ys hx.1 hy)

abbrev pub IsStaked : {fl : Float64} → ProcessSettings fl → RaceRef fl → Type 0
IsStaked s ref = is_some (staked_scope s ref) ≡ true

-- an inbox: bounded, and only of races in scopes that are staked
abbrev pub IsInbox :
    {fl : Float64} {M : Type 0} → ProcessSettings fl → (M → RaceRef fl) → List M → Type 0
IsInbox s ref_of inbox = (length inbox ≤ inbox_size) × All (λ m. IsStaked s (ref_of m)) inbox

with_scope-All :
    {fl : Float64} (scope : ScopeSettings fl) (bets : List (Bet fl))
    → All (λ b. b.1 ≡ scope) (with_scope scope bets)
with_scope-All scope [] = tt
with_scope-All scope (b ∷ bets) = (refl, with_scope-All scope bets)

send-IsInbox :
    {fl : Float64} {M : Type 0} (s : ProcessSettings fl) (ref_of : M → RaceRef fl) (m : M)
    (inbox : List M)
    → IsStaked s (ref_of m)
    → IsInbox s ref_of inbox
    → IsInbox s ref_of (send m inbox)
send-IsInbox s ref_of m inbox h i =
    if_case (IsInbox s ref_of) (ltb (length inbox) inbox_size) _ _
      (λ l.
        (ground (arith, l, length-append inbox (m ∷ [])), All-append _ inbox (m ∷ []) i.1 (h, tt)))
      (λ l. i)

-- each bet goes out with the settings of the scope of its race, which is staked
abbrev pub IsSent : {fl : Float64} → ProcessSettings fl → RaceRef fl → Acts fl → Type 0
IsSent {fl = fl} s ref acts =
    (scope : ScopeSettings fl) × (staked_scope s ref ≡ some scope)
    × All (λ b. b.1 ≡ scope) acts.bets

wants-IsStaked :
    {fl : Float64} {tm : GoTime} (s : ProcessSettings fl) (ref : RaceRef fl) (p : Process fl tm)
    → p.settings ≡ s
    → not (wants ref p) ≡ false
    → IsStaked s ref
unfolding wants
wants-IsStaked s ref p e w = rw (sym e) (ground (arith, w))

act-IsSent :
    {fl : Float64} (s : ProcessSettings fl) (polls : Bool) (ref : RaceRef fl)
    (scope : ScopeSettings fl) (d : Decision fl) (e : Option SelectError)
    → staked_scope s ref ≡ some scope
    → IsSent s ref (act polls ref scope d e)
unfolding act
act-IsSent s polls ref scope d (some e) h = (scope, h, tt)
act-IsSent s polls ref scope d none h = (scope, h, with_scope-All scope d.bets)

-- a message taken out of an inbox
taken :
    {fl : Float64} {M : Type 0} (s : ProcessSettings fl) (ref_of : M → RaceRef fl) (m : M)
    (rest inbox : List M)
    → inbox ≡ m ∷ rest
    → IsInbox s ref_of inbox
    → IsInbox s ref_of (m ∷ rest)
taken s ref_of m rest inbox e h = subst (IsInbox s ref_of) e h

module _ {fl : Float64} {tm : GoTime} where
  -- `running` is read without the lock, and says what `done` says under it.
  unfoldable pub IsSound : ProcessSettings fl → Process fl tm → Type 0
  IsSound s p =
      (p.settings ≡ s)
      × (p.running ≡ p.alive)
      × IsInbox s (λ m. m.1) p.triple_s
      × IsInbox s (λ m. m.ref) p.tpd

  abbrev pub IsInScope : ProcessSettings fl → Handled fl tm → Type 0
  IsInScope s (of_triple_s m acts) = IsSent s m.1 acts
  IsInScope s (of_tpd m acts) = IsSent s m.ref acts

  offer_triple_s-IsSound :
      (s : ProcessSettings fl) (m : RaceMessage fl) (ref : RaceRef fl) (p : Process fl tm)
      → IsSound s p
      → IsSound s (offer_triple_s m ref p).0
  unfolding IsSound offer_triple_s
  offer_triple_s-IsSound s m ref p h =
      if_case (λ (x : Process fl tm × Bool). IsSound s x.0) (not (wants ref p)) _ _ (λ w. h)
        (λ w.
          let staked = wants-IsStaked s ref p h.0 w in
          (h.0, h.1, send-IsInbox s (λ m. m.1) (m, ref) p.triple_s staked h.2, h.3))

  offer_tpd-IsSound :
      (s : ProcessSettings fl) (m : LeaderMessage fl tm) (p : Process fl tm)
      → IsSound s p
      → IsSound s (offer_tpd m p).0
  unfolding IsSound offer_tpd
  offer_tpd-IsSound s m p h =
      if_case (λ (x : Process fl tm × Bool). IsSound s x.0) (not (wants m.ref p)) _ _ (λ w. h)
        (λ w.
          let staked = wants-IsStaked s m.ref p h.0 w in
          (h.0, h.1, h.2, send-IsInbox s (λ m. m.ref) m p.tpd staked h.3))

  start-IsSound : (s : ProcessSettings fl) (p : Process fl tm) → IsSound s p → IsSound s (start p)
  unfolding IsSound start
  start-IsSound s p h = if_case (IsSound s) p.alive _ _ (λ a. h) (λ a. (h.0, refl, h.2, h.3))

  stop-IsSound : (s : ProcessSettings fl) (p : Process fl tm) → IsSound s p → IsSound s (stop p)
  unfolding IsSound stop
  stop-IsSound s p h = if_case (IsSound s) (not p.alive) _ _ (λ a. h) (λ a. (h.0, refl, h.2, h.3))

  module _ (get : RaceRef fl → Option (BetfairRace fl)) (s : ProcessSettings fl) where
    handle_triple_s-IsSound :
        (m : TripleSMsg fl) (p : Process fl tm)
        → IsSound s p
        → IsSound s (handle_triple_s get m p).0
    unfolding IsSound handle_triple_s run_triple_s scope_for
    handle_triple_s-IsSound m p h = ground (arith, h)

    handle_triple_s-IsSent :
        (m : TripleSMsg fl) (p : Process fl tm)
        → p.settings ≡ s
        → IsStaked s m.1
        → IsSent s m.1 (handle_triple_s get m p).1
    unfolding run_triple_s
    handle_triple_s-IsSent m p e h = elim (Option-cases (staked_scope p.settings m.1)) [
      | inl n ↦ absurd (ground (arith, n, e, h))
      | inr (scope, f) ↦
          rw (handle_triple_s-some get m p scope f) (act-IsSent s _ m.1 scope _ _ (rw (sym e) f))
    ]

  module _ (atoi : String → Option ℤ) (s : ProcessSettings fl) where
    handle_tpd-IsSound :
        (m : LeaderMessage fl tm) (p : Process fl tm)
        → IsSound s p
        → IsSound s (handle_tpd atoi m p).0
    unfolding IsSound handle_tpd run_tpd scope_for
    handle_tpd-IsSound m p h = ground (arith, h)

    handle_tpd-IsSent :
        (m : LeaderMessage fl tm) (p : Process fl tm)
        → p.settings ≡ s
        → IsStaked s m.ref
        → IsSent s m.ref (handle_tpd atoi m p).1
    unfolding run_tpd
    handle_tpd-IsSent m p e h = elim (Option-cases (staked_scope p.settings m.ref)) [
      | inl n ↦ absurd (ground (arith, n, e, h))
      | inr (scope, f) ↦
          rw (handle_tpd-some atoi m p scope f) (act-IsSent s _ m.ref scope _ none (rw (sym e) f))
    ]

  module _ (get : RaceRef fl → Option (BetfairRace fl)) (atoi : String → Option ℤ)
      (s : ProcessSettings fl) where
    Step-IsSound :
        {p q : Process fl tm} {hs : List (Handled fl tm)}
        → Step get atoi p hs q
        → IsSound s p
        → IsSound s q × All (IsInScope s) hs
    unfolding IsSound
    Step-IsSound {p = p} starts h = (start-IsSound s p h, tt)
    Step-IsSound {p = p} stops h = (stop-IsSound s p h, tt)
    Step-IsSound {p = p} (offers_triple_s m ref) h = (offer_triple_s-IsSound s m ref p h, tt)
    Step-IsSound {p = p} (offers_tpd m) h = (offer_tpd-IsSound s m p h, tt)
    Step-IsSound (exits d) h = (h, tt)
    Step-IsSound {p = p} (handles_triple_s m rest l e) h =
        let i = taken s (λ m. m.1) m rest p.triple_s e h.2 in
        (
          handle_triple_s-IsSound get s m (record p { triple_s = rest })
              (h.0, h.1, (omega (arith, i.0), i.1.1), h.3),
          (handle_triple_s-IsSent get s m (record p { triple_s = rest }) h.0 i.1.0, tt),
        )
    Step-IsSound {p = p} (handles_tpd m rest l e) h =
        let i = taken s (λ m. m.ref) m rest p.tpd e h.3 in
        (
          handle_tpd-IsSound atoi s m (record p { tpd = rest })
              (h.0, h.1, h.2, (omega (arith, i.0), i.1.1)),
          (handle_tpd-IsSent atoi s m (record p { tpd = rest }) h.0 i.1.0, tt),
        )

    pub Reach-IsSound :
        {p q : Process fl tm} {hs : List (Handled fl tm)}
        → Reach get atoi p hs q
        → IsSound s p
        → IsSound s q × All (IsInScope s) hs
    Reach-IsSound here h = (h, tt)
    Reach-IsSound (next {hs = hs} {hs' = hs'} st r) h =
        let before = Step-IsSound st h in
        let after = Reach-IsSound r before.0 in
        (after.0, All-append (IsInScope s) hs hs' before.1 after.1)

module _ (fl : Float64) (tm : GoTime) where
  pub new-IsSound :
      (s : ProcessSettings fl) (polls : Bool) → IsSound s (new {fl = fl} {tm = tm} s polls)
  unfolding IsSound new
  new-IsSound s polls = (refl, refl, (omega arith, tt), (omega arith, tt))

-- Whatever happens to a new process, in any order: it keeps its settings, `running` says whether its
-- context is live, neither inbox grows beyond 100 messages, every message in them is of a race whose
-- scope has a stake, and every bet of every message it handles is sent with the settings of the scope
-- of that message's race, which has a stake.
pub history-IsSound :
    {fl : Float64} {tm : GoTime} (get : RaceRef fl → Option (BetfairRace fl))
    (atoi : String → Option ℤ) (s : ProcessSettings fl) (polls : Bool) (hs : List (Handled fl tm))
    (p : Process fl tm)
    → Reach get atoi (new s polls) hs p
    → IsSound s p × All (IsInScope s) hs
history-IsSound {fl = fl} {tm = tm} get atoi s polls hs p r =
    Reach-IsSound get atoi s r (new-IsSound fl tm s polls)
