-- ===== src/Pegasus/Process/Steps.antt =====
-- apps/pegasus/process/process.go: what may happen to a process, in any order. A call runs under the
-- process's lock or reads an atomic; a run goroutine, current or cancelled, handles one message
-- at a time, and a select with a cancelled context and a message ready may take either. A cancelled
-- goroutine and the current one are taken not to be in a handler at once, which the code leaves to time.
use pegasus_suite.Prelude.{◌≡◌, ◌-◌, ◌<◌, ◌⊎◌, String, true, Option, List, [], ◌∷◌, ◌++◌}
use pegasus_suite.Prelude.Int.{ℤ}
use pegasus_suite.Prelude.Float.{Float64}
use pegasus_suite.Prelude.Time.{GoTime}
use pegasus_suite.Betting.{BetfairRace}
use pegasus_suite.Pegasus.Core.{RaceRef}
use pegasus_suite.Pegasus.Strategy.Field.{RaceMessage}
use pegasus_suite.Pegasus.Strategy.TpdLeader.Runs.{LeaderMessage}
use pegasus_suite.Pegasus.Process.{
  Process, TripleSMsg, Acts, offer_triple_s, offer_tpd, start, stop, handle_triple_s, handle_tpd,
}

module _ {fl : Float64} {tm : GoTime} where
  -- some run goroutine has not returned
  unfoldable pub HasLoop : Process fl tm → Type 0
  HasLoop p = (p.alive ≡ true) ⊎ (0 < p.draining)

-- a message that was handled, and what it led to
pub data Handled (fl : Float64) (tm : GoTime) : Type 0 where
  of_triple_s : TripleSMsg fl → Acts fl → Handled fl tm
  of_tpd : LeaderMessage fl tm → Acts fl → Handled fl tm

module _ {fl : Float64} {tm : GoTime} (get : RaceRef fl → Option (BetfairRace fl))
    (atoi : String → Option ℤ) where
  pub data Step (p : Process fl tm) : List (Handled fl tm) → Process fl tm → Type 0 where
    starts : Step p [] (start p)
    stops : Step p [] (stop p)
    offers_triple_s : (m : RaceMessage fl) (ref : RaceRef fl) → Step p [] (offer_triple_s m ref p).0
    offers_tpd : (m : LeaderMessage fl tm) → Step p [] (offer_tpd m p).0
    exits : 0 < p.draining → Step p [] (record p { draining = p.draining - 1 })
    handles_triple_s :
        (m : TripleSMsg fl) (rest : List (TripleSMsg fl))
        → HasLoop p
        → p.triple_s ≡ m ∷ rest
        → Step p
            (of_triple_s m (handle_triple_s get m (record p { triple_s = rest })).1 ∷ [])
            (handle_triple_s get m (record p { triple_s = rest })).0
    handles_tpd :
        (m : LeaderMessage fl tm) (rest : List (LeaderMessage fl tm))
        → HasLoop p
        → p.tpd ≡ m ∷ rest
        → Step p
            (of_tpd m (handle_tpd atoi m (record p { tpd = rest })).1 ∷ [])
            (handle_tpd atoi m (record p { tpd = rest })).0

  -- any number of steps, with the messages handled, in order
  pub data Reach : Process fl tm → List (Handled fl tm) → Process fl tm → Type 0 where
    here : {p : Process fl tm} → Reach p [] p
    next :
        {hs hs' : List (Handled fl tm)} {p q r : Process fl tm}
        → Step p hs q
        → Reach q hs' r
        → Reach p (hs ++ hs') r
