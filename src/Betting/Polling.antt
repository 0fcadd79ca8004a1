-- ===== src/Betting/Polling.antt =====
-- betting/betfair/races.go: the loops that poll the prices of a race. A loop has its own context, named
-- by a number; `cancels` is the register of the contexts by race. What is done to the register runs under
-- `runnerMu`; a cancel function that was taken out of it is called later, without the lock.
pub mod Once
use pegasus_suite.Prelude.{
  ◌≡◌, ℕ, suc, String, Bool, true, false, not, ◌&&◌, ◌||◌, Option, none, some, List, [], ◌∷◌, ◌==◌,
  map, filter, if◌then◌else◌,
}
use pegasus_suite.Prelude.Assoc.{Assoc, string_eq, lookup, insert, erase}

pub record Loop : Type 0 where
  pub context : ℕ
  pub key : String
  pub cancelled : Bool

pub record Polling : Type 0 where
  pub cancels : Assoc String ℕ
  -- the contexts taken out of the register whose cancel function is still to be called
  pub taken : List ℕ
  -- the goroutines of `runnerUpdateLoop` that have not returned
  pub loops : List Loop
  pub next_context : ℕ

abbrev pub no_polling : Polling
no_polling = record { cancels = []; taken = []; loops = []; next_context = 0 }

-- `cancel()` of one context
unfoldable pub cancel : ℕ → List Loop → List Loop
cancel context [] = []
cancel context (l ∷ rest) =
    record l { cancelled = l.cancelled || (l.context == context) } ∷ cancel context rest

-- the parent context ends
unfoldable pub cancel_all : List Loop → List Loop
cancel_all [] = []
cancel_all (l ∷ rest) = record l { cancelled = true } ∷ cancel_all rest

-- `StartRunnerUpdates`, by whether the race is loaded
unfoldable pub start : Bool → String → Polling → Polling
start false key p = p
start true key p = elim (lookup key p.cancels) [
  | some context ↦ p
  | none ↦ record p {
    cancels = insert key p.next_context p.cancels;
    loops = record { context = p.next_context; key = key; cancelled = false } ∷ p.loops;
    next_context = suc p.next_context;
  }
]

-- `stopRunnerUpdates`, up to the unlock
unfoldable pub stop : String → Polling → Polling
stop key p = elim (lookup key p.cancels) [
  | none ↦ record p { cancels = erase key p.cancels }
  | some context ↦ record p { cancels = erase key p.cancels; taken = context ∷ p.taken }
]

-- the range over the register in `stopAllRunnerUpdates`
unfoldable pub take_each : Assoc String ℕ → List ℕ → List ℕ
take_each [] taken = taken
take_each ((key, context) ∷ rest) taken = context ∷ take_each rest taken

-- `stopAllRunnerUpdates`, up to the unlock
unfoldable pub stop_all : Polling → Polling
unfolding take_each
stop_all p = record p { cancels = []; taken = take_each p.cancels p.taken }

unfoldable pub remove : ℕ → List ℕ → List ℕ
remove context [] = []
remove context (c ∷ rest) =
    let others = remove context rest in if c == context then others else c ∷ others

-- the `cancel()` of both, behind the unlock
unfoldable pub call : ℕ → Polling → Polling
unfolding cancel remove
call context p = record p { taken = remove context p.taken; loops = cancel context p.loops }

-- `runnerUpdateLoop` returns, which runs its deferred `stopRunnerUpdates`, up to the unlock
unfoldable pub exit : Loop → Polling → Polling
unfolding stop
exit l p =
    stop l.key (record p { loops = filter (λ other. not (other.context == l.context)) p.loops })

unfoldable pub has : ℕ → List ℕ → Bool
has context [] = false
has context (c ∷ rest) = (c == context) || has context rest

-- What may happen, in any order. A loop returns when its context is cancelled or its market closed.
pub data Step (p : Polling) : Polling → Type 0 where
  starts : (loaded : Bool) (key : String) → Step p (start loaded key p)
  stops : (key : String) → Step p (stop key p)
  stops_all : Step p (stop_all p)
  calls : (context : ℕ) → has context p.taken ≡ true → Step p (call context p)
  parent_ends : Step p (record p { loops = cancel_all p.loops })
  exits : (l : Loop) → Step p (exit l p)

pub data Reach : Polling → Polling → Type 0 where
  here : {p : Polling} → Reach p p
  next : {p q r : Polling} → Step p q → Reach q r → Reach p r
