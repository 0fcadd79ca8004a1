-- ===== src/Betting/Polling/Once.antt =====
-- betting/betfair/races.go: how many loops poll one race.
use pegasus_suite.Prelude.{
  ◌≡◌, sym, ap, ◌∙◌, ◌⊎◌, inl, inr, ◌==◌, str_eq, Bool-cases, ℕ, String, Bool, true, false, none,
  some, List, [], ◌∷◌, filter, arith, All, option_case, if_case,
}
use pegasus_suite.Prelude.Assoc.{
  Assoc, string_eq, lookup, insert, erase, lookup-insert, lookup-insert_self, lookup-erase,
}
use pegasus_suite.Betting.Polling.{
  Loop, Polling, no_polling, cancel, cancel_all, start, stop, take_each, stop_all, remove, call,
  exit, has, Step, starts, stops, stops_all, calls, parent_ends, exits, Reach, here, next,
}

-- a loop that is not cancelled has the context that the register has for its race, or one that was taken
-- out of the register and is about to be cancelled
pub IsKnown : Assoc String ℕ → List ℕ → Loop → Type 0
IsKnown cancels taken l =
    l.cancelled ≡ false → (lookup l.key cancels ≡ some l.context) ⊎ (has l.context taken ≡ true)

pub IsRegistered : Polling → Type 0
IsRegistered p = All (IsKnown p.cancels p.taken) p.loops

All-implies :
    (P Q : Loop → Type 0) (loops : List Loop) → ((l : Loop) → P l → Q l) → All P loops → All Q loops
All-implies P Q [] f h = tt
All-implies P Q (l ∷ loops) f h = (f l h.0, All-implies P Q loops f h.1)

start-IsKnown :
    (key : String) (n : ℕ) (cancels : Assoc String ℕ) (taken : List ℕ) (l : Loop)
    → lookup key cancels ≡ none
    → IsKnown cancels taken l
    → IsKnown (insert key n cancels) taken l
unfolding IsKnown
start-IsKnown key n cancels taken l e h c = elim (h c) [
  | inl f ↦
      inl (ground (arith, e, f, lookup-insert key l.key n cancels, string_eq.beq_iff key l.key))
  | inr f ↦ inr f
]

stop-IsKnown :
    (key : String) (context : ℕ) (cancels : Assoc String ℕ) (taken : List ℕ) (l : Loop)
    → lookup key cancels ≡ some context
    → IsKnown cancels taken l
    → IsKnown (erase key cancels) (context ∷ taken) l
unfolding IsKnown has
stop-IsKnown key context cancels taken l e h c = elim (h c) [
  | inr f ↦ inr (ground (arith, f))
  | inl f ↦ elim (Bool-cases (string_eq.beq key l.key)) [
    | inl b ↦
        (let same : some context ≡ some l.context =
            sym e ∙ ap (λ k. lookup k cancels) ((string_eq.beq_iff key l.key).0 b) ∙ f in
          inr (ground (arith, same)))
    | inr b ↦ inl (ground (arith, f, b, lookup-erase key l.key cancels))
  ]
]

erase-IsKnown :
    (key : String) (cancels : Assoc String ℕ) (taken : List ℕ) (l : Loop)
    → lookup key cancels ≡ none
    → IsKnown cancels taken l
    → IsKnown (erase key cancels) taken l
unfolding IsKnown
erase-IsKnown key cancels taken l e h c = elim (h c) [
  | inl f ↦ inl (ground (arith, e, f, lookup-erase key l.key cancels, string_eq.beq_iff key l.key))
  | inr f ↦ inr f
]

take_each-has :
    (key : String) (context : ℕ) (cancels : Assoc String ℕ) (taken : List ℕ)
    → (lookup key cancels ≡ some context) ⊎ (has context taken ≡ true)
    → has context (take_each cancels taken) ≡ true
unfolding take_each has lookup
take_each-has key context [] taken (inl e) = absurd cc
take_each-has key context [] taken (inr e) = e
take_each-has key context ((j, c) ∷ rest) taken (inr e) =
    ground (arith, take_each-has key context rest taken (inr e))
take_each-has key context ((j, c) ∷ rest) taken (inl e) = elim (Bool-cases (str_eq j key)) [
  | inl b ↦ ground (arith, e, b)
  | inr b ↦ ground (arith, take_each-has key context rest taken (inl (ground (arith, e, b))))
]

remove-has :
    (c context : ℕ) (taken : List ℕ)
    → has c taken ≡ true
    → (c == context) ≡ false
    → has c (remove context taken) ≡ true
unfolding remove has
remove-has c context [] h n = h
remove-has c context (d ∷ rest) h n = elim (Bool-cases (has c rest)) [
  | inl b ↦ ground (arith, remove-has c context rest b n)
  | inr b ↦ ground (arith, h, n, b)
]

call-IsKnown :
    (context : ℕ) (cancels : Assoc String ℕ) (taken : List ℕ) (loops : List Loop)
    → All (IsKnown cancels taken) loops
    → All (IsKnown cancels (remove context taken)) (cancel context loops)
unfolding cancel IsKnown
call-IsKnown context cancels taken [] h = tt
call-IsKnown context cancels taken (l ∷ loops) h = (
  λ c. elim (h.0 (ground (arith, c))) [
    | inl f ↦ inl f
    | inr f ↦ inr (remove-has l.context context taken f (ground (arith, c)))
  ],
  call-IsKnown context cancels taken loops h.1,
)

filter-All {κ} :
    (P : Loop → Type κ) (test : Loop → Bool) (loops : List Loop)
    → All P loops
    → All P (filter test loops)
filter-All P test [] h = tt
filter-All P test (l ∷ loops) h =
    if_case (All P) (test l) _ _ (λ b. (h.0, filter-All P test loops h.1))
      (λ b. filter-All P test loops h.1)

cancel_all-All :
    (cancels : Assoc String ℕ) (taken : List ℕ) (loops : List Loop)
    → All (IsKnown cancels taken) (cancel_all loops)
unfolding cancel_all IsKnown
cancel_all-All cancels taken [] = tt
cancel_all-All cancels taken (l ∷ loops) = (λ c. absurd cc, cancel_all-All cancels taken loops)

stop-IsRegistered : (key : String) (p : Polling) → IsRegistered p → IsRegistered (stop key p)
unfolding IsRegistered stop
stop-IsRegistered key p h =
    option_case IsRegistered (lookup key p.cancels) _ _
      (λ e. All-implies _ _ p.loops (λ l. erase-IsKnown key p.cancels p.taken l e) h)
      (λ context e. All-implies _ _ p.loops (λ l. stop-IsKnown key context p.cancels p.taken l e) h)

start-IsRegistered :
    (loaded : Bool) (key : String) (p : Polling)
    → IsRegistered p
    → IsRegistered (start loaded key p)
unfolding IsRegistered IsKnown start
start-IsRegistered false key p h = h
start-IsRegistered true key p h =
    option_case IsRegistered (lookup key p.cancels) _ _
      (λ e. (
        λ c. inl (lookup-insert_self key p.next_context p.cancels),
        All-implies _ _ p.loops (λ l. start-IsKnown key p.next_context p.cancels p.taken l e) h,
      ))
      (λ context e. h)

Step-IsRegistered : {p q : Polling} → Step p q → IsRegistered p → IsRegistered q
unfolding IsRegistered IsKnown stop_all exit call
Step-IsRegistered {p = p} (starts loaded key) h = start-IsRegistered loaded key p h
Step-IsRegistered {p = p} (stops key) h = stop-IsRegistered key p h
Step-IsRegistered {p = p} stops_all h =
    All-implies _ _ p.loops (λ l k c. inr (take_each-has l.key l.context p.cancels p.taken (k c))) h
Step-IsRegistered {p = p} (calls context e) h = call-IsKnown context p.cancels p.taken p.loops h
Step-IsRegistered {p = p} parent_ends h = cancel_all-All p.cancels p.taken p.loops
Step-IsRegistered {p = p} (exits l) h =
    stop-IsRegistered l.key _ (filter-All (IsKnown p.cancels p.taken) _ p.loops h)

Reach-IsRegistered : {p q : Polling} → Reach p q → IsRegistered p → IsRegistered q
Reach-IsRegistered here h = h
Reach-IsRegistered (next st r) h = Reach-IsRegistered r (Step-IsRegistered st h)

-- Whatever starts, stops and returns of loops happen to a new client, in any order, with the cancel
-- functions that the stops take out of the register called at any later time: a loop that is not
-- cancelled has the context that the register has for its race, or one that a stop took out of the
-- register and that is still to be cancelled.
pub history-IsRegistered : (p : Polling) → Reach no_polling p → IsRegistered p
unfolding IsRegistered
history-IsRegistered p r = Reach-IsRegistered r tt
