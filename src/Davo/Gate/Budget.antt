-- ===== src/Davo/Gate/Budget.antt =====
-- apps/_davo/engine/gate.go: the budget of calls, over any sequence of posts.
use pegasus_suite.Prelude.{
  ℕ, ◌≤◌, String, ◌≡◌, refl, ap, ◌∙◌, Bool, List, [], ◌∷◌, ◌++◌, All, length, length-append, filter,
  leb, arith, if_case, option_case, if◌then◌else◌,
}
use pegasus_suite.Prelude.Assoc.{lookup, string_eq}
use pegasus_suite.Davo.Gate.{
  VisionGate, new_vision_gate, prune, admit, in_window, max_calls_per_window,
}

-- the posts, each with the time at which the gate is asked; the clock does not run backwards
abbrev pub Ordered : ℕ → List (ℕ × String) → Type 0
Ordered past [] = Unit
Ordered past ((now, key) ∷ posts) = (past ≤ now) × Ordered now posts

-- the times of the calls that go ahead, after those made before
unfoldable pub made_by : List (ℕ × String) → VisionGate → List ℕ → List ℕ
made_by [] g made = made
made_by ((now, key) ∷ posts) g made =
    let (g', admitted) = admit now key g in
    made_by posts g' (if admitted then made ++ now ∷ [] else made)

filter-append : (p : ℕ → Bool) (xs ys : List ℕ) → filter p (xs ++ ys) ≡ filter p xs ++ filter p ys
filter-append p [] ys = refl
filter-append p (x ∷ xs) ys = ground (arith, filter-append p xs ys)

-- Of the calls in an earlier window, those in a later one are those of all calls.
filter-later :
    (past now : ℕ) (made : List ℕ)
    → past ≤ now
    → filter (in_window now) (filter (in_window past) made) ≡ filter (in_window now) made
filter-later past now [] l = refl
filter-later past now (t ∷ made) l = ground (arith, l, filter-later past now made l)

-- The gate holds the calls made in the hour before, and there are at most 300.
abbrev IsWithin : ℕ → VisionGate × List ℕ → Type 0
IsWithin now (g, made) =
    (g.calls ≡ filter (in_window now) made) × (length g.calls ≤ max_calls_per_window)

length-filter : (p : ℕ → Bool) (xs : List ℕ) → length (filter p xs) ≤ length xs
length-filter p [] = omega arith
length-filter p (x ∷ xs) = ground (arith, length-filter p xs)

prune-IsWithin :
    (past now : ℕ) (g : VisionGate) (made : List ℕ)
    → past ≤ now
    → IsWithin past (g, made)
    → IsWithin now (prune now g, made)
unfolding prune
prune-IsWithin past now g made l (e, n) = (
  ap (filter (in_window now)) e ∙ filter-later past now made l,
  omega (arith, n, length-filter (in_window now) g.calls),
)

admit-IsWithin :
    (past now : ℕ) (key : String) (g : VisionGate) (made : List ℕ)
    → past ≤ now
    → IsWithin past (g, made)
    → let (g', admitted) = admit now key g in
      IsWithin now (g', if admitted then made ++ now ∷ [] else made)
unfolding admit
admit-IsWithin past now key g made l w =
    let P : VisionGate × Bool → Type 0 =
      λ r. IsWithin now (r.0, if r.1 then made ++ now ∷ [] else made) in
    let (e, n) = prune-IsWithin past now g made l w in
    option_case P (lookup key (prune now g).seen) _ _
      (λ m.
        if_case P (leb max_calls_per_window (length (prune now g).calls)) _ _ (λ b. (e, n))
          (λ b. (
            ap (λ c. c ++ now ∷ []) e
                ∙ ground (arith, filter-append (in_window now) made (now ∷ [])),
            ground (arith, b, length-append (prune now g).calls (now ∷ [])),
          )))
      (λ at m. (e, n))

made_by-le :
    (past t : ℕ) (posts : List (ℕ × String)) (g : VisionGate) (made : List ℕ)
    → Ordered past posts
    → All (λ (p : ℕ × String). p.0 ≤ t) posts
    → past ≤ t
    → IsWithin past (g, made)
    → length (filter (in_window t) (made_by posts g made)) ≤ max_calls_per_window
unfolding made_by
made_by-le past t [] g made o b l w = omega (
  arith,
  ap length (ap (filter (in_window t)) w.0 ∙ filter-later past t made l),
  length-filter (in_window t) g.calls,
  w.1,
)
made_by-le past t ((now, key) ∷ posts) g made (l, o) (b, bs) m w =
    made_by-le now t posts (admit now key g).0 _ o bs b (admit-IsWithin past now key g made l w)

-- Whatever posts come, at any time in or after them at most 300 calls went ahead in the hour before, if
-- the clock does not run backwards.
pub calls_per_window :
    (posts : List (ℕ × String)) (t : ℕ)
    → Ordered 0 posts
    → All (λ (p : ℕ × String). p.0 ≤ t) posts
    → length (filter (in_window t) (made_by posts new_vision_gate [])) ≤ max_calls_per_window
unfolding new_vision_gate
calls_per_window posts t o b =
    made_by-le 0 t posts new_vision_gate [] o b (omega arith) (refl, omega arith)
