-- ===== src/Davo/Gate/Tests.antt =====
-- apps/_davo/engine/gate.go on three posts, one of them twice.
use pegasus_suite.Prelude.{ℕ, ◌≤◌, ◌≡◌, refl, String, List, [], ◌∷◌, length, filter, arith}
use pegasus_suite.Prelude.Assoc.{lookup, insert}
use pegasus_suite.Davo.Gate.{
  new_vision_gate, in_window, max_calls_per_window, admit, prune, prune_seen,
}
use pegasus_suite.Davo.Gate.Budget.{made_by, calls_per_window}

abbrev posts : List (ℕ × String)
posts = (1, "photo:a") ∷ (2, "photo:a") ∷ (2, "photo:b") ∷ []

calls_per_window_example :
    length (filter (in_window 5) (made_by posts new_vision_gate [])) ≤ max_calls_per_window
calls_per_window_example =
    calls_per_window posts 5 (omega arith, (omega arith, (omega arith, tt)))
      (omega arith, (omega arith, (omega arith, tt)))

repeat_refused : made_by posts new_vision_gate [] ≡ 1 ∷ 2 ∷ []
unfolding made_by new_vision_gate admit prune prune_seen lookup insert
repeat_refused = refl
