-- ===== src/Logger/Ring/Tests.antt =====
-- logger/ring.go on a ring of two slots.
use pegasus_suite.Prelude.{◌≡◌, ℕ, Bool, some, [], ◌∷◌, filter, ltb, arith}
use pegasus_suite.Prelude.Int.{pos}
use pegasus_suite.Logger.Ring.{Buffer, new_ring, recent, reverse}
use pegasus_suite.Logger.Ring.Refine.{add_all, last}
use pegasus_suite.Logger.Ring.Recent.{up_to, recent_lem}

abbrev above_one : ℕ → Bool
above_one n = ltb 1 n

recent_lem_example :
    (r : Buffer ℕ) × (add_all (5 ∷ 1 ∷ 7 ∷ []) (new_ring 0 2) ≡ some r)
    × (recent above_one (pos 3) r
        ≡ up_to (pos 3) (filter above_one (reverse (last 2 (5 ∷ 1 ∷ 7 ∷ [])))))
recent_lem_example = recent_lem 0 2 (5 ∷ 1 ∷ 7 ∷ []) above_one (pos 3) (omega arith)
