-- ===== src/Davo/Gate.antt =====
-- apps/_davo/engine/gate.go: which posts are worth a call of the vision service. `admit` holds the gate's
-- lock, so it is one step; `now` is a clock of nanoseconds that does not run backwards.
pub mod Budget
mod Tests
use Prim.Native.String
use pegasus_suite.Prelude.{
  ℕ, ◌+◌, ◌*◌, String, Bool, true, false, not, Option, none, some, List, [], ◌∷◌, ◌++◌, length,
  filter, ltb, leb, str_eq, if◌then◌else◌,
}
use pegasus_suite.Prelude.Assoc.{Assoc, lookup, insert, string_eq}
use pegasus_suite.Pegasus.Tpd.{byte_length}

abbrev pub max_tip_text_len : ℕ
max_tip_text_len = 500

abbrev pub second : ℕ
second = 1000000000

abbrev pub dedupe_ttl : ℕ
dedupe_ttl = 600 * second

abbrev pub max_calls_per_window : ℕ
max_calls_per_window = 300

abbrev pub rate_window : ℕ
rate_window = 3600 * second

pub record VisionGate : Type 0 where
  pub seen : Assoc String ℕ
  pub calls : List ℕ

unfoldable pub new_vision_gate : VisionGate
new_vision_gate = record { seen = []; calls = [] }

-- `photoUsable` of the id of a photo and a text; none is usable
unfoldable pub photo_usable : String → String → Option String
photo_usable photo_file_id text =
    if str_eq photo_file_id ""
    then some "no photo"
    else if ltb max_tip_text_len (byte_length text)
    then some "caption too long"
    else none

-- the first loop of `prune`: `now.Sub(at) > dedupeTTL`
unfoldable pub prune_seen : ℕ → Assoc String ℕ → Assoc String ℕ
prune_seen now [] = []
prune_seen now ((k, at) ∷ seen) =
    let rest = prune_seen now seen in if ltb (at + dedupe_ttl) now then rest else (k, at) ∷ rest

-- `at.After(now.Add(-rateWindow))`
abbrev pub in_window : ℕ → ℕ → Bool
in_window now at = ltb now (at + rate_window)

unfoldable pub prune : ℕ → VisionGate → VisionGate
prune now g = record { seen = prune_seen now g.seen; calls = filter (in_window now) g.calls }

-- `admit`: the gate that it leaves, and whether the call goes ahead
unfoldable pub admit : ℕ → String → VisionGate → VisionGate × Bool
admit now key g =
    let g' = prune now g in
    elim (lookup key g'.seen) [
      | some seen_at ↦ (g', false)
      | none ↦
          if leb max_calls_per_window (length g'.calls)
          then (g', false)
          else (record { seen = insert key now g'.seen; calls = g'.calls ++ now ∷ [] }, true)
    ]

-- `photoKey`
unfoldable pub photo_key : String → String
photo_key file_id = String.◌++◌ "photo:" file_id
