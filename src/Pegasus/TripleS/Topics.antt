-- ===== src/Pegasus/TripleS/Topics.antt =====
-- apps/pegasus/triples/topics.go: the one scan of `TopicCode` against cutting the topic at its slashes.
use Prim.Native.Char.{Char, code}
use Prim.Native.String
use text.Mathlib.TextLemmas.{nil-append, cons-append}
use text.Mathlib.TextEquality.{Char-path}
use pegasus_suite.Prelude.{
  ◌≡◌, refl, ◌∙◌, ℕ, String, true, none, some, ◌==◌, arith, ==_iff, Bool-cases, inl, inr,
}
use pegasus_suite.Pegasus.Scope.{cut_slash}
use pegasus_suite.Pegasus.TripleS.{scan, topic_code}

-- the third and the fourth level of a topic, joined by a slash; nothing if there is no fourth level
unfoldable pub levels : String → String
levels topic = elim (cut_slash topic) [
  | none ↦ ""
  | some (l0, t1) ↦ elim (cut_slash t1) [
    | none ↦ ""
    | some (l1, t2) ↦ elim (cut_slash t2) [
      | none ↦ ""
      | some (l2, t3) ↦ elim (cut_slash t3) [
        | none ↦ String.◌++◌ l2 (String.◌∷◌ "/" t3)
        | some (l3, t4) ↦ String.◌++◌ l2 (String.◌∷◌ "/" l3)
      ]
    ]
  ]
]

scan-3 : (s : String) → scan 3 s ≡ (elim (cut_slash s) [ none ↦ (3, s) | some (l, t) ↦ (4, l) ])
unfolding scan cut_slash
scan-3 String.[] = refl
scan-3 (String.◌∷◌ c s) = ground (arith, scan-3 s)

-- the third level and the text behind its slash, as the scan leaves them
unfoldable join_levels : String → String → ℕ × String
join_levels l2 t3 = elim (cut_slash t3) [
  | none ↦ (3, String.◌++◌ l2 (String.◌∷◌ "/" t3))
  | some (l3, t4) ↦ (4, String.◌++◌ l2 (String.◌∷◌ "/" l3))
]

scan-slash :
    (c : Char) (s : String) → (code c == b'/') ≡ true → scan 2 (String.◌∷◌ c s) ≡ join_levels "" s
unfolding scan join_levels
scan-slash c s e =
    let slash : c ≡ "/" = Char-path c "/" ((==_iff (code c) b'/').0 e) in
    grind (arith, e, scan-3, slash, nil-append)

join_levels-cons :
    (c : Char) (l2 t3 : String)
    → join_levels (String.◌∷◌ c l2) t3 ≡ ((join_levels l2 t3).0, String.◌∷◌ c (join_levels l2 t3).1)
unfolding join_levels
join_levels-cons c l2 t3 = grind (arith, cons-append)

scan-2 :
    (s : String)
    → scan 2 s ≡ (elim (cut_slash s) [ none ↦ (2, s) | some (l2, t3) ↦ join_levels l2 t3 ])
unfolding scan cut_slash
scan-2 String.[] = refl
scan-2 (String.◌∷◌ c s) = elim (Bool-cases (code c == b'/')) [
  | inl b ↦ scan-slash c s b ∙ ground (arith, b)
  | inr b ↦ grind (arith, b, scan-2 s, join_levels-cons)
]

scan-1 :
    (s : String) → scan 1 s ≡ (elim (cut_slash s) [ none ↦ (1, "") | some (l1, t2) ↦ scan 2 t2 ])
unfolding scan cut_slash
scan-1 String.[] = refl
scan-1 (String.◌∷◌ c s) = ground (arith, scan-1 s)

scan-0 :
    (s : String) → scan 0 s ≡ (elim (cut_slash s) [ none ↦ (0, "") | some (l0, t1) ↦ scan 1 t1 ])
unfolding scan cut_slash
scan-0 String.[] = refl
scan-0 (String.◌∷◌ c s) = ground (arith, scan-0 s)

-- `TopicCode` returns the third and the fourth level of every topic, joined by a slash, and nothing
-- for a topic of fewer levels.
pub topic_code-levels : (topic : String) → topic_code topic ≡ levels topic
unfolding topic_code levels join_levels
topic_code-levels topic = grind (arith, scan-0, scan-1, scan-2)
