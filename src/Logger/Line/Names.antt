-- ===== src/Logger/Line/Names.antt =====
-- logger/record.go `splitFuncName`.
use Prim.Native.Char.{code}
use Prim.Native.String
use text.Mathlib.TextLemmas.{nil-append, cons-append, append_assoc}
use text.Mathlib.TextEquality.{Char-path}
use pegasus_suite.Prelude.{
  String, ◌≡◌, refl, sym, ap, ◌∙◌, ◌⊎◌, inl, inr, some, ◌==◌, ==_iff, arith, Bool-cases,
  Option-cases, option_case,
}
use pegasus_suite.Logger.Line.{cut_dot, after_last_slash, split_func_name, cut_there}

cut_dot-joins : (s a b : String) → cut_dot s ≡ some (a, b) → String.◌++◌ a (String.◌∷◌ "." b) ≡ s
unfolding cut_dot
cut_dot-joins String.[] a b h = absurd cc
cut_dot-joins (String.◌∷◌ c s) a b h = elim (Bool-cases (code c == b'.')) [
  | inl e ↦
      (let dot : c ≡ "." = Char-path c "." ((==_iff (code c) b'.').0 e) in
        let p : ("" ≡ a) × (s ≡ b) = ground (arith, h, e) in
        rw (sym p.0, nil-append, sym p.1, dot) refl)
  | inr e ↦ elim (Option-cases (cut_dot s)) [
    | inl n ↦ absurd (ground (arith, h, e, n))
    | inr ((x, y), f) ↦
        (let p : (String.◌∷◌ c x ≡ a) × (y ≡ b) = ground (arith, h, e, f) in
          rw (sym p.0, cons-append, sym p.1) (ap (String.◌∷◌ c) (cut_dot-joins s x y f)))
  ]
]

after_last_slash-joins : (s a b : String) → after_last_slash s ≡ some (a, b) → String.◌++◌ a b ≡ s
unfolding after_last_slash
after_last_slash-joins String.[] a b h = absurd cc
after_last_slash-joins (String.◌∷◌ c s) a b h = elim (Option-cases (after_last_slash s)) [
  | inr ((x, y), f) ↦
      (let p : (String.◌∷◌ c x ≡ a) × (y ≡ b) = ground (arith, h, f) in
        rw (sym p.0, cons-append, sym p.1) (ap (String.◌∷◌ c) (after_last_slash-joins s x y f)))
  | inl n ↦ elim (Bool-cases (code c == b'/')) [
    | inl e ↦
        (let slash : c ≡ "/" = Char-path c "/" ((==_iff (code c) b'/').0 e) in
          let p : ("/" ≡ a) × (s ≡ b) = ground (arith, h, n, e) in
          rw (sym p.0, sym p.1, slash) (cons-append "/" "" s ∙ ap (String.◌∷◌ "/") (nil-append s)))
    | inr e ↦ absurd (ground (arith, h, n, e))
  ]
]

abbrev pub Splits : String → String × String → Type 0
Splits name (pkg, fn) = (String.◌++◌ pkg (String.◌∷◌ "." fn) ≡ name) ⊎ ((pkg ≡ name) × (fn ≡ ""))

cut_there-Splits :
    (tail path name : String)
    → String.◌++◌ path tail ≡ name
    → Splits name (cut_there (cut_dot tail) tail path)
cut_there-Splits tail path name h = elim (Option-cases (cut_dot tail)) [
  | inl n ↦ rw n (inr (h, refl))
  | inr ((a, b), e) ↦ rw e (
      inl (
        append_assoc path a (String.◌∷◌ "." b)
        ∙ ap (String.◌++◌ path) (cut_dot-joins tail a b e)
        ∙ h))
]

-- The package path and the function that a qualified name splits into are the name around a dot; or,
-- without a dot behind its last slash, the whole name and no function.
pub split_func_name-Splits : (name : String) → Splits name (split_func_name name)
unfolding split_func_name
split_func_name-Splits name =
    option_case (Splits name) (after_last_slash name) _ _
      (λ n. cut_there-Splits name "" name (nil-append name))
      (λ (path, tail) e. cut_there-Splits tail path name (after_last_slash-joins name path tail e))
