-- ===== src/Prelude/Text.antt =====
-- Go's package strings on native text: prefixes, suffixes and slashes.
use Prim.Native.Char.{code}
use Prim.Native.String
use text.Mathlib.TextLemmas.{nil-append, cons-append, append_cancel_right, cons≢nil}
use text.Mathlib.TextEquality.{Char-path}
use pegasus_suite.Prelude.Tests.{if◌then◌else◌, ◌==◌, ==_iff, Bool-cases, Option-cases}
use Prim.Native.String.{String}
use mathlib.Core.Path.{◌≡◌, refl, sym, ap, ◌∙◌}
use mathlib.Core.Logic.{inl, inr}
use mathlib.Core.Bool.{Bool, true, false, ◌||◌}
use mathlib.Core.Option.{Option, none, some}
use native.Mathlib.Omega.{arith}
use text.Mathlib.Text.{◌==◌ as str_eq}
use text.Mathlib.TextEquality.{eq_iff as str_eq_iff}

-- `s[len(p):]` where `strings.HasPrefix(s, p)`
unfoldable pub strip_prefix : String → String → Option String
strip_prefix String.[] s = some s
strip_prefix (String.◌∷◌ c p) String.[] = none
strip_prefix (String.◌∷◌ c p) (String.◌∷◌ d s) =
    let rest = strip_prefix p s in if code c == code d then rest else none

-- `strings.TrimPrefix(s, p)`
abbrev pub trim_prefix : String → String → String
trim_prefix p s = elim (strip_prefix p s) [ none ↦ s | some rest ↦ rest ]

abbrev pub cons_some : Prim.Native.Char.Char → Option String → Option String
cons_some c none = none
cons_some c (some s) = some (String.◌∷◌ c s)

-- `s[:len(s)-len(e)]` where `strings.HasSuffix(s, e)`
unfoldable pub strip_suffix : String → String → Option String
strip_suffix e String.[] = if str_eq "" e then some "" else none
strip_suffix e (String.◌∷◌ c s) =
    let rest = cons_some c (strip_suffix e s) in if str_eq (String.◌∷◌ c s) e then some "" else rest

-- `strings.TrimSuffix(s, e)`
abbrev pub trim_suffix : String → String → String
trim_suffix e s = elim (strip_suffix e s) [ none ↦ s | some rest ↦ rest ]

-- `strings.Contains(s, "/")`
unfoldable pub has_slash : String → Bool
has_slash String.[] = false
has_slash (String.◌∷◌ c s) = let rest = has_slash s in if code c == b'/' then true else rest

pub strip_prefix-append : (p s : String) → strip_prefix p (String.◌++◌ p s) ≡ some s
unfolding strip_prefix
strip_prefix-append String.[] s = rw nil-append refl
strip_prefix-append (String.◌∷◌ c p) s =
    rw cons-append (ground (arith, strip_prefix-append p s, ==_iff (code c) (code c)))

pub strip_prefix-joins : (p s rest : String) → strip_prefix p s ≡ some rest → String.◌++◌ p rest ≡ s
unfolding strip_prefix
strip_prefix-joins String.[] s rest h = rw nil-append (ground (arith, h))
strip_prefix-joins (String.◌∷◌ c p) String.[] rest h = absurd cc
strip_prefix-joins (String.◌∷◌ c p) (String.◌∷◌ d s) rest h = elim (Bool-cases (code c == code d)) [
  | inl e ↦
      (let same : c ≡ d = Char-path c d ((==_iff (code c) (code d)).0 e) in
        rw (cons-append, same)
          (ap (String.◌∷◌ d) (strip_prefix-joins p s rest (ground (arith, h, e)))))
  | inr e ↦ absurd (ground (arith, h, e))
]

pub strip_suffix-append : (a e : String) → strip_suffix e (String.◌++◌ a e) ≡ some a
unfolding strip_suffix
strip_suffix-append String.[] e = rw nil-append (at_end e)
  where
    at_end : (e : String) → strip_suffix e e ≡ some ""
    at_end String.[] = ground (arith, str_eq_iff "" "")
    at_end (String.◌∷◌ c e) = ground (arith, str_eq_iff (String.◌∷◌ c e) (String.◌∷◌ c e))
strip_suffix-append (String.◌∷◌ c a) e =
    elim (Bool-cases (str_eq (String.◌∷◌ c (String.◌++◌ a e)) e)) [
      | inl b ↦
          (let same : String.◌∷◌ c (String.◌++◌ a e) ≡ e = (str_eq_iff _ _).0 b in
            let cut : String.◌++◌ (String.◌∷◌ c a) e ≡ String.◌++◌ "" e =
              cons-append c a e ∙ same ∙ sym (nil-append e) in
            absurd (cons≢nil (append_cancel_right (String.◌∷◌ c a) "" e cut)))
      | inr b ↦ rw cons-append (ground (arith, b, strip_suffix-append a e))
    ]

pub strip_suffix-joins : (e s a : String) → strip_suffix e s ≡ some a → String.◌++◌ a e ≡ s
unfolding strip_suffix
strip_suffix-joins e String.[] a h = elim (Bool-cases (str_eq "" e)) [
  | inl b ↦
      (let empty : "" ≡ a = ground (arith, h, b) in
        ap (λ x. String.◌++◌ x e) (sym empty) ∙ nil-append e ∙ sym ((str_eq_iff "" e).0 b))
  | inr b ↦ absurd (ground (arith, h, b))
]
strip_suffix-joins e (String.◌∷◌ c s) a h = elim (Bool-cases (str_eq (String.◌∷◌ c s) e)) [
  | inl b ↦
      (let empty : "" ≡ a = ground (arith, h, b) in
        ap (λ x. String.◌++◌ x e) (sym empty)
        ∙ nil-append e
        ∙ sym ((str_eq_iff (String.◌∷◌ c s) e).0 b))
  | inr b ↦ elim (Option-cases (strip_suffix e s)) [
    | inl n ↦ absurd (ground (arith, h, b, n))
    | inr (x, f) ↦
        (let first : String.◌∷◌ c x ≡ a = ground (arith, h, b, f) in
          ap (λ y. String.◌++◌ y e) (sym first)
          ∙ cons-append c x e
          ∙ ap (String.◌∷◌ c) (strip_suffix-joins e s x f))
  ]
]

pub has_slash-append : (a b : String) → has_slash (String.◌++◌ a b) ≡ (has_slash a || has_slash b)
unfolding has_slash
has_slash-append String.[] b = rw nil-append refl
has_slash-append (String.◌∷◌ c a) b = rw cons-append (ground (arith, has_slash-append a b))

pub trim_prefix-append : (p s : String) → trim_prefix p (String.◌++◌ p s) ≡ s
trim_prefix-append p s = ground (arith, strip_prefix-append p s)

pub trim_suffix-append : (s e : String) → trim_suffix e (String.◌++◌ s e) ≡ s
trim_suffix-append s e = ground (arith, strip_suffix-append s e)
