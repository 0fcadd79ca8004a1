-- ===== src/Pegasus/Scope/RoundTrip.antt =====
-- apps/pegasus/core/scope.go: `ScopeKey` and `SplitScopeKey` undo each other.
use Prim.Native.Char.{code}
use Prim.Native.String
use text.Mathlib.TextLemmas.{nil-append, cons-append}
use text.Mathlib.TextEquality.{Char-path}
use pegasus_suite.Prelude.{
  ◌≡◌, ◌≢◌, refl, sym, ap, ◌∙◌, inl, inr, String, Bool, true, false, ◌||◌, some, ◌==◌, str_eq,
  str_eq_iff, Bool-cases, Option-cases, ==_iff, arith,
}
use pegasus_suite.Prelude.Text.{has_slash}
use pegasus_suite.Betting.{
  RacingCode, thoroughbred, harness, greyhounds, other_code, is_thoroughbred, is_harness,
}
use pegasus_suite.Pegasus.Scope.{scope_key, cut_slash, code_of, split_scope_key}

pub cut_slash-append :
    (s t : String)
    → has_slash s ≡ false
    → cut_slash (String.◌++◌ s (String.◌∷◌ "/" t)) ≡ some (s, t)
unfolding cut_slash has_slash
cut_slash-append String.[] t h = rw nil-append refl
cut_slash-append (String.◌∷◌ c s) t h =
    let ih = cut_slash-append s t (ground (arith, h)) in rw cons-append (rw ih (ground (arith, h)))

-- what the cut leaves is the text around its first slash
pub cut_slash-joins :
    (key a b : String)
    → cut_slash key ≡ some (a, b)
    → (String.◌++◌ a (String.◌∷◌ "/" b) ≡ key) × (has_slash a ≡ false)
unfolding cut_slash has_slash
cut_slash-joins String.[] a b h = ground (arith, h)
cut_slash-joins (String.◌∷◌ c s) a b h = elim (Bool-cases (code c == b'/')) [
  | inl e ↦
      (let slash : c ≡ "/" = Char-path c "/" ((==_iff (code c) b'/').0 e) in
        let p : ("" ≡ a) × (s ≡ b) = ground (arith, h, e) in
        (rw (sym p.0, nil-append, sym p.1, slash) refl, rw (sym p.0) refl))
  | inr e ↦ elim (Option-cases (cut_slash s)) [
    | inl n ↦ ground (arith, h, e, n)
    | inr ((x, y), f) ↦
        (let (joins, free) = cut_slash-joins s x y f in
          let p : (String.◌∷◌ c x ≡ a) × (y ≡ b) = ground (arith, h, e, f) in
          (
            rw (sym p.0, cons-append, sym p.1) (ap (String.◌∷◌ c) joins),
            rw (sym p.0) (ground (arith, free, e)),
          ))
  ]
]

-- the two codes that a scope names
abbrev pub is_staked : RacingCode → Bool
is_staked code = is_thoroughbred code || is_harness code

-- A scope key splits into the country and the code that it is built from, if the country is not
-- empty and has no slash and the code is one of the two that scopes name.
pub split_scope_key-scope_key :
    (country : String) (code : RacingCode)
    → country ≢ ""
    → has_slash country ≡ false
    → is_staked code ≡ true
    → split_scope_key (scope_key country code) ≡ some (country, code)
unfolding split_scope_key scope_key
split_scope_key-scope_key country thoroughbred n h s =
    rw (split_scope_key, scope_key, cut_slash-append country "THOROUGHBRED" h)
      (ground (arith, str_eq_iff country ""))
split_scope_key-scope_key country harness n h s =
    rw (split_scope_key, scope_key, cut_slash-append country "HARNESS" h)
      (ground (arith, str_eq_iff country ""))
split_scope_key-scope_key country greyhounds n h s = ground (arith, s)
split_scope_key-scope_key country (other_code c) n h s = ground (arith, s)

code_of-scope_key :
    (country b : String) (code : RacingCode)
    → code_of b ≡ some code
    → (scope_key country code ≡ String.◌++◌ country (String.◌∷◌ "/" b)) × (is_staked code ≡ true)
unfolding scope_key
code_of-scope_key country b code h = elim (Bool-cases (str_eq b "THOROUGHBRED")) [
  | inl e ↦
      (let c : thoroughbred ≡ code = ground (arith, h, e) in
        rw (sym c, (str_eq_iff b "THOROUGHBRED").0 e) (refl, refl))
  | inr e ↦ elim (Bool-cases (str_eq b "HARNESS")) [
    | inl f ↦
        (let c : harness ≡ code = ground (arith, h, e, f) in
          rw (sym c, (str_eq_iff b "HARNESS").0 f) (refl, refl))
    | inr f ↦ ground (arith, h, e, f)
  ]
]

-- Every key that splits is the key of the country and the code that it splits into; the country is
-- not empty and has no slash, and the code is one of the two that scopes name.
pub scope_key-split_scope_key :
    (key country : String) (code : RacingCode)
    → split_scope_key key ≡ some (country, code)
    → (scope_key country code ≡ key)
      × (country ≢ "")
      × (has_slash country ≡ false)
      × (is_staked code ≡ true)
unfolding split_scope_key scope_key
scope_key-split_scope_key key country code h = elim (Option-cases (cut_slash key)) [
  | inl n ↦ ground (arith, h, n)
  | inr ((a, b), e) ↦
      (let (joins, free) = cut_slash-joins key a b e in
        let same : a ≡ country = ground (arith, h, e) in
        let (k, s) = code_of-scope_key country b code (ground (arith, h, e)) in
        (
          k ∙ ap (λ c. String.◌++◌ c (String.◌∷◌ "/" b)) (sym same) ∙ joins,
          λ n. ground (arith, h, e, n, str_eq_iff a ""),
          rw (sym same) free,
          s,
        ))
]
