-- ===== src/Clients/Doc/Keys.antt =====
-- clients/doc/doc.go: keys of different documents are different.
use Prim.Native.Char.{Char, code}
use Prim.Native.String
use text.Mathlib.TextLemmas.{
  append_cancel_left, append_cancel_right, append_assoc, cons-append, cons-eq-cons,
}
use pegasus_suite.Prelude.{
  String, ◌≡◌, ◌≢◌, refl, sym, ap, ◌∙◌, Bool, true, false, some, arith, ◌==◌, ==_iff, leb, not,
  ◌&&◌, ◌||◌, str_eq, str_eq_iff,
}
use pegasus_suite.Prelude.Text.{has_slash}
use pegasus_suite.Clients.{ProcessKey, key_beq, key_beq_iff}
use pegasus_suite.Clients.Doc.{join, app_settings_key, process_doc_key, state_key}
use pegasus_suite.Pegasus.Scope.{cut_slash}
use pegasus_suite.Pegasus.Scope.RoundTrip.{cut_slash-append}

-- a letter of ASCII, a digit, a dash or an underscore
abbrev pub is_plain_char : Char → Bool
is_plain_char c =
    (leb b'a' (code c) && leb (code c) b'z')
    || (leb b'A' (code c) && leb (code c) b'Z')
    || (leb b'0' (code c) && leb (code c) b'9')
    || (code c == b'-')
    || (code c == b'_')

unfoldable pub has_plain_chars : String → Bool
has_plain_chars String.[] = true
has_plain_chars (String.◌∷◌ c s) = is_plain_char c && has_plain_chars s

-- A name that no bucket cleans, trims or refuses: not empty, and without a slash or a dot.
abbrev pub is_plain : String → Bool
is_plain s = not (str_eq s "") && has_plain_chars s

abbrev pub IsClean : ProcessKey → Type 0
IsClean k = (is_plain k.app ≡ true) × (is_plain k.user_id ≡ true) × (is_plain k.process_id ≡ true)

chars-no_slash : (s : String) → has_plain_chars s ≡ true → has_slash s ≡ false
unfolding has_plain_chars has_slash
chars-no_slash String.[] h = refl
chars-no_slash (String.◌∷◌ c s) h = ground (arith, h, chars-no_slash s)

pub plain-no_slash : (s : String) → is_plain s ≡ true → has_slash s ≡ false
plain-no_slash s h = chars-no_slash s (ground (arith, h))

-- The keys of documents under plain names.
pub data IsDocKey : String → Type 0 where
  of_process : (k : ProcessKey) → IsClean k → IsDocKey (process_doc_key k)
  of_state : (k : ProcessKey) → IsClean k → IsDocKey (state_key k)
  of_app : (name : String) → is_plain name ≡ true → IsDocKey (app_settings_key name)

join-injective :
    (a b c d : String)
    → has_slash a ≡ false
    → has_slash c ≡ false
    → join a b ≡ join c d
    → (a ≡ c) × (b ≡ d)
join-injective a b c d h g e =
    let cut : some (a, b) ≡ some (c, d) =
      sym (cut_slash-append a b h) ∙ ap cut_slash e ∙ cut_slash-append c d g in
    (ground (arith, cut), ground (arith, cut))

-- the part of a key behind its fixed prefix
tail-injective :
    (k j : ProcessKey)
    → IsClean k
    → IsClean j
    → join k.app (join k.user_id (String.◌++◌ k.process_id ".json"))
      ≡ join j.app (join j.user_id (String.◌++◌ j.process_id ".json"))
    → k ≡ j
tail-injective k j (a, u, x) (b, v, y) e =
    let (p, q) =
      join-injective k.app _ j.app _ (plain-no_slash k.app a) (plain-no_slash j.app b) e in
    let (r, s) =
      join-injective k.user_id _ j.user_id _ (plain-no_slash k.user_id u)
        (plain-no_slash j.user_id v) q in
    let t = append_cancel_right k.process_id j.process_id ".json" s in ground (arith, p, r, t)

pub process_doc_key-injective :
    (k j : ProcessKey) → IsClean k → IsClean j → process_doc_key k ≡ process_doc_key j → k ≡ j
unfolding process_doc_key
process_doc_key-injective k j a b e =
    tail-injective k j a b (append_cancel_left "settings/processes/" _ _ e)

pub state_key-injective :
    (k j : ProcessKey) → IsClean k → IsClean j → state_key k ≡ state_key j → k ≡ j
unfolding state_key
state_key-injective k j a b e = tail-injective k j a b (append_cancel_left "state/" _ _ e)

pub app_settings_key-injective : (a b : String) → app_settings_key a ≡ app_settings_key b → a ≡ b
unfolding app_settings_key
app_settings_key-injective a b e =
    append_cancel_right a b ".json" (append_cancel_left "settings/apps/" _ _ e)

-- Two texts that part ways after a common start differ.
parts :
    (p : String) (c d : Char) (a b x y : String)
    → (code c == code d) ≡ false
    → String.◌++◌ (String.◌++◌ p (String.◌∷◌ c a)) x
      ≢ String.◌++◌ (String.◌++◌ p (String.◌∷◌ d b)) y
parts p c d a b x y n e =
    let tails : String.◌∷◌ c (String.◌++◌ a x) ≡ String.◌∷◌ d (String.◌++◌ b y) =
      sym (cons-append c a x)
      ∙ append_cancel_left p _ _ (sym (append_assoc p _ x) ∙ e ∙ append_assoc p _ y)
      ∙ cons-append d b y in
    let same : c ≡ d = (cons-eq-cons.0 tails).0 in
    ground (arith, n, ap code same, ==_iff (code c) (code d))

-- The three families of keys start differently.
pub apart :
    (k j : ProcessKey) (name : String)
    → (process_doc_key k ≢ state_key j)
      × (process_doc_key k ≢ app_settings_key name)
      × (state_key j ≢ app_settings_key name)
unfolding process_doc_key state_key app_settings_key
apart k j name = (
  parts "s" "e" "t" "ttings/processes/" "ate/" _ _ refl,
  parts "settings/" "p" "a" "rocesses/" "pps/" _ _ refl,
  parts "s" "t" "e" "ate/" "ttings/apps/" _ _ refl,
)

-- A test of two texts answers as any test that is true exactly where they are equal.
pub str_eq-reflects :
    (x y : String) (t : Bool) → (x ≡ y → t ≡ true) → (t ≡ true → x ≡ y) → str_eq x y ≡ t
str_eq-reflects x y true f g = (str_eq_iff x y).1 (g refl)
str_eq-reflects x y false f g = ground (arith, f, str_eq_iff x y)

pub doc_key_eq :
    (k j : ProcessKey)
    → IsClean k
    → IsClean j
    → str_eq (process_doc_key k) (process_doc_key j) ≡ key_beq k j
doc_key_eq k j a b =
    str_eq-reflects (process_doc_key k) (process_doc_key j) (key_beq k j)
      (λ e. (key_beq_iff k j).1 (process_doc_key-injective k j a b e))
      (λ e. ap process_doc_key ((key_beq_iff k j).0 e))

pub state_key_eq :
    (k j : ProcessKey) → IsClean k → IsClean j → str_eq (state_key k) (state_key j) ≡ key_beq k j
state_key_eq k j a b =
    str_eq-reflects (state_key k) (state_key j) (key_beq k j)
      (λ e. (key_beq_iff k j).1 (state_key-injective k j a b e))
      (λ e. ap state_key ((key_beq_iff k j).0 e))

pub app_key_eq : (a b : String) → str_eq (app_settings_key a) (app_settings_key b) ≡ str_eq a b
app_key_eq a b =
    str_eq-reflects (app_settings_key a) (app_settings_key b) (str_eq a b)
      (λ e. (str_eq_iff a b).1 (app_settings_key-injective a b e))
      (λ e. ap app_settings_key ((str_eq_iff a b).0 e))
