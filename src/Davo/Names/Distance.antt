-- ===== src/Davo/Names/Distance.antt =====
-- apps/_davo/util/strings.go `Levenshtein`: the two-row table gives the edit distance.
use mathlib.Core.Path.{subst}
use pegasus_suite.Prelude.{
  ℕ, suc, ◌+◌, ◌≤◌, ◌≡◌, refl, sym, ap, ◌∙◌, ◌⊎◌, inl, inr, List, [], ◌∷◌, ◌==◌, ==_iff, length,
  get_or, arith, if◌then◌else◌, Bool-cases,
}
use pegasus_suite.Davo.Names.{min3, first_row, row_from, next_row, rows, levenshtein}

-- The distance by its recursion on the last runes: here a text is read from its end.
unfoldable pub distance : List ℕ → List ℕ → ℕ
distance [] b = length b
distance (x ∷ a) [] = suc (length a)
distance (x ∷ a) (y ∷ b) =
    min3 (distance a (y ∷ b) + 1) (distance (x ∷ a) b + 1)
      (distance a b + (if x == y then 0 else 1))

-- A way to turn one text into another, from the end, with its number of edits.
pub data Script : List ℕ → List ℕ → ℕ → Type 0 where
  done : Script [] [] 0
  delete : {a b : List ℕ} {n : ℕ} (x : ℕ) → Script a b n → Script (x ∷ a) b (suc n)
  insert : {a b : List ℕ} {n : ℕ} (y : ℕ) → Script a b n → Script a (y ∷ b) (suc n)
  keep : {a b : List ℕ} {n : ℕ} (x : ℕ) → Script a b n → Script (x ∷ a) (x ∷ b) n
  change : {a b : List ℕ} {n : ℕ} (x y : ℕ) → Script a b n → Script (x ∷ a) (y ∷ b) (suc n)

-- the texts read from the end
abbrev pub backwards : List ℕ → List ℕ → List ℕ
backwards [] q = q
backwards (x ∷ xs) q = backwards xs (x ∷ q)

-- one row of the table: the distances from a part of `a` to the parts of `b` from `q` on
entries : List ℕ → List ℕ → List ℕ → List ℕ
entries p q [] = distance p q ∷ []
entries p q (y ∷ ys) = distance p q ∷ entries p (y ∷ q) ys

rest_of : List ℕ → List ℕ → List ℕ → List ℕ
rest_of p q [] = []
rest_of p q (y ∷ ys) = entries p (y ∷ q) ys

entries-cons : (p q ys : List ℕ) → entries p q ys ≡ distance p q ∷ rest_of p q ys
unfolding entries rest_of
entries-cons p q [] = refl
entries-cons p q (y ∷ ys) = refl

row_from_lem :
    (x : ℕ) (ys p q : List ℕ)
    → row_from x ys (distance (x ∷ p) q) (distance p q) (rest_of p q ys) ≡ rest_of (x ∷ p) q ys
unfolding row_from rest_of distance
row_from_lem x [] p q = refl
row_from_lem x (y ∷ ys) p q =
    ap (row_from x (y ∷ ys) (distance (x ∷ p) q) (distance p q)) (entries-cons p (y ∷ q) ys)
    ∙ ap (λ l. distance (x ∷ p) (y ∷ q) ∷ l) (row_from_lem x ys p (y ∷ q))
    ∙ sym (entries-cons (x ∷ p) (y ∷ q) ys)

first_row_lem : (ys q : List ℕ) → first_row (length q) ys ≡ entries [] q ys
unfolding first_row entries distance
first_row_lem [] q = refl
first_row_lem (y ∷ ys) q = ap (λ l. length q ∷ l) (first_row_lem ys (y ∷ q))

next_row_lem :
    (x : ℕ) (br p : List ℕ)
    → next_row (suc (length p)) x br (entries p [] br) ≡ entries (x ∷ p) [] br
unfolding next_row distance
next_row_lem x br p =
    ap (next_row (suc (length p)) x br) (entries-cons p [] br)
    ∙ ap (λ l. suc (length p) ∷ l) (row_from_lem x br p [])
    ∙ sym (entries-cons (x ∷ p) [] br)

rows_lem :
    (xs br p : List ℕ)
    → rows (suc (length p)) xs br (entries p [] br) ≡ entries (backwards xs p) [] br
unfolding rows
rows_lem [] br p = refl
rows_lem (x ∷ xs) br p =
    ap (rows (suc (suc (length p))) xs br) (next_row_lem x br p) ∙ rows_lem xs br (x ∷ p)

last_entry : (p q ys : List ℕ) → get_or (entries p q ys) (length ys) 0 ≡ distance p (backwards ys q)
unfolding entries
last_entry p q [] = refl
last_entry p q (y ∷ ys) = last_entry p (y ∷ q) ys

levenshtein_lem : (a b : List ℕ) → levenshtein a b ≡ distance (backwards a []) (backwards b [])
unfolding levenshtein
levenshtein_lem a b =
    ap (λ l. get_or (rows 1 a b l) (length b) 0) (first_row_lem b [])
    ∙ ap (λ l. get_or l (length b) 0) (rows_lem a b [])
    ∙ last_entry (backwards a []) [] b

-- Each of the three edits reaches the distance or more.
distance-delete : (x : ℕ) (a b : List ℕ) → distance (x ∷ a) b ≤ suc (distance a b)
unfolding distance min3
distance-delete x [] [] = omega arith
distance-delete x (y ∷ a) [] = omega arith
distance-delete x a (y ∷ b) = ground arith

distance-insert : (y : ℕ) (a b : List ℕ) → distance a (y ∷ b) ≤ suc (distance a b)
unfolding distance min3
distance-insert y [] b = omega arith
distance-insert y (x ∷ a) b = ground arith

distance-change :
    (x y : ℕ) (a b : List ℕ) → distance (x ∷ a) (y ∷ b) ≤ distance a b + (if x == y then 0 else 1)
unfolding distance min3
distance-change x y a b = ground arith

nothing_to_do : distance [] [] ≤ 0
unfolding distance
nothing_to_do = omega arith

distance-le : {a b : List ℕ} {n : ℕ} → Script a b n → distance a b ≤ n
distance-le done = nothing_to_do
distance-le (delete {a} {b} x s) = omega (arith, distance-delete x a b, distance-le s)
distance-le (insert {a} {b} y s) = omega (arith, distance-insert y a b, distance-le s)
distance-le (keep {a} {b} x s) = ground (arith, distance-change x x a b, distance-le s)
distance-le (change {a} {b} x y s) = ground (arith, distance-change x y a b, distance-le s)

all_inserted : (b : List ℕ) → Script [] b (length b)
all_inserted [] = done
all_inserted (y ∷ b) = insert y (all_inserted b)

all_deleted : (a : List ℕ) → Script a [] (length a)
all_deleted [] = done
all_deleted (x ∷ a) = delete x (all_deleted a)

min3-cases : (a b c : ℕ) → (min3 a b c ≡ a) ⊎ ((min3 a b c ≡ b) ⊎ (min3 a b c ≡ c))
unfolding min3
min3-cases a b c = ground arith

last_step :
    (x y : ℕ) (a b : List ℕ)
    → Script a b (distance a b)
    → Script (x ∷ a) (y ∷ b) (distance a b + (if x == y then 0 else 1))
last_step x y a b s = elim (Bool-cases (x == y)) [
  | inl e ↦
      subst (λ z. Script (x ∷ a) (z ∷ b) (distance a b + (if x == y then 0 else 1)))
        ((==_iff x y).0 e) (subst (Script (x ∷ a) (x ∷ b)) (ground (arith, e)) (keep x s))
  | inr e ↦ subst (Script (x ∷ a) (y ∷ b)) (ground (arith, e)) (change x y s)
]

distance-Script : (a b : List ℕ) → Script a b (distance a b)
unfolding distance
distance-Script [] b = all_inserted b
distance-Script (x ∷ a) [] = all_deleted (x ∷ a)
distance-Script (x ∷ a) (y ∷ b) =
    let P = Script (x ∷ a) (y ∷ b) in
    let up = distance a (y ∷ b) in
    let left = distance (x ∷ a) b in
    let cost : ℕ = if x == y then 0 else 1 in
    elim (min3-cases (up + 1) (left + 1) (distance a b + cost)) [
      | inl e ↦ subst P (omega arith ∙ sym e) (delete x (distance-Script a (y ∷ b)))
      | inr (inl e) ↦ subst P (omega arith ∙ sym e) (insert y (distance-Script (x ∷ a) b))
      | inr (inr e) ↦ subst P (sym e) (last_step x y a b (distance-Script a b))
    ]

-- `Levenshtein` gives the least number of insertions, deletions and changes of a rune that turn the
-- first text into the second: some script has that many edits, and no script has fewer.
pub levenshtein-least :
    (a b : List ℕ)
    → Script (backwards a []) (backwards b []) (levenshtein a b)
      × ((n : ℕ) → Script (backwards a []) (backwards b []) n → levenshtein a b ≤ n)
levenshtein-least a b =
    let e = levenshtein_lem a b in
    (
      subst (Script (backwards a []) (backwards b [])) (sym e)
          (distance-Script (backwards a []) (backwards b [])),
      λ n s. omega (arith, e, distance-le s),
    )
