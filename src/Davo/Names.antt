-- ===== src/Davo/Names.antt =====
-- apps/_davo/util/: comparing the names of runners. A text is the list of its runes.
pub mod Distance
pub mod Bare
mod Tests
use pegasus_suite.Prelude.{
  ℕ, suc, ◌+◌, Bool, Option, none, some, List, [], ◌∷◌, ◌||◌, ltb, ◌==◌, length, get_or,
  if◌then◌else◌,
}

-- `Min3`
unfoldable pub min3 : ℕ → ℕ → ℕ → ℕ
min3 a b c = let m = if ltb b a then b else a in if ltb c m then c else m

-- `0, 1, …`: the first loop of `Levenshtein`, from `j` on and one longer than the list
unfoldable pub first_row : ℕ → List ℕ → List ℕ
first_row j [] = j ∷ []
first_row j (r ∷ br) = j ∷ first_row (suc j) br

-- The inner loop, at a rune of `a`, over the runes of `b`. What it reads: `curr[j-1]`, `prev[j-1]` and,
-- in the list, `prev[j]` and on. The rows of a call are of one length, so the last clause is not met.
unfoldable pub row_from : ℕ → List ℕ → ℕ → ℕ → List ℕ → List ℕ
row_from a [] left diag prev = []
row_from a (r ∷ br) left diag (up ∷ prev) =
    let cost = if a == r then 0 else 1 in
    let v = min3 (up + 1) (left + 1) (diag + cost) in v ∷ row_from a br v up prev
row_from a (r ∷ br) left diag [] = []

-- one round of the outer loop: `curr[0] = i`, then the inner loop over the row before
unfoldable pub next_row : ℕ → ℕ → List ℕ → List ℕ → List ℕ
next_row i a br [] = []
next_row i a br (diag ∷ prev) = i ∷ row_from a br i diag prev

-- the outer loop, from `i` on
unfoldable pub rows : ℕ → List ℕ → List ℕ → List ℕ → List ℕ
rows i [] br prev = prev
rows i (a ∷ ar) br prev = rows (suc i) ar br (next_row i a br prev)

-- `Levenshtein`
unfoldable pub levenshtein : List ℕ → List ℕ → ℕ
levenshtein ar br = get_or (rows 1 ar br (first_row 0 br)) (length br) 0

-- `lookalikes`, by code points
unfoldable pub lookalikes : List (ℕ × ℕ)
lookalikes =
    (1040, 65)
    ∷ (1042, 66)
    ∷ (1045, 69)
    ∷ (1050, 75)
    ∷ (1052, 77)
    ∷ (1053, 72)
    ∷ (1054, 79)
    ∷ (1056, 80)
    ∷ (1057, 67)
    ∷ (1058, 84)
    ∷ (1059, 89)
    ∷ (1061, 88)
    ∷ (913, 65)
    ∷ (914, 66)
    ∷ (917, 69)
    ∷ (918, 90)
    ∷ (919, 72)
    ∷ (921, 73)
    ∷ (922, 75)
    ∷ (924, 77)
    ∷ (925, 78)
    ∷ (927, 79)
    ∷ (929, 80)
    ∷ (932, 84)
    ∷ (933, 89)
    ∷ (935, 88)
    ∷ (48, 79)
    ∷ (49, 73)
    ∷ (51, 69)
    ∷ (52, 65)
    ∷ (53, 83)
    ∷ (55, 84)
    ∷ (56, 66)
    ∷ (124, 73)
    ∷ (33, 73)
    ∷ (64, 65)
    ∷ (36, 83)
    ∷ []

unfoldable pub look : ℕ → List (ℕ × ℕ) → ℕ
look r [] = r
look r ((k, v) ∷ m) = if k == r then v else look r m

-- the loop of `Normalise` over the upper-case text, with the rune written last
unfoldable pub letters : ℕ → List ℕ → List ℕ
letters prev [] = []
letters prev (r ∷ s) =
    let mapped = look r lookalikes in
    let skipped = letters prev s in
    let kept = letters mapped s in
    if ltb mapped 65 || ltb 90 mapped
    then skipped
    else if mapped == prev
    then skipped
    else mapped ∷ kept

-- `Normalise`; the parameters are the stripping of accents by golang.org/x/text, none where it fails,
-- and `strings.ToUpper`
unfoldable pub normalise : (List ℕ → Option (List ℕ)) → (List ℕ → List ℕ) → List ℕ → List ℕ
normalise strip to_upper s = elim (strip s) [
  | none ↦ letters 0 (to_upper s)
  | some stripped ↦ letters 0 (to_upper stripped)
]
