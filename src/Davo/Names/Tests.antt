-- ===== src/Davo/Names/Tests.antt =====
-- apps/_davo/util/ on short names.
use pegasus_suite.Prelude.{ℕ, ◌≤◌, ◌≡◌, refl, Option, some, List, [], ◌∷◌}
use pegasus_suite.Davo.Names.{
  levenshtein, rows, first_row, next_row, row_from, min3, normalise, letters, look, lookalikes,
}
use pegasus_suite.Davo.Names.Distance.{Script, backwards, levenshtein-least}
use pegasus_suite.Davo.Names.Bare.{IsBare, normalise-IsBare}

-- CAT and AT
abbrev cat : List ℕ
cat = 67 ∷ 65 ∷ 84 ∷ []

abbrev at_ : List ℕ
at_ = 65 ∷ 84 ∷ []

one_edit : levenshtein cat at_ ≡ 1
unfolding levenshtein rows first_row next_row row_from min3
one_edit = refl

levenshtein-least_example :
    Script (backwards cat []) (backwards at_ []) (levenshtein cat at_)
    × ((n : ℕ) → Script (backwards cat []) (backwards at_ []) n → levenshtein cat at_ ≤ n)
levenshtein-least_example = levenshtein-least cat at_

-- C4AAT
abbrev mangled : List ℕ
mangled = 67 ∷ 52 ∷ 65 ∷ 65 ∷ 84 ∷ []

abbrev kept : List ℕ → Option (List ℕ)
kept s = some s

abbrev same : List ℕ → List ℕ
same s = s

cleaned : normalise kept same mangled ≡ cat
unfolding normalise letters look lookalikes
cleaned = refl

normalise-IsBare_example : IsBare 0 (normalise kept same mangled)
normalise-IsBare_example = normalise-IsBare kept same mangled
