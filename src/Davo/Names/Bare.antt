-- ===== src/Davo/Names/Bare.antt =====
-- apps/_davo/util/strings.go `Normalise`: what a normalised name is made of.
use pegasus_suite.Prelude.{
  ℕ, ◌≤◌, ◌≡◌, ◌≢◌, refl, Bool, true, ◌||◌, ◌&&◌, Option, some, List, [], ◌∷◌, ltb, ◌==◌, ==_iff,
  arith, if_case, option_case,
}
use pegasus_suite.Davo.Names.{lookalikes, look, letters, normalise}

-- upper-case letters, each different from the one before
abbrev pub IsBare : ℕ → List ℕ → Type 0
IsBare prev [] = Unit
IsBare prev (r ∷ s) = (65 ≤ r) × (r ≤ 90) × (r ≢ prev) × IsBare r s

letters-IsBare : (prev : ℕ) (s : List ℕ) → IsBare prev (letters prev s)
unfolding letters
letters-IsBare prev [] = tt
letters-IsBare prev (r ∷ s) =
    let mapped = look r lookalikes in
    if_case (IsBare prev) (ltb mapped 65 || ltb 90 mapped) _ _ (λ b. letters-IsBare prev s)
      (λ b.
        if_case (IsBare prev) (mapped == prev) _ _ (λ c. letters-IsBare prev s)
          (λ c. (
            ground (arith, b),
            ground (arith, b),
            λ e. ground (arith, c, ==_iff mapped prev, e),
            letters-IsBare mapped s,
          )))

-- no lookalike is itself an upper-case letter
outside : List (ℕ × ℕ) → Bool
outside [] = true
outside ((k, v) ∷ m) = (ltb k 65 || ltb 90 k) && outside m

lookalikes-outside : outside lookalikes ≡ true
unfolding outside lookalikes
lookalikes-outside = refl

look_letter : (r : ℕ) (m : List (ℕ × ℕ)) → outside m ≡ true → 65 ≤ r → r ≤ 90 → look r m ≡ r
unfolding look outside
look_letter r [] h low high = refl
look_letter r ((k, v) ∷ m) h low high =
    let ih = look_letter r m (ground (arith, h)) low high in ground (arith, h, low, high, ih)

-- A bare text is its own normal form.
letters-id : (prev : ℕ) (s : List ℕ) → IsBare prev s → letters prev s ≡ s
unfolding letters
letters-id prev [] h = refl
letters-id prev (r ∷ s) (low, high, ne, h) =
    let l = look_letter r lookalikes lookalikes-outside low high in
    let ih = letters-id r s h in rw (letters, l) (ground (arith, low, high, ne, ih))

-- Whatever the stripping of accents and the upper case do, a normalised name has only the letters A to
-- Z, and no letter twice in a row.
pub normalise-IsBare :
    (strip : List ℕ → Option (List ℕ)) (to_upper : List ℕ → List ℕ) (s : List ℕ)
    → IsBare 0 (normalise strip to_upper s)
unfolding normalise
normalise-IsBare strip to_upper s =
    option_case (IsBare 0) (strip s) _ _ (λ e. letters-IsBare 0 (to_upper s))
      (λ t e. letters-IsBare 0 (to_upper t))

-- If the stripping of accents and the upper case leave bare texts alone, then normalising a name again
-- changes nothing.
pub normalise_idem :
    (strip : List ℕ → Option (List ℕ)) (to_upper : List ℕ → List ℕ) (s : List ℕ)
    → ((t : List ℕ) → IsBare 0 t → strip t ≡ some t)
    → ((t : List ℕ) → IsBare 0 t → to_upper t ≡ t)
    → normalise strip to_upper (normalise strip to_upper s) ≡ normalise strip to_upper s
unfolding normalise
normalise_idem strip to_upper s f g =
    let b = normalise-IsBare strip to_upper s in
    rw (normalise, f (normalise strip to_upper s) b, g (normalise strip to_upper s) b)
      (letters-id 0 (normalise strip to_upper s) b)
