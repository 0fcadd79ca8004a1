-- ===== src/Logger/Ring/Recent.antt =====
-- logger/ring.go: what `recent` returns of the records added.
use pegasus_suite.Prelude.{
  ℕ, zero, suc, ◌≡◌, refl, sym, ap, ◌∙◌, Bool, false, some, List, [], ◌∷◌, ◌++◌, length, take,
  filter, ◌+◌, ◌<◌, if◌then◌else◌, Bool-cases, inl, inr, arith, length-append, length-replicate,
  drop_all,
}
use pegasus_suite.Prelude.Int.{ℤ, pos, negsuc, pos_part, lt_ℤ}
use pegasus_suite.Logger.Ring.{Buffer, new_ring, snapshot, reverse, collect, recent}
use pegasus_suite.Logger.Ring.Refine.{
  IsValid, last, add_all, add_all-kept, keep_all, keep_all-last, append_assoc, append_nil,
}

module _ {ℓ} {A : Type ℓ} where
  -- the first `limit`, or all when the limit is not positive
  abbrev pub up_to : ℤ → List A → List A
  up_to limit xs = if lt_ℤ (pos 0) limit then take (pos_part limit) xs else xs

  collect-unlimited :
      (p : A → Bool) (limit : ℤ) (xs out : List A)
      → lt_ℤ (pos 0) limit ≡ false
      → collect p limit xs out ≡ out ++ filter p xs
  unfolding collect
  collect-unlimited p limit [] out h = sym (append_nil out)
  collect-unlimited p limit (x ∷ xs) out h = ground (
    arith,
    h,
    collect-unlimited p limit xs out h,
    collect-unlimited p limit xs (out ++ x ∷ []) h,
    append_assoc out (x ∷ []) (filter p xs),
  )

  collect-limited :
      (p : A → Bool) (n m : ℕ) (xs out : List A)
      → length out + suc m ≡ n
      → collect p (pos n) xs out ≡ out ++ take (suc m) (filter p xs)
  unfolding collect
  collect-limited p n m [] out h = sym (append_nil out)
  collect-limited p n zero (x ∷ xs) out h =
      let l = length-append out (x ∷ []) in
      elim (Bool-cases (p x)) [
        | inl b ↦ rw b (ground (arith, l, h))
        | inr b ↦ rw b (collect-limited p n zero xs out h)
      ]
  collect-limited p n (suc m) (x ∷ xs) out h =
      let l = length-append out (x ∷ []) in
      let more = collect-limited p n m xs (out ++ x ∷ []) (omega (arith, l, h)) in
      elim (Bool-cases (p x)) [
        | inl b ↦
            rw b
              (ground (arith, l, h, more, append_assoc out (x ∷ []) (take (suc m) (filter p xs))))
        | inr b ↦ rw b (collect-limited p n (suc m) xs out h)
      ]

  collect_lem :
      (p : A → Bool) (limit : ℤ) (xs : List A) → collect p limit xs [] ≡ up_to limit (filter p xs)
  collect_lem p (pos zero) xs = collect-unlimited p (pos zero) xs [] refl
  collect_lem p (pos (suc n)) xs = collect-limited p (suc n) n xs [] (omega arith) ∙ ground arith
  collect_lem p (negsuc n) xs = collect-unlimited p (negsuc n) xs [] (ground arith) ∙ ground arith

  -- Records added to a new ring of at least one slot never panic, and `recent` returns, of the last
  -- `size` records, those that match, newest first, up to the limit (all when it is not positive).
  pub recent_lem :
      (zero_record : A) (size : ℕ) (records : List A) (matches : A → Bool) (limit : ℤ)
      → 0 < size
      → (r : Buffer A) × (add_all records (new_ring zero_record size) ≡ some r)
        × (recent matches limit r ≡ up_to limit (filter matches (reverse (last size records))))
  unfolding recent new_ring snapshot IsValid
  recent_lem zero_record size records matches limit h =
      let n = length-replicate size zero_record in
      let (r, e, s) = add_all-kept records (new_ring zero_record size) (omega (arith, n)) in
      let kept : snapshot r ≡ last size records =
        s
        ∙ ap (λ k. keep_all k [] records) n
        ∙ ap (λ k. keep_all size k records) {x = []} {y = last size []}
            (sym (drop_all [] _ (omega arith)))
        ∙ keep_all-last size [] records h in
      (r, e, ap (λ t. collect matches limit (reverse t) []) kept ∙ collect_lem matches limit _)
