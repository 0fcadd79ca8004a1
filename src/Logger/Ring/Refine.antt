-- ===== src/Logger/Ring/Refine.antt =====
-- logger/ring.go: the ring holds the last records added, and `recent` is a filter of them.
use pegasus_suite.Prelude.{
  ℕ, zero, suc, ◌≡◌, refl, sym, ap, ◌∙◌, Bool, true, false, Option, none, some, List, [], ◌∷◌, ◌++◌,
  length, set, take, drop, ltb, ◌==◌, ◌+◌, ◌-◌, ◌≤◌, ◌<◌, if◌then◌else◌, Bool-cases, inl, inr,
  ltb→lt, if_case, ==_iff, arith, length-append, length-set, length-take, length-drop, drop-set,
  take-set, drop_all, take_all,
}
use mathlib.Core.Path.{ap₂}
use pegasus_suite.Logger.Ring.{Buffer, add, snapshot}

module _ {ℓ} {A : Type ℓ} where
  -- The ring's shape: a write stays in range.
  unfoldable pub IsValid : Buffer A → Type 0
  IsValid r = r.next < length r.buf

  -- the last `n` of the records, oldest first
  abbrev pub last : ℕ → List A → List A
  last n xs = drop (length xs - n) xs

  -- what one more record makes of the last `n`
  abbrev pub keep_last : ℕ → List A → A → List A
  keep_last n xs x = if ltb (length xs) n then xs ++ x ∷ [] else drop 1 xs ++ x ∷ []

  drop-append : (n : ℕ) (xs ys : List A) → n ≤ length xs → drop n (xs ++ ys) ≡ drop n xs ++ ys
  drop-append zero xs ys h = refl
  drop-append (suc n) [] ys h = absurd (omega arith)
  drop-append (suc n) (x ∷ xs) ys h = drop-append n xs ys (omega arith)

  drop-drop_one : (n : ℕ) (xs : List A) → drop 1 (drop n xs) ≡ drop (suc n) xs
  drop-drop_one zero xs = refl
  drop-drop_one (suc n) [] = refl
  drop-drop_one (suc n) (x ∷ xs) = drop-drop_one n xs

  pub append_assoc : (xs ys zs : List A) → (xs ++ ys) ++ zs ≡ xs ++ (ys ++ zs)
  append_assoc [] ys zs = refl
  append_assoc (x ∷ xs) ys zs = ap (λ t. x ∷ t) (append_assoc xs ys zs)

  length-snapshot :
      (r : Buffer A) → IsValid r → length (snapshot r) ≡ (if r.full then length r.buf else r.next)
  unfolding snapshot IsValid
  length-snapshot r v = ground (
    arith,
    length-append (drop r.next r.buf) (take r.next r.buf),
    length-take r.next r.buf,
    length-drop r.next r.buf,
  )

  -- the ring that `add` leaves
  abbrev added : A → Buffer A → Buffer A
  added x r =
      let buf = set r.buf r.next x in
      if r.next + 1 == length buf
      then record { buf = buf; next = 0; full = true }
      else record { buf = buf; next = r.next + 1; full = r.full }

  add-added : (x : A) (r : Buffer A) → IsValid r → add x r ≡ some (added x r)
  unfolding add IsValid
  add-added x r v = ground arith

  added-IsValid :
      (x : A) (r : Buffer A)
      → IsValid r
      → IsValid (added x r) × (length (added x r).buf ≡ length r.buf)
  unfolding IsValid
  added-IsValid x r v = ground (arith, length-set r.buf r.next x)

  take-set_plus :
      (xs : List A) (i : ℕ) (v : A)
      → i < length xs
      → take (i + 1) (set xs i v) ≡ take i xs ++ v ∷ []
  take-set_plus xs i v h =
      ap (λ k. take k (set xs i v)) {x = i + 1} {y = suc i} (omega arith) ∙ take-set xs i v h

  -- dropping the oldest of a full ring's snapshot
  drop_oldest :
      (xs : List A) (i : ℕ)
      → i < length xs
      → drop 1 (drop i xs ++ take i xs) ≡ drop (i + 1) xs ++ take i xs
  drop_oldest xs i h =
      drop-append 1 (drop i xs) (take i xs) (omega (arith, length-drop i xs))
      ∙ ap (λ t. t ++ take i xs)
          (drop-drop_one i xs ∙ ap (λ k. drop k xs) {x = suc i} {y = i + 1} (omega arith))

  -- what `added` keeps of the old buffer around the write
  write_around :
      (xs : List A) (i : ℕ) (x : A)
      → i < length xs
      → drop (i + 1) (set xs i x) ++ take (i + 1) (set xs i x)
        ≡ drop 1 (drop i xs ++ take i xs) ++ x ∷ []
  write_around xs i x h =
      rw
        (
          drop_oldest xs i h,
          append_assoc (drop (i + 1) xs) (take i xs) (x ∷ []),
          drop-set xs (i + 1) i x (omega arith),
          take-set_plus xs i x h,
        )
        refl

  pub append_nil : (xs : List A) → xs ++ [] ≡ xs
  append_nil [] = refl
  append_nil (x ∷ xs) = ap (λ t. x ∷ t) (append_nil xs)

  -- The write that fills the buffer or comes to its end.
  write_last :
      (xs : List A) (i : ℕ) (x : A) → i + 1 ≡ length xs → set xs i x ++ [] ≡ take i xs ++ x ∷ []
  write_last xs i x h =
      append_nil (set xs i x)
      ∙ sym (take_all (set xs i x) (i + 1) (omega (arith, length-set xs i x)))
      ∙ take-set_plus xs i x (omega arith)

  full_last :
      (xs : List A) (i : ℕ) (x : A)
      → i + 1 ≡ length xs
      → drop 1 (drop i xs ++ take i xs) ++ x ∷ [] ≡ take i xs ++ x ∷ []
  full_last xs i x h = rw (drop_oldest xs i (omega arith), drop_all xs (i + 1) (omega arith)) refl

  keep_last-full :
      (n : ℕ) (xs : List A) (x : A) → n ≤ length xs → keep_last n xs x ≡ drop 1 xs ++ x ∷ []
  keep_last-full n xs x h = ground arith

  keep_last-short : (n : ℕ) (xs : List A) (x : A) → length xs < n → keep_last n xs x ≡ xs ++ x ∷ []
  keep_last-short n xs x h = ground arith

  at_end : (xs : List A) (i : ℕ) (x : A) → (i + 1 == length (set xs i x)) ≡ true → i + 1 ≡ length xs
  at_end xs i x e = omega (arith, (==_iff (i + 1) (length (set xs i x))).0 e, length-set xs i x)

  snapshot_of :
      (xs : List A) (i : ℕ) (full : Bool) (x : A)
      → i < length xs
      → let r : Buffer A = record { buf = xs; next = i; full = full } in
        snapshot (added x r) ≡ keep_last (length xs) (snapshot r) x
  unfolding snapshot
  snapshot_of xs i true x v =
      let old = drop i xs ++ take i xs in
      let P : Buffer A → Type ℓ = λ r. snapshot r ≡ keep_last (length xs) old x in
      let k = keep_last-full (length xs) old x (
        omega (arith, length-append (drop i xs) (take i xs), length-take i xs, length-drop i xs)) in
      if_case P (i + 1 == length (set xs i x)) _ _
        (λ e.
          write_last xs i x (at_end xs i x e) ∙ sym (full_last xs i x (at_end xs i x e)) ∙ sym k)
        (λ e. write_around xs i x v ∙ sym k)
  snapshot_of xs i false x v =
      let P : Buffer A → Type ℓ = λ r. snapshot r ≡ keep_last (length xs) (take i xs) x in
      let k = keep_last-short (length xs) (take i xs) x (omega (arith, length-take i xs)) in
      if_case P (i + 1 == length (set xs i x)) _ _
        (λ e. write_last xs i x (at_end xs i x e) ∙ sym k) (λ e. take-set_plus xs i x v ∙ sym k)

  -- the records added one after another to a new ring; none is a panic
  unfoldable pub add_all : List A → Buffer A → Option (Buffer A)
  add_all [] r = some r
  add_all (x ∷ xs) r = elim (add x r) [ none ↦ none | some r' ↦ add_all xs r' ]

  pub keep_all : ℕ → List A → List A → List A
  keep_all n kept [] = kept
  keep_all n kept (x ∷ xs) = keep_all n (keep_last n kept x) xs

  pub add_all-kept :
      (xs : List A) (r : Buffer A)
      → IsValid r
      → (r' : Buffer A) × (add_all xs r ≡ some r')
        × (snapshot r' ≡ keep_all (length r.buf) (snapshot r) xs)
  unfolding add_all keep_all IsValid
  add_all-kept [] r v = (r, refl, refl)
  add_all-kept (x ∷ xs) r v =
      let (v', l) = added-IsValid x r v in
      let (r', e, s) = add_all-kept xs (added x r) v' in
      (
        r',
        rw (add_all, add-added x r v) e,
        s ∙ ap₂ (λ n k. keep_all n k xs) l (snapshot_of r.buf r.next r.full x v),
      )

  last-short : (n : ℕ) (xs : List A) → length xs ≤ n → last n xs ≡ xs
  last-short n xs h = ap (λ k. drop k xs) {x = length xs - n} {y = 0} (omega arith)

  keep_last-last :
      (n : ℕ) (xs : List A) (x : A) → 0 < n → keep_last n (last n xs) x ≡ last n (xs ++ x ∷ [])
  keep_last-last n xs x h =
      let l = length-append xs (x ∷ []) in
      let k = length xs - n in
      elim (Bool-cases (ltb (length xs) n)) [
        | inl b ↦
            (let s = ltb→lt _ _ b in
              ap (λ t. keep_last n t x) (last-short n xs (omega arith))
              ∙ keep_last-short n xs x s
              ∙ sym (last-short n (xs ++ x ∷ []) (omega arith)))
        | inr b ↦
            (let s : n ≤ length xs = ground (arith, b) in
              keep_last-full n (drop k xs) x (omega (arith, length-drop k xs))
              ∙ ap (λ t. t ++ x ∷ []) (drop-drop_one k xs)
              ∙ sym (drop-append (suc k) xs (x ∷ []) (omega arith))
              ∙ ap (λ m. drop m (xs ++ x ∷ [])) {x = suc k} {y = length (xs ++ x ∷ []) - n}
                  (omega arith))
      ]

  pub keep_all-last :
      (n : ℕ) (xs ys : List A) → 0 < n → keep_all n (last n xs) ys ≡ last n (xs ++ ys)
  unfolding keep_all
  keep_all-last n xs [] h = ap (last n) (sym (append_nil xs))
  keep_all-last n xs (y ∷ ys) h =
      ap (λ k. keep_all n k ys) (keep_last-last n xs y h)
      ∙ keep_all-last n (xs ++ y ∷ []) ys h
      ∙ ap (last n) (append_assoc xs (y ∷ []) ys)
