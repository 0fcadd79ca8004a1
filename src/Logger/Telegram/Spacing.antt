-- ===== src/Logger/Telegram/Spacing.antt =====
-- logger/telegram/telegram.go: after a card, no other of its key goes out before the window is over. Here
-- what one step keeps of this.
pub mod Runs
use pegasus_suite.Prelude.{
  ℕ, suc, ◌+◌, ◌-◌, ◌≤◌, String, ◌≡◌, ◌≢◌, ◌⊎◌, inl, inr, refl, sym, ap, ◌∙◌, Bool, true, false,
  not, Option, none, some, List, [], ◌∷◌, ◌++◌, All, str_eq, str_eq_iff, arith, if_case,
  option_case, if◌then◌else◌, Bool-cases,
}
use pegasus_suite.Prelude.Int.{ℤ, pos, negsuc, pos_part, sub_ℕ, lt_ℤ, eq_ℤ}
use pegasus_suite.Prelude.Assoc.{lookup, insert, string_eq, lookup-insert, none_in_nil}
use pegasus_suite.Prelude.Float.{Float64}
use pegasus_suite.Prelude.Time.{GoTime}
use pegasus_suite.Logger.Line.{Line}
use pegasus_suite.Logger.Telegram.{
  Config, Suppression, Suppressed, Message, card, more, dedupe_key, inside, channel_for,
  dispatch_new, dispatch, sweep, Event, taken, ticked, closed, handle,
}

-- outside the window, the time since the first is the whole window at least
inside-false :
    (window : ℤ) (now first : ℕ)
    → lt_ℤ (pos 0) window ≡ true
    → lt_ℤ (sub_ℕ now first) window ≡ false
    → pos_part window + first ≤ now
inside-false (pos w) now first p h = ground (arith, p, h)
inside-false (negsuc w) now first p h = absurd (ground (arith, p))

module _ {fl : Float64} {tm : GoTime} where
  abbrev pub time_of : Event fl tm → ℕ
  time_of (taken now r) = now
  time_of (ticked now) = now
  time_of (closed now) = now

  -- the clock does not run backwards, and the queue is not closed yet
  abbrev pub Ordered : ℕ → List (Event fl tm) → Type 0
  Ordered past [] = Unit
  Ordered past (taken now r ∷ es) = (past ≤ now) × Ordered now es
  Ordered past (ticked now ∷ es) = (past ≤ now) × Ordered now es
  Ordered past (closed now ∷ es) = ⊥

  -- the times and the keys of the cards among messages
  unfoldable pub cards : List (Message fl tm) → List (ℕ × String)
  cards [] = []
  cards (card now ch r ∷ xs) = (now, dedupe_key r) ∷ cards xs
  cards (more now ch r n ∷ xs) = cards xs

  pub cards-append : (xs ys : List (Message fl tm)) → cards (xs ++ ys) ≡ cards xs ++ cards ys
  unfolding cards
  cards-append [] ys = refl
  cards-append (card now ch r ∷ xs) ys = ap (λ l. (now, dedupe_key r) ∷ l) (cards-append xs ys)
  cards-append (more now ch r n ∷ xs) ys = cards-append xs ys

  pub cards-sweep :
      (cfg : Config) (force : Bool) (now : ℕ) (s : Suppressed fl tm)
      → cards (sweep cfg force now s).1 ≡ []
  unfolding sweep cards
  cards-sweep cfg force now [] = refl
  cards-sweep cfg force now ((key, sup) ∷ s) = ground (arith, cards-sweep cfg force now s)

-- a card is followed by no other of its key before the window is over
abbrev pub Spaced : ℕ → List (ℕ × String) → Type 0
Spaced w [] = Unit
Spaced w ((t, k) ∷ later) = All (λ c. c.1 ≡ k → w + t ≤ c.0) later × Spaced w later

abbrev pub width : Config → ℕ
width cfg = pos_part cfg.dedupe_window

module _ {fl : Float64} {tm : GoTime} (cfg : Config) where
  -- of the two ways to remember a card: the sink holds a later one, or the window is over
  abbrev pub Held : ℕ → String → ℕ → Suppressed fl tm → Type 0
  Held t k now s =
      ((sup : Suppression fl tm) × (lookup k s ≡ some sup) × (t ≤ sup.first_sent))
      ⊎ (width cfg + t ≤ now)

  Held-cons :
      (t : ℕ) (k : String) (now : ℕ) (key : String) (v : Suppression fl tm) (s : Suppressed fl tm)
      → ((key ≡ k) → t ≤ v.first_sent)
      → ((key ≢ k) → Held t k now s)
      → Held t k now ((key, v) ∷ s)
  unfolding lookup
  Held-cons t k now key v s here there = elim (Bool-cases (str_eq key k)) [
    | inl b ↦ inl (v, ground (arith, b), here ((str_eq_iff key k).0 b))
    | inr b ↦ elim (there (λ e. ground (arith, b, (str_eq_iff key k).1 e))) [
      | inl (sup, e, l) ↦ inl (sup, ground (arith, b, e), l)
      | inr l ↦ inr l
    ]
  ]

  lookup-cons :
      (k key : String) (v sup : Suppression fl tm) (s : Suppressed fl tm)
      → lookup k ((key, v) ∷ s) ≡ some sup
      → ((key ≡ k) → v ≡ sup) × ((key ≢ k) → lookup k s ≡ some sup)
  unfolding lookup
  lookup-cons k key v sup s h =
      (λ e. ground (arith, h, (str_eq_iff key k).1 e), λ n. ground (arith, h, n, str_eq_iff key k))

  sweep-Held :
      (t : ℕ) (k : String) (now : ℕ) (s : Suppressed fl tm) (sup : Suppression fl tm)
      → lt_ℤ (pos 0) cfg.dedupe_window ≡ true
      → lookup k s ≡ some sup
      → t ≤ sup.first_sent
      → Held t k now (sweep cfg false now s).0
  unfolding sweep
  sweep-Held t k now [] sup p h l = absurd (none_in_nil k sup h)
  sweep-Held t k now ((key, v) ∷ s) sup p h l =
      let (here, there) = lookup-cons k key v sup s h in
      let later : (key ≢ k) → Held t k now (sweep cfg false now s).0 =
        λ n. sweep-Held t k now s sup p (there n) l in
      if_case (λ (r : Suppressed fl tm × List (Message fl tm)). Held t k now r.0) (inside cfg now v)
        _ _
        (λ b.
          Held-cons t k now key v (sweep cfg false now s).0
            (λ e. omega (arith, l, ap (λ (x : Suppression fl tm). x.first_sent) (here e))) later)
        (λ b. elim (Bool-cases (str_eq key k)) [
          | inl c ↦
              (let e = (str_eq_iff key k).0 c in
                inr (
                  omega (
                    arith,
                    l,
                    ap (λ (x : Suppression fl tm). x.first_sent) (here e),
                    inside-false cfg.dedupe_window now v.first_sent p b,
                  )))
          | inr c ↦ later (λ e. ground (arith, c, (str_eq_iff key k).1 e))
        ])

  -- what a step at `now` leaves of a card sent at `t`, and the cards that it sends
  abbrev pub Keeps : ℕ → String → ℕ → Suppressed fl tm × List (Message fl tm) → Type 0
  Keeps t k now r =
      Held t k now r.0 × All (λ (c : ℕ × String). c.1 ≡ k → width cfg + t ≤ c.0) (cards r.1)

  Held-insert :
      (t : ℕ) (k : String) (now : ℕ) (key : String) (v : Suppression fl tm) (s : Suppressed fl tm)
      → t ≤ v.first_sent
      → Held t k now s
      → Held t k now (insert key v s)
  Held-insert t k now key v s l h = elim (Bool-cases (str_eq key k)) [
    | inl b ↦ inl (v, ground (arith, b, lookup-insert key k v s), l)
    | inr b ↦ elim h [
      | inl (sup, e, l) ↦ inl (sup, ground (arith, b, e, lookup-insert key k v s), l)
      | inr l ↦ inr l
    ]
  ]

  same_found :
      (key k : String) (v sup : Suppression fl tm) (s : Suppressed fl tm)
      → key ≡ k
      → lookup key s ≡ some v
      → lookup k s ≡ some sup
      → v ≡ sup
  same_found key k v sup s same e f =
      let both : some v ≡ some sup = sym e ∙ ap (λ x. lookup x s) same ∙ f in ground (arith, both)

  -- Counting a repeat changes nothing of when the first was sent.
  Held-count :
      (t : ℕ) (k : String) (now : ℕ) (key : String) (v : Suppression fl tm) (s : Suppressed fl tm)
      → lookup key s ≡ some v
      → Held t k now s
      → Held t k now (insert key (record v { count = suc v.count }) s)
  Held-count t k now key v s e (inr l) = inr l
  Held-count t k now key v s e (inl (sup, f, l)) = elim (Bool-cases (str_eq key k)) [
    | inl b ↦ inl (
      record v { count = suc v.count },
      ground (arith, b, lookup-insert key k (record v { count = suc v.count }) s),
      omega (
        arith,
        l,
        ap (λ (x : Suppression fl tm). x.first_sent)
            (same_found key k v sup s ((str_eq_iff key k).0 b) e f),
      ),
    )
    | inr b ↦
        inl (sup, ground (arith, b, f, lookup-insert key k (record v { count = suc v.count }) s), l)
  ]

  -- A card of this key may go out: what is remembered is outside the window.
  free :
      (t : ℕ) (k : String) (now : ℕ) (s : Suppressed fl tm)
      → lt_ℤ (pos 0) cfg.dedupe_window ≡ true
      → Held t k now s
      → ((sup : Suppression fl tm) → lookup k s ≡ some sup → inside cfg now sup ≡ false)
      → width cfg + t ≤ now
  free t k now s p (inl (sup, e, l)) f =
      omega (arith, l, inside-false cfg.dedupe_window now sup.first_sent p (f sup e))
  free t k now s p (inr l) f = l

  dispatch_new-Keeps :
      (t : ℕ) (k : String) (now : ℕ) (ch : ℤ) (r : Line fl tm) (s : Suppressed fl tm)
      → t ≤ now
      → Held t k now s
      → (dedupe_key r ≡ k → width cfg + t ≤ now)
      → Keeps t k now (dispatch_new now ch r s)
  unfolding dispatch_new cards
  dispatch_new-Keeps t k now ch r s l h f = (Held-insert t k now (dedupe_key r) _ s l h, (f, tt))

  pub dispatch-Keeps :
      (t : ℕ) (k : String) (now : ℕ) (r : Line fl tm) (s : Suppressed fl tm)
      → lt_ℤ (pos 0) cfg.dedupe_window ≡ true
      → t ≤ now
      → Held t k now s
      → Keeps t k now (dispatch cfg now r s)
  unfolding dispatch cards
  dispatch-Keeps t k now r s p l h =
      if_case (Keeps t k now) (eq_ℤ (channel_for cfg r.level) (pos 0)) _ _ (λ b. (h, tt))
        (λ b.
          if_case (Keeps t k now) (not (lt_ℤ (pos 0) cfg.dedupe_window)) _ _
            (λ c. absurd (ground (arith, p, c)))
            (λ c.
              option_case (Keeps t k now) (lookup (dedupe_key r) s) _ _
                (λ e. dispatch_new-Keeps t k now (channel_for cfg r.level) r s l h (λ same.
                  free t k now s p h
                    (λ sup f. absurd (ground (arith, e, f, ap (λ x. lookup x s) same)))))
                (λ v e.
                  if_case (Keeps t k now) (inside cfg now v) _ _
                    (λ d. (Held-count t k now (dedupe_key r) v s e h, tt))
                    (λ d. dispatch_new-Keeps t k now (channel_for cfg r.level) r s l h (λ same.
                      free t k now s p h (λ sup f.
                        ap (inside cfg now) (sym (same_found (dedupe_key r) k v sup s same e f))
                        ∙ d))))))

  pub tick-Keeps :
      (t : ℕ) (k : String) (now : ℕ) (s : Suppressed fl tm)
      → lt_ℤ (pos 0) cfg.dedupe_window ≡ true
      → Held t k now s
      → Keeps t k now (sweep cfg false now s)
  tick-Keeps t k now s p h = (
    elim h [ inl (sup, e, l) ↦ sweep-Held t k now s sup p e l | inr l ↦ inr l ],
    rw (cards-sweep cfg false now s) tt,
  )

  pub Held-later :
      (t : ℕ) (k : String) (past now : ℕ) (s : Suppressed fl tm)
      → past ≤ now
      → Held t k past s
      → Held t k now s
  Held-later t k past now s l (inl found) = inl found
  Held-later t k past now s l (inr over) = inr (omega (arith, l, over))
