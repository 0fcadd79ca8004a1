-- ===== src/Engine/Sessions/Accounts.antt =====
-- engine/engine.go: opening and releasing the sessions of a process.
use pegasus_suite.Prelude.{
  is_some, ◌≡◌, sym, ap, ◌∙◌, String, Bool, true, false, ◌&&◌, ◌||◌, not, Option, none, some, [],
  ◌∷◌, arith, Bool-cases, inl, inr, option_case,
}
use pegasus_suite.Prelude.Assoc.{string_eq, lookup, insert}
use pegasus_suite.Clients.{ProcessKey, key_eq, Result, ok, err, result_case, Result-cases}
use pegasus_suite.Engine.Sessions.{
  Bookmaker, BetmaticCredentials, BetfairCredentials, Credentials, Strings, Session, Sessions,
  normalise, claim, release, Engine, Account, account, account_betmatic, account_betfair,
  release_both,
}
use pegasus_suite.Engine.Sessions.Holders.{
  is_held, held-insert, holds, none_idle, release-holds, release-none_idle,
}

abbrev pub is_ok : {E A : Type 0} → Result E A → Bool
is_ok (ok a) = true
is_ok (err e) = false

here : (a a' h n : Bool) → a' ≡ (a || n) → (a' || h) ≡ ((a || h) || n)
here a a' h n p = ground (arith, p)

there : (a h h' n : Bool) → h' ≡ (h || n) → (a || h') ≡ ((a || h) || n)
there a h h' n p = ground (arith, p)

or_false : (x : Bool) → x ≡ (x || false)
or_false x = ground arith

-- a claim that is taken back
taken_back :
    (x m i n : Bool) → (n ≡ true → x ≡ false) → m ≡ (x || i && n) → (m && not n) ≡ (x || false)
taken_back x m i n f p = ground (arith, f, p)

module _ {C : Type 0} where
  holds-insert_held :
      (key j : ProcessKey) (alias : String) (s : Session C) (m : Sessions C)
      → lookup alias m ≡ some s
      → holds j (insert alias (record s { holders = insert key tt s.holders }) m)
        ≡ (holds j m || key_eq.beq key j)
  unfolding holds lookup insert
  holds-insert_held key j alias s [] h = ground (arith, h)
  holds-insert_held key j alias s ((i, t) ∷ m) h = elim (Bool-cases (string_eq.beq i alias)) [
    | inl b ↦
        (let e : t ≡ s = ground (arith, h, b) in
          rw (b, e)
            (here (is_held j s.holders) _ (holds j m) (key_eq.beq key j)
              (held-insert key j s.holders)))
    | inr b ↦ rw b (
        there (is_held j t.holders) (holds j m) _ (key_eq.beq key j)
          (holds-insert_held key j alias s m (ground (arith, h, b))))
  ]

  holds-insert_new :
      (key j : ProcessKey) (alias : String) (client : C) (m : Sessions C)
      → lookup alias m ≡ none
      → holds j (insert alias (record { client = client; holders = insert key tt [] }) m)
        ≡ (holds j m || key_eq.beq key j)
  unfolding holds lookup insert
  holds-insert_new key j alias client [] h =
      here false _ false (key_eq.beq key j) (held-insert key j [])
  holds-insert_new key j alias client ((i, t) ∷ m) h = elim (Bool-cases (string_eq.beq i alias)) [
    | inl b ↦ ground (arith, h, b)
    | inr b ↦ rw b (
        there (is_held j t.holders) (holds j m) _ (key_eq.beq key j)
          (holds-insert_new key j alias client m (ground (arith, h, b))))
  ]

same_key :
    {C : Type 0} (key j : ProcessKey) (m : Sessions C)
    → holds key m ≡ false
    → key_eq.beq key j ≡ true
    → holds j m ≡ false
same_key key j m h b = rw (sym ((key_eq.beq_iff key j).0 b)) h

module _ {W E Login : Type 0} (str : Strings) (b : Bookmaker W E Login) where
  claim-holds :
      (key j : ProcessKey) (username : String) (login : Login) (m : Sessions b.Client) (w : W)
      → let ((m', w'), r) = claim str b key username login m w in
        holds j m' ≡ (holds j m || is_ok r && key_eq.beq key j)
  unfolding claim
  claim-holds key j username login m w =
      let P : (Sessions b.Client × W) × Result E b.Client → Type 0 =
        λ x. holds j x.0.0 ≡ (holds j m || is_ok x.1 && key_eq.beq key j) in
      let alias = normalise str username in
      option_case P (lookup alias m) _ _
        (λ n.
          result_case P (b.dial login w).1 _ _ (λ x e. or_false (holds j m))
            (λ client e. holds-insert_new key j alias client m n))
        (λ s h. holds-insert_held key j alias s m h)

module _ {W E : Type 0} (str : Strings) (bm : Bookmaker W E BetmaticCredentials)
    (bf : Bookmaker W E BetfairCredentials) where
  -- what a call with the engine `e` did to the sessions of `j`, given who claimed what
  Claimed :
      (key j : ProcessKey)
      → Bool
      → Bool
      → Bool
      → Bool
      → (Engine str bm bf × W) × Result E (Account str bm bf)
      → Type 0
  Claimed key j x y in_bm in_bf ((e', w'), r) =
      (holds j e'.betmatic ≡ (x || is_ok r && in_bm && key_eq.beq key j))
      × (holds j e'.betfair ≡ (y || is_ok r && in_bf && key_eq.beq key j))

  account_betfair-Claimed :
      (key j : ProcessKey) (c : Option BetfairCredentials) (a : Account str bm bf)
      (e : Engine str bm bf) (w : W) (x in_bm : Bool)
      → (key_eq.beq key j ≡ true → x ≡ false)
      → holds j e.betmatic ≡ (x || in_bm && key_eq.beq key j)
      → Claimed key j x
          (holds j e.betfair)
          in_bm
          (is_some c)
          (account_betfair str bm bf key c a e w)
  unfolding Claimed account_betfair
  account_betfair-Claimed key j none a e w x in_bm f h = (h, or_false (holds j e.betfair))
  account_betfair-Claimed key j (some c) a e w x in_bm f h =
      let P = Claimed key j x (holds j e.betfair) in_bm true in
      let claimed = claim str bf key c.username c e.betfair w in
      let q = claim-holds str bf key j c.username c e.betfair w in
      elim (Result-cases claimed.1) [
        | inl (x', r) ↦
            rw (account_betfair, r)
              (
                release-holds bm key j e.betmatic claimed.0.1
                    ∙ taken_back x (holds j e.betmatic) in_bm (key_eq.beq key j) f h,
                q ∙ ap (λ k. holds j e.betfair || is_ok k && key_eq.beq key j) r,
              )
        | inr (client, r) ↦
            rw (account_betfair, r)
              (h, q ∙ ap (λ k. holds j e.betfair || is_ok k && key_eq.beq key j) r)
      ]

  account_betmatic-Claimed :
      (key j : ProcessKey) (c : Option BetmaticCredentials) (d : Option BetfairCredentials)
      (e : Engine str bm bf) (w : W)
      → holds key e.betmatic ≡ false
      → Claimed key j
          (holds j e.betmatic)
          (holds j e.betfair)
          (is_some c)
          (is_some d)
          (account_betmatic str bm bf key c d e w)
  unfolding account_betmatic Claimed
  account_betmatic-Claimed key j none d e w h =
      account_betfair-Claimed key j d _ e w (holds j e.betmatic) false (same_key key j e.betmatic h)
        (or_false (holds j e.betmatic))
  account_betmatic-Claimed key j (some c) d e w h =
      let claimed = claim str bm key c.username c e.betmatic w in
      let q = claim-holds str bm key j c.username c e.betmatic w in
      elim (Result-cases claimed.1) [
        | inl (x', r) ↦
            rw (account_betmatic, r)
              (
                q ∙ ap (λ k. holds j e.betmatic || is_ok k && key_eq.beq key j) r,
                or_false (holds j e.betfair),
              )
        | inr (client, r) ↦
            rw (account_betmatic, r)
              (account_betfair-Claimed key j d _ _ _ (holds j e.betmatic) true
                (same_key key j e.betmatic h)
                (q ∙ ap (λ k. holds j e.betmatic || is_ok k && key_eq.beq key j) r))
      ]

  -- Opening the sessions of a process that holds no Betmatic session, or failing to: on success each process holds
  -- what it held, and the new one a session of each bookmaker that it has credentials for; on an
  -- error, wherever it comes from, each process holds what it held.
  pub account_claims :
      (key j : ProcessKey) (c : Credentials) (e : Engine str bm bf) (w : W)
      → holds key e.betmatic ≡ false
      → let ((e', w'), r) = account str bm bf key c e w in
        (holds j e'.betmatic
          ≡ (holds j e.betmatic || is_ok r && is_some c.betmatic && key_eq.beq key j))
        × (holds j e'.betfair
            ≡ (holds j e.betfair || is_ok r && is_some c.betfair && key_eq.beq key j))
  unfolding account Claimed
  account_claims key j c e w h = account_betmatic-Claimed key j c.betmatic c.betfair e w h

  -- Where no session of either bookmaker is without a holder: after a release the process holds no
  -- session of either, what the others hold is unchanged, and still none is without a holder.
  pub release_both_lem :
      (key j : ProcessKey) (e : Engine str bm bf) (w : W)
      → none_idle e.betmatic ≡ true
      → none_idle e.betfair ≡ true
      → let (e', w') = release_both str bm bf key e w in
        (holds j e'.betmatic ≡ (holds j e.betmatic && not (key_eq.beq key j)))
        × (holds j e'.betfair ≡ (holds j e.betfair && not (key_eq.beq key j)))
        × (none_idle e'.betmatic ≡ true)
        × (none_idle e'.betfair ≡ true)
  unfolding release_both
  release_both_lem key j e w p q =
      let w' = (release bm key e.betmatic w).1 in
      (
        release-holds bm key j e.betmatic w,
        release-holds bf key j e.betfair w',
        release-none_idle bm key e.betmatic w p,
        release-none_idle bf key e.betfair w' q,
      )
