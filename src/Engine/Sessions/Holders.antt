-- ===== src/Engine/Sessions/Holders.antt =====
-- engine/account.go: who holds a session.
use pegasus_suite.Prelude.{
  ◌≡◌, refl, String, Bool, true, false, ◌&&◌, ◌||◌, not, none, some, [], ◌∷◌, arith, Option-cases,
  inl, inr,
}
use pegasus_suite.Prelude.Assoc.{
  Assoc, Eq, string_eq, lookup, insert, erase, lookup-erase, lookup-insert,
}
use pegasus_suite.Clients.{ProcessKey, key_eq}
use pegasus_suite.Engine.Sessions.{Bookmaker, Session, Sessions, release, drop_idle}

both : (a a' h h' n : Bool) → a' ≡ (a && n) → h' ≡ (h && n) → (a' || h') ≡ ((a || h) && n)
both a a' h h' n p q = ground (arith, p, q)

module _ {K : Type 0} ⦃e : Eq K⦄ where
  abbrev pub is_held : K → Assoc {0, 0} K Unit → Bool
  is_held key holders = elim (lookup key holders) [ none ↦ false | some u ↦ true ]

  held-erase :
      (k j : K) (m : Assoc {0, 0} K Unit) → is_held j (erase k m) ≡ (is_held j m && not (e.beq k j))
  held-erase k j m = ground (arith, lookup-erase k j m)

  unheld :
      (k j : K) (m : Assoc {0, 0} K Unit)
      → lookup k m ≡ none
      → is_held j m ≡ (is_held j m && not (e.beq k j))
  unheld k j m h = ground (arith, h, e.beq_iff k j)

  pub held-insert :
      (k j : K) (m : Assoc {0, 0} K Unit) → is_held j (insert k tt m) ≡ (is_held j m || e.beq k j)
  held-insert k j m = ground (arith, lookup-insert k j tt m)

module _ {C : Type 0} where
  -- whether the process holds any of the sessions
  unfoldable pub holds : ProcessKey → Sessions C → Bool
  holds key [] = false
  holds key ((alias, s) ∷ m) = is_held key s.holders || holds key m

  -- no session is left without a holder
  unfoldable pub none_idle : Sessions C → Bool
  none_idle [] = true
  none_idle ((alias, s) ∷ m) = elim s.holders [ [] ↦ false | h ∷ rest ↦ none_idle m ]

module _ {W E Login : Type 0} (b : Bookmaker W E Login) where
  -- the part of `release` that follows the removal of the holder
  drop_holder :
      (key j : ProcessKey) (alias : String) (s : Session b.Client)
      (left : Assoc {0, 0} ProcessKey Unit) (m : Sessions b.Client) (w : W)
      → is_held j left ≡ (is_held j s.holders && not (key_eq.beq key j))
      → ((w : W) → holds j (release b key m w).0 ≡ (holds j m && not (key_eq.beq key j)))
      → holds j (drop_idle b alias s left (release b key m) w).0
        ≡ (holds j ((alias, s) ∷ m) && not (key_eq.beq key j))
  unfolding holds drop_idle lookup
  drop_holder key j alias s [] m w l ih =
      both (is_held j s.holders) (is_held j []) (holds j m) _ (not (key_eq.beq key j)) l
        (ih (b.close s.client w))
  drop_holder key j alias s (h ∷ rest) m w l ih =
      both (is_held j s.holders) (is_held j (h ∷ rest)) (holds j m) _ (not (key_eq.beq key j)) l
        (ih w)

  -- After a release the process holds nothing, and what the others hold is unchanged.
  pub release-holds :
      (key j : ProcessKey) (m : Sessions b.Client) (w : W)
      → holds j (release b key m w).0 ≡ (holds j m && not (key_eq.beq key j))
  unfolding release holds
  release-holds key j [] w = refl
  release-holds key j ((alias, s) ∷ m) w = elim (Option-cases (lookup key s.holders)) [
    | inl e ↦
        rw (release, holds, e)
          (both (is_held j s.holders) _ (holds j m) _ (not (key_eq.beq key j))
            (unheld key j s.holders e) (release-holds key j m w))
    | inr (u, e) ↦
        rw (release, e)
          (drop_holder key j alias s (erase key s.holders) m w (held-erase key j s.holders)
            (release-holds key j m))
  ]

  pub release-none_idle :
      (key : ProcessKey) (m : Sessions b.Client) (w : W)
      → none_idle m ≡ true
      → none_idle (release b key m w).0 ≡ true
  unfolding release drop_idle none_idle
  release-none_idle key [] w h = refl
  release-none_idle key ((alias, s) ∷ m) w h =
      ground (arith, h, release-none_idle key m w, release-none_idle key m (b.close s.client w))
