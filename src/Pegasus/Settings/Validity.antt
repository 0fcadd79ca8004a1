-- ===== src/Pegasus/Settings/Validity.antt =====
-- apps/pegasus/settings/settings.go: what a document that `Validate` accepts says.
use pegasus_suite.Prelude.{
  ◌≡◌, ◌↔◌, ℕ, ◌+◌, ◌==◌, String, Bool, true, false, ◌||◌, not, none, some, [], ◌∷◌, arith, All,
}
use pegasus_suite.Prelude.Int.{pos, lt_ℤ}
use pegasus_suite.Prelude.Assoc.{Assoc}
use pegasus_suite.Prelude.Float.{Float64}
use pegasus_suite.Betting.{RacingCode}
use pegasus_suite.Engine.Stake.{active, bets_betmatic, bets_betfair}
use pegasus_suite.Engine.Sessions.{betmatic_valid, betfair_valid}
use pegasus_suite.Pegasus.Scope.{split_scope_key}
use pegasus_suite.Pegasus.Settings.{
  ScopeSettings, ProcessSettings, check_betfair, check_betmatic, check_scope, check_scopes,
  validate,
}

module _ {fl : Float64} where
  -- a scope can be bet with the accounts that are set up
  pub IsBettable : Bool → Bool → String → ScopeSettings fl → Type 0
  IsBettable bm bf key scope =
      ((parts : String × RacingCode) × (split_scope_key key ≡ some parts))
      × (bets_betmatic fl scope.stake ≡ true
          → (bm ≡ true) × (lt_ℤ scope.betmatic_delay (pos 500) ≡ false))
      × (bets_betfair fl scope.stake ≡ true
          → (bf ≡ true)
            × (lt_ℤ scope.betfair_delay (pos 500) ≡ false)
            × (fl.lt scope.stake.betfair.min_odds (fl.lit 1 0) ≡ false))

  check_scope-IsBettable :
      (bm bf : Bool) (key : String) (scope : ScopeSettings fl)
      → (check_scope bm bf key scope ≡ none) ↔ IsBettable bm bf key scope
  unfolding check_scope check_betmatic check_betfair IsBettable
  check_scope-IsBettable bm bf key scope = ground arith

  -- the scopes that are staked
  pub AllBettable : Bool → Bool → Assoc String (ScopeSettings fl) → Type 0
  AllBettable bm bf scopes =
      All (λ (e : String × ScopeSettings fl). active fl e.1.stake ≡ true → IsBettable bm bf e.0 e.1)
        scopes

  unfoldable pub any_active : Assoc String (ScopeSettings fl) → Bool
  any_active [] = false
  any_active ((key, scope) ∷ rest) = active fl scope.stake || any_active rest

  check_scopes-AllBettable :
      (bm bf : Bool) (scopes : Assoc String (ScopeSettings fl)) (count : ℕ)
      → (check_scopes bm bf scopes count ≡ none)
        ↔ (AllBettable bm bf scopes × ((not (count == 0) || any_active scopes) ≡ true))
  unfolding check_scopes AllBettable any_active
  check_scopes-AllBettable bm bf [] count = ground arith
  check_scopes-AllBettable bm bf ((key, scope) ∷ rest) count =
      let skipped = check_scopes-AllBettable bm bf rest count in
      let counted = check_scopes-AllBettable bm bf rest (count + 1) in
      let here = check_scope-IsBettable bm bf key scope in ground (arith, skipped, counted, here)

  -- `Validate` accepts a document exactly if one of the two accounts is set up, every scope with a
  -- stake is a known scope whose stakes are on accounts that are set up, at delays of at least 500 ms
  -- and, for Betfair, with least odds of at least 1, and at least one scope has a stake.
  pub validate-AllBettable :
      (s : ProcessSettings fl)
      → let bf = betfair_valid s.betfair_credentials in
        let bm = betmatic_valid s.betmatic_credentials in
        (validate s ≡ none)
        ↔ (((bm || bf) ≡ true) × AllBettable bm bf s.scopes × (any_active s.scopes ≡ true))
  unfolding validate
  validate-AllBettable s = ground (
    arith,
    check_scopes-AllBettable (betmatic_valid s.betmatic_credentials)
        (betfair_valid s.betfair_credentials) s.scopes 0,
  )
