-- ===== src/Pegasus/App/Processes/Coverage.antt =====
-- apps/pegasus/app.go: what holds of a process that the application accepted.
use pegasus_suite.Prelude.{
  ◌≡◌, refl, String, Bool, true, false, Option, none, some, [], ◌∷◌, arith, All, option_case,
}
use pegasus_suite.Prelude.Assoc.{Assoc, lookup, lookup-insert_self}
use pegasus_suite.Prelude.Float.{Float64}
use pegasus_suite.Prelude.Time.{GoTime}
use pegasus_suite.Betting.{RacingCode, BetfairRace}
use pegasus_suite.Clients.{ProcessKey, key_eq, RawMessage, Result, ok, err, result_case}
use pegasus_suite.Engine.Place.{Account}
use pegasus_suite.Engine.Sessions.{Credentials, betmatic_valid, betfair_valid}
use pegasus_suite.Engine.Stake.{active}
use pegasus_suite.Pegasus.Core.{Provider, RaceRef}
use pegasus_suite.Pegasus.Process
use pegasus_suite.Pegasus.Scope.{split_scope_key}
use pegasus_suite.Pegasus.Settings.{
  ScopeSettings, ProcessSettings, Json, validate, parse_process, credentials,
}
use pegasus_suite.Pegasus.Settings.Validity.{AllBettable, any_active, validate-AllBettable}
use pegasus_suite.Pegasus.Strategy.{covers}
use pegasus_suite.Pegasus.Venues.{provider_for}
use pegasus_suite.Pegasus.App.{AppError, Clients, Member, App}
use pegasus_suite.Pegasus.App.Processes.{
  validate_scope, active_scopes, validate_keys, member_of, new_process,
}

-- an enabled feed covers the scope's country, and a strategy its code on that feed
pub IsCovered : (Provider → Bool) → String → Type 0
IsCovered enabled key =
    (country : String) × (code : RacingCode) × (provider : Provider) × (split_scope_key key
      ≡ some (country, code))
    × (provider_for country ≡ some provider)
    × (enabled provider ≡ true)
    × (covers provider code ≡ true)

validate_scope-IsCovered :
    (enabled : Provider → Bool) (key : String)
    → validate_scope enabled key ≡ none
    → IsCovered enabled key
unfolding validate_scope IsCovered
validate_scope-IsCovered enabled key h =
    let P : Option AppError → Type 0 = λ o. o ≡ none → IsCovered enabled key in
    option_case P (split_scope_key key) _ _ (λ n e. absurd (ground (arith, e)))
      (λ parts s.
        option_case P (provider_for parts.0) _ _ (λ n e. absurd (ground (arith, e)))
          (λ provider p e.
            (parts.0, parts.1, provider, s, p, ground (arith, e), ground (arith, e))))
      h

module _ {fl : Float64} where
  -- every scope with a stake is covered
  pub AllCovered : (Provider → Bool) → Assoc String (ScopeSettings fl) → Type 0
  AllCovered enabled scopes =
      All (λ (e : String × ScopeSettings fl). active fl e.1.stake ≡ true → IsCovered enabled e.0)
        scopes

  validate_keys-AllCovered :
      (enabled : Provider → Bool) (scopes : Assoc String (ScopeSettings fl))
      → validate_keys enabled (active_scopes scopes) ≡ none
      → AllCovered enabled scopes
  unfolding validate_keys active_scopes AllCovered
  validate_keys-AllCovered enabled [] h = tt
  validate_keys-AllCovered enabled ((key, scope) ∷ rest) h = (
    λ a. validate_scope-IsCovered enabled key (ground (arith, h, a)),
    validate_keys-AllCovered enabled rest (ground (arith, h)),
  )

  parse_process-validate :
      (json : Json (ProcessSettings fl)) (key : ProcessKey) (doc : RawMessage)
      (s : ProcessSettings fl)
      → parse_process json key doc ≡ ok s
      → validate s ≡ none
  unfolding parse_process
  parse_process-validate json key doc s h = ground (arith, h)

module _ {fl : Float64} {tm : GoTime} {W : Type 0} (c : Clients fl W) where
  -- What `NewProcess` may return. An error leaves the application as it was. A process that is returned
  -- is the one that the application now knows by the key, is not running, and has settings under which
  -- some scope has a stake, and every scope with a stake is covered and can be bet with its accounts.
  pub IsAdded : ProcessKey → App tm c → (App tm c × W) × Result AppError (Member fl tm) → Type 0
  IsAdded key a ((a', w'), err e) = a' ≡ a
  IsAdded key a ((a', w'), ok m) =
      let s = m.process.settings in
      (lookup key a'.procs ≡ some m)
      × (m.process.running ≡ false)
      × (any_active s.scopes ≡ true)
      × AllCovered a.enabled s.scopes
      × AllBettable (betmatic_valid s.betmatic_credentials) (betfair_valid s.betfair_credentials)
          s.scopes

  -- `NewProcess`, on every path: an error leaves the application as it was, and a process that is
  -- returned is known to the application, is not running, and has settings in which every scope with a
  -- stake (of which there is one) is covered by an enabled feed with a strategy for its code, and by
  -- an account, a delay of at least 500 ms and, for betfair, a lower bound of the odds that is not below 1.
  pub new_process-IsAdded :
      (json : Json (ProcessSettings fl))
      (account : ProcessKey → Credentials → W → W × Result String Account)
      (get : RaceRef fl → Option (BetfairRace fl)) (key : ProcessKey) (doc : RawMessage)
      (a : App tm c) (w : W)
      → IsAdded key a (new_process c json account get key doc a w)
  unfolding new_process IsAdded Process.new
  new_process-IsAdded json account get key doc a w =
      let P = IsAdded key a in
      result_case P (parse_process json key doc) _ _ (λ e f. refl)
        (λ s f.
          option_case P (validate_keys a.enabled (active_scopes s.scopes)) _ _
            (λ n.
              result_case P (account key (credentials s) w).1 _ _ (λ m g. refl)
                (λ acc g.
                  let settled =
                    (validate-AllBettable s).0 (parse_process-validate json key doc s f) in
                  (
                    lookup-insert_self key (member_of c json account get acc s) a.procs,
                    refl,
                    settled.2,
                    validate_keys-AllCovered a.enabled s.scopes n,
                    settled.1,
                  )))
            (λ e n. refl))
