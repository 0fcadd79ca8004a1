-- ===== src/Pegasus/TripleS/Refs.antt =====
-- apps/pegasus/triples/update.go: the races that get through, and whether their keys tell them apart.
use mathlib.Core.Path.{subst}
use pegasus_suite.Prelude.{
  ◌≡◌, ◌≢◌, refl, sym, ap, ◌∙◌, str_eq, str_eq_iff, false, ◌⊎◌, inl, inr, option_case, String, true,
  Option, none, some, arith,
}
use pegasus_suite.Prelude.Int.{ℤ}
use pegasus_suite.Prelude.Assoc.{string_eq, lookup}
use pegasus_suite.Prelude.Float.{Float64}
use pegasus_suite.Betting.{RacingCode, thoroughbred, harness}
use pegasus_suite.Pegasus.Core.{
  RaceRef, provider_triple_s, RaceStatus, status_unknown, status_pre_off, status_running,
  status_finished,
}
use pegasus_suite.Pegasus.Scope.{split_scope_key, scope_key, cut_slash}
use pegasus_suite.Pegasus.Strategy.{covers}
use pegasus_suite.Pegasus.Venues.{provider_for}
use pegasus_suite.Pegasus.TripleS.{FeedMessage, triples_racing_codes, status_of, ref, ref_with}

-- an Australian race of this feed, in a scope that a strategy covers on it
pub IsRouted : {fl : Float64} → RaceRef fl → Type 0
IsRouted r =
    (r.country ≡ "AU")
    × (r.provider ≡ provider_triple_s)
    × (split_scope_key r.scope ≡ some (r.country, r.code))
    × (provider_for r.country ≡ some provider_triple_s)
    × (covers r.provider r.code ≡ true)

racing_codes :
    (s : String) (code : RacingCode)
    → lookup s triples_racing_codes ≡ some code
    → (code ≡ thoroughbred) ⊎ (code ≡ harness)
unfolding lookup
racing_codes s code h = ground (arith, h)

no_scope : (s : String) (parts : String × RacingCode) → split_scope_key s ≡ some parts → s ≢ ""
unfolding split_scope_key cut_slash
no_scope s parts h e =
    let gone : split_scope_key "" ≡ some parts = sym (ap split_scope_key e) ∙ h in
    absurd (ground (arith, gone))

module _ {fl : Float64} (itoa : ℤ → String) where
  ref_with-IsRouted :
      (m : FeedMessage fl) (code : RacingCode) (status : RaceStatus)
      → (code ≡ thoroughbred) ⊎ (code ≡ harness)
      → IsRouted (ref_with itoa m code status)
  unfolding IsRouted split_scope_key scope_key provider_for covers cut_slash
  ref_with-IsRouted m code status (inl e) = rw e (refl, refl, refl, refl, refl)
  ref_with-IsRouted m code status (inr e) = rw e (refl, refl, refl, refl, refl)

  routed :
      (m : FeedMessage fl) (r : RaceRef fl) (code : RacingCode) (status : RaceStatus)
      → (code ≡ thoroughbred) ⊎ (code ≡ harness)
      → some (ref_with itoa m code status) ≡ some r
      → status ≢ status_unknown
      → IsRouted r × (r.status ≢ status_unknown)
  routed m r code status c h n =
      let e : ref_with itoa m code status ≡ r = cc in
      subst (λ r'. IsRouted r' × (r'.status ≢ status_unknown)) e
        (ref_with-IsRouted m code status c, n)

  of_status :
      (m : FeedMessage fl) (r : RaceRef fl) (code : RacingCode) (status : RaceStatus)
      → (code ≡ thoroughbred) ⊎ (code ≡ harness)
      → (elim status [
        | status_unknown ↦ none
        | status_pre_off ↦ some (ref_with itoa m code status_pre_off)
        | status_running ↦ some (ref_with itoa m code status_running)
        | status_finished ↦ some (ref_with itoa m code status_finished)
      ])
        ≡ some r
      → IsRouted r × (r.status ≢ status_unknown)
  of_status m r code status_unknown c h = absurd cc
  of_status m r code status_pre_off c h = routed m r code status_pre_off c h (λ e. absurd cc)
  of_status m r code status_running c h = routed m r code status_running c h (λ e. absurd cc)
  of_status m r code status_finished c h = routed m r code status_finished c h (λ e. absurd cc)

  -- Every race that `Ref` returns is an Australian one of the Triple-S feed, its scope's key names that
  -- country and the code of the race, the feed of that country is Triple-S, a strategy covers the code
  -- on it, and the status is not unknown.
  pub ref-IsRouted :
      (m : FeedMessage fl) (r : RaceRef fl)
      → ref itoa m ≡ some r
      → IsRouted r × (r.status ≢ status_unknown)
  unfolding ref
  ref-IsRouted m r h =
      let P : Option (RaceRef fl) → Type 0 =
        λ o. o ≡ some r → IsRouted r × (r.status ≢ status_unknown) in
      option_case P (lookup m.country_race_code triples_racing_codes) _ _ (λ n e. absurd cc)
        (λ code l.
          of_status m r code (status_of m.race_state) (racing_codes m.country_race_code code l))
        h

  -- so none has an empty scope
  pub ref-scope :
      (m : FeedMessage fl) (r : RaceRef fl) → ref itoa m ≡ some r → str_eq r.scope "" ≡ false
  unfolding IsRouted
  ref-scope m r h =
      ground (
        arith,
        no_scope r.scope (r.country, r.code) (ref-IsRouted m r h).0.2,
        str_eq_iff r.scope "",
      )
