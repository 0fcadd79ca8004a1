-- ===== src/Kernel/Invariant/Stopping.antt =====
-- `stopLocked` of kernel/kernel.go takes everything down.
use pegasus_suite.Prelude.{
  String, ◌≡◌, refl, ◌∙◌, Bool, true, false, not, Option, none, some, List, [], ◌∷◌, arith, if_case,
  str_eq_iff,
}
use pegasus_suite.Prelude.Assoc.{Assoc, lookup, string_eq, lookup-erase, eq-nil-of-lookup}
use pegasus_suite.Clients.{ProcessKey, key_eq, Store}
use pegasus_suite.Kernel.Host.{Host, Error}
use pegasus_suite.Kernel.State.{Kernel, registered}
use pegasus_suite.Kernel.Lifecycle.{stop_procs, stop_app, stop_apps, shut_down, stop_locked}
use pegasus_suite.Kernel.Invariant.{IsConsistent, IsDown, IsConsistent-of-IsDown}

module _ {st : Store} {h : Host} where
  -- `stopLocked`: what is left of the registry while its loop runs
  lookup-stop_procs :
      (m : Assoc ProcessKey h.P) (k : Kernel st h) (key : ProcessKey) (p : h.P)
      → lookup key (stop_procs m k).procs ≡ some p
      → (lookup key k.procs ≡ some p) × (lookup key m ≡ none)
  unfolding stop_procs lookup
  lookup-stop_procs [] k key p e = (e, refl)
  lookup-stop_procs ((j, q) ∷ m) k key p e =
      let rest = lookup-stop_procs m _ key p e in ground (arith, rest, lookup-erase j key k.procs)

  lookup-stop_apps :
      (names : List String) (k : Kernel st h) (name : String) (b : Bool)
      → lookup name (stop_apps names k).up ≡ some b
      → (lookup name k.up ≡ some b) × ((registered name names ≡ true) → b ≡ false)
  unfolding stop_apps stop_app registered
  lookup-stop_apps [] k name b e = (e, λ r. cc)
  lookup-stop_apps (a ∷ names) k name b e =
      let rest = lookup-stop_apps names (stop_app a k) name b e in
      ground (arith, rest, lookup-erase a name k.up, str_eq_iff a name)

  stop_procs-frame :
      (m : Assoc ProcessKey h.P) (k : Kernel st h)
      → ((stop_procs m k).running ≡ k.running)
        × ((stop_procs m k).up ≡ k.up)
        × ((stop_procs m k).apps ≡ k.apps)
  unfolding stop_procs
  stop_procs-frame [] k = (refl, refl, refl)
  stop_procs-frame ((j, q) ∷ m) k = stop_procs-frame m _

  stop_apps-frame :
      (names : List String) (k : Kernel st h)
      → ((stop_apps names k).running ≡ k.running)
        × ((stop_apps names k).procs ≡ k.procs)
        × ((stop_apps names k).apps ≡ k.apps)
  unfolding stop_apps stop_app
  stop_apps-frame [] k = (refl, refl, refl)
  stop_apps-frame (a ∷ names) k = ground (arith, stop_apps-frame names (stop_app a k))

  pub shut_down-IsDown : (k : Kernel st h) → IsConsistent k → IsDown k.apps (shut_down k)
  unfolding shut_down
  shut_down-IsDown k c =
      let k₁ = stop_procs k.procs (record k { running = false }) in
      let f = stop_procs-frame k.procs (record k { running = false }) in
      let g = stop_apps-frame k.apps k₁ in
      record {
        running = g.0 ∙ f.0;
        procs = g.1 ∙ eq-nil-of-lookup k₁.procs (λ key. no_proc key (lookup key k₁.procs) refl);
        up =
            eq-nil-of-lookup (stop_apps k.apps k₁).up
              (λ name. no_app name (lookup name (stop_apps k.apps k₁).up) refl);
        known = g.2 ∙ f.2;
      }
    where
      no_proc :
          (key : ProcessKey) (o : Option h.P)
          → lookup key (stop_procs k.procs (record k { running = false })).procs ≡ o
          → o ≡ none
      no_proc key none e = refl
      no_proc key (some p) e =
          let l = lookup-stop_procs k.procs (record k { running = false }) key p e in cc (l.0, l.1)

      no_app :
          (name : String) (o : Option Bool)
          → lookup name (stop_apps k.apps (stop_procs k.procs (record k { running = false }))).up
            ≡ o
          → o ≡ none
      no_app name none e = refl
      no_app name (some b) e =
          let f = stop_procs-frame k.procs (record k { running = false }) in
          let l =
            lookup-stop_apps k.apps (stop_procs k.procs (record k { running = false })) name b e in
          let u = c.up_registered name b (rw (f.1) at (l.0)) in cc (u.1, l.1 u.0)

  pub stop_locked-IsConsistent : (k : Kernel st h) → IsConsistent k → IsConsistent (stop_locked k).0
  unfolding stop_locked
  stop_locked-IsConsistent k c =
      if_case (λ (r : Kernel st h × Option Error). IsConsistent r.0) (not k.running) _ _ (λ b. c)
        (λ b. IsConsistent-of-IsDown k.apps (shut_down k) (shut_down-IsDown k c))
