-- ===== src/Kernel/Invariant/Starting.antt =====
-- `startLocked` of kernel/kernel.go: what comes up, and what a failed start leaves.
use pegasus_suite.Prelude.{
  String, ◌≡◌, refl, Bool, true, false, Option, none, some, List, [], ◌∷◌, arith, if_case,
  option_case, str_eq_iff, length, ◌==◌,
}
use pegasus_suite.Prelude.Assoc.{lookup, string_eq, lookup-insert_cases, none_in_nil}
use pegasus_suite.Clients.{key_eq, Store}
use pegasus_suite.Kernel.Host.{Host, Error}
use pegasus_suite.Kernel.State.{Kernel, registered, host_settings}
use pegasus_suite.Kernel.Lifecycle.{start_app, start_apps, bring_up, give_up, go_live, start_locked}
use pegasus_suite.Kernel.Steps.{restore_processes_locked-Step}
use pegasus_suite.Kernel.Invariant.{IsConsistent, IsDown, IsConsistent-of-IsDown, Step-IsConsistent}

registered-first : (a : String) (names : List String) → registered a (a ∷ names) ≡ true
unfolding registered
registered-first a names = ground (arith, str_eq_iff a a)

registered-later :
    (a name : String) (names : List String)
    → registered name names ≡ true
    → registered name (a ∷ names) ≡ true
unfolding registered
registered-later a name names e = ground arith

eq-nil-of-length {ℓ} : {A : Type ℓ} (xs : List A) → (length xs == 0) ≡ true → xs ≡ []
eq-nil-of-length [] e = refl
eq-nil-of-length (x ∷ xs) e = ground arith

module _ {st : Store} {h : Host} where
  -- `startLocked` up to its test: applications come up, and nothing else changes
  record Starting (apps : List String) (k : Kernel st h) : Type 0 where
    procs : k.procs ≡ []
    running : k.running ≡ false
    known : k.apps ≡ apps
    registered_up :
        (name : String) (b : Bool)
        → lookup name k.up ≡ some b
        → (registered name apps ≡ true) × (b ≡ true)

  start_app-Starting :
      (app : String) (apps : List String) (k : Kernel st h)
      → registered app apps ≡ true
      → Starting apps k
      → Starting apps (start_app app k)
  unfolding start_app
  start_app-Starting app apps k r s =
      option_case (Starting apps) (h.app_start app (host_settings k) k.world).1 _ _
        (λ e. record {
          procs = s.procs;
          running = s.running;
          known = s.known;
          registered_up = λ name b q.
              ground (arith, lookup-insert_cases app name true k.up q, s.registered_up name b);
        })
        (λ e q. record {
          procs = s.procs;
          running = s.running;
          known = s.known;
          registered_up = s.registered_up;
        })

  start_apps-Starting :
      (names apps : List String) (k : Kernel st h)
      → ((name : String) → registered name names ≡ true → registered name apps ≡ true)
      → Starting apps k
      → Starting apps (start_apps names k)
  unfolding start_apps
  start_apps-Starting [] apps k r s = s
  start_apps-Starting (a ∷ names) apps k r s =
      start_apps-Starting names apps (start_app a k)
        (λ name e. r name (registered-later a name names e))
        (start_app-Starting a apps k (r a (registered-first a names)) s)

  bring_up-Starting :
      (k : Kernel st h) → IsConsistent k → k.running ≡ false → Starting k.apps (bring_up k)
  unfolding bring_up
  bring_up-Starting k c b =
      start_apps-Starting k.apps k.apps _ (λ name e. e)
        (record {
          procs = c.down_procs b;
          running = b;
          known = refl;
          registered_up = c.up_registered;
        })

  give_up-IsDown :
      (apps : List String) (k : Kernel st h)
      → Starting apps k
      → (length k.up == 0) ≡ true
      → IsDown apps (give_up k)
  unfolding give_up
  give_up-IsDown apps k s e = record {
    running = s.running;
    procs = s.procs;
    up = eq-nil-of-length k.up e;
    known = s.known;
  }

  go_live-IsConsistent :
      (apps : List String) (k : Kernel st h) → Starting apps k → IsConsistent (go_live k)
  unfolding go_live
  go_live-IsConsistent apps k s =
      let k' = record k { running = true; started_at = h.now k.world; last_err = none } in
      Step-IsConsistent k' _ (restore_processes_locked-Step k.apps k') (record {
        down_procs = λ e. cc;
        down_up = λ e. cc;
        loaded_up = λ key p e. absurd (none_in_nil key p (rw (s.procs) at e));
        up_registered = λ name b e. rw s.known (s.registered_up name b e);
      })

  pub start_locked-IsConsistent :
      (k : Kernel st h) → IsConsistent k → IsConsistent (start_locked k).0
  unfolding start_locked
  start_locked-IsConsistent k c =
      if_case (λ (r : Kernel st h × Option Error). IsConsistent r.0) k.running _ _ (λ b. c)
        (λ b.
          let s = bring_up-Starting k c b in
          if_case (λ (r : Kernel st h × Option Error). IsConsistent r.0)
            (length (bring_up k).up == 0) _ _
            (λ e. IsConsistent-of-IsDown k.apps _ (give_up-IsDown k.apps (bring_up k) s e))
            (λ e. go_live-IsConsistent k.apps (bring_up k) s))
