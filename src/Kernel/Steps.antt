-- ===== src/Kernel/Steps.antt =====
-- What the operations of kernel/process.go may change: a relation between the kernel before and after,
-- closed under doing one after the other.
pub mod Settings
use pegasus_suite.Prelude.{
  String, ◌≡◌, refl, sym, ap, ◌∙◌, Bool, true, false, Option, none, some, List, [], ◌∷◌, arith, ◌⊎◌,
  inl, inr, Option-cases, Bool-cases, if◌then◌else◌,
}
use pegasus_suite.Prelude.Assoc.{
  Assoc, lookup, insert, erase, string_eq, lookup-insert_cases, lookup-erase,
}
use pegasus_suite.Clients.{
  ProcessKey, key_eq, ProcessRef, State, state_running, state_stopped, StoreError, Result,
  Result-cases, ok, err, Store, err_not_found, failed,
}
use pegasus_suite.Kernel.Host.{Host, Error}
use pegasus_suite.Kernel.State.{
  Kernel, registered, is_up, host_settings, get_app_by_process_key, get_process_by_key, set_state,
}
use pegasus_suite.Kernel.Processes.{
  register_built, build_locked, add_locked, add_process, start_process, stop_process, drop_locked,
  rebuild_locked, start_loaded, restart_process, delete_process, restore_ref, restore_refs,
  restore_app, restore_processes_locked,
}

module _ {st : Store} {h : Host} where
  -- What an operation on processes may do: it leaves the runtime as it is, loads nothing while that
  -- is down, and loads a process only for an application that is up.
  pub record Step (k k' : Kernel st h) : Type 0 where
    pub running : k'.running ≡ k.running
    pub up : k'.up ≡ k.up
    pub apps : k'.apps ≡ k.apps
    pub idle : k.running ≡ false → k.procs ≡ [] → k'.procs ≡ []
    pub adds :
        (key : ProcessKey) (p : h.P)
        → lookup key k'.procs ≡ some p
        → (lookup key k.procs ≡ some p) ⊎ (lookup key.app k.up ≡ some true)

  pub Step-refl : (k : Kernel st h) → Step k k
  Step-refl k = record {
    running = refl;
    up = refl;
    apps = refl;
    idle = λ e n. n;
    adds = λ key p e. inl e;
  }

  pub Step-trans : (k k' k'' : Kernel st h) → Step k k' → Step k' k'' → Step k k''
  Step-trans k k' k'' f g = record {
    running = g.running ∙ f.running;
    up = g.up ∙ f.up;
    apps = g.apps ∙ f.apps;
    idle = λ e n. g.idle (f.running ∙ e) (f.idle e n);
    adds = λ key p e. ground (arith, g.adds key p e, f.adds key p, f.up);
  }

  -- an operation that touches neither the registry nor the runtime
  pub Step-frame :
      (k k' : Kernel st h)
      → k'.running ≡ k.running
      → k'.up ≡ k.up
      → k'.apps ≡ k.apps
      → k'.procs ≡ k.procs
      → Step k k'
  Step-frame k k' a b c d = record {
    running = a;
    up = b;
    apps = c;
    idle = λ e n. d ∙ n;
    adds = λ key p e. inl (rw d at e);
  }

  register_built-Step :
      (key : ProcessKey) (made : Result Error h.P) (k : Kernel st h)
      → k.running ≡ true
      → lookup key.app k.up ≡ some true
      → Step k (register_built key made k).0
  unfolding register_built
  register_built-Step key (err e) k r u = Step-frame _ _ refl refl refl refl
  register_built-Step key (ok p) k r u = record {
    running = refl;
    up = refl;
    apps = refl;
    idle = λ e n. cc;
    adds = λ j q e. ground (arith, lookup-insert_cases key j p k.procs e);
  }

  build_locked-Step :
      (key : ProcessKey) (doc : Result StoreError String) (k : Kernel st h)
      → k.running ≡ true
      → lookup key.app k.up ≡ some true
      → Step k (build_locked key doc k).0
  unfolding build_locked
  build_locked-Step key (err err_not_found) k r u = Step-refl k
  build_locked-Step key (err (failed m)) k r u = Step-refl k
  build_locked-Step key (ok doc) k r u =
      let (w, made) = h.app_new_process key.app key doc (host_settings k) k.world in
      Step-trans k (record k { world = w }) _ (Step-frame _ _ refl refl refl refl)
        (register_built-Step key made (record k { world = w }) r u)

  get_app-none :
      (key : ProcessKey) (k : Kernel st h)
      → get_app_by_process_key key k ≡ none
      → (k.running ≡ true) × (lookup key.app k.up ≡ some true)
  unfolding get_app_by_process_key
  get_app-none key k e = ground arith

  pub add_locked-Step : (key : ProcessKey) (k : Kernel st h) → Step k (add_locked key k).0
  unfolding add_locked
  add_locked-Step key k = elim (Option-cases (get_app_by_process_key key k)) [
    | inr (e, q) ↦ rw (q, add_locked) (Step-refl k)
    | inl q ↦ elim (Option-cases (lookup key k.procs)) [
      | inr (p, f) ↦ rw (q, f, add_locked) (Step-refl k)
      | inl f ↦
          let (r, u) = get_app-none key k q in
          rw (q, f, add_locked) (build_locked-Step key (st.process key k.store) k r u)
    ]
  ]

  pub set_state-Step : (key : ProcessKey) (s : State) (k : Kernel st h) → Step k (set_state key s k)
  unfolding set_state
  set_state-Step key s k = Step-frame _ _ refl refl refl refl

  pub drop_locked-Step :
      (key : ProcessKey) (p : h.P) (k : Kernel st h) → Step k (drop_locked key p k)
  unfolding drop_locked
  drop_locked-Step key p k = record {
    running = refl;
    up = refl;
    apps = refl;
    idle = λ e n. rw n (unfold erase in refl);
    adds = λ j q e. ground (arith, lookup-erase key j k.procs);
  }

  pub start_loaded-Step : (key : ProcessKey) (k : Kernel st h) → Step k (start_loaded key k)
  unfolding start_loaded
  start_loaded-Step key k =
      Step-frame _ _ (ground arith) (ground arith) (ground arith) (ground arith)

  pub add_process-Step : (key : ProcessKey) (k : Kernel st h) → Step k (add_process key k).0
  unfolding add_process
  add_process-Step key k = elim (Option-cases (add_locked key k).1) [
    | inr (e, q) ↦ rw (q, add_process) (add_locked-Step key k)
    | inl q ↦
        rw (q, add_process)
          (Step-trans _ _ _ (add_locked-Step key k)
            (set_state-Step key state_stopped (add_locked key k).0))
  ]

  world-Step : (w : h.W) (k : Kernel st h) → Step k (record k { world = w })
  world-Step w k = Step-frame _ _ refl refl refl refl

  pub store-Step : (s : st.S) (k : Kernel st h) → Step k (record k { store = s })
  store-Step s k = Step-frame _ _ refl refl refl refl

  pub start_process-Step : (key : ProcessKey) (k : Kernel st h) → Step k (start_process key k).0
  unfolding start_process set_state
  start_process-Step key k =
      Step-frame _ _ (ground arith) (ground arith) (ground arith) (ground arith)

  pub stop_process-Step : (key : ProcessKey) (k : Kernel st h) → Step k (stop_process key k).0
  unfolding stop_process set_state
  stop_process-Step key k =
      Step-frame _ _ (ground arith) (ground arith) (ground arith) (ground arith)

  pub rebuild_locked-Step :
      (key : ProcessKey) (old : h.P) (k : Kernel st h) → Step k (rebuild_locked key old k).0
  unfolding rebuild_locked
  rebuild_locked-Step key old k =
      let k₁ = drop_locked key old k in
      let dropped = Step-trans _ _ _ (drop_locked-Step key old k) (add_locked-Step key k₁) in
      elim (Option-cases (add_locked key k₁).1) [
        | inr (e, q) ↦
            rw (q, rebuild_locked) (Step-trans _ _ _ dropped (set_state-Step key state_stopped _))
        | inl q ↦ rw (q, rebuild_locked) dropped
      ]

  pub restart_process-Step : (key : ProcessKey) (k : Kernel st h) → Step k (restart_process key k).0
  unfolding restart_process
  restart_process-Step key k = elim (Result-cases (get_process_by_key key k)) [
    | inl (e, q) ↦ rw (q, restart_process) (Step-refl k)
    | inr (old, q) ↦
        let k₁ = (rebuild_locked key old k).0 in
        elim (Option-cases (rebuild_locked key old k).1) [
          | inr (e, f) ↦ rw (q, f, restart_process) (rebuild_locked-Step key old k)
          | inl f ↦
              rw (q, f, restart_process)
                (Step-trans _ _ _ (rebuild_locked-Step key old k) (
                  Step-trans _ _ _ (start_loaded-Step key k₁)
                    (set_state-Step key state_running (start_loaded key k₁))))
        ]
  ]

  pub delete_process-Step : (key : ProcessKey) (k : Kernel st h) → Step k (delete_process key k).0
  unfolding delete_process
  delete_process-Step key k = elim (Result-cases (get_process_by_key key k)) [
    | inl (e, q) ↦ rw (q, delete_process) (Step-refl k)
    | inr (p, q) ↦
        rw (q, delete_process)
          (Step-trans _ _ _ (drop_locked-Step key p k) (store-Step _ (drop_locked key p k)))
  ]

  restore_ref-Step : (ref : ProcessRef) (k : Kernel st h) → Step k (restore_ref ref k)
  unfolding restore_ref
  restore_ref-Step ref k =
      let k₁ = (add_locked ref.key k).0 in
      elim (Option-cases (add_locked ref.key k).1) [
        | inr (e, q) ↦ rw (q, restore_ref) (add_locked-Step ref.key k)
        | inl q ↦
            rw (q, restore_ref) (Step-trans _ _ _ (add_locked-Step ref.key k) (restored ref.state))
      ]
    where
      restored :
          (s : State)
          → Step (add_locked ref.key k).0 (elim s [
            | state_running ↦ start_loaded ref.key (add_locked ref.key k).0
            | state_stopped ↦ (add_locked ref.key k).0
          ])
      restored state_running = start_loaded-Step ref.key (add_locked ref.key k).0
      restored state_stopped = Step-refl (add_locked ref.key k).0

  restore_refs-Step : (refs : List ProcessRef) (k : Kernel st h) → Step k (restore_refs refs k)
  unfolding restore_refs
  restore_refs-Step [] k = Step-refl k
  restore_refs-Step (ref ∷ rest) k =
      Step-trans _ _ _ (restore_ref-Step ref k) (restore_refs-Step rest (restore_ref ref k))

  restore_app-Step : (app : String) (k : Kernel st h) → Step k (restore_app app k)
  unfolding restore_app
  restore_app-Step app k = elim (Bool-cases (is_up app k.up)) [
    | inr b ↦ rw b (Step-refl k)
    | inl b ↦ elim (Result-cases (st.processes app k.store)) [
      | inl (e, q) ↦ rw (b, q) (Step-refl k)
      | inr (refs, q) ↦ rw (b, q) (restore_refs-Step refs k)
    ]
  ]

  pub restore_processes_locked-Step :
      (apps : List String) (k : Kernel st h) → Step k (restore_processes_locked apps k)
  unfolding restore_processes_locked
  restore_processes_locked-Step [] k = Step-refl k
  restore_processes_locked-Step (app ∷ rest) k =
      Step-trans _ _ _ (restore_app-Step app k)
        (restore_processes_locked-Step rest (restore_app app k))
