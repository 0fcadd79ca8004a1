-- ===== src/Kernel/Documents.antt =====
-- The settings documents with the store of clients/mem/mem.go: what is saved is what is read back, and
-- what is deleted is gone.
use pegasus_suite.Prelude.{
  ◌≡◌, refl, ◌≢◌, ap, ◌∙◌, true, not, Option, none, arith, option_case, if_case,
}
use pegasus_suite.Prelude.Assoc.{lookup, lookup-erase_self, lookup-erase_ne, lookup-insert_self}
use pegasus_suite.Clients.{ProcessKey, key_eq, RawMessage, State, ok, err}
use pegasus_suite.Clients.Mem.{
  MemStore, mem_store, process, set_state as mem_set_state, put_process, forget, delete_process,
}
use pegasus_suite.Kernel.Host.{Host, Error, err_no_settings}
use pegasus_suite.Kernel.State.{Kernel, has_app, set_state}
use pegasus_suite.Kernel.Processes.{rebuild_locked, start_loaded, drop_locked}
use pegasus_suite.Kernel.Settings.{
  decode, reload, apply_saved, save_process_settings, get_process_settings, unload,
  delete_process_settings,
}
use pegasus_suite.Kernel.Steps.Settings.{save_process_settings-Step}
use pegasus_suite.Kernel.Rebuild.{rebuild_locked-Rebuilt}

-- Recording a state touches no document.
process-set_state :
    (j key : ProcessKey) (s : State) (m : MemStore)
    → process j (mem_set_state key s m).0 ≡ process j m
unfolding process mem_set_state
process-set_state j key s m = refl

process-put_process :
    (key : ProcessKey) (doc : RawMessage) (m : MemStore)
    → process key (put_process key doc m).0 ≡ ok doc
unfolding process put_process
process-put_process key doc m = rw (lookup-insert_self key doc m.processes, process, put_process)

module _ {h : Host} where
  abbrev KeepsDocument : ProcessKey → Kernel mem_store h → Kernel mem_store h → Type 0
  KeepsDocument j k k' = process j k'.store ≡ process j k.store

  store-start_loaded :
      (key : ProcessKey) (k : Kernel mem_store h) → (start_loaded key k).store ≡ k.store
  unfolding start_loaded
  store-start_loaded key k = ground arith

  reload-KeepsDocument :
      (j key : ProcessKey) (old : h.P) (k : Kernel mem_store h)
      → KeepsDocument j k (reload key old k).0
  unfolding reload set_state
  reload-KeepsDocument j key old k =
      let b = rebuild_locked-Rebuilt key old k in
      let k₁ = (rebuild_locked key old k).0 in
      option_case (λ (r : Kernel mem_store h × Option Error). KeepsDocument j k r.0)
        (rebuild_locked key old k).1 _ _
        (λ q.
          if_case (KeepsDocument j k) (h.process_running old k.world) _ _
            (λ was.
              process-set_state j key _ (start_loaded key k₁).store
              ∙ ap (process j) (store-start_loaded key k₁ ∙ b.kept q))
            (λ was. ap (process j) (b.kept q)))
        (λ e q. ap (process j) (b.removed e q).1 ∙ process-set_state j key _ k.store)

  apply_saved-KeepsDocument :
      (j key : ProcessKey) (k : Kernel mem_store h) → KeepsDocument j k (apply_saved key k).0
  unfolding apply_saved
  apply_saved-KeepsDocument j key k =
      if_case (λ (r : Kernel mem_store h × Option Error). KeepsDocument j k r.0) (not k.running) _ _
        (λ b. refl)
        (λ b.
          option_case (λ (r : Kernel mem_store h × Option Error). KeepsDocument j k r.0)
            (lookup key k.procs) _ _ (λ e. refl) (λ old e. reload-KeepsDocument j key old k))

  process-save :
      (key : ProcessKey) (doc : RawMessage) (k : Kernel mem_store h)
      → has_app key.app k ≡ true
      → decode h doc (h.process_settings key.app) ≡ none
      → process key (save_process_settings key doc k).0.store ≡ ok doc
  unfolding save_process_settings put_process
  process-save key doc k a d =
      let k' = record k { store = (put_process key doc k.store).0 } in
      rw (a, d, save_process_settings)
        (apply_saved-KeepsDocument key key k' ∙ process-put_process key doc k.store)

  -- In a kernel over the store in memory: a valid document of a registered application reads back as
  -- saved, whether the runtime is down, the process is not loaded, its rebuild succeeds or its rebuild
  -- fails.
  pub get_process_settings-save :
      (key : ProcessKey) (doc : RawMessage) (k : Kernel mem_store h)
      → has_app key.app k ≡ true
      → decode h doc (h.process_settings key.app) ≡ none
      → get_process_settings key (save_process_settings key doc k).0 ≡ ok doc
  unfolding get_process_settings has_app
  get_process_settings-save key doc k a d =
      let same = (save_process_settings-Step key doc k).apps in
      let there = process-save key doc k a d in ground (arith, same, there)

  unload-facts :
      (key : ProcessKey) (k : Kernel mem_store h)
      → ((unload key k).store ≡ k.store)
        × ((unload key k).apps ≡ k.apps)
        × (k.running ≡ true → lookup key (unload key k).procs ≡ none)
  unfolding unload drop_locked
  unload-facts key k =
      (ground arith, ground arith, λ r. ground (arith, lookup-erase_self key k.procs))

  -- Deleting the settings of a registered application's process succeeds: the document and the
  -- recorded state are gone, a running kernel no longer has the process, and the documents of other
  -- processes are as before.
  pub delete_process_settings_lem :
      (key : ProcessKey) (k : Kernel mem_store h)
      → has_app key.app k ≡ true
      → let (k', e) = delete_process_settings key k in
        (e ≡ none)
        × (get_process_settings key k' ≡ err err_no_settings)
        × (lookup key k'.store.states ≡ none)
        × (k.running ≡ true → lookup key k'.procs ≡ none)
        × ((j : ProcessKey) → key ≢ j → process j k'.store ≡ process j k.store)
  unfolding delete_process_settings get_process_settings has_app process forget delete_process
  delete_process_settings_lem key k a =
      let f = unload-facts key k in
      (
        ground arith,
        ground (arith, f, lookup-erase_self key k.store.processes),
        ground (arith, f, lookup-erase_self key k.store.states),
        λ r. ground (arith, f, f.2 r),
        λ j n. ground (arith, f, lookup-erase_ne key j k.store.processes n),
      )
