-- ===== src/Kernel/Processes.antt =====
-- kernel/process.go: the registry of processes. A method returns the kernel and its error, if any.
use pegasus_suite.Prelude.{Bool, String, Option, none, some, List, [], ◌∷◌, if◌then◌else◌, not}
use pegasus_suite.Prelude.Assoc.{lookup, insert, erase}
use pegasus_suite.Clients.{
  ProcessKey, key_eq, ProcessRef, state_running, state_stopped, RawMessage, StoreError,
  err_not_found, failed, Result, ok, err, Store,
}
use pegasus_suite.Kernel.Host.{
  Host, Error, err_exists, err_no_settings, store_failed, process_removed,
}
use pegasus_suite.Kernel.State.{
  Kernel, is_up, host_settings, get_app_by_process_key, get_process_by_key, set_state,
}

module _ {st : Store} {h : Host} where
  -- what follows `app.NewProcess`: a session claimed before the failure is released
  unfoldable pub register_built :
      ProcessKey → Result Error h.P → Kernel st h → Kernel st h × Option Error
  register_built key (err e) k = (record k { world = h.engine_release key k.world }, some e)
  register_built key (ok p) k = (record k { procs = insert key p k.procs }, none)

  -- `app.NewProcess` on the document that the store returned
  unfoldable pub build_locked :
      ProcessKey → Result StoreError RawMessage → Kernel st h → Kernel st h × Option Error
  build_locked key (err err_not_found) k = (k, some err_no_settings)
  build_locked key (err (failed m)) k =
      (k, some (store_failed "unable to load process settings" (failed m)))
  build_locked key (ok doc) k =
      let (w, made) = h.app_new_process key.app key doc (host_settings k) k.world in
      register_built key made (record k { world = w })

  -- `addLocked`: builds and registers a process from its settings, not started
  unfoldable pub add_locked : ProcessKey → Kernel st h → Kernel st h × Option Error
  add_locked key k = elim (get_app_by_process_key key k) [
    | some e ↦ (k, some e)
    | none ↦ elim (lookup key k.procs) [
      | some p ↦ (k, some err_exists)
      | none ↦ build_locked key (st.process key k.store) k
    ]
  ]

  unfoldable pub add_process : ProcessKey → Kernel st h → Kernel st h × Option Error
  add_process key k =
      let (k', e) = add_locked key k in
      elim e [ some e ↦ (k', some e) | none ↦ (set_state key state_stopped k', none) ]

  unfoldable pub start_process : ProcessKey → Kernel st h → Kernel st h × Option Error
  start_process key k = elim (get_process_by_key key k) [
    | err e ↦ (k, some e)
    | ok p ↦ (set_state key state_running (record k { world = h.process_start p k.world }), none)
  ]

  unfoldable pub stop_process : ProcessKey → Kernel st h → Kernel st h × Option Error
  stop_process key k = elim (get_process_by_key key k) [
    | err e ↦ (k, some e)
    | ok p ↦ (set_state key state_stopped (record k { world = h.process_stop p k.world }), none)
  ]

  -- `p.Stop(); p.Close(); delete(k.procs, key); k.eng.Release(key)`
  unfoldable pub drop_locked : ProcessKey → h.P → Kernel st h → Kernel st h
  drop_locked key p k = record k {
    world = h.engine_release key (h.process_close p (h.process_stop p k.world));
    procs = erase key k.procs;
  }

  -- `rebuildLocked`: replaces a loaded process with one built from current settings, not started
  unfoldable pub rebuild_locked : ProcessKey → h.P → Kernel st h → Kernel st h × Option Error
  rebuild_locked key old k =
      let (k', e) = add_locked key (drop_locked key old k) in
      elim e [ some e ↦ (set_state key state_stopped k', some e) | none ↦ (k', none) ]

  -- `k.procs[key].Start()`. A missing key is a nil dereference in Go; `rebuild_locked` has put it there.
  unfoldable pub start_loaded : ProcessKey → Kernel st h → Kernel st h
  start_loaded key k = elim (lookup key k.procs) [
    | none ↦ k
    | some p ↦ record k { world = h.process_start p k.world }
  ]

  unfoldable pub restart_process : ProcessKey → Kernel st h → Kernel st h × Option Error
  restart_process key k = elim (get_process_by_key key k) [
    | err e ↦ (k, some e)
    | ok old ↦
        (let (k', e) = rebuild_locked key old k in
          elim e [
            | some e ↦ (k', some (process_removed e))
            | none ↦ (set_state key state_running (start_loaded key k'), none)
          ])
  ]

  -- A state that cannot be forgotten is logged and otherwise ignored.
  unfoldable pub delete_process : ProcessKey → Kernel st h → Kernel st h × Option Error
  delete_process key k = elim (get_process_by_key key k) [
    | err e ↦ (k, some e)
    | ok p ↦
        (let k' = drop_locked key p k in (record k' { store = (st.forget key k'.store).0 }, none))
  ]

  unfoldable pub process_running : ProcessKey → Kernel st h → Result Error Bool
  process_running key k = elim (get_process_by_key key k) [
    | err e ↦ err e
    | ok p ↦ ok (h.process_running p k.world)
  ]

  -- one round of the inner loop of `restoreProcessesLocked`
  unfoldable pub restore_ref : ProcessRef → Kernel st h → Kernel st h
  restore_ref ref k =
      let (k', e) = add_locked ref.key k in
      elim e [
        | some e ↦ k'
        | none ↦ elim ref.state [ state_running ↦ start_loaded ref.key k' | state_stopped ↦ k' ]
      ]

  unfoldable pub restore_refs : List ProcessRef → Kernel st h → Kernel st h
  restore_refs [] k = k
  restore_refs (ref ∷ rest) k = restore_refs rest (restore_ref ref k)

  -- one round of its outer loop; a listing that fails skips the application
  unfoldable pub restore_app : String → Kernel st h → Kernel st h
  restore_app app k =
      if not (is_up app k.up)
      then k
      else elim (st.processes app k.store) [ err e ↦ k | ok refs ↦ restore_refs refs k ]

  -- `restoreProcessesLocked`, over the applications in order: re-adds every process as per the
  -- store's state
  unfoldable pub restore_processes_locked : List String → Kernel st h → Kernel st h
  restore_processes_locked [] k = k
  restore_processes_locked (app ∷ rest) k = restore_processes_locked rest (restore_app app k)
