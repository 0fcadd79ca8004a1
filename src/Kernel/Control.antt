-- ===== src/Kernel/Control.antt =====
-- kernel/process.go as its callers see it: starting, stopping, restarting and deleting a process.
use pegasus_suite.Prelude.{◌≡◌, refl, ◌≢◌, ◌⊎◌, ap, ◌∙◌, true, false, Option, none, some, arith}
use pegasus_suite.Prelude.Assoc.{lookup, lookup-erase_self, lookup-erase_ne}
use pegasus_suite.Clients.{ProcessKey, key_eq, state_running, state_stopped, ok, err, Store}
use pegasus_suite.Kernel.Host.{Host, Error, err_not_found, process_removed}
use pegasus_suite.Kernel.State.{Kernel, get_process_by_key, set_state}
use pegasus_suite.Kernel.Processes.{
  start_process, stop_process, delete_process, process_running, drop_locked, start_loaded,
}
use pegasus_suite.Kernel.Rebuild.{Controls}
use pegasus_suite.Kernel.Rebuild.Built.{IsMade, IsRefused, released}

module _ {st : Store} {h : Host} where
  pub get_process-ok :
      (key : ProcessKey) (k : Kernel st h) {p : h.P}
      → get_process_by_key key k ≡ ok p
      → (k.running ≡ true) × (lookup key k.procs ≡ some p)
  unfolding get_process_by_key
  get_process-ok key k e = ground arith

  pub process_running-loaded :
      (key : ProcessKey) (k : Kernel st h) {p : h.P}
      → k.running ≡ true
      → lookup key k.procs ≡ some p
      → process_running key k ≡ ok (h.process_running p k.world)
  unfolding process_running get_process_by_key
  process_running-loaded key k r l = ground arith

  pub process_running-missing :
      (key : ProcessKey) (k : Kernel st h)
      → k.running ≡ true
      → lookup key k.procs ≡ none
      → process_running key k ≡ err err_not_found
  unfolding process_running get_process_by_key
  process_running-missing key k r l = ground arith

  -- For a loaded process: starting it succeeds, records it as running in the store and makes the
  -- kernel report it running; stopping it succeeds, records it as stopped and makes the kernel
  -- report it not running; neither changes which processes are loaded.
  pub start_stop_process :
      Controls h
      → (key : ProcessKey) (k : Kernel st h) (p : h.P) → get_process_by_key key k ≡ ok p
      → let (k₁, e₁) = start_process key k in
        let (k₂, e₂) = stop_process key k in
        (e₁ ≡ none)
        × (e₂ ≡ none)
        × (process_running key k₁ ≡ ok true)
        × (process_running key k₂ ≡ ok false)
        × (k₁.store ≡ (st.set_state key state_running k.store).0)
        × (k₂.store ≡ (st.set_state key state_stopped k.store).0)
        × (k₁.procs ≡ k.procs)
        × (k₂.procs ≡ k.procs)
  unfolding start_process stop_process set_state
  start_stop_process c key k p e =
      let (r, l) = get_process-ok key k e in
      rw (e, start_process, stop_process)
        (
          refl,
          refl,
          process_running-loaded key _ r l ∙ ap ok (c.running_start p k.world),
          process_running-loaded key _ r l ∙ ap ok (c.running_stop p k.world),
          refl,
          refl,
          refl,
          refl,
        )

  -- After a loaded process is deleted, the kernel no longer finds it, every other process is loaded
  -- as before, and of the store only the recorded state is forgotten.
  pub delete_process_lem :
      (key : ProcessKey) (k : Kernel st h) (p : h.P)
      → get_process_by_key key k ≡ ok p
      → let (k', e) = delete_process key k in
        (e ≡ none)
        × (process_running key k' ≡ err err_not_found)
        × ((j : ProcessKey) → key ≢ j → lookup j k'.procs ≡ lookup j k.procs)
        × (k'.store ≡ (st.forget key k.store).0)
  unfolding delete_process drop_locked
  delete_process_lem key k p e =
      let (r, l) = get_process-ok key k e in
      rw (e, delete_process)
        (
          refl,
          process_running-missing key _ r (lookup-erase_self key k.procs),
          λ j n. lookup-erase_ne key j k.procs n,
          refl,
        )

  -- the end of `RestartProcess` of the process `old`
  abbrev pub Restarted : ProcessKey → h.P → Kernel st h → Kernel st h × Option Error → Type 0
  Restarted key old k r =
      ((r.1 ≡ none)
        × (process_running key r.0 ≡ ok true)
        × (r.0.store ≡ (st.set_state key state_running k.store).0)
        × IsMade key k.store (released h key old k.world) r.0)
      ⊎ ((e : Error) × (r.1 ≡ some (process_removed e))
          × (process_running key r.0 ≡ err err_not_found)
          × (r.0.store ≡ (st.set_state key state_stopped k.store).0)
          × IsRefused key k k.store (released h key old k.world) e)

  pub process_running-store :
      (key : ProcessKey) (s : st.S) (k : Kernel st h)
      → process_running key (record k { store = s }) ≡ process_running key k
  unfolding process_running get_process_by_key
  process_running-store key s k = refl

  pub start_loaded-running :
      Controls h
      → (key : ProcessKey) (k : Kernel st h) {p : h.P} → k.running ≡ true
      → lookup key k.procs ≡ some p
      → (process_running key (start_loaded key k) ≡ ok true)
        × ((start_loaded key k).procs ≡ k.procs)
        × ((start_loaded key k).store ≡ k.store)
  unfolding start_loaded
  start_loaded-running c key k {p} r l =
      rw (l, start_loaded)
        (process_running-loaded key _ r l ∙ ap ok (c.running_start p k.world), refl, refl)
