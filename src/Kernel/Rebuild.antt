-- ===== src/Kernel/Rebuild.antt =====
-- `addLocked` and `rebuildLocked` of kernel/process.go: what they leave, on success and on failure.
pub mod Built
use pegasus_suite.Prelude.{◌≡◌, refl, ◌≢◌, true, false, Option, none, some, option_case, ◌∙◌, ap}
use pegasus_suite.Prelude.Assoc.{
  lookup, lookup-insert_self, lookup-insert_ne, lookup-erase_self, lookup-erase_ne,
}
use pegasus_suite.Clients.{
  ProcessKey, key_eq, RawMessage, StoreError, err_not_found, failed, state_stopped, Result, ok, err,
  Store,
}
use pegasus_suite.Kernel.Host.{Host, Error}
use pegasus_suite.Kernel.State.{Kernel, get_app_by_process_key, set_state, host_settings}
use pegasus_suite.Kernel.Processes.{
  register_built, build_locked, add_locked, drop_locked, rebuild_locked,
}

-- What kernel/types.go promises of an application's processes: `Running` tells whether a process was
-- last started or stopped, and `NewProcess` returns one that is not started.
pub record Controls (h : Host) : Type 0 where
  pub running_start : (p : h.P) (w : h.W) → h.process_running p (h.process_start p w) ≡ true
  pub running_stop : (p : h.P) (w : h.W) → h.process_running p (h.process_stop p w) ≡ false
  pub new_stopped :
      (key : ProcessKey) (doc : RawMessage) (settings : _ → _) (w : h.W) (p : h.P)
      → (h.app_new_process key.app key doc settings w).1 ≡ ok p
      → h.process_running p (h.app_new_process key.app key doc settings w).0 ≡ false

module _ {st : Store} {h : Host} where
  -- the result of adding `key` to `k`
  record Added (key : ProcessKey) (k : Kernel st h) (r : Kernel st h × Option Error) : Type 0 where
    running : r.0.running ≡ k.running
    store : r.0.store ≡ k.store
    others : (j : ProcessKey) → key ≢ j → lookup j r.0.procs ≡ lookup j k.procs
    refused : (e : Error) → r.1 ≡ some e → r.0.procs ≡ k.procs
    done :
        Controls h
        → r.1 ≡ none
        → (p : h.P) × (lookup key r.0.procs ≡ some p) × (h.process_running p r.0.world ≡ false)

  -- a refusal that changes nothing
  Added-refused : (key : ProcessKey) (k : Kernel st h) (e : Error) → Added key k (k, some e)
  Added-refused key k e = record {
    running = refl;
    store = refl;
    others = λ j n. refl;
    refused = λ d q. refl;
    done = λ c q. cc;
  }

  register_built-Added :
      (key : ProcessKey) (made : Result Error h.P) (k : Kernel st h)
      → (Controls h → (p : h.P) → made ≡ ok p → h.process_running p k.world ≡ false)
      → Added key k (register_built key made k)
  unfolding register_built
  register_built-Added key (err e) k fresh = record {
    running = refl;
    store = refl;
    others = λ j n. refl;
    refused = λ d q. refl;
    done = λ c q. cc;
  }
  register_built-Added key (ok p) k fresh = record {
    running = refl;
    store = refl;
    others = λ j n. lookup-insert_ne key j p k.procs n;
    refused = λ d q. cc;
    done = λ c q. (p, lookup-insert_self key p k.procs, fresh c p refl);
  }

  build_locked-Added :
      (key : ProcessKey) (doc : Result StoreError RawMessage) (k : Kernel st h)
      → Added key k (build_locked key doc k)
  unfolding build_locked
  build_locked-Added key (err err_not_found) k = Added-refused key k _
  build_locked-Added key (err (failed m)) k = Added-refused key k _
  build_locked-Added key (ok doc) k =
      let (w, made) = h.app_new_process key.app key doc (host_settings k) k.world in
      let a =
        register_built-Added key made (record k { world = w })
          (λ c p e. c.new_stopped key doc (host_settings k) k.world p e) in
      record {
        running = a.running;
        store = a.store;
        others = a.others;
        refused = a.refused;
        done = a.done;
      }

  add_locked-Added : (key : ProcessKey) (k : Kernel st h) → Added key k (add_locked key k)
  unfolding add_locked
  add_locked-Added key k =
      option_case (Added key k) (get_app_by_process_key key k) _ _
        (λ q.
          option_case (Added key k) (lookup key k.procs) _ _
            (λ f. build_locked-Added key (st.process key k.store) k) (λ p f. Added-refused key k _))
        (λ e q. Added-refused key k e)

  -- the result of rebuilding `key` in `k`
  pub record Rebuilt (key : ProcessKey) (k : Kernel st h) (r : Kernel st h × Option Error)
      : Type 0 where
    pub running : r.0.running ≡ k.running
    pub others : (j : ProcessKey) → key ≢ j → lookup j r.0.procs ≡ lookup j k.procs
    pub removed :
        (e : Error)
        → r.1 ≡ some e
        → (lookup key r.0.procs ≡ none) × (r.0.store ≡ (st.set_state key state_stopped k.store).0)
    pub kept : r.1 ≡ none → r.0.store ≡ k.store
    pub replaced :
        Controls h
        → r.1 ≡ none
        → (p : h.P) × (lookup key r.0.procs ≡ some p) × (h.process_running p r.0.world ≡ false)

  pub rebuild_locked-Rebuilt :
      (key : ProcessKey) (old : h.P) (k : Kernel st h) → Rebuilt key k (rebuild_locked key old k)
  unfolding rebuild_locked set_state drop_locked
  rebuild_locked-Rebuilt key old k =
      let k₁ = drop_locked key old k in
      let a = add_locked-Added key k₁ in
      option_case (Rebuilt key k) (add_locked key k₁).1 _ _
        (λ q. record {
          running = a.running;
          others = λ j n. a.others j n ∙ lookup-erase_ne key j k.procs n;
          removed = λ e f. cc;
          kept = λ f. a.store;
          replaced = λ c f. a.done c q;
        })
        (λ e q. record {
          running = a.running;
          others = λ j n. a.others j n ∙ lookup-erase_ne key j k.procs n;
          removed = λ d f. (
            rw (a.refused e q) (lookup-erase_self key k.procs),
            ap (λ s. (st.set_state key state_stopped s).0) a.store,
          );
          kept = λ f. cc;
          replaced = λ c f. cc;
        })
