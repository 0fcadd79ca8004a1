-- ===== src/Kernel/Rebuild/Built.antt =====
-- `addLocked` and `rebuildLocked` of kernel/process.go: which process they leave loaded, and why they fail.
use pegasus_suite.Prelude.{◌≡◌, refl, ◌∙◌, ap, ◌⊎◌, inl, inr, Option, none, some, option_case}
use pegasus_suite.Prelude.Assoc.{lookup, lookup-insert_self, lookup-erase_self}
use pegasus_suite.Clients.{
  ProcessKey, key_eq, RawMessage, StoreError, err_not_found, failed, Result, ok, err, Store,
}
use pegasus_suite.Kernel.Host.{Host, Error}
use pegasus_suite.Kernel.State.{Kernel, get_app_by_process_key, set_state, host_settings}
use pegasus_suite.Kernel.Processes.{
  register_built, build_locked, add_locked, drop_locked, rebuild_locked,
}

-- what the application makes of the settings that the store has for a process
abbrev pub Makes : (st : Store) (h : Host) → ProcessKey → st.S → h.W → Result Error h.P → Type 0
Makes st h key s w made =
    (doc : RawMessage) × (st.process key s ≡ ok doc)
    × ((h.app_new_process key.app key doc (λ name. st.app_settings name s) w).1 ≡ made)

-- the world once the old process is stopped and closed and its sessions are released
abbrev pub released : (h : Host) → ProcessKey → h.P → h.W → h.W
released h key old w = h.engine_release key (h.process_close old (h.process_stop old w))

module _ {st : Store} {h : Host} where
  -- the process that is loaded is made from its settings
  abbrev pub IsMade : ProcessKey → st.S → h.W → Kernel st h → Type 0
  IsMade key s w k' = (p : h.P) × (lookup key k'.procs ≡ some p) × Makes st h key s w (ok p)

  -- the application is not up, the store does not give the settings, or they do not load
  abbrev pub IsRefused : ProcessKey → Kernel st h → st.S → h.W → Error → Type 0
  IsRefused key k s w e =
      (get_app_by_process_key key k ≡ some e)
      ⊎ (((x : StoreError) × (st.process key s ≡ err x)) ⊎ Makes st h key s w (err e))

  pub record Builds (key : ProcessKey) (k : Kernel st h) (w : h.W) (r : Kernel st h × Option Error)
      : Type 0 where
    pub made : r.1 ≡ none → IsMade key k.store w r.0
    pub refused : (e : Error) → r.1 ≡ some e → IsRefused key k k.store w e

  register_built-Builds :
      (key : ProcessKey) (doc : RawMessage) (k : Kernel st h) (w : h.W) (made : Result Error h.P)
      → st.process key k.store ≡ ok doc
      → (h.app_new_process key.app key doc (host_settings k) k.world).1 ≡ made
      → Builds key k k.world (register_built key made (record k { world = w }))
  unfolding register_built
  register_built-Builds key doc k w (err x) q m = record {
    made = λ c. cc;
    refused = λ e c. inr (inr (doc, q, m ∙ ap err (some-injective x e c)));
  }
    where
      some-injective : (x y : Error) → some x ≡ some y → x ≡ y
      some-injective x y c = cc
  register_built-Builds key doc k w (ok p) q m = record {
    made = λ c. (p, lookup-insert_self key p k.procs, (doc, q, m));
    refused = λ e c. cc;
  }

  build_locked-Builds :
      (key : ProcessKey) (doc : Result StoreError RawMessage) (k : Kernel st h)
      → st.process key k.store ≡ doc
      → Builds key k k.world (build_locked key doc k)
  unfolding build_locked
  build_locked-Builds key (err err_not_found) k q = record {
    made = λ c. cc;
    refused = λ e c. inr (inl (err_not_found, q));
  }
  build_locked-Builds key (err (failed m)) k q = record {
    made = λ c. cc;
    refused = λ e c. inr (inl (failed m, q));
  }
  build_locked-Builds key (ok doc) k q =
      let (w, made) = h.app_new_process key.app key doc (host_settings k) k.world in
      register_built-Builds key doc k w made q refl

  add_locked-Builds :
      (key : ProcessKey) (k : Kernel st h)
      → lookup key k.procs ≡ none
      → Builds key k k.world (add_locked key k)
  unfolding add_locked
  add_locked-Builds key k n =
      option_case (Builds key k k.world) (get_app_by_process_key key k) _ _
        (λ q.
          option_case (Builds key k k.world) (lookup key k.procs) _ _
            (λ f. build_locked-Builds key (st.process key k.store) k refl) (λ p f. absurd cc))
        (λ x q. record { made = λ c. cc; refused = λ e c. inl (q ∙ c) })

  pub rebuild_locked-Builds :
      (key : ProcessKey) (old : h.P) (k : Kernel st h)
      → Builds key k (released h key old k.world) (rebuild_locked key old k)
  unfolding rebuild_locked set_state drop_locked get_app_by_process_key
  rebuild_locked-Builds key old k =
      let b = add_locked-Builds key (drop_locked key old k) (lookup-erase_self key k.procs) in
      option_case (Builds key k (released h key old k.world))
        (add_locked key (drop_locked key old k)).1 _ _
        (λ q. record { made = λ c. b.made q; refused = λ e c. cc })
        (λ x q. record { made = λ c. cc; refused = λ e c. b.refused e (q ∙ c) })
