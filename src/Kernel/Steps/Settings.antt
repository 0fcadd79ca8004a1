-- ===== src/Kernel/Steps/Settings.antt =====
-- The operations of kernel/settings.go are steps on the registry too.
use pegasus_suite.Prelude.{String, Option, arith, not, if_case, option_case}
use pegasus_suite.Prelude.Assoc.{lookup}
use pegasus_suite.Clients.{ProcessKey, key_eq, RawMessage, Store, state_running}
use pegasus_suite.Kernel.Host.{Host, Error}
use pegasus_suite.Kernel.State.{Kernel, has_app}
use pegasus_suite.Kernel.Processes.{rebuild_locked}
use pegasus_suite.Kernel.Settings.{
  reload, apply_saved, save_process_settings, unload, delete_process_settings, save_app_settings,
  decode,
}
use pegasus_suite.Kernel.Steps.{
  Step, Step-refl, Step-trans, Step-frame, rebuild_locked-Step, drop_locked-Step, set_state-Step,
  start_loaded-Step, store-Step,
}

module _ {st : Store} {h : Host} where
  abbrev Leaves : Kernel st h → Kernel st h × Option Error → Type 0
  Leaves k r = Step k r.0

  reload-Step : (key : ProcessKey) (old : h.P) (k : Kernel st h) → Step k (reload key old k).0
  unfolding reload
  reload-Step key old k =
      let k₁ = (rebuild_locked key old k).0 in
      let rebuilt = rebuild_locked-Step key old k in
      option_case (Leaves k) (rebuild_locked key old k).1 _ _
        (λ e.
          if_case (λ k'. Step k k') (h.process_running old k.world) _ _
            (λ b.
              Step-trans _ _ _ rebuilt
                (Step-trans _ _ _ (start_loaded-Step key k₁) (set_state-Step key state_running _)))
            (λ b. rebuilt))
        (λ e q. rebuilt)

  apply_saved-Step : (key : ProcessKey) (k : Kernel st h) → Step k (apply_saved key k).0
  unfolding apply_saved
  apply_saved-Step key k =
      if_case (Leaves k) (not k.running) _ _ (λ b. Step-refl k)
        (λ b.
          option_case (Leaves k) (lookup key k.procs) _ _ (λ e. Step-refl k)
            (λ old e. reload-Step key old k))

  pub save_process_settings-Step :
      (key : ProcessKey) (doc : RawMessage) (k : Kernel st h)
      → Step k (save_process_settings key doc k).0
  unfolding save_process_settings
  save_process_settings-Step key doc k =
      let s = (st.put_process key doc k.store).0 in
      if_case (Leaves k) (not (has_app key.app k)) _ _ (λ b. Step-refl k)
        (λ b.
          option_case (Leaves k) (decode h doc (h.process_settings key.app)) _ _
            (λ e.
              option_case (Leaves k) (st.put_process key doc k.store).1 _ _
                (λ q.
                  Step-trans _ _ _ (store-Step s k) (apply_saved-Step key (record k { store = s })))
                (λ q r. store-Step s k))
            (λ e q. Step-refl k))

  unload-Step : (key : ProcessKey) (k : Kernel st h) → Step k (unload key k)
  unfolding unload
  unload-Step key k =
      option_case (λ k'. Step k k') (lookup key k.procs) _ _ (λ e. Step-refl k)
        (λ p e.
          if_case (λ k'. Step k k') k.running _ _ (λ b. drop_locked-Step key p k)
            (λ b. Step-refl k))

  pub delete_process_settings-Step :
      (key : ProcessKey) (k : Kernel st h) → Step k (delete_process_settings key k).0
  unfolding delete_process_settings
  delete_process_settings-Step key k =
      let k₁ = unload key k in
      let one = λ (s : st.S). Step-trans _ _ _ (unload-Step key k) (store-Step s k₁) in
      if_case (Leaves k) (not (has_app key.app k)) _ _ (λ b. Step-refl k)
        (λ b.
          option_case (Leaves k) (st.forget key k₁.store).1 _ _
            (λ q.
              option_case (Leaves k) (st.delete_process key (st.forget key k₁.store).0).1 _ _
                (λ e. one _) (λ e f. one _))
            (λ q r. one _))

  pub save_app_settings-Step :
      (name : String) (doc : RawMessage) (k : Kernel st h) → Step k (save_app_settings name doc k).0
  unfolding save_app_settings
  save_app_settings-Step name doc k =
      Step-frame _ _ (ground arith) (ground arith) (ground arith) (ground arith)
