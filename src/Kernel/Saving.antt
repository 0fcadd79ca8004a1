-- ===== src/Kernel/Saving.antt =====
-- kernel/settings.go as its callers see it: what saving and deleting a settings document does to the
-- store and to a process that is loaded.
use pegasus_suite.Prelude.{◌≡◌, ◌⊎◌, true, false, Option, none, some}
use pegasus_suite.Clients.{ProcessKey, key_eq, RawMessage, state_stopped, ok, err, Store}
use pegasus_suite.Kernel.Host.{Host, Error, err_unknown_app, err_not_found, err_not_reloaded}
use pegasus_suite.Kernel.State.{Kernel, has_app, set_state}
use pegasus_suite.Kernel.Processes.{process_running}
use pegasus_suite.Kernel.Settings.{decode, save_process_settings}
use pegasus_suite.Kernel.Rebuild.Built.{IsMade, IsRefused, released}

module _ {st : Store} {h : Host} where
  -- A document for an unknown application, or one that does not decode or validate, is refused with
  -- that error, and nothing changes: neither the store nor any process.
  pub save_process_settings-refused :
      (key : ProcessKey) (doc : RawMessage) (k : Kernel st h)
      → ((has_app key.app k ≡ false) → save_process_settings key doc k ≡ (k, some err_unknown_app))
        × ((e : Error)
            → has_app key.app k ≡ true
            → decode h doc (h.process_settings key.app) ≡ some e
            → save_process_settings key doc k ≡ (k, some e))
  unfolding save_process_settings
  save_process_settings-refused key doc k = (λ q. rw q, λ e q r. rw (q, r))

  -- what `SaveProcessSettings` leaves of a loaded process, once the document is in the store `s`
  abbrev pub Reloaded : ProcessKey → h.P → Kernel st h → st.S → Kernel st h × Option Error → Type 0
  Reloaded key old k s r =
      ((r.1 ≡ none)
        × (process_running key r.0 ≡ ok (h.process_running old k.world))
        × IsMade key s (released h key old k.world) r.0)
      ⊎ ((e : Error) × (r.1 ≡ some (err_not_reloaded e))
          × (process_running key r.0 ≡ err err_not_found)
          × (r.0.store ≡ (st.set_state key state_stopped s).0)
          × IsRefused key k s (released h key old k.world) e)
