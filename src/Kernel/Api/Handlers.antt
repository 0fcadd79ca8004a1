-- ===== src/Kernel/Api/Handlers.antt =====
-- kernel/api/: server.go `processOp` and `systemOp`, processHandlers.go, and the settings handlers of
-- handlers.go. A handler returns the kernel and the answer; what it logs is not modelled.
pub mod Status
use pegasus_suite.Prelude.{String, Option, none, some, List, if◌then◌else◌}
use pegasus_suite.Clients.{ProcessKey, Result, ok, err, Store}
use pegasus_suite.Kernel.Host.{Host, Error}
use pegasus_suite.Kernel.State.{Kernel}
use pegasus_suite.Kernel.Processes.{process_running}
use pegasus_suite.Kernel.Lifecycle.{list_processes, status}
use pegasus_suite.Kernel.Settings.{
  get_process_settings, save_process_settings, delete_process_settings, app_settings,
  save_app_settings,
}
use pegasus_suite.Kernel.Api.{
  Request, Response, answer, empty, failure, document, word, listing, runtime, err_status, app_user,
  process_key, read_doc,
}

-- `http.Error(w, err.Error(), errStatus(err))`
unfoldable pub fail : Error → Response
unfolding err_status
fail e = answer (err_status e) (failure e)

module _ {st : Store} {h : Host} where
  -- what an operation did, as an answer
  unfoldable pub reply : Response → Kernel st h × Option Error → Kernel st h × Response
  reply done (k, some e) = (k, fail e)
  reply done (k, none) = (k, done)

  unfoldable pub process_op :
      String
      → (ProcessKey → Kernel st h → Kernel st h × Option Error)
      → Request
      → Kernel st h
      → Kernel st h × Response
  process_op done op r k = elim (process_key r k) [
    | err e ↦ (k, e)
    | ok key ↦ reply (answer 200 (word done)) (op key k)
  ]

  unfoldable pub system_op :
      String → (Kernel st h → Kernel st h × Option Error) → Kernel st h → Kernel st h × Response
  system_op done op k = reply (answer 200 (word done)) (op k)

  -- `sort` is `slices.Sort` of the standard library.
  unfoldable pub handle_list_processes :
      (List String → List String) → Request → Kernel st h → Kernel st h × Response
  handle_list_processes sort r k = elim (app_user r k) [
    | err e ↦ (k, e)
    | ok (app, user) ↦ elim (list_processes sort app user k) [
      | err e ↦ (k, fail e)
      | ok list ↦ (k, answer 200 (listing list))
    ]
  ]

  unfoldable pub handle_delete_process_settings : Request → Kernel st h → Kernel st h × Response
  handle_delete_process_settings r k = elim (process_key r k) [
    | err e ↦ (k, e)
    | ok key ↦ reply (answer 204 empty) (delete_process_settings key k)
  ]

  unfoldable pub handle_get_process_settings : Request → Kernel st h → Kernel st h × Response
  handle_get_process_settings r k = elim (process_key r k) [
    | err e ↦ (k, e)
    | ok key ↦ elim (get_process_settings key k) [
      | err e ↦ (k, fail e)
      | ok doc ↦ (k, answer 200 (document doc))
    ]
  ]

  unfoldable pub handle_put_process_settings : Request → Kernel st h → Kernel st h × Response
  handle_put_process_settings r k = elim (process_key r k) [
    | err e ↦ (k, e)
    | ok key ↦ elim (read_doc r) [
      | err e ↦ (k, e)
      | ok doc ↦ reply (answer 204 empty) (save_process_settings key doc k)
    ]
  ]

  unfoldable pub handle_process_status : Request → Kernel st h → Kernel st h × Response
  handle_process_status r k = elim (process_key r k) [
    | err e ↦ (k, e)
    | ok key ↦ elim (process_running key k) [
      | err e ↦ (k, fail e)
      | ok running ↦ (k, answer 200 (word (if running then "active" else "stopped")))
    ]
  ]

  unfoldable pub handle_system_status : Kernel st h → Kernel st h × Response
  handle_system_status k = (k, answer 200 (runtime (status k)))

  unfoldable pub handle_get_app_settings : Request → Kernel st h → Kernel st h × Response
  handle_get_app_settings r k = elim (app_settings (r.path_value "name") k) [
    | err e ↦ (k, fail e)
    | ok doc ↦ (k, answer 200 (document doc))
  ]

  unfoldable pub handle_put_app_settings : Request → Kernel st h → Kernel st h × Response
  handle_put_app_settings r k = elim (read_doc r) [
    | err e ↦ (k, e)
    | ok doc ↦ reply (answer 204 empty) (save_app_settings (r.path_value "name") doc k)
  ]
