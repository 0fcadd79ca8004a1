-- ===== src/Kernel/Lifecycle.antt =====
-- kernel/kernel.go: registration, start, stop, restart and status; and `ListProcesses` of process.go.
use pegasus_suite.Prelude.{
  ℕ, String, Bool, true, false, not, ◌&&◌, Option, none, some, List, [], ◌∷◌, ◌++◌, if◌then◌else◌,
  ◌==◌, length,
}
use pegasus_suite.Prelude.Assoc.{Assoc, lookup, insert, erase, string_eq}
use pegasus_suite.Clients.{ProcessKey, key_eq, Result, ok, err, Store}
use pegasus_suite.Kernel.Host.{
  Host, Error, err_already_running, err_not_running, no_applications, err_unknown_app, store_failed,
}
use pegasus_suite.Kernel.State.{Kernel, has_app, is_up, host_settings}
use pegasus_suite.Kernel.Processes.{restore_processes_locked}

pub data ProcessStatus : Type 0 where
  status_active status_stopped status_not_added status_offline : ProcessStatus

pub record ProcessInfo : Type 0 where
  pub id : String
  pub status : ProcessStatus

pub record AppStatus : Type 0 where
  pub running : Bool
  pub error : Option Error
  pub detail : Option String

pub record Status : Type 0 where
  pub running : Bool
  pub started_at : Option ℕ
  pub last_error : Option Error
  pub apps : Assoc String AppStatus

module _ {st : Store} {h : Host} where
  -- one round of the loop of `startLocked`: an application that fails does not block the others
  unfoldable pub start_app : String → Kernel st h → Kernel st h
  start_app app k =
      let (w, e) = h.app_start app (host_settings k) k.world in
      elim e [
        | some e ↦ record k { world = w; app_errs = insert app e k.app_errs }
        | none ↦ record k { world = w; up = insert app true k.up }
      ]

  unfoldable pub start_apps : List String → Kernel st h → Kernel st h
  start_apps [] k = k
  start_apps (app ∷ rest) k = start_apps rest (start_app app k)

  -- `startLocked` from its guard to the end of its loop
  unfoldable pub bring_up : Kernel st h → Kernel st h
  bring_up k = start_apps k.apps (record k { world = h.engine_new k.world; app_errs = [] })

  -- the branch in which no application started, with `fail`
  unfoldable pub give_up : Kernel st h → Kernel st h
  give_up k = record k {
    world = h.engine_close (h.cancel k.world);
    last_err = some no_applications;
  }

  -- the other branch
  unfoldable pub go_live : Kernel st h → Kernel st h
  go_live k =
      restore_processes_locked k.apps
        (record k { running = true; started_at = h.now k.world; last_err = none })

  unfoldable pub start_locked : Kernel st h → Kernel st h × Option Error
  start_locked k =
      if k.running
      then (k, some err_already_running)
      else if length (bring_up k).up == 0
      then (give_up (bring_up k), some no_applications)
      else (go_live (bring_up k), none)

  -- the loop of `stopLocked` over the processes: each is stopped, closed and deleted
  unfoldable pub stop_procs : Assoc ProcessKey h.P → Kernel st h → Kernel st h
  stop_procs [] k = k
  stop_procs ((key, p) ∷ rest) k =
      stop_procs rest (record k {
        world = h.process_close p (h.process_stop p k.world);
        procs = erase key k.procs;
      })

  -- one round of its loop over the applications
  unfoldable pub stop_app : String → Kernel st h → Kernel st h
  stop_app app k =
      if is_up app k.up then record k { world = h.app_stop app k.world; up = erase app k.up } else k

  unfoldable pub stop_apps : List String → Kernel st h → Kernel st h
  stop_apps [] k = k
  stop_apps (app ∷ rest) k = stop_apps rest (stop_app app k)

  -- `stopLocked` past its guard
  unfoldable pub shut_down : Kernel st h → Kernel st h
  shut_down k =
      let k' = stop_apps k.apps (stop_procs k.procs (record k { running = false })) in
      record k' { world = h.cancel (h.engine_close k'.world) }

  unfoldable pub stop_locked : Kernel st h → Kernel st h × Option Error
  stop_locked k = if not k.running then (k, some err_not_running) else (shut_down k, none)

  unfoldable pub start : Kernel st h → Kernel st h × Option Error
  start k = start_locked k

  unfoldable pub stop : Kernel st h → Kernel st h × Option Error
  stop k = stop_locked k

  unfoldable pub restart : Kernel st h → Kernel st h × Option Error
  restart k =
      if k.running
      then (let (k', e) = stop_locked k in
          elim e [ some e ↦ (k', some e) | none ↦ start_locked k' ])
      else start_locked k

  -- the loop of `Status` over the applications
  unfoldable pub app_statuses :
      List String → Kernel st h → Assoc String AppStatus → Assoc String AppStatus
  app_statuses [] k m = m
  app_statuses (app ∷ rest) k m =
      let error = lookup app k.app_errs in
      let running = k.running && elim error [ none ↦ true | some e ↦ false ] in
      let detail = if running then some (h.app_status app k.world) else none in
      app_statuses rest k
        (insert app (record { running = running; error = error; detail = detail }) m)

  unfoldable pub status : Kernel st h → Status
  status k = record {
    running = k.running;
    started_at = if k.running then some k.started_at else none;
    last_error = k.last_err;
    apps = app_statuses k.apps k [];
  }

  -- the status of one process in a listing
  unfoldable pub info_status : Bool → ProcessKey → Kernel st h → ProcessStatus
  info_status up key k = if not up then status_offline else elim (lookup key k.procs) [
    | none ↦ status_not_added
    | some p ↦ if h.process_running p k.world then status_active else status_stopped
  ]

  -- the loop of `ListProcesses`
  unfoldable pub infos : Bool → String → String → List String → Kernel st h → List ProcessInfo
  infos up app user_id [] k = []
  infos up app user_id (id ∷ rest) k =
      record {
        id = id;
        status = info_status up (record { app = app; user_id = user_id; process_id = id }) k;
      }
      ∷ infos up app user_id rest k

  -- `sort` is `slices.Sort` of the standard library.
  unfoldable pub list_processes :
      (List String → List String) → String → String → Kernel st h → Result Error (List ProcessInfo)
  list_processes sort app user_id k =
      if not (has_app app k)
      then err err_unknown_app
      else elim (st.process_ids app user_id k.store) [
        | err e ↦ err (store_failed "unable to list processes" e)
        | ok ids ↦ ok (infos (k.running && is_up app k.up) app user_id (sort ids) k)
      ]

-- the loop of `Register` over an application's documents: a name claimed twice panics
unfoldable pub claim_docs : {T : Type 0} → Assoc String T → Assoc String T → Option (Assoc String T)
claim_docs [] docs = some docs
claim_docs ((name, t) ∷ rest) docs =
    let more = claim_docs rest (insert name t docs) in
    elim (lookup name docs) [ some u ↦ none | none ↦ more ]

module _ {st : Store} {h : Host} where
  -- `New`: `shared` holds the account documents of kernel/settings.go
  unfoldable pub new : Assoc String h.T → st.S → h.W → Kernel st h
  new shared store world = record {
    store = store;
    world = world;
    apps = [];
    admin_docs = shared;
    procs = [];
    up = [];
    running = false;
    started_at = 0;
    last_err = none;
    app_errs = [];
  }

  -- `Register`; `none` is its panic
  unfoldable pub register : String → Assoc String h.T → Kernel st h → Option (Kernel st h)
  register app admin_settings k =
      if has_app app k then none else elim (claim_docs admin_settings k.admin_docs) [
        | none ↦ none
        | some docs ↦ some (record k { apps = k.apps ++ app ∷ []; admin_docs = docs })
      ]
