-- ===== src/Kernel/Runs.antt =====
-- Sequences of calls: what the API server sends to the kernel, in any order and whatever each returns.
use pegasus_suite.Prelude.{String, List, [], ◌∷◌, Option, if_case, option_case, refl}
use pegasus_suite.Prelude.Assoc.{Assoc, none_in_nil, string_eq}
use pegasus_suite.Clients.{ProcessKey, key_eq, RawMessage, Store}
use pegasus_suite.Kernel.Host.{Host, Error}
use pegasus_suite.Kernel.State.{Kernel}
use pegasus_suite.Kernel.Processes.{
  add_process, start_process, stop_process, restart_process, delete_process,
}
use pegasus_suite.Kernel.Lifecycle.{start, stop, restart, stop_locked, new}
use pegasus_suite.Kernel.Settings.{
  save_process_settings, delete_process_settings, save_app_settings,
}
use pegasus_suite.Kernel.Steps.{
  add_process-Step, start_process-Step, stop_process-Step, restart_process-Step,
  delete_process-Step,
}
use pegasus_suite.Kernel.Steps.Settings.{
  save_process_settings-Step, delete_process_settings-Step, save_app_settings-Step,
}
use pegasus_suite.Kernel.Invariant.{IsConsistent, Step-IsConsistent}
use pegasus_suite.Kernel.Invariant.Starting.{start_locked-IsConsistent}
use pegasus_suite.Kernel.Invariant.Stopping.{stop_locked-IsConsistent}

pub data Call : Type 0 where
  call_start call_stop call_restart : Call
  call_add call_start_process call_stop_process : ProcessKey → Call
  call_restart_process call_delete_process call_delete_settings : ProcessKey → Call
  call_save_settings : ProcessKey → RawMessage → Call
  call_save_app_settings : String → RawMessage → Call

module _ {st : Store} {h : Host} where
  unfoldable pub exec : Call → Kernel st h → Kernel st h × Option Error
  exec call_start k = start k
  exec call_stop k = stop k
  exec call_restart k = restart k
  exec (call_add key) k = add_process key k
  exec (call_start_process key) k = start_process key k
  exec (call_stop_process key) k = stop_process key k
  exec (call_restart_process key) k = restart_process key k
  exec (call_delete_process key) k = delete_process key k
  exec (call_delete_settings key) k = delete_process_settings key k
  exec (call_save_settings key doc) k = save_process_settings key doc k
  exec (call_save_app_settings name doc) k = save_app_settings name doc k

  -- the kernel after each call in turn, errors or not
  unfoldable pub run : List Call → Kernel st h → Kernel st h
  run [] k = k
  run (c ∷ calls) k = run calls (exec c k).0

  restart-IsConsistent : (k : Kernel st h) → IsConsistent k → IsConsistent (restart k).0
  unfolding restart
  restart-IsConsistent k c =
      if_case (λ (r : Kernel st h × Option Error). IsConsistent r.0) k.running _ _
        (λ b.
          option_case (λ (r : Kernel st h × Option Error). IsConsistent r.0) (stop_locked k).1 _ _
            (λ e. start_locked-IsConsistent _ (stop_locked-IsConsistent k c))
            (λ e q. stop_locked-IsConsistent k c))
        (λ b. start_locked-IsConsistent k c)

  pub exec-IsConsistent : (c : Call) (k : Kernel st h) → IsConsistent k → IsConsistent (exec c k).0
  unfolding exec start stop
  exec-IsConsistent call_start k c = start_locked-IsConsistent k c
  exec-IsConsistent call_stop k c = stop_locked-IsConsistent k c
  exec-IsConsistent call_restart k c = restart-IsConsistent k c
  exec-IsConsistent (call_add key) k c = Step-IsConsistent k _ (add_process-Step key k) c
  exec-IsConsistent (call_start_process key) k c =
      Step-IsConsistent k _ (start_process-Step key k) c
  exec-IsConsistent (call_stop_process key) k c = Step-IsConsistent k _ (stop_process-Step key k) c
  exec-IsConsistent (call_restart_process key) k c =
      Step-IsConsistent k _ (restart_process-Step key k) c
  exec-IsConsistent (call_delete_process key) k c =
      Step-IsConsistent k _ (delete_process-Step key k) c
  exec-IsConsistent (call_delete_settings key) k c =
      Step-IsConsistent k _ (delete_process_settings-Step key k) c
  exec-IsConsistent (call_save_settings key doc) k c =
      Step-IsConsistent k _ (save_process_settings-Step key doc k) c
  exec-IsConsistent (call_save_app_settings name doc) k c =
      Step-IsConsistent k _ (save_app_settings-Step name doc k) c

  -- From a consistent kernel, whatever calls are made in whatever order, succeeding or failing, the
  -- kernel stays consistent: while the runtime is down no process is loaded and no application is
  -- up, and every loaded process belongs to a registered application that is up.
  pub run-IsConsistent :
      (calls : List Call) (k : Kernel st h) → IsConsistent k → IsConsistent (run calls k)
  unfolding run
  run-IsConsistent [] k c = c
  run-IsConsistent (call ∷ calls) k c =
      run-IsConsistent calls (exec call k).0 (exec-IsConsistent call k c)

  pub new-IsConsistent :
      (shared : Assoc String h.T) (s : st.S) (w : h.W)
      → IsConsistent (new {st = st} {h = h} shared s w)
  unfolding new
  new-IsConsistent shared s w = record {
    down_procs = λ e. refl;
    down_up = λ e. refl;
    loaded_up = λ key p e. absurd (none_in_nil key p e);
    up_registered = λ name b e. absurd (none_in_nil name b e);
  }
