-- ===== src/Kernel/Tests.antt =====
-- The kernel on a small host: a process is its key, and the world is which processes run. Its documents
-- are plain words: "broken" does not load, and "invalid" does not validate.
use pegasus_suite.Prelude.{
  String, ◌≡◌, refl, Bool, true, false, none, some, List, [], ◌∷◌, str_eq, if◌then◌else◌,
}
use pegasus_suite.Prelude.Assoc.{Assoc, lookup, insert, string_eq}
use pegasus_suite.Clients.{ProcessKey, key_eq, RawMessage, StoreError, Result, ok, err}
use pegasus_suite.Clients.Mem
use pegasus_suite.Clients.Mem.{MemStore, mem_store}
use pegasus_suite.Kernel.Host.{Host, Error, app_error}
use pegasus_suite.Kernel.State.{
  Kernel, registered, has_app, get_app_by_process_key, get_process_by_key, set_state,
}
use pegasus_suite.Kernel.Processes.{
  register_built, build_locked, add_locked, add_process, start_process, process_running,
  restore_refs, restore_app, restore_processes_locked,
}
use pegasus_suite.Kernel.Lifecycle.{start_app, start_apps, bring_up, go_live, start_locked, start}
use pegasus_suite.Kernel.Settings.{decode, save_process_settings, get_process_settings}
use pegasus_suite.Kernel.Invariant.{IsConsistent}
use pegasus_suite.Kernel.Runs.{
  Call, call_start, call_stop, call_add, call_start_process, call_restart, call_delete_process,
  exec, run, run-IsConsistent,
}
use pegasus_suite.Kernel.Documents.{get_process_settings-save}

abbrev World : Type 0
World = Assoc ProcessKey Bool

abbrev is_running : ProcessKey → World → Bool
is_running p w = elim (lookup p w) [ none ↦ false | some b ↦ b ]

abbrev build :
    String
    → ProcessKey
    → RawMessage
    → (String → Result StoreError RawMessage)
    → World
    → World × Result Error ProcessKey
build app key doc settings w =
    if str_eq doc "broken" then (w, err (app_error "broken")) else (insert key false w, ok key)

abbrev pub host : Host
host = record {
  W = World;
  P = ProcessKey;
  app_start = λ app settings w. (w, none);
  app_stop = λ app w. w;
  app_status = λ app w. "";
  app_new_process = build;
  process_start = λ p w. insert p true w;
  process_stop = λ p w. insert p false w;
  process_close = λ p w. w;
  process_running = is_running;
  engine_new = λ w. w;
  engine_close = λ w. w;
  engine_release = λ key w. w;
  cancel = λ w. w;
  now = λ w. 7;
  T = String;
  process_settings = λ app. "";
  json_decode = λ doc t. ok doc;
  json_more = λ doc. false;
  json_unmarshal = λ doc t. ok doc;
  json_marshal = λ t. t;
  validate = λ t. if str_eq t "invalid" then some "invalid" else none;
}

abbrev pub first : ProcessKey
first = record { app = "pegasus"; user_id = "u"; process_id = "1" }

abbrev store : MemStore
store = record { processes = (first, "doc") ∷ []; apps = []; states = [] }

-- one registered application that is up, with one process loaded and started
abbrev pub live : Kernel mem_store host
live = record {
  store = store;
  world = (first, true) ∷ [];
  apps = "pegasus" ∷ [];
  admin_docs = [];
  procs = (first, first) ∷ [];
  up = ("pegasus", true) ∷ [];
  running = true;
  started_at = 7;
  last_err = none;
  app_errs = [];
}

abbrev calls : List Call
calls =
    call_start
    ∷ call_add first
    ∷ call_start_process first
    ∷ call_restart
    ∷ call_delete_process first
    ∷ call_stop
    ∷ []

abbrev pub fresh : Kernel mem_store host
fresh = record live { procs = []; up = []; running = false; world = [] }

pub fresh-IsConsistent : IsConsistent fresh
unfolding lookup
fresh-IsConsistent = record {
  down_procs = λ e. refl;
  down_up = λ e. refl;
  loaded_up = λ key p e. cc;
  up_registered = λ name b e. cc;
}

run-IsConsistent_example : IsConsistent (run calls fresh)
run-IsConsistent_example = run-IsConsistent calls fresh fresh-IsConsistent

-- The calls do what their names say: after the first three the process runs.
run_three :
    process_running first (run (call_start ∷ call_add first ∷ call_start_process first ∷ []) fresh)
    ≡ ok true
unfolding run exec start start_locked bring_up start_apps start_app go_live restore_processes_locked
    restore_app restore_refs add_process add_locked get_app_by_process_key has_app registered
    build_locked register_built set_state start_process get_process_by_key process_running lookup
    insert Mem.processes Mem.refs_of Mem.process Mem.set_state
run_three = refl

pegasus_registered : has_app "pegasus" live ≡ true
unfolding has_app registered
pegasus_registered = refl

broken_decodes : decode host "broken" "" ≡ none
unfolding decode
broken_decodes = refl

get_process_settings-save_example :
    get_process_settings first (save_process_settings first "broken" live).0 ≡ ok "broken"
get_process_settings-save_example =
    get_process_settings-save first "broken" live pegasus_registered broken_decodes
