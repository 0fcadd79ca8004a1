-- ===== src/Clients/Mem.antt =====
-- clients/mem/mem.go: the store in memory. It is a plain struct behind a mutex, so one call is one
-- step. Go's order of iteration over a map is not modelled: a listing follows the association list.
use pegasus_suite.Prelude.{String, ◌&&◌, Option, none, some, List, [], ◌∷◌, str_eq, if◌then◌else◌}
use pegasus_suite.Prelude.Assoc.{Assoc, lookup, insert, erase, string_eq}
use pegasus_suite.Clients.{
  ProcessKey, key_eq, State, ProcessRef, RawMessage, StoreError, err_not_found, Result, ok, err,
  Store,
}

pub record MemStore : Type 0 where
  pub processes : Assoc ProcessKey RawMessage
  pub apps : Assoc String RawMessage
  pub states : Assoc ProcessKey State

abbrev pub new : MemStore
new = record { processes = []; apps = []; states = [] }

unfoldable pub put_process : ProcessKey → RawMessage → MemStore → MemStore × Option StoreError
put_process key doc s = (record s { processes = insert key doc s.processes }, none)

unfoldable pub put_app_settings : String → RawMessage → MemStore → MemStore × Option StoreError
put_app_settings name doc s = (record s { apps = insert name doc s.apps }, none)

unfoldable pub process : ProcessKey → MemStore → Result StoreError RawMessage
process key s = elim (lookup key s.processes) [ none ↦ err err_not_found | some doc ↦ ok doc ]

unfoldable pub app_settings : String → MemStore → Result StoreError RawMessage
app_settings name s = elim (lookup name s.apps) [ some doc ↦ ok doc | none ↦ ok "{}" ]

-- the loop of `Processes`
unfoldable pub refs_of : String → Assoc ProcessKey State → List ProcessRef
refs_of application [] = []
refs_of application ((key, state) ∷ rest) =
    let more = refs_of application rest in
    if str_eq key.app application then record { key = key; state = state } ∷ more else more

unfoldable pub processes : String → MemStore → Result StoreError (List ProcessRef)
unfolding refs_of
processes application s = ok (refs_of application s.states)

unfoldable pub set_state : ProcessKey → State → MemStore → MemStore × Option StoreError
set_state key state s = (record s { states = insert key state s.states }, none)

unfoldable pub forget : ProcessKey → MemStore → MemStore × Option StoreError
forget key s = (record s { states = erase key s.states }, none)

-- the loop of `ProcessIDs`
unfoldable pub ids_of : String → String → Assoc ProcessKey RawMessage → List String
ids_of application user_id [] = []
ids_of application user_id ((key, doc) ∷ rest) =
    let more = ids_of application user_id rest in
    if str_eq key.app application && str_eq key.user_id user_id then key.process_id ∷ more else more

unfoldable pub process_ids : String → String → MemStore → Result StoreError (List String)
unfolding ids_of
process_ids application user_id s = ok (ids_of application user_id s.processes)

unfoldable pub delete_process : ProcessKey → MemStore → MemStore × Option StoreError
delete_process key s = (record s { processes = erase key s.processes }, none)

-- `var _ clients.Store = (*Store)(nil)`
abbrev pub mem_store : Store
mem_store = record {
  S = MemStore;
  process = process;
  app_settings = app_settings;
  put_process = put_process;
  put_app_settings = put_app_settings;
  process_ids = process_ids;
  delete_process = delete_process;
  processes = processes;
  set_state = set_state;
  forget = forget;
}
