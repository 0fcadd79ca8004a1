-- ===== src/Kernel/State.antt =====
-- kernel/types.go `Kernel`, and the helpers of kernel.go that the operations share.
use pegasus_suite.Prelude.{
  ℕ, String, Bool, true, false, not, Option, none, some, List, [], ◌∷◌, if◌then◌else◌,
}
use pegasus_suite.Prelude.Assoc.{Assoc, lookup, string_eq}
use pegasus_suite.Clients.{
  ProcessKey, key_eq, State, RawMessage, StoreError, Result, ok, err, Store,
}
use pegasus_suite.Kernel.Host.{
  Host, Error, err_not_running, err_unknown_app, err_app_down, err_not_found,
}

-- `byName[name]` is there exactly for the names of `apps`; `adminDocs` maps to a constructor of the
-- document's type. The atomics are plain fields, read and written under the mutex.
pub record Kernel (st : Store) (h : Host) : Type 1 where
  pub store : st.S
  pub world : h.W
  pub apps : List String
  pub admin_docs : Assoc String h.T
  pub procs : Assoc ProcessKey h.P
  pub up : Assoc String Bool
  pub running : Bool
  pub started_at : ℕ
  pub last_err : Option Error
  pub app_errs : Assoc String Error

-- `_, ok := byName[name]`
unfoldable pub registered : String → List String → Bool
registered name [] = false
registered name (a ∷ rest) = if string_eq.beq a name then true else registered name rest

-- `up[name]`, false where the name is not there
abbrev pub is_up : String → Assoc String Bool → Bool
is_up name up = elim (lookup name up) [ none ↦ false | some b ↦ b ]

module _ {st : Store} {h : Host} where
  unfoldable pub has_app : String → Kernel st h → Bool
  has_app name k = registered name k.apps

  -- what the kernel hands down to an application: `host.Settings`
  abbrev pub host_settings : Kernel st h → String → Result StoreError RawMessage
  host_settings k name = st.app_settings name k.store

  -- The application itself is its name, `key.App`.
  unfoldable pub get_app_by_process_key : ProcessKey → Kernel st h → Option Error
  unfolding has_app
  get_app_by_process_key key k =
      if not k.running
      then some err_not_running
      else if not (has_app key.app k)
      then some err_unknown_app
      else if not (is_up key.app k.up)
      then some err_app_down
      else none

  unfoldable pub get_process_by_key : ProcessKey → Kernel st h → Result Error h.P
  get_process_by_key key k =
      if not k.running
      then err err_not_running
      else elim (lookup key k.procs) [ none ↦ err err_not_found | some p ↦ ok p ]

  -- A state that cannot be persisted is logged and otherwise ignored.
  unfoldable pub set_state : ProcessKey → State → Kernel st h → Kernel st h
  set_state key s k = record k { store = (st.set_state key s k.store).0 }
