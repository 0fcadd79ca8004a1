-- ===== src/Kernel/Settings.antt =====
-- kernel/settings.go: reading and saving the settings documents.
use pegasus_suite.Prelude.{String, Option, none, some, not, if◌then◌else◌}
use pegasus_suite.Prelude.Assoc.{lookup, string_eq}
use pegasus_suite.Clients.{
  ProcessKey, key_eq, state_running, RawMessage, err_not_found, failed, Result, ok, err, Store,
}
use pegasus_suite.Kernel.Host.{
  Host, Error, err_unknown_app, err_no_settings, err_invalid_settings, err_not_reloaded,
  err_unknown_settings, store_failed, app_error,
}
use pegasus_suite.Kernel.State.{Kernel, has_app, set_state}
use pegasus_suite.Kernel.Processes.{drop_locked, rebuild_locked, start_loaded}

-- `decode`: the document must parse, end, and be valid.
unfoldable pub decode : (h : Host) → RawMessage → h.T → Option Error
decode h doc into = elim (h.json_decode doc into) [
  | err m ↦ some (err_invalid_settings m)
  | ok t ↦
      if h.json_more doc
      then some (err_invalid_settings "trailing data after document")
      else elim (h.validate t) [ some m ↦ some (err_invalid_settings m) | none ↦ none ]
]

module _ {st : Store} {h : Host} where
  unfoldable pub get_process_settings : ProcessKey → Kernel st h → Result Error RawMessage
  get_process_settings key k =
      if not (has_app key.app k) then err err_unknown_app else elim (st.process key k.store) [
        | ok doc ↦ ok doc
        | err e ↦ elim e [
          | err_not_found ↦ err err_no_settings
          | failed m ↦ err (store_failed "" (failed m))
        ]
      ]

  -- the end of `SaveProcessSettings`, for a process that is loaded
  unfoldable pub reload : ProcessKey → h.P → Kernel st h → Kernel st h × Option Error
  reload key old k =
      let was_running = h.process_running old k.world in
      let (k', e) = rebuild_locked key old k in
      elim e [
        | some e ↦ (k', some (err_not_reloaded e))
        | none ↦
            (if was_running then set_state key state_running (start_loaded key k') else k', none)
      ]

  -- `SaveProcessSettings` once the document is written
  unfoldable pub apply_saved : ProcessKey → Kernel st h → Kernel st h × Option Error
  apply_saved key k =
      if not k.running
      then (k, none)
      else elim (lookup key k.procs) [ none ↦ (k, none) | some old ↦ reload key old k ]

  unfoldable pub save_process_settings :
      ProcessKey → RawMessage → Kernel st h → Kernel st h × Option Error
  save_process_settings key doc k =
      if not (has_app key.app k)
      then (k, some err_unknown_app)
      else elim (decode h doc (h.process_settings key.app)) [
        | some e ↦ (k, some e)
        | none ↦
            (let (s, failure) = st.put_process key doc k.store in
              elim failure [
                | some e ↦ (
                  record k { store = s },
                  some (store_failed "unable to save process settings" e),
                )
                | none ↦ apply_saved key (record k { store = s })
              ])
      ]

  -- the part of `DeleteProcessSettings` that takes a loaded process down
  unfoldable pub unload : ProcessKey → Kernel st h → Kernel st h
  unload key k = elim (lookup key k.procs) [
    | none ↦ k
    | some p ↦ if k.running then drop_locked key p k else k
  ]

  unfoldable pub delete_process_settings : ProcessKey → Kernel st h → Kernel st h × Option Error
  delete_process_settings key k =
      if not (has_app key.app k)
      then (k, some err_unknown_app)
      else (let k₁ = unload key k in
          let (s₁, e₁) = st.forget key k₁.store in
          elim e₁ [
            | some e ↦
                (record k₁ { store = s₁ }, some (store_failed "unable to forget process state" e))
            | none ↦
                (let (s₂, e₂) = st.delete_process key s₁ in
                  elim e₂ [
                    | some e ↦ (
                      record k₁ { store = s₂ },
                      some (store_failed "unable to delete process settings" e),
                    )
                    | none ↦ (record k₁ { store = s₂ }, none)
                  ])
          ])

  unfoldable pub app_settings : String → Kernel st h → Result Error RawMessage
  app_settings name k = elim (lookup name k.admin_docs) [
    | none ↦ err err_unknown_settings
    | some into ↦ elim (st.app_settings name k.store) [
      | err e ↦ err (store_failed "" e)
      | ok doc ↦ elim (h.json_unmarshal doc into) [
        | err m ↦ err (app_error m)
        | ok t ↦ ok (h.json_marshal t)
      ]
    ]
  ]

  unfoldable pub save_app_settings : String → RawMessage → Kernel st h → Kernel st h × Option Error
  save_app_settings name doc k = elim (lookup name k.admin_docs) [
    | none ↦ (k, some err_unknown_settings)
    | some into ↦ elim (decode h doc into) [
      | some e ↦ (k, some e)
      | none ↦
          (let (s, failure) = st.put_app_settings name doc k.store in
            elim failure [
              | some e ↦ (record k { store = s }, some (store_failed "unable to save settings" e))
              | none ↦ (record k { store = s }, none)
            ])
    ]
  ]
