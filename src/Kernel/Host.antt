-- ===== src/Kernel/Host.antt =====
-- kernel/types.go: the errors of the kernel, and what it drives: the interfaces `App`, `Process` and
-- `Settings`, the betting engine, and the JSON decoder.
use pegasus_suite.Prelude.{String, Bool, Option, ℕ}
use pegasus_suite.Clients.{ProcessKey, RawMessage, StoreError, Result}

pub data Error : Type 0 where
  err_not_running err_already_running err_unknown_app err_app_down : Error
  err_not_found err_no_settings err_exists err_unknown_settings : Error
  -- `fmt.Errorf("%w: %v", ErrInvalidSettings, err)`
  err_invalid_settings : String → Error
  -- `fmt.Errorf("%w: %v", ErrNotReloaded, err)`
  err_not_reloaded : Error → Error
  -- "process removed; settings did not load: %w"
  process_removed : Error → Error
  -- a failure of the client store, under the operation's own words
  store_failed : String → StoreError → Error
  -- "no applications started"
  no_applications : Error
  -- an application's own error
  app_error : String → Error

-- The applications, their processes, the engine and the clock stand outside the kernel and share the
-- state `W`. An application is its registered name, and a process the reference `P` to it.
pub record Host : Type 1 where
  pub W : Type 0
  pub P : Type 0
  -- `App.Start`, given the host: the store's admin documents, of type `S → …` in general
  pub app_start : String → (String → Result StoreError RawMessage) → W → W × Option Error
  pub app_stop : String → W → W
  pub app_status : String → W → String
  pub app_new_process :
      String
      → ProcessKey
      → RawMessage
      → (String → Result StoreError RawMessage)
      → W
      → W × Result Error P
  pub process_start : P → W → W
  pub process_stop : P → W → W
  pub process_close : P → W → W
  pub process_running : P → W → Bool
  -- `engine.New`, `Engine.Close`, `Engine.Release`, and the cancel function of the context
  pub engine_new : W → W
  pub engine_close : W → W
  pub engine_release : ProcessKey → W → W
  pub cancel : W → W
  pub now : W → ℕ
  -- a settings type, and encoding/json at such a type, unknown fields disallowed
  pub T : Type 0
  pub process_settings : String → T
  pub json_decode : RawMessage → T → Result String T
  pub json_more : RawMessage → Bool
  pub json_unmarshal : RawMessage → T → Result String T
  pub json_marshal : T → RawMessage
  pub validate : T → Option String
