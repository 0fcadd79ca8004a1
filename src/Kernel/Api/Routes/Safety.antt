-- ===== src/Kernel/Api/Routes/Safety.antt =====
-- kernel/api/server.go: what a request may do to the kernel, and who may make it.
use mathlib.Core.Path.{subst}
use pegasus_suite.Prelude.{String, ◌≡◌, refl, sym, true, Option, none, some, List, arith}
use pegasus_suite.Clients.{ProcessKey, ok, Store, result_case}
use pegasus_suite.Kernel.Host.{Host, Error}
use pegasus_suite.Kernel.State.{Kernel, has_app}
use pegasus_suite.Kernel.Runs.{
  Call, call_start, call_stop, call_restart, call_add, call_start_process, call_stop_process,
  call_restart_process, call_delete_process, call_delete_settings, call_save_settings,
  call_save_app_settings, exec,
}
use pegasus_suite.Kernel.Api.{Request, Response, check_id, process_key, read_doc}
use pegasus_suite.Kernel.Api.Guards.{MayActFor, process_key-IsAllowed}
use pegasus_suite.Kernel.Api.Handlers.{
  reply, process_op, system_op, handle_list_processes, handle_delete_process_settings,
  handle_get_process_settings, handle_put_process_settings, handle_process_status,
  handle_system_status, handle_get_app_settings, handle_put_app_settings,
}
use pegasus_suite.Kernel.Api.Routes.{
  Route, add_route, start_route, stop_route, restart_route, delete_route, status_route, list_route,
  get_settings_route, put_settings_route, delete_settings_route, system_start_route,
  system_stop_route, system_restart_route, system_status_route, get_app_settings_route,
  put_app_settings_route, health_route, authed, admin_only, open_to_all, access, handler,
}
use pegasus_suite.Platform.Claims.{Claims, is_admin}

-- the process that a call is about
abbrev pub key_of : Call → Option ProcessKey
key_of (call_add key) = some key
key_of (call_start_process key) = some key
key_of (call_stop_process key) = some key
key_of (call_restart_process key) = some key
key_of (call_delete_process key) = some key
key_of (call_delete_settings key) = some key
key_of (call_save_settings key doc) = some key
key_of _ = none

-- what the guard of a route has shown of its caller
abbrev pub Guarding : Route → Claims → Type 0
Guarding route c = elim (access route) [
  | authed ↦ Unit
  | admin_only ↦ is_admin (some c) ≡ true
  | open_to_all ↦ Unit
]

module _ {st : Store} {h : Host} where
  -- What a caller may do to the kernel by one request: nothing; one call about a process of a
  -- registered application, under a user it may act for; or, as an admin, one call about the
  -- runtime or its settings.
  pub data Effect (c : Claims) (k : Kernel st h) : Kernel st h → Type 1 where
    untouched : Effect c k k
    on_process :
        (call : Call) (key : ProcessKey)
        → key_of call ≡ some key
        → has_app key.app k ≡ true
        → MayActFor c key.user_id
        → check_id key.process_id ≡ none
        → Effect c k (exec call k).0
    on_runtime :
        (call : Call) → key_of call ≡ none → is_admin (some c) ≡ true → Effect c k (exec call k).0

  reply-fst : (done : Response) (r : Kernel st h × Option Error) → (reply done r).0 ≡ r.0
  unfolding reply
  reply-fst done (k, some e) = refl
  reply-fst done (k, none) = refl

  -- A reply changes the kernel as the operation did.
  Effect-reply :
      (c : Claims) (k : Kernel st h) (done : Response) (r : Kernel st h × Option Error)
      → Effect c k r.0
      → Effect c k (reply done r).0
  Effect-reply c k done r e = rw (reply-fst done r) e

  allowed_call :
      (c : Claims) (r : Request) (k : Kernel st h) (key : ProcessKey) (call : Call)
      → r.claims ≡ some c
      → process_key r k ≡ ok key
      → key_of call ≡ some key
      → Effect c k (exec call k).0
  allowed_call c r k key call a p q =
      let i = process_key-IsAllowed r k key p in
      let same : i.caller ≡ c = ground (arith, a, i.authenticated) in
      on_process call key q i.registered (subst (λ x. MayActFor x key.user_id) same i.allowed)
        i.well_formed

  process_op-Effect :
      (c : Claims) (done : String) (mk : ProcessKey → Call) (r : Request) (k : Kernel st h)
      → ((key : ProcessKey) → key_of (mk key) ≡ some key)
      → r.claims ≡ some c
      → Effect c k (process_op done (λ key. exec (mk key)) r k).0
  unfolding process_op
  process_op-Effect c done mk r k q a =
      result_case (λ (o : Kernel st h × Response). Effect c k o.0) (process_key r k) _ _
        (λ e p. untouched)
        (λ key p. Effect-reply c k _ _ (allowed_call c r k key (mk key) a p (q key)))

  put_settings-Effect :
      (c : Claims) (r : Request) (k : Kernel st h)
      → r.claims ≡ some c
      → Effect c k (handle_put_process_settings r k).0
  unfolding handle_put_process_settings exec
  put_settings-Effect c r k a =
      result_case (λ (o : Kernel st h × Response). Effect c k o.0) (process_key r k) _ _
        (λ e p. untouched)
        (λ key p.
          result_case (λ (o : Kernel st h × Response). Effect c k o.0) (read_doc r) _ _
            (λ e f. untouched)
            (λ doc f.
              Effect-reply c k _ _ (allowed_call c r k key (call_save_settings key doc) a p refl)))

  delete_settings-Effect :
      (c : Claims) (r : Request) (k : Kernel st h)
      → r.claims ≡ some c
      → Effect c k (handle_delete_process_settings r k).0
  unfolding handle_delete_process_settings exec
  delete_settings-Effect c r k a =
      result_case (λ (o : Kernel st h × Response). Effect c k o.0) (process_key r k) _ _
        (λ e p. untouched)
        (λ key p. Effect-reply c k _ _ (allowed_call c r k key (call_delete_settings key) a p refl))

  -- The handlers that only read leave the kernel as it is.
  reads :
      (sort : List String → List String) (r : Request) (k : Kernel st h)
      → ((handle_list_processes sort r k).0 ≡ k)
        × ((handle_get_process_settings r k).0 ≡ k)
        × ((handle_process_status r k).0 ≡ k)
        × ((handle_get_app_settings r k).0 ≡ k)
  unfolding handle_list_processes handle_get_process_settings handle_process_status
      handle_get_app_settings
  reads sort r k = (ground arith, ground arith, ground arith, ground arith)

  system-Effect :
      (c : Claims) (done : String) (call : Call) (k : Kernel st h)
      → key_of call ≡ none
      → is_admin (some c) ≡ true
      → Effect c k (system_op done (exec call) k).0
  unfolding system_op
  system-Effect c done call k n a = Effect-reply c k _ (exec call k) (on_runtime call n a)

  put_app_settings-Effect :
      (c : Claims) (r : Request) (k : Kernel st h)
      → is_admin (some c) ≡ true
      → Effect c k (handle_put_app_settings r k).0
  unfolding handle_put_app_settings exec
  put_app_settings-Effect c r k a =
      result_case (λ (o : Kernel st h × Response). Effect c k o.0) (read_doc r) _ _
        (λ e f. untouched)
        (λ doc f.
          Effect-reply c k _ _
            (on_runtime (call_save_app_settings (r.path_value "name") doc) refl a))

  read-Effect : (c : Claims) (k k' : Kernel st h) → k' ≡ k → Effect c k k'
  read-Effect c k k' e = subst (Effect c k) (sym e) untouched

  pub handler-Effect :
      (sort : List String → List String) (route : Route) (c : Claims) (r : Request)
      (k : Kernel st h)
      → r.claims ≡ some c
      → Guarding route c
      → Effect c k (handler sort route r k).0
  unfolding handler exec access handle_system_status
  handler-Effect sort add_route c r k a g = process_op-Effect c "added" call_add r k (λ key. refl) a
  handler-Effect sort start_route c r k a g =
      process_op-Effect c "started" call_start_process r k (λ key. refl) a
  handler-Effect sort stop_route c r k a g =
      process_op-Effect c "stopped" call_stop_process r k (λ key. refl) a
  handler-Effect sort restart_route c r k a g =
      process_op-Effect c "restarted" call_restart_process r k (λ key. refl) a
  handler-Effect sort delete_route c r k a g =
      process_op-Effect c "deleted" call_delete_process r k (λ key. refl) a
  handler-Effect sort status_route c r k a g = read-Effect c k _ (reads sort r k).2
  handler-Effect sort list_route c r k a g = read-Effect c k _ (reads sort r k).0
  handler-Effect sort get_settings_route c r k a g = read-Effect c k _ (reads sort r k).1
  handler-Effect sort put_settings_route c r k a g = put_settings-Effect c r k a
  handler-Effect sort delete_settings_route c r k a g = delete_settings-Effect c r k a
  handler-Effect sort system_start_route c r k a g = system-Effect c "started" call_start k refl g
  handler-Effect sort system_stop_route c r k a g = system-Effect c "stopped" call_stop k refl g
  handler-Effect sort system_restart_route c r k a g =
      system-Effect c "restarted" call_restart k refl g
  handler-Effect sort system_status_route c r k a g = untouched
  handler-Effect sort get_app_settings_route c r k a g = read-Effect c k _ (reads sort r k).3
  handler-Effect sort put_app_settings_route c r k a g = put_app_settings-Effect c r k g
  handler-Effect sort health_route c r k a g = untouched
