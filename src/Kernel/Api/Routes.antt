-- ===== src/Kernel/Api/Routes.antt =====
-- kernel/api/server.go `routes`: which guard and which handler answers a request. Matching a request
-- with a pattern is net/http's. The lists of bookmakers and of log records leave the kernel alone and
-- are not routed here.
pub mod Safety
pub mod Sessions
use pegasus_suite.Prelude.{String, Bool, true, false, Option, none, some, List}
use pegasus_suite.Clients.{Result, Store}
use pegasus_suite.Kernel.Host.{Host}
use pegasus_suite.Kernel.State.{Kernel}
use pegasus_suite.Kernel.Processes.{
  add_process, start_process, stop_process, restart_process, delete_process,
}
use pegasus_suite.Kernel.Lifecycle.{start, stop, restart}
use pegasus_suite.Kernel.Api.{Request, Response, answer, message, word}
use pegasus_suite.Kernel.Api.Handlers.{
  process_op, system_op, handle_list_processes, handle_delete_process_settings,
  handle_get_process_settings, handle_put_process_settings, handle_process_status,
  handle_system_status, handle_get_app_settings, handle_put_app_settings,
}
use pegasus_suite.Platform.Claims.{Claims, Guarded, refused, passed, require_auth, require_role}

pub data Route : Type 0 where
  add_route start_route stop_route restart_route delete_route status_route : Route
  list_route get_settings_route put_settings_route delete_settings_route : Route
  system_start_route system_stop_route system_restart_route system_status_route : Route
  get_app_settings_route put_app_settings_route health_route : Route

-- the table that the route is in
pub data Access : Type 0 where
  authed admin_only open_to_all : Access

unfoldable pub access : Route → Access
access system_start_route = admin_only
access system_stop_route = admin_only
access system_restart_route = admin_only
access system_status_route = admin_only
access get_app_settings_route = admin_only
access put_app_settings_route = admin_only
access health_route = open_to_all
access _ = authed

module _ {st : Store} {h : Host} (sort : List String → List String) where
  unfoldable pub handler : Route → Request → Kernel st h → Kernel st h × Response
  handler add_route = process_op "added" add_process
  handler start_route = process_op "started" start_process
  handler stop_route = process_op "stopped" stop_process
  handler restart_route = process_op "restarted" restart_process
  handler delete_route = process_op "deleted" delete_process
  handler status_route = handle_process_status
  handler list_route = handle_list_processes sort
  handler get_settings_route = handle_get_process_settings
  handler put_settings_route = handle_put_process_settings
  handler delete_settings_route = handle_delete_process_settings
  handler system_start_route = λ r. system_op "started" start
  handler system_stop_route = λ r. system_op "stopped" stop
  handler system_restart_route = λ r. system_op "restarted" restart
  handler system_status_route = λ r. handle_system_status
  handler get_app_settings_route = handle_get_app_settings
  handler put_app_settings_route = handle_put_app_settings
  handler health_route = λ r k. (k, answer 200 (word "online"))

  -- a handler behind its guard
  unfoldable pub behind :
      (Request → Kernel st h → Kernel st h × Response)
      → Guarded
      → Request
      → Kernel st h
      → Kernel st h × Response
  behind next (refused status m) r k = (k, answer status (message m))
  behind next (passed claims) r k = next (record r { claims = some claims }) k

  -- A request with the bearer token `token` at a route. `configured` says whether the verifier is
  -- there, and `parse` is its `Parse`.
  unfoldable pub serve :
      Bool
      → (String → Result String Claims)
      → Route
      → Option String
      → Request
      → Kernel st h
      → Kernel st h × Response
  serve configured parse route token r k = elim (access route) [
    | authed ↦ behind (handler route) (require_auth configured token parse) r k
    | admin_only ↦ behind (handler route) (require_role configured "admin" token parse) r k
    | open_to_all ↦ handler route r k
  ]
