-- ===== src/Kernel/Api/Tests.antt =====
-- kernel/api/ on the small host of the kernel's tests: a user, an admin, and tokens that are their names.
use pegasus_suite.Prelude.{
  ◌≤◌, String, ◌≡◌, refl, true, false, Option, none, some, List, [], ◌∷◌, All, length, arith,
  str_eq, str_eq_iff, if◌then◌else◌,
}
use pegasus_suite.Prelude.Int.{ℤ, pos}
use pegasus_suite.Prelude.Toy.{toy_time}
use pegasus_suite.Clients.{key_eq, Result, ok, err}
use pegasus_suite.Kernel.Processes.{start_process}
use pegasus_suite.Kernel.Tests.{live}
use pegasus_suite.Kernel.Api.{Request}
use pegasus_suite.Kernel.Api.Handlers.{process_op}
use pegasus_suite.Kernel.Api.Handlers.Status.{Handled, process_op-Handled}
use pegasus_suite.Kernel.Api.Logs.{
  records, with_limit, with_since, base_query, log_query, handle_logs,
}
use pegasus_suite.Kernel.Api.Logs.Privacy.{handle_logs-IsPrivate}
use pegasus_suite.Kernel.Api.Routes.{start_route, system_start_route, add_route, serve}
use pegasus_suite.Kernel.Api.Routes.Sessions.{Arrival, Outcome, serve-Outcome}
use pegasus_suite.Logger.Ring.{Record, Buffer, matches, snapshot, collect, recent}
use pegasus_suite.Platform.Claims.{Claims, one_of, user_id, has_role, is_admin}

abbrev user : Claims
user = record { username = "jo"; roles = []; subject = "u"; issuer = ""; audience = [] }

abbrev admin : Claims
admin = record user { roles = "admin" ∷ []; subject = "a" }

abbrev parse : String → Result String Claims
parse raw =
    if str_eq raw "user"
    then ok user
    else if str_eq raw "admin"
    then ok admin
    else err "invalid token"

abbrev same_order : List String → List String
same_order ids = ids

abbrev about_first : Request
about_first = record {
  path_value = λ name. "pegasus";
  query = λ name. if str_eq name "processId" then "1" else "";
  claims = some user;
  body = ok "doc";
}

serve-Outcome_example :
    Outcome parse
      (some "user")
      live
      (serve same_order true parse start_route (some "user") about_first live).0
serve-Outcome_example =
    serve-Outcome same_order true parse start_route (some "user") about_first live

abbrev arrivals : List Arrival
arrivals =
    record { route = system_start_route; token = some "user"; request = about_first }
    ∷ record { route = system_start_route; token = some "admin"; request = about_first }
    ∷ record { route = add_route; token = some "user"; request = about_first }
    ∷ []

process_op-Handled_example :
    Handled "started" start_process about_first live
      (process_op "started" start_process about_first live)
process_op-Handled_example = process_op-Handled "started" start_process about_first live

abbrev line : String → Record toy_time
line owner = record {
  time = pos 3;
  level = "INFO";
  application = "pegasus";
  message = "placed";
  user_id = owner;
  process_id = "1";
  rest = "";
}

abbrev ring : Buffer (Record toy_time)
ring = record { buf = line "u" ∷ line "other" ∷ []; next = 0; full = true }

abbrev no_number : String → Option ℤ
no_number s = none

-- The user asks for the records of another; the answer holds its own.
abbrev nosy : Request
nosy = record about_first { query = λ name. if str_eq name "user" then "other" else "" }

user_is_no_admin : is_admin (some user) ≡ false
unfolding is_admin has_role one_of
user_is_no_admin = refl

own_records : handle_logs {tm = toy_time} no_number str_eq nosy ring ≡ records (line "u" ∷ [])
unfolding handle_logs log_query with_limit with_since base_query recent snapshot collect matches
    user_id is_admin has_role one_of
own_records = refl

handle_logs-IsPrivate_example :
    All (λ x. x.user_id ≡ "u") (line "u" ∷ []) × (length (line "u" ∷ []) ≤ 2000)
handle_logs-IsPrivate_example =
    handle_logs-IsPrivate no_number str_eq nosy ring user (line "u" ∷ []) refl user_is_no_admin
      (ground (arith, str_eq_iff "u" "")) own_records
