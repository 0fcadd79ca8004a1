-- ===== src/Kernel/Api.antt =====
-- kernel/api/: the HTTP interface of the kernel. Here its requests and answers, and the checks that
-- its handlers share (server.go `appUser`, util.go, processHandlers.go `processKey`).
pub mod Handlers
pub mod Logs
pub mod Routes
pub mod Guards
mod Tests
use Prim.Native.Char.{code}
use Prim.Native.String
use pegasus_suite.Prelude.{
  ℕ, String, Bool, true, false, not, ◌&&◌, ◌||◌, Option, none, some, List, if◌then◌else◌, str_eq,
  ltb, ◌==◌,
}
use pegasus_suite.Clients.{ProcessKey, RawMessage, Result, ok, err, Store}
use pegasus_suite.Kernel.Host.{
  Host, Error, err_not_running, err_already_running, err_unknown_app, err_app_down, err_not_found,
  err_no_settings, err_exists, err_unknown_settings, err_invalid_settings, err_not_reloaded,
  process_removed, store_failed, no_applications, app_error,
}
use pegasus_suite.Kernel.State.{Kernel, has_app}
use pegasus_suite.Kernel.Lifecycle.{ProcessInfo, Status}
use pegasus_suite.Pegasus.Tpd.{byte_length}
use pegasus_suite.Platform.Claims.{Claims, user_id, is_admin}

-- how reading a body fails: it is larger than `maxSettingsBody`, or cannot be read
pub data BodyError : Type 0 where
  too_large unreadable : BodyError

-- What the handlers read of a request: `PathValue`, `URL.Query().Get` ("" where the name is not
-- there), the claims that `RequireAuth` put on it, and what reading its body gives.
pub record Request : Type 0 where
  pub path_value : String → String
  pub query : String → String
  pub claims : Option Claims
  pub body : Result BodyError RawMessage

-- what an answer carries: nothing, a message of the handler, the text of an error of the kernel, a
-- settings document, or a value that is encoded as JSON
pub data Body : Type 0 where
  empty : Body
  message : String → Body
  failure : Error → Body
  document : RawMessage → Body
  word : String → Body
  listing : List ProcessInfo → Body
  runtime : Status → Body

pub record Response : Type 0 where
  pub status : ℕ
  pub body : Body

abbrev pub answer : ℕ → Body → Response
answer status body = record { status = status; body = body }

-- `strings.ContainsAny(id, "/\\")`
unfoldable pub has_separator : String → Bool
has_separator String.[] = false
has_separator (String.◌∷◌ c s) =
    let rest = has_separator s in if code c == b'/' || code c == b'\\' then true else rest

-- whether a text starts with a dot
abbrev pub dotted : String → Bool
dotted String.[] = false
dotted (String.◌∷◌ c s) = code c == b'.'

-- `strings.Contains(id, "..")`
unfoldable pub has_dots : String → Bool
has_dots String.[] = false
has_dots (String.◌∷◌ c s) =
    let rest = has_dots s in if code c == b'.' && dotted s then true else rest

-- `checkID`; none is its empty message
unfoldable pub check_id : String → Option String
check_id id =
    if str_eq id ""
    then some "missing"
    else if ltb 128 (byte_length id)
    then some "too long"
    else if has_separator id || has_dots id
    then some "invalid"
    else none

-- `errStatus`. `errors.Is` looks through what an error wraps by `%w`, and not through `%v`.
unfoldable pub err_status : Error → ℕ
err_status err_already_running = 409
err_status err_not_running = 409
err_status err_app_down = 409
err_status err_exists = 409
err_status err_not_found = 404
err_status err_unknown_app = 404
err_status err_no_settings = 404
err_status err_unknown_settings = 404
err_status (err_invalid_settings m) = 400
err_status (err_not_reloaded e) = 409
err_status (process_removed e) = err_status e
err_status (store_failed m e) = 500
err_status no_applications = 500
err_status (app_error m) = 500

-- the end of `appUser`: the user asked for, if that may be another than the caller
unfoldable pub asked_user : String → Option Claims → Result Response String
asked_user asked claims =
    let own = user_id claims in
    if not (str_eq asked "") && not (str_eq asked own)
    then if not (is_admin claims)
      then err (answer 403 (message "forbidden"))
      else elim (check_id asked) [
        | some m ↦ err (answer 400 (message (String.◌++◌ "user ID " m)))
        | none ↦ ok asked
      ]
    else ok own

module _ {st : Store} {h : Host} where
  -- `appUser`: the application of the path, and the user
  unfoldable pub app_user : Request → Kernel st h → Result Response (String × String)
  app_user r k =
      let app = r.path_value "app" in
      if not (has_app app k)
      then err (answer 404 (message "unknown application"))
      else elim r.claims [
        | none ↦ err (answer 401 (message "unauthorized"))
        | some c ↦ elim (asked_user (r.query "userId") (some c)) [
          | err e ↦ err e
          | ok user ↦ ok (app, user)
        ]
      ]

  -- `processKey`
  unfoldable pub process_key : Request → Kernel st h → Result Response ProcessKey
  process_key r k = elim (app_user r k) [
    | err e ↦ err e
    | ok (app, user) ↦
        (let id = r.query "processId" in
          elim (check_id id) [
            | some m ↦ err (answer 400 (message (String.◌++◌ "process ID " m)))
            | none ↦ ok (record { app = app; user_id = user; process_id = id })
          ])
  ]

-- `readDoc`
unfoldable pub read_doc : Request → Result Response RawMessage
read_doc r = elim r.body [
  | ok doc ↦ ok doc
  | err e ↦ elim e [
    | too_large ↦ err (answer 413 (message "settings document too large"))
    | unreadable ↦ err (answer 400 (message "unable to read body"))
  ]
]
