-- ===== src/Clients/Doc.antt =====
-- clients/doc/doc.go: the client store as JSON documents in a bucket (platform/store/store.go).
pub mod Keys
pub mod Laws
pub mod Listing
pub mod Recorded
pub mod Objects
mod Tests
use Prim.Native.String
use pegasus_suite.Prelude.{
  String, Bool, true, false, not, ◌||◌, Option, none, some, List, [], ◌∷◌, if◌then◌else◌,
}
use pegasus_suite.Prelude.Text.{strip_prefix, strip_suffix, trim_prefix, trim_suffix, has_slash}
use pegasus_suite.Clients.{
  ProcessKey, State, ProcessRef, RawMessage, StoreError, err_not_found, failed, Result, ok, err,
  Store,
}
use pegasus_suite.Pegasus.Scope.{cut_slash}

-- the bucket's own `ErrNotFound`, or any other failure of its backend
pub data BucketError : Type 0 where
  no_such_key : BucketError
  broken : String → BucketError

-- The interface `Bucket` of platform/store/store.go. The backends are a directory of files and S3.
pub record Bucket : Type 1 where
  pub W : Type 0
  pub get : String → W → Result BucketError String
  pub put : String → String → W → W × Option BucketError
  pub delete : String → W → W × Option BucketError
  pub list : String → W → Result BucketError (List String)

-- encoding/json on a `stateDoc`
pub record StateJson : Type 0 where
  pub marshal : State → String
  pub unmarshal : String → Option State

-- `a + "/" + b`
abbrev pub join : String → String → String
join a b = String.◌++◌ a (String.◌∷◌ "/" b)

abbrev pub process_dir : String → String → String
process_dir app user = String.◌++◌ "settings/processes/" (join app (String.◌++◌ user "/"))

unfoldable pub app_settings_key : String → String
app_settings_key name = String.◌++◌ "settings/apps/" (String.◌++◌ name ".json")

-- `ProcessKey`
unfoldable pub process_doc_key : ProcessKey → String
process_doc_key k =
    String.◌++◌ "settings/processes/"
      (join k.app (join k.user_id (String.◌++◌ k.process_id ".json")))

unfoldable pub state_key : ProcessKey → String
state_key k = String.◌++◌ "state/" (join k.app (join k.user_id (String.◌++◌ k.process_id ".json")))

-- an error that is passed on; the bucket's `ErrNotFound` is not the one of clients.go
abbrev pub passed_on : BucketError → StoreError
passed_on no_such_key = failed "store: not found"
passed_on (broken m) = failed m

abbrev pub outcome : {W : Type 0} → W × Option BucketError → W × Option StoreError
outcome (w, none) = (w, none)
outcome (w, some e) = (w, some (passed_on e))

-- the loop of `ProcessIDs`
unfoldable pub ids_from : String → List String → List String
ids_from prefix [] = []
ids_from prefix (key ∷ rest) =
    let more = ids_from prefix rest in
    let pid = trim_prefix prefix key in
    elim (strip_suffix ".json" pid) [
      | none ↦ more
      | some id ↦ if has_slash pid then more else id ∷ more
    ]

-- the user and the process of a key below `prefix`; none is a key that the loop skips
unfoldable pub owner_of : String → String → Option (String × String)
owner_of prefix key = elim (cut_slash (trim_suffix ".json" (trim_prefix prefix key))) [
  | none ↦ none
  | some (user, pid) ↦ if has_slash pid then none else some (user, pid)
]

module _ (b : Bucket) (json : StateJson) where
  unfoldable pub process : ProcessKey → b.W → Result StoreError RawMessage
  process key w = elim (b.get (process_doc_key key) w) [
    | ok body ↦ ok body
    | err e ↦ elim e [ no_such_key ↦ err err_not_found | broken m ↦ err (failed m) ]
  ]

  unfoldable pub app_settings : String → b.W → Result StoreError RawMessage
  app_settings name w = elim (b.get (app_settings_key name) w) [
    | ok body ↦ ok body
    | err e ↦ elim e [ no_such_key ↦ ok "{}" | broken m ↦ err (failed m) ]
  ]

  unfoldable pub put_process : ProcessKey → RawMessage → b.W → b.W × Option StoreError
  put_process key doc w = outcome (b.put (process_doc_key key) doc w)

  unfoldable pub put_app_settings : String → RawMessage → b.W → b.W × Option StoreError
  put_app_settings name doc w = outcome (b.put (app_settings_key name) doc w)

  unfoldable pub process_ids : String → String → b.W → Result StoreError (List String)
  process_ids application user_id w = elim (b.list (process_dir application user_id) w) [
    | err e ↦ err (passed_on e)
    | ok keys ↦ ok (ids_from (process_dir application user_id) keys)
  ]

  unfoldable pub delete_process : ProcessKey → b.W → b.W × Option StoreError
  delete_process key w = outcome (b.delete (process_doc_key key) w)

  -- the loop of `Processes`: a key of another form and a document that does not parse are skipped
  unfoldable pub refs_from :
      String → String → List String → b.W → Result StoreError (List ProcessRef)
  refs_from application prefix [] w = ok []
  refs_from application prefix (key ∷ rest) w =
      let more = refs_from application prefix rest w in
      elim (owner_of prefix key) [
        | none ↦ more
        | some (user, pid) ↦ elim (b.get key w) [
          | err e ↦ err (passed_on e)
          | ok body ↦ elim (json.unmarshal body) [
            | none ↦ more
            | some state ↦ elim more [
              | err e ↦ err e
              | ok refs ↦ ok (
                  record {
                    key = record { app = application; user_id = user; process_id = pid };
                    state = state;
                  }
                  ∷ refs)
            ]
          ]
        ]
      ]

  unfoldable pub processes : String → b.W → Result StoreError (List ProcessRef)
  processes application w =
      let prefix = String.◌++◌ "state/" (String.◌++◌ application "/") in
      elim (b.list prefix w) [
        | err e ↦ err (passed_on e)
        | ok keys ↦ refs_from application prefix keys w
      ]

  unfoldable pub set_state : ProcessKey → State → b.W → b.W × Option StoreError
  set_state key state w = outcome (b.put (state_key key) (json.marshal state) w)

  unfoldable pub forget : ProcessKey → b.W → b.W × Option StoreError
  forget key w = outcome (b.delete (state_key key) w)

  -- `var _ clients.Store = (*Store)(nil)`
  abbrev pub doc_store : Store
  doc_store = record {
    S = b.W;
    process = process;
    app_settings = app_settings;
    put_process = put_process;
    put_app_settings = put_app_settings;
    process_ids = process_ids;
    delete_process = delete_process;
    processes = processes;
    set_state = set_state;
    forget = forget;
  }
