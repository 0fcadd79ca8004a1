-- ===== src/Kernel/Api/Logs.antt =====
-- kernel/api/handlers.go `handleLogs`: the query that a request for log records becomes.
pub mod Privacy
use pegasus_suite.Prelude.{
  ℕ, String, Bool, true, false, not, ◌||◌, Option, none, some, List, if◌then◌else◌, str_eq,
}
use pegasus_suite.Prelude.Int.{ℤ, pos, lt_ℤ, le_ℤ}
use pegasus_suite.Prelude.Time.{GoTime}
use pegasus_suite.Clients.{Result, ok, err}
use pegasus_suite.Kernel.Api.{Request, Response, answer, message}
use pegasus_suite.Logger.Ring.{Record, Query, matches, Buffer, recent}
use pegasus_suite.Platform.Claims.{user_id, is_admin}

abbrev pub default_log_limit : ℤ
default_log_limit = pos 200

abbrev pub max_log_limit : ℤ
max_log_limit = pos 2000

-- `min`
abbrev pub min_ℤ : ℤ → ℤ → ℤ
min_ℤ a b = if le_ℤ a b then a else b

-- what the answer is: the handler's refusal, or the records that are encoded
pub data LogsAnswer (tm : GoTime) : Type 0 where
  refused : Response → LogsAnswer tm
  records : List (Record tm) → LogsAnswer tm

-- the parameters are `strconv.Atoi` and `strings.EqualFold`
module _ {tm : GoTime} (atoi : String → Option ℤ) (equal_fold : String → String → Bool) where
  unfoldable pub with_limit : Request → Query tm → Result Response (Query tm)
  with_limit r q =
      let v = r.query "limit" in
      if str_eq v "" then ok q else elim (atoi v) [
        | none ↦ err (answer 400 (message "limit must be a positive integer"))
        | some n ↦
            if lt_ℤ n (pos 1)
            then err (answer 400 (message "limit must be a positive integer"))
            else ok (record q { limit = min_ℤ n max_log_limit })
      ]

  unfoldable pub with_since : Request → Query tm → Result Response (Query tm)
  with_since r q =
      let v = r.query "since" in
      if str_eq v "" then ok q else elim (tm.parse "2006-01-02T15:04:05Z07:00" v) [
        | none ↦ err (answer 400 (message "since must be RFC3339"))
        | some t ↦ ok (record q { since = t })
      ]

  -- the query before `since` and `limit` are read
  unfoldable pub base_query : Request → Query tm
  base_query r = record {
    level = r.query "level";
    application = r.query "app";
    user_id = if not (is_admin r.claims) then user_id r.claims else r.query "user";
    process_id = r.query "process";
    since = tm.zero_time;
    limit = default_log_limit;
  }

  unfoldable pub log_query : Request → Result Response (Query tm)
  log_query r = elim r.claims [
    | none ↦ err (answer 401 (message "unauthorized"))
    | some c ↦ elim (with_since r (base_query r)) [ err e ↦ err e | ok q ↦ with_limit r q ]
  ]

  unfoldable pub handle_logs : Request → Buffer (Record tm) → LogsAnswer tm
  handle_logs r ring = elim (log_query r) [
    | err e ↦ refused e
    | ok q ↦ records (recent (matches equal_fold q) q.limit ring)
  ]
