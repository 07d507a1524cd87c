-- ===== src/Worklogs.antt =====
-- internal/server/jira_worklog.go: the data that Jira and Tempo send, the requests to them as
-- events with their replies, and the errors of the worklog operations.
use external_gateway.Prelude.{
  ℕ, zero, suc, ℤ, ◌+◌, ◌*◌, ◌/◌, ◌%◌, Bool, Bytes, List, [], ◌∷◌, ◌++◌, Option, none, some, Result,
  ok, err, ltb, if◌then◌else◌,
}
use external_gateway.Workcal.{Date}
pub mod Params
pub mod Entries
pub mod Writes
pub mod Norm
pub mod Pages
pub mod Activities

pub record User : Type 0 where
  pub account_id : Bytes
  pub display_name : Bytes

-- `tempoWorklog`; Tempo's ids and times are natural numbers.
pub record Worklog : Type 0 where
  pub tempo_worklog_id : ℕ
  pub issue : ℕ
  pub author : Bytes
  pub start_date : Bytes
  pub start_time : Bytes
  pub time_spent_seconds : ℕ
  pub billable_seconds : ℕ
  pub description : Bytes
  pub attributes : List (Bytes × Bytes)

-- The fields of `jiraIssueRef` that the writes read.
pub record IssueRef : Type 0 where
  pub id : Bytes
  pub key : Bytes
  pub summary : Bytes
  pub issue_type : Bytes
  pub parent : Option Bytes

-- `parentKey`
unfoldable pub parent_key : IssueRef → Bytes
parent_key r = elim r.parent [ none ↦ [] | some key ↦ key ]

-- The last digits of a number, so many at most.
unfoldable pub digits : ℕ → ℕ → Bytes
digits zero n = []
digits (suc k) n =
    let rest = digits k (n / 10) in if ltb n 10 then (n + 48) ∷ [] else rest ++ (n % 10 + 48) ∷ []

-- `strconv.FormatInt(n, 10)`: an int64 has 19 digits at most.
unfoldable pub format_int : ℕ → Bytes
unfolding digits
format_int n = digits 19 n

-- `w.id()`
unfoldable pub worklog_id : Worklog → Bytes
unfolding format_int
worklog_id w = format_int w.tempo_worklog_id

-- `w.issueID()`
unfoldable pub issue_id : Worklog → Bytes
unfolding format_int
issue_id w = format_int w.issue

-- The body of a POST of a worklog; a date is encoded as YYYY-MM-DD.
pub record NewWorklog : Type 0 where
  pub issue_number : ℤ
  pub author_account_id : Bytes
  pub start_date : Date
  pub start_time : Bytes
  pub time_spent_seconds : ℕ
  pub description : Option Bytes

-- The body of a PUT of a worklog.
pub record ChangedWorklog : Type 0 where
  pub author_account_id : Bytes
  pub start_date : Date
  pub start_time : Bytes
  pub time_spent_seconds : ℕ
  pub billable_seconds : ℕ
  pub description : Bytes
  pub attributes : List (Bytes × Bytes)

-- A request to Jira or Tempo, with its decoded reply or the message of its failure.
pub data Event : Type 0 where
  get_myself : Result Bytes User → Event
  get_issue : Bytes → Bytes → Result Bytes IssueRef → Event
  get_user : Bytes → Result Bytes User → Event
  get_worklog : Bytes → Result Bytes Worklog → Event
  post_worklog : NewWorklog → Result Bytes Worklog → Event
  put_worklog : Bytes → ChangedWorklog → Result Bytes Worklog → Event
  delete_worklog : Bytes → Result Bytes (Unit {0}) → Event

-- Jira and Tempo: how they reply, by all that has happened before.
pub record Upstream : Type 0 where
  pub myself : List Event → Result Bytes User
  pub issue : Bytes → Bytes → List Event → Result Bytes IssueRef
  pub user : Bytes → List Event → Result Bytes User
  pub worklog : Bytes → List Event → Result Bytes Worklog
  pub post : NewWorklog → List Event → Result Bytes Worklog
  pub put : Bytes → ChangedWorklog → List Event → Result Bytes Worklog
  pub delete : Bytes → List Event → Result Bytes (Unit {0})

pub data WorklogError : Type 0 where
  upstream : Bytes → WorklogError
  no_account : WorklogError
  key_shape : WorklogError
  project_outside : Bytes → WorklogError
  key_or_activity : WorklogError
  unknown_activity : Bytes → WorklogError
  hours_range : WorklogError
  hours_short : WorklogError
  hours_missing : WorklogError
  date_shape : Bytes → WorklogError
  start_shape : WorklogError
  issue_number_shape : Bytes → WorklogError
  worklog_id_shape : WorklogError
  other_issue : Bytes → Bytes → WorklogError
  not_own : Bytes → Bytes → WorklogError
  unreadable_date : Bytes → WorklogError
  nothing_to_change : WorklogError
  activity_name_shape : WorklogError
  activity_map : Bytes → WorklogError
