-- ===== src/Worklogs/Entries.antt =====
-- What internal/server/jira_worklog.go makes of a worklog, and the bodies that it sends.
use external_gateway.Prelude.{
  ℕ, ℤ, ◌+◌, ◌/◌, Bool, not, ◌||◌, Bytes, [], ◌∷◌, ◌++◌, Option, none, some, codes, str_eq, Map,
  lookup, is_some, Result, ok, err, ltb, ◌==◌, if◌then◌else◌, length, take, trim_space, ◌>>=◌, ◌>>◌,
  guard, ◌≡◌, bind-eq-ok, ap, sym,
}
use external_gateway.Value.{Params, as_string}
use external_gateway.Config.{Workspace}
use external_gateway.Workcal.{Date, weekday, holiday_name, is_working_day}
use external_gateway.Worklogs.{
  User, Worklog, IssueRef, parent_key, worklog_id, NewWorklog, ChangedWorklog, WorklogError,
  issue_number_shape, unreadable_date, key_or_activity, unknown_activity, hours_missing,
  nothing_to_change,
}
use external_gateway.Worklogs.Params.{
  scoped_issue_key, string_param, param_hours, param_date, tempo_start_time, parse_date, parse_int,
}

-- `startHHMM`
unfoldable pub start_hhmm : Worklog → Bytes
start_hhmm w = if ltb (length w.start_time) 5 then [] else take 5 w.start_time

-- Hours, in hundredths: `math.Round(float64(seconds)/36)`.
unfoldable pub hours_of : ℕ → ℕ
hours_of seconds = (seconds + 18) / 36

pub record Entry : Type 0 where
  pub id : Bytes
  pub issue_key : Bytes
  pub summary : Bytes
  pub parent_key : Bytes
  pub started : Bytes
  pub hours : ℕ
  pub comment : Bytes
  pub date : Date
  pub seconds : ℕ

unfoldable pub to_entry : Worklog → IssueRef → Result WorklogError Entry
unfolding parse_date worklog_id trim_space start_hhmm hours_of
to_entry w iss = elim (parse_date w.start_date) [
  | none ↦ err (unreadable_date w.start_date)
  | some d ↦ ok (record {
    id = worklog_id w;
    issue_key = iss.key;
    summary = iss.summary;
    parent_key = parent_key iss;
    started = trim_space (w.start_date ++ b' ' ∷ start_hhmm w);
    hours = hours_of w.time_spent_seconds;
    comment = w.description;
    date = d;
    seconds = w.time_spent_seconds;
  })
]

pub data Note : Type 0 where
  no_note : Note
  public_holiday : Date → Bytes → Note
  day_off : Date → ℕ → Note

unfoldable pub day_note : Date → Note
unfolding holiday_name is_working_day
day_note d = elim (holiday_name d) [
  | some name ↦ public_holiday d name
  | none ↦ if not (is_working_day d) then day_off d (weekday d) else no_note
]

unfoldable pub issue_id_number : IssueRef → Result WorklogError ℤ
unfolding parse_int
issue_id_number iss = elim (parse_int iss.id) [
  | none ↦ err (issue_number_shape iss.key)
  | some n ↦ ok n
]

abbrev pub default_start : Bytes
default_start = codes "09:00"

abbrev pub or_default : Bytes → Bytes → Bytes
or_default s default = if str_eq s [] then default else s

-- `worklogActivity`
pub record Activity : Type 0 where
  pub key : Bytes
  pub summary : Bytes
  pub issue_type : Bytes
  pub updated : ℕ

-- The key that a new worklog goes to: the one given, or that of the activity.
unfoldable pub target_key :
    Result WorklogError (Map Activity) → Bytes → Bytes → Result WorklogError Bytes
unfolding lookup
target_key acts key [] = if str_eq key [] then err key_or_activity else ok key
target_key acts key (c ∷ activity) =
    if not (str_eq key []) then err key_or_activity else elim acts [
      | err e ↦ err e
      | ok m ↦ elim (lookup (c ∷ activity) m) [
        | none ↦ err (unknown_activity (c ∷ activity))
        | some a ↦ ok a.key
      ]
    ]

abbrev pub given : Option ℕ → Result WorklogError ℕ
given none = err hours_missing
given (some secs) = ok secs

-- What the parameters of a new worklog say, before any request.
pub record Plan : Type 0 where
  pub key : Bytes
  pub seconds : ℕ
  pub date : Date
  pub start_time : Bytes

unfoldable pub plan_new :
    Result WorklogError (Map Activity) → Date → Workspace → Params → Result WorklogError Plan
unfolding target_key scoped_issue_key param_hours param_date tempo_start_time string_param
plan_new acts today ws params = do
  key ← target_key acts (string_param params (codes "key")) (string_param params (codes "activity"))
  scoped_issue_key ws key
  hours ← param_hours params
  secs ← given hours
  (d, _) ← param_date today params (codes "date")
  start ← tempo_start_time (or_default (string_param params (codes "start")) default_start)
  ok (record { key = key; seconds = secs; date = d; start_time = start })

unfoldable pub new_worklog : ℤ → User → Plan → Params → NewWorklog
unfolding string_param
new_worklog number me plan params = record {
  issue_number = number;
  author_account_id = me.account_id;
  start_date = plan.date;
  start_time = plan.start_time;
  time_spent_seconds = plan.seconds;
  description =
      let comment = string_param params (codes "comment") in
      if str_eq comment [] then none else some comment;
}

abbrev or_old : {A : Type 0} → Option A → A → A
or_old none old = old
or_old (some new) old = new

-- Whether an update names something to change.
unfoldable pub changes_something : Params → Option ℕ → Bool → Bool
unfolding string_param lookup
changes_something params hours date_set =
    is_some hours
    || date_set
    || not (str_eq (string_param params (codes "start")) [])
    || is_some (as_string (lookup (codes "comment") params))

-- The body of an update: what is not given stays, and fully billed time stays fully billed.
unfoldable pub changed_worklog : Worklog → Params → Option ℕ → Date → Bytes → ChangedWorklog
unfolding lookup
changed_worklog old params hours d start = record {
  author_account_id = old.author;
  start_date = d;
  start_time = start;
  time_spent_seconds = or_old hours old.time_spent_seconds;
  billable_seconds =
      if old.billable_seconds == old.time_spent_seconds
      then or_old hours old.time_spent_seconds
      else old.billable_seconds;
  description = or_old (as_string (lookup (codes "comment") params)) old.description;
  attributes = old.attributes;
}

-- What an update sends and what it says of the day, before any request changes a thing.
pub record Change : Type 0 where
  pub before : Entry
  pub date : Date
  pub body : ChangedWorklog

unfoldable pub plan_change : Date → Params → IssueRef → Worklog → Result WorklogError Change
unfolding changes_something tempo_start_time changed_worklog to_entry param_hours param_date
plan_change today params iss old = do
  before ← to_entry old iss
  hours ← param_hours params
  (given, date_set) ← param_date today params (codes "date")
  guard (changes_something params hours date_set) nothing_to_change
  time ←
      tempo_start_time (
        or_default (or_default (string_param params (codes "start")) (start_hhmm old))
          default_start)
  ok (
      let d = if date_set then given else before.date in
      record { before = before; date = d; body = changed_worklog old params hours d time })

author_of : Result WorklogError Change → Bytes
author_of (ok c) = c.body.author_account_id
author_of (err e) = []

-- An update keeps the author.
pub plan_change-author :
    (today : Date) (params : Params) (iss : IssueRef) (old : Worklog) (c : Change)
    → plan_change today params iss old ≡ ok c
    → c.body.author_account_id ≡ old.author
unfolding plan_change changed_worklog author_of
plan_change-author today params iss old c h =
    let (before, _, h1) = bind-eq-ok (to_entry old iss) _ h in
    let (hours, _, h2) = bind-eq-ok (param_hours params) _ h1 in
    let (day, _, h3) = bind-eq-ok (param_date today params (codes "date")) _ h2 in
    let (_, _, h4) =
      bind-eq-ok (guard (changes_something params hours day.1) nothing_to_change) _ h3 in
    let (time, _, h5) =
      bind-eq-ok
        (tempo_start_time (
          or_default (or_default (string_param params (codes "start")) (start_hhmm old))
            default_start))
        _ h4 in
    sym (ap author_of h5)
