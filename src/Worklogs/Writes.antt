-- ===== src/Worklogs/Writes.antt =====
-- The writes of internal/server/jira_worklog.go. A run takes the events up to it and gives the
-- events after it, with its result.
use external_gateway.Prelude.{
  ℕ, ℤ, ◌+◌, ◌-◌, ◌*◌, ◌/◌, Bool, true, false, not, ◌&&◌, ◌||◌, Bytes, List, [], ◌∷◌, ◌++◌, Option,
  none, some, codes, str_eq, Map, lookup, is_some, Result, ok, err, ltb, leb, ◌==◌, if◌then◌else◌,
  length, take, trim_space,
}
use external_gateway.Value.{Params, as_string}
use external_gateway.Config.{Workspace}
use external_gateway.Workcal.{Date, weekday, holiday_name, is_working_day}
use external_gateway.Worklogs.{
  User, Worklog, IssueRef, parent_key, worklog_id, issue_id, NewWorklog, ChangedWorklog, Event,
  get_myself, get_issue, get_user, get_worklog, post_worklog, put_worklog, delete_worklog, Upstream,
  WorklogError, upstream, no_account, key_or_activity, unknown_activity, hours_missing,
  issue_number_shape, worklog_id_shape, other_issue, not_own, unreadable_date, nothing_to_change,
}
use external_gateway.Worklogs.Entries.{
  Entry, to_entry, Note, day_note, issue_id_number, or_default, Activity, plan_new, new_worklog,
  plan_change, Change,
}
use external_gateway.Worklogs.Params.{
  scoped_issue_key, is_number, string_param, param_hours, param_date, tempo_start_time, parse_date,
  parse_int,
}
pub mod Reads
pub mod Own
pub mod Added

abbrev pub Run : Type 0 → Type 0
Run A = List Event → Result WorklogError A × List Event

abbrev pub resume : {A B : Type 0} → Result WorklogError A → (A → Run B) → Run B
resume (ok a) f log = f a log
resume (err e) f log = (err e, log)

infixl 5 ◌>>=◌ ◌>>◌
abbrev pub ◌>>=◌ : {A B : Type 0} → Run A → (A → Run B) → Run B
(m >>= f) log = resume (m log).0 f (m log).1

abbrev pub ◌>>◌ : {A B : Type 0} → Run A → Run B → Run B
m >> k = m >>= λ _. k

-- A step that asks nobody.
abbrev pub local : {A : Type 0} → Result WorklogError A → Run A
local r log = (r, log)

abbrev pub require : Bool → WorklogError → Result WorklogError (Unit {0})
require true e = ok tt
require false e = err e

-- The error of `do`, with the upstream's message.
abbrev pub answer : {A : Type 0} → Result Bytes A → Result WorklogError A
answer (ok a) = ok a
answer (err message) = err (upstream message)

-- `do`: a request, with its reply written to the log.
abbrev pub call : {A : Type 0} → (List Event → Result Bytes A) → (Result Bytes A → Event) → Run A
call reply event log = (answer (reply log), log ++ event (reply log) ∷ [])

pub record AddReply : Type 0 where
  pub worklog : Entry
  pub activity : Bytes
  pub note : Note

pub record UpdateReply : Type 0 where
  pub before : Entry
  pub worklog : Entry
  pub note : Note

module _ (api : Upstream) where
  unfoldable pub myself : Run User
  myself = do
    u ← call api.myself get_myself
    local (require (not (str_eq u.account_id [])) no_account)
    local (ok u)

  unfoldable pub issue : Bytes → Bytes → Run IssueRef
  issue key fields = call (api.issue key fields) (get_issue key fields)

  abbrev shown_name : Bytes → Result Bytes User → Bytes
  shown_name account (err message) = account
  shown_name account (ok u) = or_default u.display_name account

  unfoldable pub user_name : Bytes → Run Bytes
  user_name account log = (
    ok (shown_name account (api.user account log)),
    log ++ get_user account (api.user account log) ∷ [],
  )

  -- `addWorklog`, with what `readWorklogActivities` answers.
  unfoldable pub add_worklog :
      Result WorklogError (Map Activity) → Date → Workspace → Params → Run AddReply
  unfolding issue myself plan_new issue_id_number new_worklog to_entry day_note
  add_worklog acts today ws params = do
    plan ← local (plan_new acts today ws params)
    iss ← issue plan.key (codes "summary")
    number ← local (issue_id_number iss)
    me ← myself
    created ←
        call (api.post (new_worklog number me plan params))
          (post_worklog (new_worklog number me plan params))
    e ← local (
        to_entry created
          (record { id = []; key = iss.key; summary = []; issue_type = []; parent = none }))
    local (
        ok (record {
          worklog = e;
          activity = string_param params (codes "activity");
          note = day_note plan.date;
        }))

  -- A worklog of another author is refused, by the author's name.
  unfoldable pub refuse_other : Bytes → User → Worklog → Run (Unit {0})
  unfolding user_name
  refuse_other id me w =
      if str_eq w.author me.account_id
      then local (ok tt)
      else (user_name w.author >>= λ name. local (err (not_own id name)))

  -- `ownWorklog`
  unfoldable pub own_worklog : Workspace → Params → Run (IssueRef × Worklog)
  unfolding myself issue user_name scoped_issue_key is_number string_param issue_id
  own_worklog ws params =
      let key = string_param params (codes "key") in
      let id = string_param params (codes "worklog_id") in
      do
        local (scoped_issue_key ws key)
        local (require (is_number id) worklog_id_shape)
        me ← myself
        w ← call (api.worklog id) (get_worklog id)
        iss ← issue key (codes "summary")
        local (require (str_eq iss.id (issue_id w)) (other_issue id key))
        refuse_other id me w
        local (ok (iss, w))

  unfoldable pub update_worklog : Date → Workspace → Params → Run UpdateReply
  unfolding own_worklog plan_change to_entry day_note
  update_worklog today ws params = do
    (iss, old) ← own_worklog ws params
    change ← local (plan_change today params iss old)
    updated ← call (api.put (worklog_id old) change.body) (put_worklog (worklog_id old) change.body)
    after ← local (to_entry updated iss)
    local (ok (record { before = change.before; worklog = after; note = day_note change.date }))

  unfoldable pub delete_worklog_of : Workspace → Params → Run Entry
  unfolding own_worklog to_entry
  delete_worklog_of ws params = do
    (iss, old) ← own_worklog ws params
    e ← local (to_entry old iss)
    call (api.delete (worklog_id old)) (delete_worklog (worklog_id old))
    local (ok e)
