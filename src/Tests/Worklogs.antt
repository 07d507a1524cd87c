-- ===== src/Tests/Worklogs.antt =====
-- The worklog operations at a small Jira and Tempo.
use external_gateway.Prelude.{
  ◌+◌, ◌-◌, ◌*◌, ◌≢◌, false, [], ◌∷◌, none, some, codes, ok, All, length, ◌≡◌, refl, arith,
}
use external_gateway.Value.{Params, str, num}
use external_gateway.Workcal.{Date, date}
use external_gateway.Workcal.Counting.{working_in}
use external_gateway.Worklogs.{
  User, Worklog, IssueRef, Event, get_myself, get_issue, get_worklog, put_worklog, delete_worklog,
  post_worklog, Upstream, other_issue,
}
use external_gateway.Worklogs.Writes.{update_worklog, delete_worklog_of, add_worklog}
use external_gateway.Worklogs.Writes.Own.{WritesOwn, writes-WritesOwn}
use external_gateway.Worklogs.Pages.{page_of, tempo_worklogs, tempo_worklogs-all}
use external_gateway.Worklogs.Norm.{
  Norm, norm, IsBalanced, norm-IsBalanced, period_range, report_range,
}
use external_gateway.Worklogs.Norm.Periods.{Within, Covers, report_range-Covers}
use external_gateway.Worklogs.Activities.{Disk, set_activity, remove_activity}
use external_gateway.Tests.Fixtures.{acme}

abbrev ann : User
ann = record { account_id = codes "ann"; display_name = codes "Ann" }

abbrev task : IssueRef
task = record {
  id = codes "31";
  key = codes "ACME-4";
  summary = [];
  issue_type = codes "Task";
  parent = none;
}

abbrev an_hour : Worklog
an_hour = record {
  tempo_worklog_id = 7;
  issue = 31;
  author = codes "ann";
  start_date = codes "2026-11-26";
  start_time = codes "09:00:00";
  time_spent_seconds = 3600;
  billable_seconds = 3600;
  description = [];
  attributes = [];
}

abbrev atlassian : Upstream
atlassian = record {
  myself = λ log. ok ann;
  issue = λ key fields log. ok task;
  user = λ account log. ok ann;
  worklog = λ id log. ok an_hour;
  post = λ body log. ok an_hour;
  put = λ id body log. ok an_hour;
  delete = λ id log. ok tt;
}

-- Two hours for the worklog 7.
abbrev two_hours : Params
two_hours =
    (codes "key", str (codes "ACME-4"))
    ∷ (codes "worklog_id", str (codes "7"))
    ∷ (codes "hours", num (record { negative = false; mant = 2; scale = 0 }))
    ∷ []

abbrev today : Date
today = date 2026 11 26

log_sizes :
    (length (update_worklog atlassian today acme two_hours []).1 ≡ 4)
    × (length (delete_worklog_of atlassian acme two_hours []).1 ≡ 4)
    × (length (add_worklog atlassian (ok []) today acme two_hours []).1 ≡ 3)
unfolding update_worklog delete_worklog_of add_worklog external_gateway.Worklogs.Writes.refuse_other
log_sizes = (refl, refl, refl)

writes-WritesOwn_example :
    WritesOwn acme two_hours (update_worklog atlassian today acme two_hours []).1
    × WritesOwn acme two_hours (delete_worklog_of atlassian acme two_hours []).1
writes-WritesOwn_example = writes-WritesOwn atlassian today acme two_hours

linked : codes "next" ≢ []
linked h = ground arith

tempo_worklogs-all_example :
    tempo_worklogs 3 (λ offset. ok (page_of (codes "next") (an_hour ∷ an_hour ∷ []) offset))
    ≡ some (ok (an_hour ∷ an_hour ∷ []))
tempo_worklogs-all_example = tempo_worklogs-all (codes "next") linked (an_hour ∷ an_hour ∷ [])

-- Ten hours in the week of Monday, 23 November 2026.
norm-IsBalanced_example :
    (n : Norm) × (norm (date 2026 11 23) (date 2026 11 29) today 36000 ≡ some n)
    × (n.norm_hours ≡ 800 * working_in (date 2026 11 29 + 1 - date 2026 11 23) (date 2026 11 23))
    × IsBalanced n 36000
norm-IsBalanced_example = norm-IsBalanced (date 2026 11 23) (date 2026 11 29) today 36000

report_range-Covers_example :
    All
      (λ p.
        Within today (period_range p today)
        × Covers (report_range (codes "day") today) (period_range p today))
      (codes "day" ∷ codes "week" ∷ codes "month" ∷ [])
report_range-Covers_example = report_range-Covers (codes "day") today (unfold date in omega arith)

abbrev disk : Disk
disk = record { read_failure = none; write_failure = none }

-- A review goes to the task, and is taken out again.
abbrev review : Params
review = (codes "name", str (codes "review")) ∷ (codes "key", str (codes "ACME-4")) ∷ []

stored_activities :
    ((set_activity disk 5 atlassian acme review none).1
      ≡ some (
          (
            codes "review",
            record { key = codes "ACME-4"; summary = []; issue_type = codes "Task"; updated = 5 },
          )
          ∷ []))
    × ((remove_activity disk review (set_activity disk 5 atlassian acme review none).1).1 ≡ some [])
unfolding set_activity remove_activity
stored_activities = (refl, refl)
