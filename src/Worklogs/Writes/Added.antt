-- ===== src/Worklogs/Writes/Added.antt =====
-- What `addWorklog` of internal/server/jira_worklog.go adds to Tempo.
use external_gateway.Prelude.{
  Bytes, List, [], ◌∷◌, ◌++◌, some, codes, Map, Result, ok, ◌≡◌, ◌⊎◌, All,
}
use external_gateway.Value.{Params}
use external_gateway.Config.{Workspace}
use external_gateway.Worklogs.{
  User, Worklog, IssueRef, NewWorklog, Event, get_myself, get_issue, post_worklog, WorklogError,
}
use external_gateway.Worklogs.Params.{scoped_issue_key, string_param, param_hours, parse_int}
use external_gateway.Worklogs.Entries.{Activity, Plan, target_key}
use external_gateway.Worklogs.Writes.{issue}
use external_gateway.Worklogs.Writes.Reads.{IsRead, Has}

-- Reads, and then one new worklog: of the caller, on the issue in scope, with the hours asked for.
pub record OwnPost (acts : Result WorklogError (Map Activity)) (ws : Workspace) (params : Params)
    (log : List Event) : Type 0 where
  pub reads : List Event
  pub me : User
  pub key : Bytes
  pub issue : IssueRef
  pub body : NewWorklog
  pub reply : Result Bytes Worklog
  pub split : log ≡ reads ++ post_worklog body reply ∷ []
  pub before : All IsRead reads
  pub chosen :
      target_key acts (string_param params (codes "key")) (string_param params (codes "activity"))
      ≡ ok key
  pub in_scope : scoped_issue_key ws key ≡ ok tt
  pub located : Has (get_issue key (codes "summary") (ok issue)) reads
  pub number : parse_int issue.id ≡ some body.issue_number
  pub asked : Has (get_myself (ok me)) reads
  pub own : body.author_account_id ≡ me.account_id
  pub time : param_hours params ≡ ok (some body.time_spent_seconds)

-- What a plan has checked.
record IsPlanned (acts : Result WorklogError (Map Activity)) (ws : Workspace) (params : Params)
    (plan : Plan) : Type 0 where
  chosen :
      target_key acts (string_param params (codes "key")) (string_param params (codes "activity"))
      ≡ ok plan.key
  in_scope : scoped_issue_key ws plan.key ≡ ok tt
  time : param_hours params ≡ ok (some plan.seconds)

abbrev planned : Plan → Result WorklogError Plan
planned plan = ok plan

abbrev pub Posts : Result WorklogError (Map Activity) → Workspace → Params → List Event → Type 0
Posts acts ws params log = All IsRead log ⊎ OwnPost acts ws params log
