-- ===== src/Worklogs/Activities.antt =====
-- The activity map of internal/server/jira_worklog.go. The file of a workspace is what it holds, a
-- map of the names to the issues, and reading or writing it may fail with a message. A call holds
-- the lock from its read to its write.
use external_gateway.Prelude.{
  ℕ, not, Bytes, [], Option, none, some, codes, Map, lookup, insert, erase, is_some, Result, ok,
  err, if◌then◌else◌,
}
use external_gateway.Value.{Params}
use external_gateway.Config.{Workspace}
use external_gateway.Worklogs.{IssueRef, Upstream, WorklogError, activity_map, unknown_activity}
use external_gateway.Worklogs.Params.{scoped_issue_key, string_param, param_activity}
use external_gateway.Worklogs.Entries.{Activity}
use external_gateway.Worklogs.Writes.{Run, local, issue, ◌>>=◌, ◌>>◌}

-- The file system: what a read or a write of the file fails with, if it fails.
pub record Disk : Type 0 where
  pub read_failure : Option Bytes
  pub write_failure : Option Bytes

-- What the file holds; `none` where there is no file.
abbrev pub Stored : Type 0
Stored = Option (Map Activity)

-- `loadWorklogActivities`
unfoldable pub load_activities : Disk → Stored → Result WorklogError (Map Activity)
load_activities disk none = ok []
load_activities disk (some acts) = elim disk.read_failure [
  | none ↦ ok acts
  | some message ↦ err (activity_map message)
]

-- `saveWorklogActivities`: the file is replaced whole, or stays.
unfoldable pub save_activities :
    Disk → Map Activity → Stored → Result WorklogError (Unit {0}) × Stored
save_activities disk acts stored = elim disk.write_failure [
  | none ↦ (ok tt, some acts)
  | some message ↦ (err (activity_map message), stored)
]

-- The end of a change of the map: it is saved and answered.
unfoldable pub save_and_answer :
    Disk → Map Activity → Stored → Result WorklogError (Map Activity) × Stored
unfolding save_activities
save_and_answer disk acts stored =
    let (saved, after) = save_activities disk acts stored in
    elim saved [ ok _ ↦ (ok acts, after) | err e ↦ (err e, after) ]

-- `setActivity` behind the lock, with the issue that Jira has shown and the time of the change.
unfoldable pub store_activity :
    Disk → ℕ → Bytes → IssueRef → Stored → Result WorklogError (Map Activity) × Stored
unfolding load_activities save_and_answer insert
store_activity disk now name iss stored = elim (load_activities disk stored) [
  | err e ↦ (err e, stored)
  | ok acts ↦
      save_and_answer disk
        (insert name
          (record {
            key = iss.key;
            summary = iss.summary;
            issue_type = iss.issue_type;
            updated = now;
          })
          acts)
        stored
]

-- `setActivity` up to the lock: the name and the issue behind the key.
unfoldable pub checked_activity : Upstream → Workspace → Params → Run (Bytes × IssueRef)
unfolding issue param_activity scoped_issue_key string_param
checked_activity api ws params = do
  name ← local (param_activity params)
  local (scoped_issue_key ws (string_param params (codes "key")))
  iss ← issue api (string_param params (codes "key")) (codes "summary,issuetype")
  local (ok (name, iss))

-- `setActivity`
unfoldable pub set_activity :
    Disk → ℕ → Upstream → Workspace → Params → Stored → Result WorklogError (Map Activity) × Stored
unfolding checked_activity store_activity
set_activity disk now api ws params stored = elim ((checked_activity api ws params []).0) [
  | err e ↦ (err e, stored)
  | ok (name, iss) ↦ store_activity disk now name iss stored
]

-- `removeActivity`
unfoldable pub remove_activity :
    Disk → Params → Stored → Result WorklogError (Map Activity) × Stored
unfolding load_activities save_and_answer erase lookup param_activity
remove_activity disk params stored = elim (param_activity params) [
  | err e ↦ (err e, stored)
  | ok name ↦ elim (load_activities disk stored) [
    | err e ↦ (err e, stored)
    | ok acts ↦
        if not (is_some (lookup name acts))
        then (err (unknown_activity name), stored)
        else save_and_answer disk (erase name acts) stored
  ]
]
