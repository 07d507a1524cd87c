-- ===== src/Scheduler.antt =====
-- internal/scheduler/scheduler.go: the store of the jobs and the scheduler that runs them. Times
-- are numbers of a clock; the zero time is 0.
use external_gateway.Prelude.{
  ℕ, zero, Bool, true, false, not, ◌&&◌, ◌||◌, Bytes, List, [], ◌∷◌, ◌++◌, Option, none, some,
  codes, str_eq, Map, lookup, insert, erase, is_some, Result, ok, err, ltb, if◌then◌else◌, ◌==◌,
  ◌≡◌, refl,
}
use external_gateway.Value.{Params}
pub mod Lifecycle
pub mod Runs

pub record JobResult : Type 0 where
  pub success : Bool
  pub output : Bytes
  pub error : Bytes
  pub started_at : ℕ
  pub finished_at : ℕ

pub record Job : Type 0 where
  pub id : Bytes
  pub agent_id : Bytes
  pub workspace : Bytes
  pub type : Bytes
  pub params : Params
  pub scheduled_at : ℕ
  pub created_at : ℕ
  pub status : Bytes
  pub last_run : Option ℕ
  pub next_run : Option ℕ
  pub result : Option JobResult

-- `Store`: the jobs by their ids. A copy of a job is the job itself, since values are not shared.
abbrev pub Store : Type 0
Store = Map Job

pub data StoreError : Type 0 where
  job_not_found : Bytes → StoreError
  unauthorized : StoreError
  job_already : Bytes → StoreError

abbrev pub new_store : Store
new_store = []

-- The statuses of a job.
abbrev pub pending : Bytes
pending = codes "pending"

abbrev pub running : Bytes
running = codes "running"

abbrev pub completed : Bytes
completed = codes "completed"

abbrev pub failed : Bytes
failed = codes "failed"

abbrev pub cancelled : Bytes
cancelled = codes "cancelled"

-- The job that `Add` stores; `fresh` is a new UUID and `now` the time.
unfoldable pub prepared : Bytes → ℕ → Job → Job
unfolding str_eq
prepared fresh now job = record {
  id = if str_eq job.id [] then fresh else job.id;
  agent_id = job.agent_id;
  workspace = job.workspace;
  type = job.type;
  params = job.params;
  scheduled_at = job.scheduled_at;
  created_at = if job.created_at == 0 then now else job.created_at;
  status = pending;
  last_run = job.last_run;
  next_run = job.next_run;
  result = job.result;
}

-- The store, and the job as the caller sees it afterwards.
unfoldable pub add : Bytes → ℕ → Job → Store → Job × Store
unfolding prepared insert
add fresh now job s =
    (prepared fresh now job, insert (prepared fresh now job).id (prepared fresh now job) s)

unfoldable pub get : Bytes → Store → Option Job
unfolding lookup
get id s = lookup id s

unfoldable pub list_by_agent : Bytes → Store → List Job
unfolding str_eq
list_by_agent agent_id [] = []
list_by_agent agent_id ((id, job) ∷ s) =
    let rest = list_by_agent agent_id s in if str_eq job.agent_id agent_id then job ∷ rest else rest

unfoldable pub list_by_workspace : Bytes → Store → List Job
unfolding str_eq
list_by_workspace workspace [] = []
list_by_workspace workspace ((id, job) ∷ s) =
    let rest = list_by_workspace workspace s in
    if str_eq job.workspace workspace then job ∷ rest else rest

unfoldable pub update : Job → Store → Result StoreError Store
unfolding lookup insert
update job s = elim (lookup job.id s) [
  | none ↦ err (job_not_found job.id)
  | some old ↦ ok (insert job.id job s)
]

unfoldable pub with_status : Bytes → Job → Job
with_status status job = record {
  id = job.id;
  agent_id = job.agent_id;
  workspace = job.workspace;
  type = job.type;
  params = job.params;
  scheduled_at = job.scheduled_at;
  created_at = job.created_at;
  status = status;
  last_run = job.last_run;
  next_run = job.next_run;
  result = job.result;
}

unfoldable pub with_last_run : ℕ → Job → Job
with_last_run now job = record {
  id = job.id;
  agent_id = job.agent_id;
  workspace = job.workspace;
  type = job.type;
  params = job.params;
  scheduled_at = job.scheduled_at;
  created_at = job.created_at;
  status = job.status;
  last_run = some now;
  next_run = job.next_run;
  result = job.result;
}

unfoldable pub with_result : JobResult → Job → Job
with_result result job = record {
  id = job.id;
  agent_id = job.agent_id;
  workspace = job.workspace;
  type = job.type;
  params = job.params;
  scheduled_at = job.scheduled_at;
  created_at = job.created_at;
  status = job.status;
  last_run = job.last_run;
  next_run = job.next_run;
  result = some result;
}

-- The job as `claim` leaves it in the store.
unfoldable pub claimed : ℕ → Job → Job
unfolding with_status with_last_run
claimed now job = with_last_run now (with_status running job)

unfoldable pub claim : Bytes → ℕ → Store → Option Job × Store
unfolding lookup insert str_eq claimed
claim id now s = elim (lookup id s) [
  | none ↦ (none, s)
  | some job ↦
      if str_eq job.status pending
      then (some (claimed now job), insert id (claimed now job) s)
      else (none, s)
]

-- The job as `finish` leaves it in the store.
unfoldable pub finished : JobResult → Job → Job
unfolding with_status with_result str_eq
finished result job =
    if not (str_eq job.status running)
    then with_result result job
    else with_status (if result.success then completed else failed) (with_result result job)

unfoldable pub finish : Bytes → JobResult → Store → Store
unfolding lookup insert finished
finish id result s = elim (lookup id s) [ none ↦ s | some job ↦ insert id (finished result job) s ]

unfoldable pub delete : Bytes → Store → Result StoreError Store
unfolding lookup erase
delete id s = elim (lookup id s) [ none ↦ err (job_not_found id) | some job ↦ ok (erase id s) ]

unfoldable pub cancel : Bytes → Bytes → Store → Result StoreError Store
unfolding lookup insert str_eq
cancel id agent_id s = elim (lookup id s) [
  | none ↦ err (job_not_found id)
  | some job ↦
      if not (str_eq job.agent_id agent_id)
      then err unauthorized
      else if str_eq job.status completed || str_eq job.status failed
      then err (job_already job.status)
      else ok (insert id (with_status cancelled job) s)
]
