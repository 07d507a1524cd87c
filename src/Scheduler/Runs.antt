-- ===== src/Scheduler/Runs.antt =====
-- `processJobs`, `executeJob`, `Start` and `Stop` of internal/scheduler/scheduler.go.
use external_gateway.Prelude.{
  ℕ, zero, suc, ◌+◌, Bool, true, false, not, ◌&&◌, ◌||◌, Bytes, List, [], ◌∷◌, ◌++◌, Option, none,
  some, codes, str_eq, Map, lookup, Result, ok, err, ltb, if◌then◌else◌, ◌==◌, ◌≡◌, refl,
}
use external_gateway.Scheduler.{
  Job, JobResult, Store, StoreError, pending, running, claim, finish, with_result, claimed,
  finished,
}
pub mod Pass

-- What `time.Now()` reads in one pass: where the job of an id is looked at, where its run starts
-- and where it ends.
pub record Readings : Type 0 where
  pub looked : Bytes → ℕ
  pub started : Bytes → ℕ
  pub ended : Bytes → ℕ

-- The first loop of `processJobs`.
unfoldable pub due : Readings → Store → List Bytes
unfolding str_eq
due clock [] = []
due clock ((id, job) ∷ s) =
    let rest = due clock s in
    if str_eq job.status pending && ltb job.scheduled_at (clock.looked id) then id ∷ rest else rest

-- The wrap-up is not connected yet: it always fails. The three numbers are a dash in UTF-8.
abbrev pub execute_clockify_wrapup : Job → Option Bytes
execute_clockify_wrapup job = some (
    codes "clockify scheduler not yet connected to gateway "
    ++ (226
        ∷ 128
        ∷ 148
        ∷ codes " requires POST /admin/jobs endpoint and connector wiring; see roadmap M5"))

-- The result of a job's run, by its type.
unfoldable pub run_job : ℕ → ℕ → Job → JobResult
unfolding str_eq
run_job start finish job =
    if str_eq job.type (codes "clockify.wrapup")
    then elim (execute_clockify_wrapup job) [
      | none ↦ record {
        success = true;
        output = [];
        error = [];
        started_at = start;
        finished_at = finish;
      }
      | some message ↦ record {
        success = false;
        output = [];
        error = message;
        started_at = start;
        finished_at = finish;
      }
    ]
    else record {
      success = false;
      output = [];
      error = codes "unknown job type: " ++ job.type;
      started_at = start;
      finished_at = finish;
    }

-- After a claim: the run and its end.
unfoldable pub run_claimed : Readings → Bytes → Option Job × Store → Store
unfolding run_job finish
run_claimed clock id (none, s) = s
run_claimed clock id (some job, s) = finish id (run_job (clock.started id) (clock.ended id) job) s

unfoldable pub execute_job : Readings → Bytes → Store → Store
unfolding run_claimed claim
execute_job clock id s = run_claimed clock id (claim id (clock.started id) s)

unfoldable pub execute_each : Readings → List Bytes → Store → Store
unfolding execute_job
execute_each clock [] s = s
execute_each clock (id ∷ ids) s = execute_each clock ids (execute_job clock id s)

unfoldable pub process_jobs : Readings → Store → Store
unfolding due execute_each
process_jobs clock s = execute_each clock (due clock s) s

-- `Scheduler`: `stop_ch` is the number of the channel made last, `closed` the channels that are
-- closed, and `loops` counts the goroutines in `run`.
pub record Scheduler : Type 0 where
  pub running : Bool
  pub stop_ch : ℕ
  pub closed : List ℕ
  pub loops : ℕ

abbrev pub new_scheduler : Scheduler
new_scheduler = record { running = false; stop_ch = 0; closed = []; loops = 0 }

-- `none` is the error of a scheduler that is running already.
unfoldable pub start : Scheduler → Option Scheduler
start s =
    if s.running
    then none
    else some
        (record { running = true; stop_ch = s.stop_ch + 1; closed = s.closed; loops = s.loops + 1 })

unfoldable pub stop : Scheduler → Scheduler
stop s =
    if s.running
    then record {
      running = false;
      stop_ch = s.stop_ch;
      closed = s.stop_ch ∷ s.closed;
      loops = s.loops;
    }
    else s
