-- ===== src/Scheduler/Runs/Pass.antt =====
-- One pass of `processJobs` of internal/scheduler/scheduler.go.
use external_gateway.Prelude.{
  ℕ, Bool, true, false, ◌&&◌, Bytes, List, [], ◌∷◌, Option, none, some, str_eq, lookup, insert,
  str_eq_iff, str_eq_refl, lookup-insert, contains_string, ltb, if◌then◌else◌, ◌≡◌, inl, inr, refl,
  sym, subst, arith, Option-cases, Bool-cases,
}
use external_gateway.Scheduler.{
  Job, JobResult, Store, pending, claim, finish, with_result, with_status, with_last_run, claimed,
  finished,
}
use external_gateway.Scheduler.Runs.{
  Readings, due, run_job, run_claimed, execute_job, execute_each, process_jobs,
}

-- No id is bound twice, as in a Go map.
abbrev pub HasUniqueKeys : Store → Type 0
HasUniqueKeys [] = Unit
HasUniqueKeys ((id, job) ∷ s) = (lookup id s ≡ none) × HasUniqueKeys s

-- Pending, and scheduled before the moment at which the pass looks at it.
abbrev pub is_due : Readings → Bytes → Job → Bool
is_due clock id job = str_eq job.status pending && ltb job.scheduled_at (clock.looked id)

-- The job after its claim and its run.
abbrev pub ran : Readings → Bytes → Job → Job
ran clock id job =
    finished (run_job (clock.started id) (clock.ended id) (claimed (clock.started id) job))
      (claimed (clock.started id) job)

-- The job after a run that is tried.
abbrev tried : Readings → Bytes → Option Job → Option Job
tried clock id none = none
tried clock id (some job) = if str_eq job.status pending then some (ran clock id job) else some job

-- The job after the pass.
abbrev pub processed : Readings → Bytes → Option Job → Option Job
processed clock id none = none
processed clock id (some job) = if is_due clock id job then some (ran clock id job) else some job

str_eq_elim : (s t : Bytes) → str_eq s t ≡ true → s ≡ t
str_eq_elim s t e = ground (arith, str_eq_iff s t)

claim-none : (id : Bytes) (now : ℕ) (s : Store) → lookup id s ≡ none → claim id now s ≡ (none, s)
unfolding claim
claim-none id now s e = rw (e, claim) refl

claim-kept :
    (id : Bytes) (now : ℕ) (s : Store) (job : Job)
    → lookup id s ≡ some job
    → str_eq job.status pending ≡ false
    → claim id now s ≡ (none, s)
unfolding claim
claim-kept id now s job e n = rw (e, claim, n) refl

claim-runs :
    (id : Bytes) (now : ℕ) (s : Store) (job : Job)
    → lookup id s ≡ some job
    → str_eq job.status pending ≡ true
    → claim id now s ≡ (some (claimed now job), insert id (claimed now job) s)
unfolding claim
claim-runs id now s job e p = rw (e, claim, p) refl

finish-lem :
    (id : Bytes) (result : JobResult) (s : Store) (job : Job)
    → lookup id s ≡ some job
    → finish id result s ≡ insert id (finished result job) s
unfolding finish
finish-lem id result s job e = rw (e, finish) refl

lookup-twice :
    (j id : Bytes) (a b : Job) (s : Store)
    → lookup id (insert j b (insert j a s)) ≡ (if str_eq j id then some b else lookup id s)
lookup-twice j id a b s = elim (Bool-cases (str_eq j id)) [
  | inl q ↦ rw (lookup-insert j id b (insert j a s), q) refl
  | inr q ↦ rw (lookup-insert j id b (insert j a s), q, lookup-insert j id a s, q) refl
]

execute-runs :
    (clock : Readings) (j : Bytes) (s : Store) (job : Job)
    → lookup j s ≡ some job
    → str_eq job.status pending ≡ true
    → execute_job clock j s
      ≡ insert j (ran clock j job) (insert j (claimed (clock.started j) job) s)
unfolding execute_job run_claimed
execute-runs clock j s job e p = rw (claim-runs j (clock.started j) s job e p) (
    finish-lem j (run_job (clock.started j) (clock.ended j) (claimed (clock.started j) job))
      (insert j (claimed (clock.started j) job) s) (claimed (clock.started j) job)
      (rw (lookup-insert j j (claimed (clock.started j) job) s, str_eq_refl j) refl))

execute_job-lookup :
    (clock : Readings) (j id : Bytes) (s : Store)
    → lookup id (execute_job clock j s)
      ≡ (if str_eq j id then tried clock id (lookup id s) else lookup id s)
unfolding execute_job run_claimed
execute_job-lookup clock j id s = elim (Option-cases (lookup j s)) [
  | inl e ↦ elim (Bool-cases (str_eq j id)) [
    | inl q ↦ rw (claim-none j (clock.started j) s e, q, sym (str_eq_elim j id q), e) refl
    | inr q ↦ rw (claim-none j (clock.started j) s e, q) refl
  ]
  | inr (job, e) ↦ elim (Bool-cases (str_eq job.status pending)) [
    | inl p ↦ elim (Bool-cases (str_eq j id)) [
      | inl q ↦
          rw
            (
              execute-runs clock j s job e p,
              lookup-twice j id (claimed (clock.started j) job) (ran clock j job) s,
              q,
            )
            (rw (sym (str_eq_elim j id q), e, p) refl)
      | inr q ↦
          rw
            (
              execute-runs clock j s job e p,
              lookup-twice j id (claimed (clock.started j) job) (ran clock j job) s,
              q,
            )
            refl
    ]
    | inr n ↦ elim (Bool-cases (str_eq j id)) [
      | inl q ↦
          rw (claim-kept j (clock.started j) s job e n, q)
            (rw (sym (str_eq_elim j id q), e, n) refl)
      | inr q ↦ rw (claim-kept j (clock.started j) s job e n, q) refl
    ]
  ]
]

ran-settled :
    (clock : Readings) (id : Bytes) (job : Job) → str_eq (ran clock id job).status pending ≡ false
unfolding finished claimed with_status with_last_run with_result
ran-settled clock id job =
    elim (Bool-cases
      (run_job (clock.started id) (clock.ended id) (claimed (clock.started id) job)).success) [
        | inl e ↦ rw (e) refl
        | inr e ↦ rw (e) refl
      ]

tried-twice :
    (clock : Readings) (id : Bytes) (o : Option Job)
    → tried clock id (tried clock id o) ≡ tried clock id o
tried-twice clock id none = refl
tried-twice clock id (some job) = elim (Bool-cases (str_eq job.status pending)) [
  | inl e ↦ rw (e, ran-settled clock id job) refl
  | inr e ↦ rw (e, e) refl
]

execute_each-lookup :
    (clock : Readings) (ids : List Bytes) (id : Bytes) (s : Store)
    → lookup id (execute_each clock ids s)
      ≡ (if contains_string ids id then tried clock id (lookup id s) else lookup id s)
unfolding execute_each contains_string
execute_each-lookup clock [] id s = refl
execute_each-lookup clock (j ∷ ids) id s = elim (Bool-cases (str_eq j id)) [
  | inl e ↦ elim (Bool-cases (contains_string ids id)) [
    | inl h ↦
        rw
          (
            execute_each-lookup clock ids id (execute_job clock j s),
            execute_job-lookup clock j id s,
            e,
            h,
          )
          (tried-twice clock id (lookup id s))
    | inr h ↦
        rw
          (
            execute_each-lookup clock ids id (execute_job clock j s),
            execute_job-lookup clock j id s,
            e,
            h,
          )
          refl
  ]
  | inr e ↦
      rw
        (
          execute_each-lookup clock ids id (execute_job clock j s),
          execute_job-lookup clock j id s,
          e,
        )
        refl
]

-- Whether the job that is found is due.
abbrev found_due : Readings → Bytes → Option Job → Bool
found_due clock id none = false
found_due clock id (some job) = is_due clock id job

due-lookup :
    (clock : Readings) (id : Bytes) (s : Store)
    → HasUniqueKeys s
    → contains_string (due clock s) id ≡ found_due clock id (lookup id s)
unfolding due contains_string lookup
due-lookup clock id [] u = refl
due-lookup clock id ((j, job) ∷ s) (n, u) = elim (Bool-cases (str_eq j id)) [
  | inl e ↦ elim (Bool-cases (is_due clock j job)) [
    | inl d ↦ rw (e, d, e) (subst (λ k. true ≡ is_due clock k job) (str_eq_elim j id e) (sym d))
    | inr d ↦ rw (d, e, due-lookup clock id s u, sym (str_eq_elim j id e), n) (sym d)
  ]
  | inr e ↦ elim (Bool-cases (is_due clock j job)) [
    | inl d ↦ rw (e, d, e) (due-lookup clock id s u)
    | inr d ↦ rw (e, d) (due-lookup clock id s u)
  ]
]

processed-tried :
    (clock : Readings) (id : Bytes) (o : Option Job)
    → (if found_due clock id o then tried clock id o else o) ≡ processed clock id o
processed-tried clock id none = refl
processed-tried clock id (some job) = elim (Bool-cases (str_eq job.status pending)) [
  | inl e ↦ rw (e) refl
  | inr e ↦ rw (e) refl
]

-- In a store that binds no id twice, a pass claims, runs and finishes each job that is pending and
-- due, once and at the times of its own readings, and leaves every other job as it is.
pub process_jobs-lookup :
    (clock : Readings) (id : Bytes) (s : Store)
    → HasUniqueKeys s
    → lookup id (process_jobs clock s) ≡ processed clock id (lookup id s)
unfolding process_jobs
process_jobs-lookup clock id s u =
    rw (execute_each-lookup clock (due clock s) id s, due-lookup clock id s u)
      (processed-tried clock id (lookup id s))
