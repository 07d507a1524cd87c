-- ===== src/Scheduler/Lifecycle.antt =====
-- The life of a job in the store of internal/scheduler/scheduler.go.
pub mod Claims
use external_gateway.Prelude.{
  ℕ, ◌+◌, ◌≤◌, true, false, ◌&&◌, Bytes, List, [], ◌∷◌, Option, none, some, str_eq, str_eq_iff,
  str_eq_refl, lookup, insert, is_some, lookup-insert, lookup-erase, Result, ok, err, if◌then◌else◌,
  ◌≡◌, ◌≢◌, ◌⊎◌, inl, inr, refl, sym, subst, arith, Option-cases, Bool-cases,
}
use external_gateway.Scheduler.{
  Job, JobResult, Store, StoreError, pending, running, completed, failed, cancelled, with_status,
  with_last_run, with_result, claimed, claim, finished, finish, delete, cancel,
}

-- What happens to the store once its jobs are added, in the order in which the lock is taken.
pub data Event : Type 0 where
  claims : Bytes → ℕ → Event
  finishes : Bytes → JobResult → Event
  deletes : Bytes → Event
  cancels : Bytes → Bytes → Event

-- The store after a call that may have been refused.
abbrev pub kept : Store → Result StoreError Store → Store
kept s (ok t) = t
kept s (err e) = s

unfoldable pub after : Event → Store → Store
after (claims id now) s = (claim id now s).1
after (finishes id result) s = finish id result s
after (deletes id) s = kept s (delete id s)
after (cancels id agent_id) s = kept s (cancel id agent_id s)

unfoldable pub after_all : List Event → Store → Store
after_all [] s = s
after_all (e ∷ es) s = after_all es (after e s)

-- The moves of a status.
pub data Moves : Bytes → Bytes → Type 0 where
  stays : {s : Bytes} → Moves s s
  starts : Moves pending running
  completes : Moves running completed
  fails : Moves running failed
  stops : {s : Bytes} → s ≢ completed → s ≢ failed → Moves s cancelled

-- A job that is there moves by `Moves` or is gone.
abbrev pub Follows : Option Job → Option Job → Type 0
Follows none none = Unit
Follows none (some new) = ⊥
Follows (some old) none = Unit
Follows (some old) (some new) = Moves old.status new.status

Follows-refl : (o : Option Job) → Follows o o
Follows-refl none = tt
Follows-refl (some job) = stays

str_eq_ne : (s t : Bytes) → s ≢ t → str_eq s t ≡ false
str_eq_ne s t n = ground (arith, str_eq_iff s t)

str_eq_same : (s t : Bytes) → s ≡ t → str_eq s t ≡ true
str_eq_same s t e = ground (arith, str_eq_iff s t)

Bytes-cases : (s t : Bytes) → (s ≡ t) ⊎ (s ≢ t)
Bytes-cases s t = ground (arith, str_eq_iff s t, Bool-cases (str_eq s t))

insert-Follows :
    (k id : Bytes) (old new : Job) (s : Store)
    → lookup k s ≡ some old
    → Moves old.status new.status
    → Follows (lookup id s) (lookup id (insert k new s))
insert-Follows k id old new s h m = elim (Bytes-cases k id) [
  | inl e ↦ rw (lookup-insert k id new s, sym e, str_eq_refl k, h) m
  | inr n ↦ rw (lookup-insert k id new s, str_eq_ne k id n) (Follows-refl (lookup id s))
]

claim-Follows :
    (j id : Bytes) (now : ℕ) (s : Store) → Follows (lookup id s) (lookup id (claim j now s).1)
unfolding claim
claim-Follows j id now s = elim (Option-cases (lookup j s)) [
  | inl e ↦ rw (e, claim) (Follows-refl (lookup id s))
  | inr (job, e) ↦ elim (Bytes-cases job.status pending) [
    | inl p ↦
        rw (e, claim, p)
          (insert-Follows j id job (claimed now job) s e
            (unfold claimed with_status with_last_run in rw (p) starts))
    | inr n ↦ rw (e, claim, str_eq_ne job.status pending n) (Follows-refl (lookup id s))
  ]
]

finished-Moves : (result : JobResult) (job : Job) → Moves job.status (finished result job).status
unfolding finished with_status with_result
finished-Moves result job = elim (Bytes-cases job.status running) [
  | inl p ↦ elim (Bool-cases result.success) [
    | inl t ↦ rw (p, t) completes
    | inr f ↦ rw (p, f) fails
  ]
  | inr n ↦ rw (str_eq_ne job.status running n) stays
]

finish-Follows :
    (j id : Bytes) (result : JobResult) (s : Store)
    → Follows (lookup id s) (lookup id (finish j result s))
unfolding finish
finish-Follows j id result s = elim (Option-cases (lookup j s)) [
  | inl e ↦ rw (e, finish) (Follows-refl (lookup id s))
  | inr (job, e) ↦
      rw (e, finish) (insert-Follows j id job (finished result job) s e (finished-Moves result job))
]

gone-Follows : (o : Option Job) → Follows o none
gone-Follows none = tt
gone-Follows (some job) = tt

delete-Follows :
    (j id : Bytes) (s : Store) → Follows (lookup id s) (lookup id (kept s (delete j s)))
unfolding delete
delete-Follows j id s = elim (Option-cases (lookup j s)) [
  | inl e ↦ rw (e, delete) (Follows-refl (lookup id s))
  | inr (job, e) ↦ elim (Bytes-cases j id) [
    | inl p ↦ rw (e, delete, lookup-erase j id s, sym p, str_eq_refl j) (gone-Follows (lookup j s))
    | inr n ↦ rw (e, delete, lookup-erase j id s, str_eq_ne j id n) (Follows-refl (lookup id s))
  ]
]

cancel-Follows :
    (j agent_id id : Bytes) (s : Store)
    → Follows (lookup id s) (lookup id (kept s (cancel j agent_id s)))
unfolding cancel
cancel-Follows j agent_id id s = elim (Option-cases (lookup j s)) [
  | inl e ↦ rw (e, cancel) (Follows-refl (lookup id s))
  | inr (job, e) ↦ elim (Bytes-cases job.agent_id agent_id) [
    | inr n ↦ rw (e, cancel, str_eq_ne job.agent_id agent_id n) (Follows-refl (lookup id s))
    | inl p ↦ elim (Bytes-cases job.status completed) [
      | inl c ↦ rw (e, cancel, str_eq_same job.agent_id agent_id p, c) (Follows-refl (lookup id s))
      | inr c ↦ elim (Bytes-cases job.status failed) [
        | inl f ↦
            rw (e, cancel, str_eq_same job.agent_id agent_id p, f) (Follows-refl (lookup id s))
        | inr f ↦
            rw
              (
                e,
                cancel,
                str_eq_same job.agent_id agent_id p,
                str_eq_ne job.status completed c,
                str_eq_ne job.status failed f,
              )
              (insert-Follows j id job (with_status cancelled job) s e
                (unfold with_status in stops c f))
      ]
    ]
  ]
]

-- After a claim, the end of a run, a deletion or a cancellation, granted or refused, each job that
-- was in the store is gone or its status has stayed or moved from pending to running, from running
-- to completed or failed, or from anything but these last two to cancelled; no job comes in.
pub after-Follows :
    (e : Event) (id : Bytes) (s : Store) → Follows (lookup id s) (lookup id (after e s))
unfolding after
after-Follows (claims j now) id s = claim-Follows j id now s
after-Follows (finishes j result) id s = finish-Follows j id result s
after-Follows (deletes j) id s = delete-Follows j id s
after-Follows (cancels j agent_id) id s = cancel-Follows j agent_id id s
