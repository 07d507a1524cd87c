-- ===== src/Scheduler/Lifecycle/Claims.antt =====
-- How often a job of internal/scheduler/scheduler.go is claimed.
use external_gateway.Prelude.{
  ℕ, ◌+◌, ◌≤◌, false, ◌&&◌, Bytes, List, [], ◌∷◌, Option, none, some, str_eq, str_eq_refl, lookup,
  is_some, lookup-insert, if◌then◌else◌, ◌≡◌, ◌≢◌, inl, inr, refl, sym, subst, arith, Option-cases,
}
use external_gateway.Scheduler.{Job, Store, pending, with_status, with_last_run, claimed, claim}
use external_gateway.Scheduler.Lifecycle.{
  Event, claims, finishes, deletes, cancels, after, Moves, stays, starts, completes, fails, stops,
  Follows, after-Follows, str_eq_ne, Bytes-cases,
}

-- The claims of a job that succeed in a run.
unfoldable pub claim_count : Bytes → List Event → Store → ℕ
claim_count id [] s = 0
claim_count id (claims j now ∷ es) s =
    let rest = claim_count id es (after (claims j now) s) in
    if str_eq j id && is_some (claim j now s).0 then rest + 1 else rest
claim_count id (finishes j r ∷ es) s = claim_count id es (after (finishes j r) s)
claim_count id (deletes j ∷ es) s = claim_count id es (after (deletes j) s)
claim_count id (cancels j a ∷ es) s = claim_count id es (after (cancels j a) s)

-- No pending job of this id.
abbrev IsSettled : Option Job → Type 0
IsSettled none = Unit
IsSettled (some job) = job.status ≢ pending

move-not-pending : {s t : Bytes} → Moves s t → s ≢ pending → t ≢ pending
move-not-pending stays n = n
move-not-pending starts n = λ e. absurd (n refl)
move-not-pending completes n = λ e. ground arith
move-not-pending fails n = λ e. ground arith
move-not-pending (stops c f) n = λ e. ground arith

Follows-IsSettled : (o p : Option Job) → Follows o p → IsSettled o → IsSettled p
Follows-IsSettled none none f h = tt
Follows-IsSettled none (some new) f h = absurd f
Follows-IsSettled (some old) none f h = tt
Follows-IsSettled (some old) (some new) f h = move-not-pending f h

after-IsSettled :
    (e : Event) (id : Bytes) (s : Store)
    → IsSettled (lookup id s)
    → IsSettled (lookup id (after e s))
after-IsSettled e id s =
    Follows-IsSettled (lookup id s) (lookup id (after e s)) (after-Follows e id s)

claim-settled :
    (id : Bytes) (now : ℕ) (s : Store)
    → IsSettled (lookup id s)
    → is_some (claim id now s).0 ≡ false
unfolding claim
claim-settled id now s h = elim (Option-cases (lookup id s)) [
  | inl e ↦ rw (e, claim) refl
  | inr (job, e) ↦ rw (e, claim, str_eq_ne job.status pending (subst IsSettled e h)) refl
]

claim-settles : (id : Bytes) (now : ℕ) (s : Store) → IsSettled (lookup id (claim id now s).1)
unfolding claim
claim-settles id now s = elim (Option-cases (lookup id s)) [
  | inl e ↦ rw (e, claim, e) tt
  | inr (job, e) ↦ elim (Bytes-cases job.status pending) [
    | inl p ↦
        rw (e, claim, p, lookup-insert id id (claimed now job) s, str_eq_refl id)
          (unfold claimed with_status with_last_run in λ q. ground arith)
    | inr n ↦ rw (e, claim, str_eq_ne job.status pending n, e) n
  ]
]

settled-count :
    (id : Bytes) (es : List Event) (s : Store) → IsSettled (lookup id s) → claim_count id es s ≡ 0
unfolding claim_count
settled-count id [] s h = refl
settled-count id (claims j now ∷ es) s h = elim (Bytes-cases j id) [
  | inl e ↦ ground (
    arith,
    claim-settled j now s (subst (λ k. IsSettled (lookup k s)) (sym e) h),
    settled-count id es (after (claims j now) s) (after-IsSettled (claims j now) id s h),
  )
  | inr n ↦
      rw (str_eq_ne j id n)
        (settled-count id es (after (claims j now) s) (after-IsSettled (claims j now) id s h))
]
settled-count id (finishes j r ∷ es) s h =
    settled-count id es (after (finishes j r) s) (after-IsSettled (finishes j r) id s h)
settled-count id (deletes j ∷ es) s h =
    settled-count id es (after (deletes j) s) (after-IsSettled (deletes j) id s h)
settled-count id (cancels j a ∷ es) s h =
    settled-count id es (after (cancels j a) s) (after-IsSettled (cancels j a) id s h)

-- However claims, ends of runs, deletions and cancellations follow each other, at most one claim
-- of a job succeeds.
pub claim_count_once : (id : Bytes) (es : List Event) (s : Store) → claim_count id es s ≤ 1
unfolding claim_count
claim_count_once id [] s = omega arith
claim_count_once id (claims j now ∷ es) s = elim (Bytes-cases j id) [
  | inl e ↦ ground (
    arith,
    settled-count id es (after (claims j now) s) (
        subst (λ k. IsSettled (lookup k (after (claims j now) s))) e
          (unfold after in claim-settles j now s)),
  )
  | inr n ↦ rw (str_eq_ne j id n) (claim_count_once id es (after (claims j now) s))
]
claim_count_once id (finishes j r ∷ es) s = claim_count_once id es (after (finishes j r) s)
claim_count_once id (deletes j ∷ es) s = claim_count_once id es (after (deletes j) s)
claim_count_once id (cancels j a ∷ es) s = claim_count_once id es (after (cancels j a) s)
