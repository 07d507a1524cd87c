-- ===== src/Worklogs/Writes/Reads.antt =====
-- Runs of internal/server/jira_worklog.go that send reads only.
use external_gateway.Prelude.{
  Bool, true, false, not, Bytes, List, [], ◌∷◌, ◌++◌, str_eq, str_eq_iff, Result, ok, err, ◌≡◌, inl,
  inr, refl, subst, ap, arith, All, All-append, Some, Some-right, Bool-cases,
}
use external_gateway.Worklogs.{
  User, Worklog, Event, get_myself, get_issue, get_user, get_worklog, post_worklog, put_worklog,
  delete_worklog, Upstream, WorklogError, no_account,
}
use external_gateway.Worklogs.Writes.{Run, resume, require, answer, myself, user_name, refuse_other}

-- A request that changes nothing.
abbrev pub IsRead : Event → Type 0
IsRead (get_myself reply) = Unit {0}
IsRead (get_issue key fields reply) = Unit {0}
IsRead (get_user account reply) = Unit {0}
IsRead (get_worklog id reply) = Unit {0}
IsRead (post_worklog body reply) = ⊥
IsRead (put_worklog id body reply) = ⊥
IsRead (delete_worklog id reply) = ⊥

-- The event is in the log.
abbrev pub Has : Event → List Event → Type 0
Has e log = Some (λ x. x ≡ e) log

abbrev pub Outcome : Type 0 → Type 0
Outcome A = Result WorklogError A × List Event

-- A run after a step: it ends with the step's error, or goes on with its value.
pub resume-cases :
    {A B : Type 0} (G : Outcome B → Type 0) (r : Result WorklogError A) (f : A → Run B)
    (log : List Event)
    → ((e : WorklogError) → G (err e, log))
    → ((a : A) → r ≡ ok a → G (f a log))
    → G (resume r f log)
resume-cases G (ok a) f log failed went = went a refl
resume-cases G (err e) f log failed went = failed e

pub answer-eq-ok : {A : Type 0} (r : Result Bytes A) (a : A) → answer r ≡ ok a → r ≡ ok a
answer-eq-ok (ok b) a h = ground arith
answer-eq-ok (err m) a h = absurd (ground arith)

pub require-eq-ok : (b : Bool) (e : WorklogError) (u : Unit {0}) → require b e ≡ ok u → b ≡ true
require-eq-ok true e u h = refl
require-eq-ok false e u h = absurd (ground arith)

-- Only reads have been sent; and where there is a result, it is as asked.
abbrev pub Reads : {A : Type 0} → (A → List Event → Type 0) → Outcome A → Type 0
Reads {A} P r = All IsRead r.1 × ((a : A) → r.0 ≡ ok a → P a r.1)

pub snoc : (log : List Event) (e : Event) → All IsRead log → IsRead e → All IsRead (log ++ e ∷ [])
snoc log e h k = All-append IsRead log (e ∷ []) h (k, tt)

pub stopped :
    {A : Type 0} (P : A → List Event → Type 0) (e : WorklogError) (log : List Event)
    → All IsRead log
    → Reads P (err e, log)
stopped P e log h = (h, λ a k. absurd (ground arith))

pub next :
    {A B : Type 0} (P : B → List Event → Type 0) (r : Result WorklogError A) (f : A → Run B)
    (log : List Event)
    → All IsRead log
    → ((a : A) → r ≡ ok a → Reads P (f a log))
    → Reads P (resume r f log)
next P r f log h went = resume-cases (Reads P) r f log (λ e. stopped P e log h) went

pub done :
    {A : Type 0} (P : A → List Event → Type 0) (a : A) (log : List Event)
    → All IsRead log
    → P a log
    → Reads P (ok a, log)
done P a log h p = (h, λ b k. let same : a ≡ b = ground arith in subst (λ x. P x log) same p)

pub last-Has : (log : List Event) (e f : Event) → e ≡ f → Has f (log ++ e ∷ [])
last-Has log e f h = Some-right (λ x. x ≡ f) log (e ∷ []) (inl h)

-- What follows the last request asks nobody.
pub resume-same :
    {A B : Type 0} (r : Result WorklogError A) (f : A → Run B) (log : List Event)
    → ((a : A) → (f a log).1 ≡ log)
    → (resume r f log).1 ≡ log
resume-same (ok a) f log h = h a
resume-same (err e) f log h = refl

module _ (api : Upstream) where
  abbrev pub Knows : User → List Event → Type 0
  Knows me log = Has (get_myself (ok me)) log

  pub myself-Reads : (log : List Event) → All IsRead log → Reads Knows (myself api log)
  unfolding myself
  myself-Reads log h =
      let after = log ++ get_myself (api.myself log) ∷ [] in
      let reads = snoc log (get_myself (api.myself log)) h tt in
      next Knows (answer (api.myself log)) _ after reads (λ u e.
        next Knows (require (not (str_eq u.account_id [])) no_account) _ after reads (λ _ _.
          done Knows u after reads (
            last-Has log (get_myself (api.myself log)) (get_myself (ok u))
              (ap get_myself (answer-eq-ok (api.myself log) u e)))))

  pub refuse_other-Reads :
      (id : Bytes) (me : User) (w : Worklog) (log : List Event)
      → All IsRead log
      → Reads (λ _ l. (l ≡ log) × (w.author ≡ me.account_id)) (refuse_other api id me w log)
  unfolding refuse_other user_name
  refuse_other-Reads id me w log h = elim (Bool-cases (str_eq w.author me.account_id)) [
    | inl e ↦ rw (e) (h, λ _ _. (refl, (str_eq_iff w.author me.account_id).0 e))
    | inr e ↦
        rw (e)
          (snoc log (get_user w.author (api.user w.author log)) h tt, λ a k. absurd (ground arith))
  ]
