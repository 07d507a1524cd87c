-- ===== src/Worklogs/Writes/Own.antt =====
-- What the writes of internal/server/jira_worklog.go change in Tempo.
use external_gateway.Prelude.{
  Bytes, List, [], ◌∷◌, ◌++◌, codes, str_eq, str_eq_iff, Result, ok, ◌≡◌, ◌⊎◌, inl, inr, refl, sym,
  subst, ap, All, Some-left,
}
use external_gateway.Value.{Params}
use external_gateway.Config.{Workspace}
use external_gateway.Workcal.{Date}
use external_gateway.Worklogs.{
  User, Worklog, IssueRef, worklog_id, issue_id, ChangedWorklog, Event, get_myself, get_issue,
  get_worklog, put_worklog, delete_worklog, Upstream, worklog_id_shape, other_issue,
}
use external_gateway.Worklogs.Params.{scoped_issue_key, is_number, string_param}
use external_gateway.Worklogs.Writes.{
  ◌>>=◌, ◌>>◌, local, require, answer, call, myself, issue, refuse_other, own_worklog,
  update_worklog, delete_worklog_of,
}
use external_gateway.Worklogs.Entries.{plan_change, plan_change-author, to_entry}
use external_gateway.Worklogs.Writes.Reads.{
  Has, IsRead, Knows, Reads, answer-eq-ok, done, last-Has, myself-Reads, next, refuse_other-Reads,
  require-eq-ok, resume-cases, resume-same, snoc,
}

-- The worklog that a request names: fetched, on the issue of a key in scope, and the caller's own.
pub record IsOwn (ws : Workspace) (params : Params) (log : List Event) (iss : IssueRef)
    (w : Worklog) : Type 0 where
  pub me : User
  pub in_scope : scoped_issue_key ws (string_param params (codes "key")) ≡ ok tt
  pub asked : Has (get_myself (ok me)) log
  pub fetched : Has (get_worklog (string_param params (codes "worklog_id")) (ok w)) log
  pub located : Has (get_issue (string_param params (codes "key")) (codes "summary") (ok iss)) log
  pub on_issue : iss.id ≡ issue_id w
  pub own : w.author ≡ me.account_id

module _ (api : Upstream) (ws : Workspace) (params : Params) where
  abbrev Owned : IssueRef × Worklog → List Event → Type 0
  Owned r log = IsOwn ws params log r.0 r.1

  abbrev key : Bytes
  key = string_param params (codes "key")

  abbrev id : Bytes
  id = string_param params (codes "worklog_id")

  -- After the caller's account is known, to the end.
  fetched-Reads :
      (me : User) (log : List Event)
      → scoped_issue_key ws key ≡ ok tt
      → All IsRead log
      → Knows api me log
      → Reads Owned (
          (call (api.worklog id) (get_worklog id) >>= λ w.
          issue api key (codes "summary") >>= λ iss.
          local (require (str_eq iss.id (issue_id w)) (other_issue id key))
          >> (refuse_other api id me w >> local (ok (iss, w))))
            log)
  unfolding issue
  fetched-Reads me log scope h asked =
      let log2 = log ++ get_worklog id (api.worklog id log) ∷ [] in
      let h2 = snoc log (get_worklog id (api.worklog id log)) h tt in
      next Owned (answer (api.worklog id log)) _ log2 h2 (λ w e2.
        let located = get_issue key (codes "summary") (api.issue key (codes "summary") log2) in
        let log3 = log2 ++ located ∷ [] in
        let h3 = snoc log2 located h2 tt in
        next Owned (answer (api.issue key (codes "summary") log2)) _ log3 h3 (λ iss e3.
          next Owned (require (str_eq iss.id (issue_id w)) (other_issue id key)) _ log3 h3 (λ _ e4.
            let (h4, mine) = refuse_other-Reads api id me w log3 h3 in
            next Owned (refuse_other api id me w log3).0 _ (refuse_other api id me w log3).1 h4
              (λ u e5.
                let (same, own) = mine u e5 in
                done Owned (iss, w) (refuse_other api id me w log3).1 h4
                  (subst (λ l. IsOwn ws params l iss w) (sym same)
                    (record {
                      me = me;
                      in_scope = scope;
                      asked =
                          Some-left (λ x. x ≡ get_myself (ok me)) log2 (located ∷ [])
                            (Some-left (λ x. x ≡ get_myself (ok me)) log
                              (get_worklog id (api.worklog id log) ∷ []) asked);
                      fetched =
                          Some-left (λ x. x ≡ get_worklog id (ok w)) log2 (located ∷ [])
                            (last-Has log (get_worklog id (api.worklog id log))
                              (get_worklog id (ok w))
                              (ap (get_worklog id) (answer-eq-ok (api.worklog id log) w e2)));
                      located = last-Has log2 located (get_issue key (codes "summary") (ok iss)) (
                          ap (get_issue key (codes "summary"))
                            (answer-eq-ok (api.issue key (codes "summary") log2) iss e3));
                      on_issue =
                          (str_eq_iff iss.id (issue_id w)).0
                            (require-eq-ok (str_eq iss.id (issue_id w)) (other_issue id key) tt e4);
                      own = own;
                    }))))))

  own_worklog-Reads : Reads Owned (own_worklog api ws params [])
  unfolding own_worklog
  own_worklog-Reads = next Owned (scoped_issue_key ws key) _ [] tt (λ _ scope.
      next Owned (require (is_number id) worklog_id_shape) _ [] tt (λ _ _.
        let (h, asked) = myself-Reads api [] tt in
        next Owned (myself api []).0 _ (myself api []).1 h
          (λ me e. fetched-Reads me (myself api []).1 scope h (asked me e))))

-- A change of the worklog, under its author's account, or its removal.
pub data IsWriteTo (w : Worklog) : Event → Type 0 where
  changed :
      {body : ChangedWorklog} {reply : Result Bytes Worklog}
      → body.author_account_id ≡ w.author
      → IsWriteTo w (put_worklog (worklog_id w) body reply)
  removed : {reply : Result Bytes (Unit {0})} → IsWriteTo w (delete_worklog (worklog_id w) reply)

-- Reads, and then one write, to the worklog of the caller that the reads have found.
pub record OwnWrite (ws : Workspace) (params : Params) (log : List Event) : Type 0 where
  pub reads : List Event
  pub issue : IssueRef
  pub worklog : Worklog
  pub write : Event
  pub split : log ≡ reads ++ write ∷ []
  pub before : All IsRead reads
  pub own : IsOwn ws params reads issue worklog
  pub target : IsWriteTo worklog write

abbrev pub WritesOwn : Workspace → Params → List Event → Type 0
WritesOwn ws params log = All IsRead log ⊎ OwnWrite ws params log

module _ (api : Upstream) (today : Date) (ws : Workspace) (params : Params) where
  update_worklog-WritesOwn : WritesOwn ws params (update_worklog api today ws params []).1
  unfolding update_worklog
  update_worklog-WritesOwn =
      let (h, known) = own_worklog-Reads api ws params in
      let log = (own_worklog api ws params []).1 in
      resume-cases (λ r. WritesOwn ws params r.1) (own_worklog api ws params []).0 _ log
        (λ _. inl h)
        (λ (iss, old) e.
          resume-cases (λ r. WritesOwn ws params r.1) (plan_change today params iss old) _ log
            (λ _. inl h)
            (λ change k.
              let reply = api.put (worklog_id old) change.body log in
              let write = put_worklog (worklog_id old) change.body reply in
              inr (record {
                reads = log;
                issue = iss;
                worklog = old;
                write = write;
                split = resume-same (answer reply) _ (log ++ write ∷ []) (λ updated.
                    resume-same (to_entry updated iss) _ (log ++ write ∷ []) (λ _. refl));
                before = h;
                own = known (iss, old) e;
                target = changed (plan_change-author today params iss old change k);
              })))

  delete_worklog_of-WritesOwn : WritesOwn ws params (delete_worklog_of api ws params []).1
  unfolding delete_worklog_of
  delete_worklog_of-WritesOwn =
      let (h, known) = own_worklog-Reads api ws params in
      let log = (own_worklog api ws params []).1 in
      resume-cases (λ r. WritesOwn ws params r.1) (own_worklog api ws params []).0 _ log
        (λ _. inl h)
        (λ (iss, old) e.
          resume-cases (λ r. WritesOwn ws params r.1) (to_entry old iss) _ log (λ _. inl h)
            (λ entry k.
              let reply = api.delete (worklog_id old) log in
              let write = delete_worklog (worklog_id old) reply in
              inr (record {
                reads = log;
                issue = iss;
                worklog = old;
                write = write;
                split = resume-same (answer reply) _ (log ++ write ∷ []) (λ _. refl);
                before = h;
                own = known (iss, old) e;
                target = removed;
              })))

  -- Whatever Jira and Tempo reply, `updateWorklog` and `deleteWorklog` either send reads only, or
  -- reads and then one write: a change that keeps the author, or the removal, of a worklog that
  -- the reads fetched by the requested id, that is on the issue that they located by the requested
  -- key, whose project is in the workspace's scope, and whose author is the account that they
  -- found for the caller.
  pub writes-WritesOwn :
      WritesOwn ws params (update_worklog api today ws params []).1
      × WritesOwn ws params (delete_worklog_of api ws params []).1
  writes-WritesOwn = (update_worklog-WritesOwn, delete_worklog_of-WritesOwn)
