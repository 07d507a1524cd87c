-- ===== src/Policy/Jql/Scope.antt =====
-- The query that `JQLScopeConstraint.Check` sends upstream cannot leave the allowed projects.
use external_gateway.Prelude.{
  ℕ, ◌≡◌, ◌≢◌, ◌⊎◌, inl, inr, refl, sym, ap, ◌∙◌, subst, if◌then◌else◌, Bool, true, Bytes, List, [],
  ◌∷◌, ◌++◌, append-nil, Option, none, some, lookup, insert, lookup-insert, codes, ok, ◌>>=◌,
  bind-eq-ok, str_eq, str_eq_iff, str_eq_refl, take, drop, take-append-drop, trim_space, arith,
  Bool-cases, Option-cases,
}
use external_gateway.Value.{Params, Value, str, as_string}
use external_gateway.Config.{Workspace}
use external_gateway.Policy.Jql.{
  Scan, start, scan, finish, split_jql_order_by, project_scope, scoped_query, effective_projects,
  rewrite_jql, check_jql_scope,
}
use external_gateway.Policy.Jql.Nesting.{Closes, Closes-trim_space}
use external_gateway.Policy.Jql.Scanning.{scan-Closes}

-- The parts of an accepted query: they are the query cut in two, with the white space around each
-- part dropped; the filter closes every quote and parenthesis that it opens and no other, and an
-- ORDER BY part matches the clause's regular expression.
pub record IsSplit (clause : Bytes → Bool) (jql filter order : Bytes) : Type 0 where
  pub front : Bytes
  pub back : Bytes
  pub whole : front ++ back ≡ jql
  pub filter_is : filter ≡ trim_space front
  pub order_is : order ≡ trim_space back
  pub balanced : Closes 0 0 filter
  pub sorts : (back ≡ []) ⊎ (clause order ≡ true)

trim_space-nil : trim_space [] ≡ []
unfolding trim_space
trim_space-nil = refl

module _ (clause : Bytes → Bool) (jql filter order : Bytes) (st : Scan)
    (h : finish clause jql st ≡ ok (filter, order)) where
  finish_closed : (st.quote ≡ 0) × (st.depth ≡ 0)
  unfolding finish
  finish_closed = ground arith

  finish_unordered : st.order_at ≡ none → (filter ≡ trim_space jql) × (order ≡ [])
  unfolding finish
  finish_unordered e = ground arith

  finish_ordered :
      (j : ℕ)
      → st.order_at ≡ some j
      → (filter ≡ trim_space (take j jql))
        × (order ≡ trim_space (drop j jql))
        × (clause order ≡ true)
  unfolding finish
  finish_ordered j e = ground arith

split_jql_order_by-IsSplit :
    (clause : Bytes → Bool) (jql filter order : Bytes)
    → split_jql_order_by clause jql ≡ ok (filter, order)
    → IsSplit clause jql filter order
split_jql_order_by-IsSplit clause jql filter order h =
    let opened : (scan none 0 start jql >>= finish clause jql) ≡ ok (filter, order) =
      unfold split_jql_order_by in h in
    let (st, scanned, ended) = bind-eq-ok (scan none 0 start jql) (finish clause jql) opened in
    let (quote, depth) = finish_closed clause jql filter order st ended in
    let (unordered, ordered) = scan-Closes jql scanned quote depth in
    elim (Option-cases st.order_at) [
      | inl e ↦
          let (f, o) = finish_unordered clause jql filter order st ended e in
          record {
            front = jql;
            back = [];
            whole = append-nil jql;
            filter_is = f;
            order_is = o ∙ sym trim_space-nil;
            balanced = subst (Closes 0 0) (sym f) (Closes-trim_space jql (unordered e));
            sorts = inl refl;
          }
      | inr (j, e) ↦
          let (f, o, c) = finish_ordered clause jql filter order st ended j e in
          record {
            front = take j jql;
            back = drop j jql;
            whole = take-append-drop j jql;
            filter_is = f;
            order_is = o;
            balanced = subst (Closes 0 0) (sym f) (Closes-trim_space (take j jql) (ordered j e));
            sorts = inr c;
          }
    ]

-- The query that is sent: the whole filter in one pair of parentheses, and the scope beside it.
abbrev pub IsScoped : Bytes → Bytes → List Bytes → Bytes → Type 0
IsScoped filter order projects query =
    (body : Bytes) × (tail : Bytes) × (query ≡ body ++ tail)
    × (((filter ≡ []) × (body ≡ project_scope projects))
        ⊎ (body ≡ codes "(" ++ filter ++ codes ") AND " ++ project_scope projects))
    × (((order ≡ []) × (tail ≡ [])) ⊎ (tail ≡ codes " " ++ order))

as_string-some : (v : Option Value) {s : Bytes} → as_string v ≡ some s → v ≡ some (str s)
as_string-some v h = ground arith

scoped_query-IsScoped :
    (filter order : Bytes) (projects : List Bytes)
    → IsScoped filter order projects (scoped_query filter order projects)
unfolding scoped_query
scoped_query-IsScoped filter order projects = (body, tail, whole, parts, ends)
  where
    body : Bytes
    body =
        if str_eq filter []
        then project_scope projects
        else codes "(" ++ filter ++ codes ") AND " ++ project_scope projects

    tail : Bytes
    tail = if str_eq order [] then [] else codes " " ++ order

    whole : scoped_query filter order projects ≡ body ++ tail
    whole = elim (Bool-cases (str_eq order [])) [
      | inl e ↦ rw e (sym (append-nil body))
      | inr e ↦ rw e
    ]

    parts :
        ((filter ≡ []) × (body ≡ project_scope projects))
        ⊎ (body ≡ codes "(" ++ filter ++ codes ") AND " ++ project_scope projects)
    parts = elim (Bool-cases (str_eq filter [])) [
      | inl e ↦ inl ((str_eq_iff filter []).0 e, rw e)
      | inr e ↦ inr (rw e)
    ]

    ends : ((order ≡ []) × (tail ≡ [])) ⊎ (tail ≡ codes " " ++ order)
    ends = elim (Bool-cases (str_eq order [])) [
      | inl e ↦ inl ((str_eq_iff order []).0 e, rw e)
      | inr e ↦ inr (rw e)
    ]

-- What the constraint leaves behind: the query of the request is cut into a filter and a sort
-- clause, is replaced by the scoped query, and no other parameter changes.
pub record IsConfined (clause : Bytes → Bool) (projects : List Bytes) (before after : Params)
    : Type 0 where
  pub jql : Bytes
  pub filter : Bytes
  pub order : Bytes
  pub query : Bytes
  pub sent : lookup (codes "jql") before ≡ some (str jql)
  pub parts : IsSplit clause jql filter order
  pub scoped : IsScoped filter order projects query
  pub replaced : lookup (codes "jql") after ≡ some (str query)
  pub others : (k : Bytes) → k ≢ codes "jql" → lookup k after ≡ lookup k before

rewrite_jql-IsConfined :
    (clause : Bytes → Bool) (projects : List Bytes) (jql : Bytes) (params : Params) {after : Params}
    → rewrite_jql clause projects jql params ≡ ok after
    → projects ≢ []
    → lookup (codes "jql") params ≡ some (str jql)
    → IsConfined clause projects params after
unfolding rewrite_jql
rewrite_jql-IsConfined clause [] jql params h ne e = absurd (ne refl)
rewrite_jql-IsConfined clause (p ∷ ps) jql params {after} h ne e =
    let ((filter, order), split, done) =
      bind-eq-ok (split_jql_order_by clause jql)
        (λ r. ok (insert (codes "jql") (str (scoped_query r.0 r.1 (p ∷ ps))) params)) h in
    let query = scoped_query filter order (p ∷ ps) in
    let after_is : insert (codes "jql") (str query) params ≡ after = cc in
    let found = lookup-insert (codes "jql") in
    record {
      jql = jql;
      filter = filter;
      order = order;
      query = query;
      sent = e;
      parts = split_jql_order_by-IsSplit clause jql filter order split;
      scoped = scoped_query-IsScoped filter order (p ∷ ps);
      replaced =
          rw (← after_is) (found (codes "jql") (str query) params ∙ rw (str_eq_refl (codes "jql")));
      others = λ k other.
          rw (← after_is) (ground (arith, found k (str query) params, str_eq_iff (codes "jql") k));
    }

-- If the scope constraint accepts a request, and the operation or else the workspace lists allowed
-- projects, then the request's query is cut into a filter and a sort clause; the filter closes all
-- quotes and parentheses that it opens and no other; the query sent is `(filter) AND project in
-- (...)` with exactly the allowed projects (the scope alone for an empty filter), followed at most
-- by a sort clause that matches the clause's regular expression; nothing else changes.
pub check_jql_scope-IsConfined :
    (clause : Bytes → Bool) (projects : Option (List Bytes)) (ws : Workspace)
    (before after : Params)
    → check_jql_scope clause projects before ws ≡ ok after
    → effective_projects projects ws ≢ []
    → IsConfined clause (effective_projects projects ws) before after
unfolding check_jql_scope
check_jql_scope-IsConfined clause projects ws before after h ne =
    elim (Option-cases (as_string (lookup (codes "jql") before))) [
      | inl e ↦ absurd (ground arith)
      | inr (jql, e) ↦
          rewrite_jql-IsConfined clause (effective_projects projects ws) jql before (ground arith)
            ne (as_string-some (lookup (codes "jql") before) e)
    ]

check_jql_scope_unscoped :
    (clause : Bytes → Bool) (projects : Option (List Bytes)) (ws : Workspace)
    (before after : Params)
    → check_jql_scope clause projects before ws ≡ ok after
    → effective_projects projects ws ≡ []
    → after ≡ before
unfolding check_jql_scope
check_jql_scope_unscoped clause projects ws before after h e = ground arith

-- Without allowed projects the constraint changes nothing; with them, only the query.
pub check_jql_scope-others :
    (clause : Bytes → Bool) (projects : Option (List Bytes)) (ws : Workspace)
    (before after : Params)
    → check_jql_scope clause projects before ws ≡ ok after
    → (k : Bytes) → k ≢ codes "jql"
    → lookup k after ≡ lookup k before
check_jql_scope-others clause projects ws before after h k ne =
    by_projects (effective_projects projects ws) refl
  where
    by_projects :
        (ps : List Bytes) → effective_projects projects ws ≡ ps → lookup k after ≡ lookup k before
    by_projects [] e = ap (lookup k) (check_jql_scope_unscoped clause projects ws before after h e)
    by_projects (p ∷ ps) e =
        (check_jql_scope-IsConfined clause projects ws before after h (λ z. cc (sym e ∙ z))).others
          k ne
