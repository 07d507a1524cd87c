-- ===== src/Policy/Constraints.antt =====
-- `CheckConstraints` and `CheckTunnel` of internal/policy/registry.go.
use external_gateway.Prelude.{
  Bool, Bytes, List, [], ◌∷◌, Option, none, some, Map, lookup, str_eq, codes, has_prefix, Result,
  ok, err, ◌>>=◌, bind-eq-ok, if◌then◌else◌, ◌≡◌, ◌≢◌, ap, inl, inr, ◌∙◌, arith, Bool-cases,
}
use external_gateway.Value.{Value, Params, str, arr, string_or_empty, values}
use external_gateway.Config.{Workspace, WorkspacePolicy}
use external_gateway.Policy.{Operation, no_projects}
use external_gateway.Policy.Jql.{Fallible, check_jql_scope}
use external_gateway.Policy.Jql.Scope.{check_jql_scope-others}

-- The nonempty strings of a literal list.
project_names : List Value → List Bytes
project_names [] = []
project_names (str [] ∷ vs) = project_names vs
project_names (str (c ∷ s) ∷ vs) = (c ∷ s) ∷ project_names vs
project_names (_ ∷ vs) = project_names vs

-- A workspace list that is not set is a nil slice.
set_list : List Bytes → Option (List Bytes)
set_list [] = none
set_list (p ∷ ps) = some (p ∷ ps)

-- The list that a `$workspace.` reference names; another name leaves the slice nil.
workspace_projects : WorkspacePolicy → Bytes → Option (List Bytes)
workspace_projects policy name =
    if str_eq name (codes "$workspace.jira_projects")
    then set_list policy.jira_projects
    else if str_eq name (codes "$workspace.bitbucket_repos")
    then set_list policy.bitbucket_repos
    else if str_eq name (codes "$workspace.pg_allowed_tables")
    then set_list policy.pg_allowed_tables
    else none

-- The `projects` of a `jql_scope` constraint.
scope_projects : Operation → WorkspacePolicy → Option Value → Fallible (Option (List Bytes))
scope_projects op policy (some (str s)) =
    ok (if has_prefix s (codes "$workspace.") then workspace_projects policy s else none)
scope_projects op policy (some (arr items)) = elim (project_names (values items)) [
  | [] ↦ err (no_projects op.id)
  | p ∷ ps ↦ ok (some (p ∷ ps))
]
scope_projects op policy _ = ok none

module _ (clause : Bytes → Bool) where
  -- One round of the loop. `readonly`, `allowed_tables` and unknown types check nothing here.
  check_constraint : Operation → Workspace → Map Value → Params → Fallible Params
  check_constraint op ws constraint params =
      if str_eq (string_or_empty (lookup (codes "type") constraint)) (codes "jql_scope")
      then (do
        projects ← scope_projects op ws.policy (lookup (codes "projects") constraint)
        check_jql_scope clause projects params ws)
      else ok params

  check_each : Operation → Workspace → List (Map Value) → Params → Fallible Params
  check_each op ws [] params = ok params
  check_each op ws (c ∷ cs) params = do
    params' ← check_constraint op ws c params
    check_each op ws cs params'

  unfoldable pub check_constraints : Operation → Params → Workspace → Fallible Params
  unfolding project_names set_list workspace_projects scope_projects check_constraint check_each
      check_jql_scope lookup str_eq has_prefix
  check_constraints op params ws = check_each op ws op.constraints params

  -- The constraints leave a parameter as it was.
  abbrev Keeps : Params → Params → Type 0
  Keeps before after = (k : Bytes) → k ≢ codes "jql" → lookup k after ≡ lookup k before

  check_constraint-Keeps :
      (op : Operation) (ws : Workspace) (c : Map Value) (before : Params) {after : Params}
      → check_constraint op ws c before ≡ ok after
      → Keeps before after
  unfolding check_constraint
  check_constraint-Keeps op ws c before {after} h k ne =
      elim (Bool-cases (str_eq (string_or_empty (lookup (codes "type") c)) (codes "jql_scope"))) [
        | inl e ↦
            let (projects, _, checked) =
              bind-eq-ok (scope_projects op ws.policy (lookup (codes "projects") c))
                (λ ps. check_jql_scope clause ps before ws) (rw e at h) in
            check_jql_scope-others clause projects ws before after checked k ne
        | inr e ↦ ap (lookup k) (ground arith)
      ]

  check_each-Keeps :
      (op : Operation) (ws : Workspace) (cs : List (Map Value)) (before : Params) {after : Params}
      → check_each op ws cs before ≡ ok after
      → Keeps before after
  unfolding check_each
  check_each-Keeps op ws [] before h k ne = ap (lookup k) (ground arith)
  check_each-Keeps op ws (c ∷ cs) before h k ne =
      let (mid, first, rest) =
        bind-eq-ok (check_constraint op ws c before) (check_each op ws cs) h in
      check_each-Keeps op ws cs mid rest k ne ∙ check_constraint-Keeps op ws c before first k ne

-- Whatever its constraints, `CheckConstraints` changes no parameter but `jql`.
pub check_constraints_others :
    (clause : Bytes → Bool) (op : Operation) (ws : Workspace) (before after : Params) (k : Bytes)
    → check_constraints clause op before ws ≡ ok after
    → k ≢ codes "jql"
    → lookup k after ≡ lookup k before
unfolding check_constraints
check_constraints_others clause op ws before after k h ne =
    check_each-Keeps clause op ws op.constraints before h k ne

-- What the tunnel checker answers: an error, or whether the tunnel is connected.
pub data TunnelReply : Type 0 where
  failed : TunnelReply
  connected : Bool → TunnelReply

pub data TunnelError : Type 0 where
  no_checker check_failed tunnel_down : TunnelError

-- `CheckTunnel`; `none` is a registry without a checker.
unfoldable pub check_tunnel : Option (Bytes → TunnelReply) → Bytes → Result TunnelError (Unit {0})
unfolding str_eq
check_tunnel none name = err no_checker
check_tunnel (some check) name = if str_eq name [] then ok tt else elim (check name) [
  | failed ↦ err check_failed
  | connected up ↦ if up then ok tt else err tunnel_down
]
