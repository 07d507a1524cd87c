-- ===== src/Server/Execute/DryRun.antt =====
-- The dry run against the execution of the same request.
use external_gateway.Prelude.{
  Bytes, Bool, true, false, Option, none, some, Result, ok, err, ◌>>=◌, ◌>>◌, guard, bind-eq-ok,
  ◌≡◌, ◌⊎◌, inl, inr, refl, arith,
}
use external_gateway.Value.{Params}
use external_gateway.Config.{Workspace, Agent, get_agent_by_token_sha}
use external_gateway.Policy.{Operation}
use external_gateway.Server.Environment.{
  TunnelRefusal, EnvError, check_env_selection, check_tunnel_access,
}
use external_gateway.Server.Execute.{
  Runtime, Patterns, Body, empty, malformed, object, trailing, oversized, invalid_json, too_large,
  Ready, Decision, denied, unknown_agent, agent_missing, scope_violation, tunnel_refused,
  bad_environment, or_deny, or_refuse, read_body, read_dry_body, find_operation, check_params,
  check_param_scopes, with_defaults, finish_request, admit_request, preview_request, execute_op,
  handle_dry_run,
}
use external_gateway.Server.Execute.Authorized.{or_refuse-eq-ok}

-- How an execution may end that a dry run allows.
abbrev pub IsAllowed : Decision Ready → Type 0
IsAllowed d =
    ((r : Ready) × (d ≡ ok r))
    ⊎ (d ≡ err (denied scope_violation))
    ⊎ ((t : TunnelRefusal) × (d ≡ err (denied (tunnel_refused t))))

preview-admit :
    (patterns : Patterns) (st : Runtime) (ws : Workspace) (op : Operation) (params : Params)
    {r : Ready}
    → admit_request patterns st (object params) (ws, op) ≡ ok r
    → preview_request patterns (object params) (ws, op) ≡ ok tt
unfolding admit_request preview_request finish_request read_body read_dry_body
preview-admit patterns st ws op params h = ground arith

tunnel-IsAllowed :
    (m : Result TunnelRefusal (Unit {0})) (r : Ready) → IsAllowed (or_deny tunnel_refused m >> ok r)
tunnel-IsAllowed (ok u) r = inl (r, refl)
tunnel-IsAllowed (err t) r = inr (inr (t, refl))

scope-IsAllowed :
    (b : Bool) (d : Decision Ready)
    → IsAllowed d
    → IsAllowed (guard b (denied scope_violation) >> d)
scope-IsAllowed true d h = h
scope-IsAllowed false d h = inr (inl refl)

environment-IsAllowed :
    (m : Result EnvError (Unit {0})) (d : Decision Ready)
    → or_deny bad_environment m ≡ ok tt
    → IsAllowed d
    → IsAllowed (or_deny bad_environment m >> d)
environment-IsAllowed (ok u) d e h = h
environment-IsAllowed (err x) d e h = cc

admit-preview :
    (patterns : Patterns) (st : Runtime) (ws : Workspace) (op : Operation) (params : Params)
    → preview_request patterns (object params) (ws, op) ≡ ok tt
    → IsAllowed (admit_request patterns st (object params) (ws, op))
unfolding admit_request preview_request finish_request read_body read_dry_body
admit-preview patterns st ws op params h =
    let (checked, passed, env) =
      bind-eq-ok (check_params patterns ws op params)
        (λ p. or_deny bad_environment (check_env_selection ws op (with_defaults op p))) h in
    rw passed (
      scope-IsAllowed (check_param_scopes ws op checked) _ (
        environment-IsAllowed (check_env_selection ws op (with_defaults op checked)) _ env (
          tunnel-IsAllowed
            (check_tunnel_access st.cfg st.tunnel_checker ws op (with_defaults op checked))
            (record { ws = ws; op = op; params = with_defaults op checked }))))

-- How a dry run may end for a body that the execution accepts: it allows the request too, but an
-- empty body is no JSON to it.
abbrev pub IsPreviewed : Body → Decision (Unit {0}) → Type 0
IsPreviewed body d = (d ≡ ok tt) ⊎ ((body ≡ empty) × (d ≡ err invalid_json))

-- How an execution may end for a body that the dry run accepts: as for the same object, but more
-- behind the object, or a body over the limit, is refused.
abbrev pub IsFollowed : Body → Decision Ready → Type 0
IsFollowed body d =
    IsAllowed d
    ⊎ ((params : Params) × (body ≡ trailing params) × (d ≡ err invalid_json))
    ⊎ ((params : Params) × (body ≡ oversized (some params)) × (d ≡ err too_large))

preview_request-IsPreviewed :
    (patterns : Patterns) (st : Runtime) (body : Body) (ws : Workspace) (op : Operation) {r : Ready}
    → admit_request patterns st body (ws, op) ≡ ok r
    → IsPreviewed body (preview_request patterns body (ws, op))
unfolding admit_request preview_request read_body read_dry_body
preview_request-IsPreviewed patterns st empty ws op h = inr (refl, refl)
preview_request-IsPreviewed patterns st malformed ws op h = absurd (ground arith)
preview_request-IsPreviewed patterns st (object params) ws op h =
    inl (preview-admit patterns st ws op params h)
preview_request-IsPreviewed patterns st (trailing params) ws op h = absurd (ground arith)
preview_request-IsPreviewed patterns st (oversized start) ws op h = absurd (ground arith)

admit_request-IsFollowed :
    (patterns : Patterns) (st : Runtime) (body : Body) (ws : Workspace) (op : Operation)
    → preview_request patterns body (ws, op) ≡ ok tt
    → IsFollowed body (admit_request patterns st body (ws, op))
unfolding admit_request preview_request read_body read_dry_body
admit_request-IsFollowed patterns st empty ws op h = absurd (ground arith)
admit_request-IsFollowed patterns st malformed ws op h = absurd (ground arith)
admit_request-IsFollowed patterns st (object params) ws op h =
    inl (admit-preview patterns st ws op params h)
admit_request-IsFollowed patterns st (trailing params) ws op h = inr (inl (params, refl, refl))
admit_request-IsFollowed patterns st (oversized none) ws op h = absurd (ground arith)
admit_request-IsFollowed patterns st (oversized (some params)) ws op h =
    inr (inr (params, refl, refl))

module _ (patterns : Patterns) (st : Runtime) (agent_sha workspace op_id : Bytes)
    (body : Body) where
  both_ways :
      ((r : Ready)
        → execute_op patterns st agent_sha workspace op_id body ≡ ok r
        → IsPreviewed body (handle_dry_run patterns st agent_sha workspace op_id body))
      × (handle_dry_run patterns st agent_sha workspace op_id body ≡ ok tt
          → IsFollowed body (execute_op patterns st agent_sha workspace op_id body))
  unfolding execute_op handle_dry_run
  both_ways = (to, from)
    where
      admit : Workspace × Operation → Decision Ready
      admit = admit_request patterns st body

      preview : Workspace × Operation → Decision (Unit {0})
      preview = preview_request patterns body

      known : Option Agent
      known = get_agent_by_token_sha st.cfg agent_sha

      to :
          (r : Ready)
          → execute_op patterns st agent_sha workspace op_id body ≡ ok r
          → IsPreviewed body (handle_dry_run patterns st agent_sha workspace op_id body)
      to r h =
          let (agent, k, h₁) =
            bind-eq-ok (or_refuse (denied agent_missing) known)
              (λ a. find_operation st a workspace op_id >>= admit) h in
          let ((ws, op), found, h₂) =
            bind-eq-ok (find_operation st agent workspace op_id) admit h₁ in
          rw (or_refuse-eq-ok (denied agent_missing) known k, found)
            (preview_request-IsPreviewed patterns st body ws op h₂)

      from :
          handle_dry_run patterns st agent_sha workspace op_id body ≡ ok tt
          → IsFollowed body (execute_op patterns st agent_sha workspace op_id body)
      from h =
          let (agent, k, h₁) =
            bind-eq-ok (or_refuse unknown_agent known)
              (λ a. find_operation st a workspace op_id >>= preview) h in
          let ((ws, op), found, h₂) =
            bind-eq-ok (find_operation st agent workspace op_id) preview h₁ in
          rw (or_refuse-eq-ok unknown_agent known k, found)
            (admit_request-IsFollowed patterns st body ws op h₂)

  -- A request that is handed to its connector is allowed by the dry run, unless its body is empty:
  -- then the dry run refuses the body.
  pub execute_op-handle_dry_run :
      (r : Ready)
      → execute_op patterns st agent_sha workspace op_id body ≡ ok r
      → IsPreviewed body (handle_dry_run patterns st agent_sha workspace op_id body)
  execute_op-handle_dry_run = both_ways.0

  -- A request that the dry run allows is handed to its connector, or else denied for its channel or
  -- its tunnel alone, which the dry run does not look at; or its body has more behind the JSON
  -- object, or is over the limit, and is refused for that.
  pub handle_dry_run-execute_op :
      handle_dry_run patterns st agent_sha workspace op_id body ≡ ok tt
      → IsFollowed body (execute_op patterns st agent_sha workspace op_id body)
  handle_dry_run-execute_op = both_ways.1
