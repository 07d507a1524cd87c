-- ===== src/Server/Execute/Authorized.antt =====
-- What has been established about a request by the time that it reaches a connector.
use external_gateway.Prelude.{
  true, false, Bytes, List, [], ◌∷◌, Option, none, some, lookup, codes, ok, err, ◌>>=◌, ◌>>◌, guard,
  Result, bind-eq-ok, contains_string_iff, Some, ◌≡◌, ◌≢◌, refl, subst, arith,
}
use external_gateway.Value.{Params, str}
use external_gateway.Config.{Agent, Workspace, find_agent, get_agent_by_token_sha, get_workspace}
use external_gateway.Policy.{Operation, get}
use external_gateway.Policy.Validation.{validate_params}
use external_gateway.Policy.Validation.Acceptable.{IsAcceptable, validate_params-IsAcceptable}
use external_gateway.Policy.Constraints.{check_constraints}
use external_gateway.Server.Auth.{find_agent_sound}
use external_gateway.Server.Access.{agent_has_op_iff, Grants, site_disabled}
use external_gateway.Server.Environment.{check_env_selection, check_tunnel_access}
use external_gateway.Server.Execute.{
  Runtime, Patterns, Body, Ready, Refusal, Reason, Decision, or_deny, or_refuse, denied,
  agent_missing, scope_violation, invalid_params, constraint_violation, bad_environment,
  tunnel_refused, find_operation, check_params, channel_of, channel_allowed, read_body,
  check_param_scopes, with_defaults, finish_request, admit_request, execute_op,
}

pub or_refuse-eq-ok :
    {A : Type 0} (refusal : Refusal) (o : Option A) {a : A}
    → or_refuse refusal o ≡ ok a
    → o ≡ some a
or_refuse-eq-ok refusal none h = cc
or_refuse-eq-ok refusal (some a) h = cc

or_deny-eq-ok :
    {E A : Type 0} (reason : E → Reason) (m : Result E A) {a : A}
    → or_deny reason m ≡ ok a
    → m ≡ ok a
or_deny-eq-ok reason (ok a) h = cc
or_deny-eq-ok reason (err e) h = cc

-- The agent may run the operation in the workspace, where its site is enabled.
pub record MayRun (st : Runtime) (agent : Agent) (workspace op_id : Bytes) (ws : Workspace)
    (op : Operation) : Type 0 where
  pub workspace_found : get_workspace st.cfg workspace ≡ some ws
  pub operation_found : get st.reg op_id ≡ some op
  pub granted : Some (Grants st.cfg workspace op_id) agent.grants
  pub enabled : site_disabled ws op.site ≡ false

pub find_operation-MayRun :
    (st : Runtime) (agent : Agent) (workspace op_id : Bytes) (ws : Workspace) (op : Operation)
    → find_operation st agent workspace op_id ≡ ok (ws, op)
    → MayRun st agent workspace op_id ws op
unfolding find_operation
find_operation-MayRun st agent workspace op_id ws op h = record {
  workspace_found = ground arith;
  operation_found = ground arith;
  granted = (agent_has_op_iff st.cfg agent workspace op_id).0 (ground arith);
  enabled = ground arith;
}

-- The channel that a request names is an allowed one.
abbrev pub ChannelFits : Workspace → Operation → Params → Type 0
ChannelFits ws op params =
    (channel : Bytes)
    → ws.policy.slack_channels ≢ []
    → lookup (codes "channel") op.params ≢ none
    → lookup (codes "channel") params ≡ some (str channel)
    → channel ≢ []
    → Some (λ c. c ≡ channel) ws.policy.slack_channels

channel_allowed_sound :
    (channels : List Bytes) (channel : Bytes)
    → channel_allowed channels channel ≡ true
    → channels ≢ []
    → channel ≢ []
    → Some (λ c. c ≡ channel) channels
unfolding channel_allowed
channel_allowed_sound [] channel h ne named = absurd (ne refl)
channel_allowed_sound (c ∷ cs) [] h ne named = absurd (named refl)
channel_allowed_sound (c ∷ cs) (b ∷ channel) h ne named =
    (contains_string_iff (c ∷ cs) (b ∷ channel)).0 h

check_param_scopes-ChannelFits :
    (ws : Workspace) (op : Operation) (params : Params)
    → check_param_scopes ws op params ≡ true
    → ChannelFits ws op params
unfolding check_param_scopes
check_param_scopes-ChannelFits ws op params h channel ne declared sent named =
    let same : channel_of op params ≡ channel = unfold channel_of in ground arith in
    channel_allowed_sound ws.policy.slack_channels channel (rw same at h) ne named

-- The request is one that the configuration allows: the agent is configured with this token's hash
-- and may run the operation; the parameters that were sent are acceptable, pass the operation's
-- constraints and name no channel out of scope; they reach the connector with the defaults filled
-- in, with an environment selected and its tunnel checked.
pub record IsAuthorized (patterns : Patterns) (st : Runtime) (agent_sha workspace op_id : Bytes)
    (body : Body) (r : Ready) : Type 0 where
  pub agent : Agent
  pub listed : Some (λ a. a ≡ agent) st.cfg.agents
  pub token : agent.token_sha ≡ agent_sha
  pub may_run : MayRun st agent workspace op_id r.ws r.op
  pub sent : Params
  pub read : read_body body ≡ ok sent
  pub acceptable : IsAcceptable patterns.compile r.op sent r.ws
  pub checked : Params
  pub constrained : check_constraints patterns.clause r.op sent r.ws ≡ ok checked
  pub channel : ChannelFits r.ws r.op checked
  pub defaults : r.params ≡ with_defaults r.op checked
  pub environment : check_env_selection r.ws r.op r.params ≡ ok tt
  pub tunnel : check_tunnel_access st.cfg st.tunnel_checker r.ws r.op r.params ≡ ok tt

check_params-eq-ok :
    (patterns : Patterns) (ws : Workspace) (op : Operation) (sent : Params) {checked : Params}
    → check_params patterns ws op sent ≡ ok checked
    → (validate_params patterns.compile op sent ws ≡ ok tt)
      × (check_constraints patterns.clause op sent ws ≡ ok checked)
unfolding check_params
check_params-eq-ok patterns ws op sent h =
    let (u, valid, rest) =
      bind-eq-ok (or_deny invalid_params (validate_params patterns.compile op sent ws))
        (λ _. or_deny constraint_violation (check_constraints patterns.clause op sent ws)) h in
    (
      or_deny-eq-ok invalid_params (validate_params patterns.compile op sent ws) valid,
      or_deny-eq-ok constraint_violation (check_constraints patterns.clause op sent ws) rest,
    )

finish_request-eq-ok :
    (st : Runtime) (ws : Workspace) (op : Operation) (params : Params) {r : Ready}
    → finish_request st ws op params ≡ ok r
    → (check_env_selection ws op params ≡ ok tt)
      × (check_tunnel_access st.cfg st.tunnel_checker ws op params ≡ ok tt)
      × (record { ws = ws; op = op; params = params } ≡ r)
unfolding finish_request
finish_request-eq-ok st ws op params {r} h =
    let env = or_deny bad_environment (check_env_selection ws op params) in
    let tunnel =
      or_deny tunnel_refused (check_tunnel_access st.cfg st.tunnel_checker ws op params) in
    let done : Decision Ready = ok (record { ws = ws; op = op; params = params }) in
    let (u, e, rest) = bind-eq-ok env (λ _. tunnel >> done) h in
    let (v, t, same) = bind-eq-ok tunnel (λ _. done) rest in
    (
      or_deny-eq-ok bad_environment (check_env_selection ws op params) e,
      or_deny-eq-ok tunnel_refused (check_tunnel_access st.cfg st.tunnel_checker ws op params) t,
      cc,
    )

-- What `admit_request` has established.
record IsAdmitted (patterns : Patterns) (st : Runtime) (body : Body) (ws : Workspace)
    (op : Operation) (r : Ready) : Type 0 where
  sent : Params
  read : read_body body ≡ ok sent
  checked : Params
  valid : validate_params patterns.compile op sent ws ≡ ok tt
  constrained : check_constraints patterns.clause op sent ws ≡ ok checked
  scoped : check_param_scopes ws op checked ≡ true
  environment : check_env_selection ws op (with_defaults op checked) ≡ ok tt
  tunnel : check_tunnel_access st.cfg st.tunnel_checker ws op (with_defaults op checked) ≡ ok tt
  ready : record { ws = ws; op = op; params = with_defaults op checked } ≡ r

admit_request-IsAdmitted :
    (patterns : Patterns) (st : Runtime) (body : Body) (ws : Workspace) (op : Operation) (r : Ready)
    → admit_request patterns st body (ws, op) ≡ ok r
    → IsAdmitted patterns st body ws op r
unfolding admit_request
admit_request-IsAdmitted patterns st body ws op r h =
    let last = λ (checked : Params).
      guard (check_param_scopes ws op checked) (denied scope_violation)
      >> finish_request st ws op (with_defaults op checked) in
    let (sent, read, h₁) =
      bind-eq-ok (read_body body) (λ sent. check_params patterns ws op sent >>= last) h in
    let (checked, passed, h₂) = bind-eq-ok (check_params patterns ws op sent) last h₁ in
    let (u, scoped, h₃) =
      bind-eq-ok (guard (check_param_scopes ws op checked) (denied scope_violation))
        (λ _. finish_request st ws op (with_defaults op checked)) h₂ in
    let (valid, constrained) = check_params-eq-ok patterns ws op sent passed in
    let (environment, tunnel, ready) =
      finish_request-eq-ok st ws op (with_defaults op checked) h₃ in
    record {
      sent = sent;
      read = read;
      checked = checked;
      valid = valid;
      constrained = constrained;
      scoped = ground arith;
      environment = environment;
      tunnel = tunnel;
      ready = ready;
    }

-- If `executeOp` goes on to a connector, then an agent of the configuration has the token's hash,
-- the workspace and the operation exist, a grant of the agent allows the operation there and its
-- site is not disabled; the body was read, its parameters passed validation, the constraints and
-- the channel scope, and with the defaults filled in they pass the environment and the tunnel
-- checks; these parameters, this workspace and this operation are what the connector gets.
pub execute_op-IsAuthorized :
    (patterns : Patterns) (st : Runtime) (agent_sha workspace op_id : Bytes) (body : Body)
    (r : Ready)
    → execute_op patterns st agent_sha workspace op_id body ≡ ok r
    → IsAuthorized patterns st agent_sha workspace op_id body r
unfolding execute_op get_agent_by_token_sha
execute_op-IsAuthorized patterns st agent_sha workspace op_id body r h =
    let (agent, known, h₁) =
      bind-eq-ok (or_refuse (denied agent_missing) (find_agent st.cfg.agents agent_sha))
        (λ agent. find_operation st agent workspace op_id >>= admit_request patterns st body) h in
    let ((ws, op), found, h₂) =
      bind-eq-ok (find_operation st agent workspace op_id) (admit_request patterns st body) h₁ in
    let (listed, token) =
      find_agent_sound st.cfg.agents agent_sha (or_refuse-eq-ok (denied agent_missing) _ known) in
    let a = admit_request-IsAdmitted patterns st body ws op r h₂ in
    subst (IsAuthorized patterns st agent_sha workspace op_id body) a.ready (record {
      agent = agent;
      listed = listed;
      token = token;
      may_run = find_operation-MayRun st agent workspace op_id ws op found;
      sent = a.sent;
      read = a.read;
      acceptable = validate_params-IsAcceptable patterns.compile op a.sent ws a.valid;
      checked = a.checked;
      constrained = a.constrained;
      channel = check_param_scopes-ChannelFits ws op a.checked a.scoped;
      defaults = refl;
      environment = a.environment;
      tunnel = a.tunnel;
    })
