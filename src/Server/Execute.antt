-- ===== src/Server/Execute.antt =====
-- `executeOp`, `handleDryRun` and `checkParamScopes` of internal/server/server.go, up to the point
-- where a request is handed to a connector.
pub mod Authorized
pub mod DryRun
use external_gateway.Prelude.{
  Bool, true, false, not, Bytes, List, [], ◌∷◌, Option, none, some, Map, lookup, str_eq, codes,
  contains_string, Result, ok, err, ◌>>=◌, ◌>>◌, guard, if◌then◌else◌, is_some,
}
use external_gateway.Value.{Value, Params, string_or_empty}
use external_gateway.Config.{Config, Agent, Workspace, get_agent_by_token_sha, get_workspace}
use external_gateway.Policy.{Operation, PolicyError, Compile, get, apply_defaults}
use external_gateway.Policy.Validation.{validate_params}
use external_gateway.Policy.Constraints.{TunnelReply, check_constraints}
use external_gateway.Server.Access.{agent_has_op, site_disabled}
use external_gateway.Server.Environment.{
  EnvError, TunnelRefusal, check_env_selection, check_tunnel_access,
}

-- The snapshot that a request works on: `runtimeState` with the registry's tunnel checker.
pub record Runtime : Type 0 where
  pub cfg : Config
  pub reg : Map Operation
  pub tunnel_checker : Option (Bytes → TunnelReply)

-- What the package `regexp` answers: the parameters' patterns, and the clause of a JQL query.
pub record Patterns : Type 0 where
  pub compile : Compile
  pub clause : Bytes → Bool

-- The request's body, as the two ways of decoding see it: nothing, a body that does not begin with a
-- JSON object, an object and nothing else, or an object with more behind it; and a body over the
-- limit, with the object that stands complete before the limit, if one does. The value `null`
-- counts as the empty object, since it reads as a nil map.
pub data Body : Type 0 where
  empty malformed : Body
  object trailing : Params → Body
  oversized : Option Params → Body

-- The `rule` of a denial, with what the layer that refuses says.
pub data Reason : Type 0 where
  agent_missing workspace_missing not_granted site_is_disabled scope_violation : Reason
  invalid_params constraint_violation : PolicyError → Reason
  bad_environment : EnvError → Reason
  tunnel_refused : TunnelRefusal → Reason

-- How a request ends before any connector runs.
pub data Refusal : Type 0 where
  denied : Reason → Refusal
  unknown_agent unknown_operation too_large invalid_json : Refusal

-- A request that goes on to its connector.
pub record Ready : Type 0 where
  pub ws : Workspace
  pub op : Operation
  pub params : Params

abbrev pub Decision : Type 0 → Type 0
Decision A = Result Refusal A

-- `if err != nil { s.writeDeny(...); return }`
abbrev pub or_deny : {E A : Type 0} → (E → Reason) → Result E A → Decision A
or_deny reason (ok a) = ok a
or_deny reason (err e) = err (denied (reason e))

-- An absent value refuses the request.
abbrev pub or_refuse : {A : Type 0} → Refusal → Option A → Decision A
or_refuse refusal none = err refusal
or_refuse refusal (some a) = ok a

-- The channel of a request to an operation with a channel parameter; empty if there is none.
channel_of : Operation → Params → Bytes
channel_of op params =
    if is_some (lookup (codes "channel") op.params)
    then string_or_empty (lookup (codes "channel") params)
    else []

-- `checkParamScopes`: with Slack channels configured, a channel that is named is one of them.
channel_allowed : List Bytes → Bytes → Bool
channel_allowed [] channel = true
channel_allowed (c ∷ cs) [] = true
channel_allowed (c ∷ cs) (b ∷ channel) = contains_string (c ∷ cs) (b ∷ channel)

unfoldable pub check_param_scopes : Workspace → Operation → Params → Bool
unfolding channel_of channel_allowed contains_string lookup
check_param_scopes ws op params = channel_allowed ws.policy.slack_channels (channel_of op params)

-- The workspace and the operation, if the agent may run it there; the same lines of both handlers.
unfoldable pub find_operation : Runtime → Agent → Bytes → Bytes → Decision (Workspace × Operation)
find_operation st agent workspace op_id = do
  ws ← or_refuse (denied workspace_missing) (get_workspace st.cfg workspace)
  op ← or_refuse unknown_operation (get st.reg op_id)
  guard (agent_has_op st.cfg agent workspace op_id) (denied not_granted)
  guard (not (site_disabled ws op.site)) (denied site_is_disabled)
  ok (ws, op)

-- `ApplyDefaults` behind `if params == nil { params = map[string]interface{}{} }`.
unfoldable pub with_defaults : Operation → Params → Params
with_defaults op params = elim (apply_defaults op (some params)) [ none ↦ [] | some p ↦ p ]

-- Validation and constraints, the same lines of both handlers.
unfoldable pub check_params : Patterns → Workspace → Operation → Params → Decision Params
check_params patterns ws op params = do
  or_deny invalid_params (validate_params patterns.compile op params ws)
  or_deny constraint_violation (check_constraints patterns.clause op params ws)

-- `executeOp` reads the whole body; an empty one gives no parameters.
unfoldable pub read_body : Body → Decision Params
read_body empty = ok []
read_body malformed = err invalid_json
read_body (object params) = ok params
read_body (trailing params) = err invalid_json
read_body (oversized start) = err too_large

-- The dry run decodes the first value of the stream and looks no further.
unfoldable pub read_dry_body : Body → Decision Params
read_dry_body empty = err invalid_json
read_dry_body malformed = err invalid_json
read_dry_body (object params) = ok params
read_dry_body (trailing params) = ok params
read_dry_body (oversized none) = err invalid_json
read_dry_body (oversized (some params)) = ok params

-- The checks behind the constraints, which see the parameters with the defaults filled in.
unfoldable pub finish_request : Runtime → Workspace → Operation → Params → Decision Ready
finish_request st ws op params = do
  or_deny bad_environment (check_env_selection ws op params)
  or_deny tunnel_refused (check_tunnel_access st.cfg st.tunnel_checker ws op params)
  ok (record { ws = ws; op = op; params = params })

-- What follows once the operation is found.
unfoldable pub admit_request : Patterns → Runtime → Body → Workspace × Operation → Decision Ready
admit_request patterns st body (ws, op) = do
  sent ← read_body body
  checked ← check_params patterns ws op sent
  guard (check_param_scopes ws op checked) (denied scope_violation)
  finish_request st ws op (with_defaults op checked)

unfoldable pub execute_op : Patterns → Runtime → Bytes → Bytes → Bytes → Body → Decision Ready
execute_op patterns st agent_sha workspace op_id body = do
  agent ← or_refuse (denied agent_missing) (get_agent_by_token_sha st.cfg agent_sha)
  found ← find_operation st agent workspace op_id
  admit_request patterns st body found

unfoldable pub preview_request : Patterns → Body → Workspace × Operation → Decision (Unit {0})
preview_request patterns body (ws, op) = do
  sent ← read_dry_body body
  checked ← check_params patterns ws op sent
  or_deny bad_environment (check_env_selection ws op (with_defaults op checked))

unfoldable pub handle_dry_run :
    Patterns → Runtime → Bytes → Bytes → Bytes → Body → Decision (Unit {0})
handle_dry_run patterns st agent_sha workspace op_id body = do
  agent ← or_refuse unknown_agent (get_agent_by_token_sha st.cfg agent_sha)
  found ← find_operation st agent workspace op_id
  preview_request patterns body found
