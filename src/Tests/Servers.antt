-- ===== src/Tests/Servers.antt =====
-- The request handlers at the small configuration.
use external_gateway.Prelude.{
  ℕ, Bool, true, false, not, Bytes, List, [], ◌∷◌, Option, none, some, codes, Map, lookup, ok, ◌≡◌,
  ◌≢◌, ◌↔◌, refl, Some, arith, str_eq, has_prefix, trim_prefix, drop, if◌then◌else◌,
}
use external_gateway.Value.{str}
use external_gateway.Config.{get_agent_by_token_sha, get_workspace, Agent}
use external_gateway.Policy.{get}
use external_gateway.Policy.Validation.{validate_params}
use external_gateway.Policy.Constraints.{check_constraints}
use external_gateway.Server.Auth.{
  authenticate, authenticate_admin, authenticate_sound, authenticate_admin_iff, bearer,
}
use external_gateway.Server.Access.{
  agent_has_op, Grants, agent_has_op_iff, site_disabled, granted_operations,
}
use external_gateway.Server.Access.Listing.{usable, granted_operations_lem}
use external_gateway.Server.Environment.{check_env_selection, check_tunnel_access, resolve_env}
use external_gateway.Server.Environment.Laws.{Selects, resolve_env_iff}
use external_gateway.Server.Execute.{
  Ready, object, execute_op, handle_dry_run, find_operation, with_defaults, check_params, read_body,
  read_dry_body, finish_request, admit_request, preview_request, check_param_scopes,
}
use external_gateway.Server.Execute.Authorized.{IsAuthorized, execute_op-IsAuthorized}
use external_gateway.Server.Execute.DryRun.{
  execute_op-handle_dry_run, handle_dry_run-execute_op, IsPreviewed, IsFollowed,
}
use external_gateway.Server.PathTemplate.{
  has_path_injection, expand_path_template, print_string, pieces,
}
use external_gateway.Server.PathTemplate.Injection.{IsRawSafe, has_path_injection-IsRawSafe}
use external_gateway.Server.PathTemplate.Delimiters.{
  expand_path_template-delimiters, delimiters, fixed_text,
}
use external_gateway.Tests.Fixtures.{
  config, acme, search, runtime, lenient, query, scoped, developer, jira, production, text_param,
}

-- The request that reaches the connector.
abbrev ready : Ready
ready = record { ws = acme; op = search; params = scoped }

executes :
    execute_op lenient runtime (codes "t1") (codes "acme") (codes "jira.search") (object query)
    ≡ ok ready
unfolding execute_op find_operation with_defaults check_params read_body finish_request
    admit_request get_agent_by_token_sha get_workspace get agent_has_op site_disabled
    validate_params check_constraints check_param_scopes check_env_selection
    external_gateway.Policy.apply_defaults check_tunnel_access
executes = refl

previews :
    handle_dry_run lenient runtime (codes "t1") (codes "acme") (codes "jira.search") (object query)
    ≡ ok tt
unfolding handle_dry_run find_operation with_defaults check_params read_dry_body preview_request
    get_agent_by_token_sha get_workspace get agent_has_op site_disabled validate_params
    check_constraints check_env_selection external_gateway.Policy.apply_defaults
previews = refl

execute_op-IsAuthorized_example :
    IsAuthorized lenient runtime
      (codes "t1")
      (codes "acme")
      (codes "jira.search")
      (object query)
      ready
execute_op-IsAuthorized_example =
    execute_op-IsAuthorized lenient runtime (codes "t1") (codes "acme") (codes "jira.search")
      (object query) ready executes

execute_op-handle_dry_run_example : IsPreviewed (object query) (
    handle_dry_run lenient runtime (codes "t1") (codes "acme") (codes "jira.search") (object query))
execute_op-handle_dry_run_example =
    execute_op-handle_dry_run lenient runtime (codes "t1") (codes "acme") (codes "jira.search")
      (object query) ready executes

handle_dry_run-execute_op_example :
    IsFollowed
      (object query)
      (execute_op lenient runtime (codes "t1") (codes "acme") (codes "jira.search") (object query))
handle_dry_run-execute_op_example =
    handle_dry_run-execute_op lenient runtime (codes "t1") (codes "acme") (codes "jira.search")
      (object query) previews

authenticate_sound_example :
    (has_prefix (codes "Bearer t1") bearer ≡ true)
    × (authenticate (λ s. s) config (codes "Bearer t1") ≡ drop 7 (codes "Bearer t1"))
    × ((a : Agent) × Some (λ b. b ≡ a) config.agents × (a.token_sha ≡ drop 7 (codes "Bearer t1")))
unfolding authenticate
authenticate_sound_example =
    authenticate_sound (λ s. s) config (codes "Bearer t1") (λ e. ground arith)

authenticate_admin_iff_example :
    (authenticate_admin (λ s. s) config (codes "Bearer admin") ≡ true) ↔ (
      (config.admin_token_sha ≢ [])
      × (has_prefix (codes "Bearer admin") bearer ≡ true)
      × (trim_prefix (codes "Bearer admin") bearer ≡ config.admin_token_sha))
authenticate_admin_iff_example = authenticate_admin_iff (λ s. s) config (codes "Bearer admin")

agent_has_op_iff_example :
    (agent_has_op config developer (codes "acme") (codes "jira.search") ≡ true)
    ↔ Some (Grants config (codes "acme") (codes "jira.search")) developer.grants
agent_has_op_iff_example = agent_has_op_iff config developer (codes "acme") (codes "jira.search")

granted_operations_lem_example :
    lookup
      (codes "jira.search")
      (granted_operations config runtime.reg developer (codes "acme") acme)
    ≡ (if agent_has_op config developer (codes "acme") (codes "jira.search")
        then usable runtime.reg acme (codes "jira.search")
        else none)
granted_operations_lem_example =
    granted_operations_lem config runtime.reg developer (codes "acme") acme (codes "jira.search")

resolve_env_iff_example :
    (resolve_env jira (codes "jira") [] ≡ ok (codes "prod", production))
    ↔ Selects jira [] (codes "prod") production
resolve_env_iff_example = resolve_env_iff jira (codes "jira") [] (codes "prod") production

has_path_injection-IsRawSafe_example : IsRawSafe (codes "feature/x%20y") true
unfolding has_path_injection external_gateway.Prelude.contains external_gateway.Prelude.contains_any
    external_gateway.Server.PathTemplate.has_unsafe_escape external_gateway.Prelude.split
    external_gateway.Server.PathTemplate.no_segment external_gateway.Server.PathTemplate.is_control
has_path_injection-IsRawSafe_example =
    has_path_injection-IsRawSafe (codes "feature/x%20y") true refl

expand_path_template-delimiters_example :
    delimiters ((codes "key", text_param) ∷ []) (codes "/issue/A%2F1/comment")
    ≡ delimiters ((codes "key", text_param) ∷ []) (
        fixed_text print_string []
          ((codes "key", str (codes "A/1")) ∷ [])
          ((codes "key", text_param) ∷ [])
          (pieces [] none (codes "/issue/{key|urlencode}/comment")))
unfolding expand_path_template
expand_path_template-delimiters_example =
    expand_path_template-delimiters print_string (codes "/issue/{key|urlencode}/comment") []
      ((codes "key", str (codes "A/1")) ∷ []) ((codes "key", text_param) ∷ []) refl
