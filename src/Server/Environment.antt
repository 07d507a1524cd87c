-- ===== src/Server/Environment.antt =====
-- The choice of a site's environment and the tunnel check of internal/server/server.go.
pub mod Laws
use external_gateway.Prelude.{
  ℕ, Bool, true, false, Bytes, List, [], ◌∷◌, Option, none, some, Map, lookup, map, sort_strings,
  str_eq, codes, ltb, length, Result, ok, err, if◌then◌else◌,
}
use external_gateway.Value.{Params, string_or_empty}
use external_gateway.Config.{Config, Site, Environment, Workspace, get_tunnel}
use external_gateway.Policy.{Operation}
use external_gateway.Policy.Constraints.{TunnelReply, TunnelError, check_tunnel}

pub data EnvError : Type 0 where
  no_environment missing_env : Bytes → EnvError
  unknown_env : Bytes → Bytes → EnvError

pub data TunnelRefusal : Type 0 where
  not_configured is_down : Bytes → TunnelRefusal

-- The first text that is not empty.
first_nonempty : Bytes → Bytes → Bytes
first_nonempty [] t = t
first_nonempty (c ∷ s) t = c ∷ s

-- The name that the request asks for, or else the site's default; empty if there is neither.
pub requested_env : Site → Params → Bytes
requested_env site params =
    first_nonempty (string_or_empty (lookup (codes "env") params))
      (first_nonempty (string_or_empty (lookup (codes "cluster") params)) site.default_env)

-- The name to look up: the one asked for, or the only one there is.
chosen_env : Bytes → List Bytes → Bytes → Result EnvError Bytes
chosen_env site_name names (c ∷ s) = ok (c ∷ s)
chosen_env site_name [] [] = err (no_environment site_name)
chosen_env site_name (n ∷ []) [] = ok n
chosen_env site_name (n ∷ m ∷ names) [] = err (missing_env site_name)

env_names : Map Environment → List Bytes
env_names environments = sort_strings (map (λ e. e.0) environments)

find_env : Map Environment → Bytes → Bytes → Result EnvError (Bytes × Environment)
find_env environments site_name name = elim (lookup name environments) [
  | none ↦ err (unknown_env name site_name)
  | some env ↦ ok (name, env)
]

resolve_requested : Bytes → Map Environment → Bytes → Result EnvError (Bytes × Environment)
resolve_requested site_name [] requested = err (no_environment site_name)
resolve_requested site_name (e ∷ es) requested =
    elim (chosen_env site_name (env_names (e ∷ es)) requested) [
      | err failure ↦ err failure
      | ok name ↦ find_env (e ∷ es) site_name name
    ]

unfoldable pub resolve_env : Site → Bytes → Params → Result EnvError (Bytes × Environment)
unfolding first_nonempty requested_env chosen_env env_names find_env resolve_requested sort_strings
    lookup str_eq
resolve_env site site_name params =
    resolve_requested site_name site.environments (requested_env site params)

-- The connectors that pick their environment with `resolveEnv`.
uses_resolve_env : Bytes → Bool
uses_resolve_env connector =
    if str_eq connector (codes "http-rest")
    then true
    else if str_eq connector (codes "mcp")
    then true
    else if str_eq connector (codes "email")
    then true
    else str_eq connector (codes "jira-worklog")

unfoldable pub check_env_selection : Workspace → Operation → Params → Result EnvError (Unit {0})
unfolding uses_resolve_env resolve_env lookup str_eq
check_env_selection ws op params =
    if uses_resolve_env op.connector
    then elim (lookup op.site ws.sites) [
      | none ↦ ok tt
      | some site ↦ elim (resolve_env site op.site params) [ err e ↦ err e | ok r ↦ ok tt ]
    ]
    else ok tt

-- The tunnel that an environment requires is configured and up.
require_tunnel : Config → Option (Bytes → TunnelReply) → Bytes → Result TunnelRefusal (Unit {0})
require_tunnel c checker [] = ok tt
require_tunnel c checker (t ∷ tunnel) = elim (get_tunnel c (t ∷ tunnel)) [
  | none ↦ err (not_configured (t ∷ tunnel))
  | some _ ↦ elim (check_tunnel checker (t ∷ tunnel)) [
    | err _ ↦ err (is_down (t ∷ tunnel))
    | ok _ ↦ ok tt
  ]
]

unfoldable pub check_tunnel_access :
    Config
    → Option (Bytes → TunnelReply)
    → Workspace
    → Operation
    → Params
    → Result TunnelRefusal (Unit {0})
unfolding require_tunnel resolve_env get_tunnel check_tunnel lookup
check_tunnel_access c checker ws op params = elim (lookup op.site ws.sites) [
  | none ↦ ok tt
  | some site ↦ elim (resolve_env site op.site params) [
    | err _ ↦ ok tt
    | ok (name, env) ↦ require_tunnel c checker env.requires_tunnel
  ]
]
