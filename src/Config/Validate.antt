-- ===== src/Config/Validate.antt =====
-- `Config.Validate` of internal/config/config.go, and what a configuration that passes it holds.
use external_gateway.Prelude.{
  Bool, true, false, not, ◌||◌, Bytes, List, [], ◌∷◌, none, some, Map, lookup, str_eq, str_eq_iff,
  is_some, Result, ok, err, ◌>>◌, guard, seq-eq-ok, All, ◌≡◌, ◌≢◌, ◌↔◌, ◌⊎◌, arith, Option-cases,
  inl, inr,
}
use external_gateway.Config.{Config, Workspace, Role, Agent, Grant, Site, has_operation}

pub data ConfigError : Type 0 where
  todo_path_not_absolute : Bytes → ConfigError
  no_agents : ConfigError
  agent_without_token : Bytes → ConfigError
  unknown_workspace unknown_role : Bytes → Bytes → ConfigError
  operation_unavailable : Bytes → Bytes → Bytes → ConfigError
  unknown_default_env : Bytes → Bytes → Bytes → ConfigError

abbrev pub Checked : Type 0
Checked = Result ConfigError (Unit {0})

validate_operations : Workspace → Bytes → Bytes → List Bytes → Checked
validate_operations ws ws_name role_name [] = ok tt
validate_operations ws ws_name role_name (op ∷ ops) = do
  guard (has_operation ws op) (operation_unavailable role_name op ws_name)
  validate_operations ws ws_name role_name ops

validate_grant : Config → Agent → Grant → Checked
validate_grant c agent grant = elim (lookup grant.workspace c.workspaces) [
  | none ↦ err (unknown_workspace agent.id grant.workspace)
  | some ws ↦ elim (lookup grant.role c.roles) [
    | none ↦ err (unknown_role agent.id grant.role)
    | some role ↦ validate_operations ws grant.workspace grant.role role.operations
  ]
]

validate_grants : Config → Agent → List Grant → Checked
validate_grants c agent [] = ok tt
validate_grants c agent (grant ∷ grants) = do
  validate_grant c agent grant
  validate_grants c agent grants

validate_agents : Config → List Agent → Checked
validate_agents c [] = ok tt
validate_agents c (agent ∷ agents) = do
  guard (not (str_eq agent.token_sha [])) (agent_without_token agent.id)
  validate_grants c agent agent.grants
  validate_agents c agents

default_env_known : Site → Bool
default_env_known site =
    str_eq site.default_env [] || is_some (lookup site.default_env site.environments)

validate_sites : Bytes → Map Site → Checked
validate_sites ws_name [] = ok tt
validate_sites ws_name ((site_name, site) ∷ sites) = do
  guard (default_env_known site) (unknown_default_env ws_name site_name site.default_env)
  validate_sites ws_name sites

validate_workspaces : Map Workspace → Checked
validate_workspaces [] = ok tt
validate_workspaces ((ws_name, ws) ∷ workspaces) = do
  validate_sites ws_name ws.sites
  validate_workspaces workspaces

abbrev is_empty : List Agent → Bool
is_empty [] = true
is_empty (_ ∷ _) = false

-- `filepath.IsAbs` is the argument `is_abs`.
unfoldable pub validate : (Bytes → Bool) → Config → Checked
unfolding validate_operations validate_grant validate_grants validate_agents default_env_known
    validate_sites validate_workspaces str_eq lookup has_operation
validate is_abs c = do
  guard (str_eq c.feedback.todo_path [] || is_abs c.feedback.todo_path)
      (todo_path_not_absolute c.feedback.todo_path)
  guard (not (is_empty c.agents)) no_agents
  validate_agents c c.agents
  validate_workspaces c.workspaces

-- The grant's workspace and role exist, and each operation of the role is on a site of the
-- workspace.
abbrev pub GrantResolves : Config → Grant → Type 0
GrantResolves c grant =
    (ws : Workspace) × (role : Role) × (lookup grant.workspace c.workspaces ≡ some ws)
    × (lookup grant.role c.roles ≡ some role)
    × All (λ op. has_operation ws op ≡ true) role.operations

abbrev pub AgentIsSound : Config → Agent → Type 0
AgentIsSound c agent = (agent.token_sha ≢ []) × All (GrantResolves c) agent.grants

abbrev pub SiteIsSound : Bytes × Site → Type 0
SiteIsSound entry =
    (entry.1.default_env ≡ []) ⊎ (lookup entry.1.default_env entry.1.environments ≢ none)

abbrev pub WorkspaceIsSound : Bytes × Workspace → Type 0
WorkspaceIsSound entry = All SiteIsSound entry.1.sites

pub record IsValid (is_abs : Bytes → Bool) (c : Config) : Type 0 where
  pub todo_path : (c.feedback.todo_path ≡ []) ⊎ (is_abs c.feedback.todo_path ≡ true)
  pub some_agent : c.agents ≢ []
  pub agents : All (AgentIsSound c) c.agents
  pub workspaces : All WorkspaceIsSound c.workspaces

validate_operations_iff :
    (ws : Workspace) (n r : Bytes) (ops : List Bytes)
    → (validate_operations ws n r ops ≡ ok tt) ↔ All (λ op. has_operation ws op ≡ true) ops
unfolding validate_operations
validate_operations_iff ws n r [] = ground arith
validate_operations_iff ws n r (op ∷ ops) = ground (arith, validate_operations_iff ws n r ops)

validate_grant_sound :
    (c : Config) (a : Agent) (g : Grant) → validate_grant c a g ≡ ok tt → GrantResolves c g
unfolding validate_grant
validate_grant_sound c a g h = elim (Option-cases (lookup g.workspace c.workspaces)) [
  | inl e ↦ absurd (ground arith)
  | inr (ws, e) ↦ elim (Option-cases (lookup g.role c.roles)) [
    | inl e' ↦ absurd (ground arith)
    | inr (role, e') ↦ (
      ws,
      role,
      e,
      e',
      (validate_operations_iff ws g.workspace g.role role.operations).0 (ground arith),
    )
  ]
]

validate_grant_complete :
    (c : Config) (a : Agent) (g : Grant) → GrantResolves c g → validate_grant c a g ≡ ok tt
unfolding validate_grant
validate_grant_complete c a g (ws, role, e, e', h) =
    ground (arith, (validate_operations_iff ws g.workspace g.role role.operations).1 h)

validate_grants_iff :
    (c : Config) (a : Agent) (gs : List Grant)
    → (validate_grants c a gs ≡ ok tt) ↔ All (GrantResolves c) gs
unfolding validate_grants
validate_grants_iff c a [] = ground arith
validate_grants_iff c a (g ∷ gs) =
    let (split, join) = seq-eq-ok (validate_grant c a g) (validate_grants c a gs) in
    let (sound, complete) = validate_grants_iff c a gs in
    (
      λ h. (validate_grant_sound c a g (split h).0, sound (split h).1),
      λ h. join (validate_grant_complete c a g h.0, complete h.1),
    )

validate_agents_iff :
    (c : Config) (agents : List Agent)
    → (validate_agents c agents ≡ ok tt) ↔ All (AgentIsSound c) agents
unfolding validate_agents
validate_agents_iff c [] = ground arith
validate_agents_iff c (a ∷ agents) = ground (
  arith,
  str_eq_iff a.token_sha [],
  seq-eq-ok (validate_grants c a a.grants) (validate_agents c agents),
  validate_grants_iff c a a.grants,
  validate_agents_iff c agents,
)

default_env_known_iff :
    (name : Bytes) (site : Site) → (default_env_known site ≡ true) ↔ SiteIsSound (name, site)
unfolding default_env_known
default_env_known_iff name site = ground (arith, str_eq_iff site.default_env [])

validate_sites_iff :
    (ws_name : Bytes) (sites : Map Site)
    → (validate_sites ws_name sites ≡ ok tt) ↔ All SiteIsSound sites
unfolding validate_sites
validate_sites_iff ws_name [] = ground arith
validate_sites_iff ws_name ((n, site) ∷ sites) =
    ground (arith, default_env_known_iff n site, validate_sites_iff ws_name sites)

validate_workspaces_iff :
    (workspaces : Map Workspace)
    → (validate_workspaces workspaces ≡ ok tt) ↔ All WorkspaceIsSound workspaces
unfolding validate_workspaces
validate_workspaces_iff [] = ground arith
validate_workspaces_iff ((n, ws) ∷ workspaces) = ground (
  arith,
  seq-eq-ok (validate_sites n ws.sites) (validate_workspaces workspaces),
  validate_sites_iff n ws.sites,
  validate_workspaces_iff workspaces,
)

is_empty_iff : (agents : List Agent) → (not (is_empty agents) ≡ true) ↔ (agents ≢ [])
is_empty_iff [] = ground arith
is_empty_iff (a ∷ agents) = ground arith

-- `Validate` accepts a configuration exactly when the todo path is absent or absolute, there is an
-- agent, every agent has a token hash and only grants whose workspace and role exist and whose
-- role names operations on sites of that workspace, and every default environment exists.
pub validate_iff :
    (is_abs : Bytes → Bool) (c : Config) → (validate is_abs c ≡ ok tt) ↔ IsValid is_abs c
unfolding validate
validate_iff is_abs c = ground (
  arith,
  str_eq_iff c.feedback.todo_path [],
  is_empty_iff c.agents,
  seq-eq-ok (validate_agents c c.agents) (validate_workspaces c.workspaces),
  validate_agents_iff c c.agents,
  validate_workspaces_iff c.workspaces,
)
