-- ===== src/Config.antt =====
-- internal/config/config.go: the configuration's data and its lookups.
pub mod Validate
use external_gateway.Prelude.{
  Bool, true, false, Bytes, List, [], ◌∷◌, Option, none, some, Map, lookup, str_eq, codes, ℤ, ◌==◌,
  if◌then◌else◌, is_some, ◌++◌,
}

pub record Database : Type 0 where
  pub db : Bytes
  pub schema : Bytes

pub record AuthConfig : Type 0 where
  pub type : Bytes
  pub header : Bytes

pub record OauthRefreshConfig : Type 0 where
  pub token_url : Bytes
  pub client_id : Bytes
  pub client_secret_ref : Bytes
  pub refresh_secret_ref : Bytes

pub record Environment : Type 0 where
  pub base_url : Bytes
  pub auth : AuthConfig
  pub host : Bytes
  pub port : ℤ
  pub imap_host : Bytes
  pub imap_port : ℤ
  pub smtp_host : Bytes
  pub smtp_port : ℤ
  pub proxy_host : Bytes
  pub proxy_port : ℤ
  pub workspace : Bytes
  pub workspace_id : Bytes
  pub user_id : Bytes
  pub group : Bytes
  pub org : Bytes
  pub requires_tunnel : Bytes
  pub databases : Map Database
  pub secret : Bytes
  pub user : Bytes
  pub secret_ref : Bytes
  pub cookie_secret_ref : Bytes
  pub oauth : Option OauthRefreshConfig
  pub insecure_skip_verify : Bool
  pub ssl_mode : Bytes

pub record Site : Type 0 where
  pub environments : Map Environment
  pub default_env : Bytes
  pub disabled : Bool

pub record WorkspacePolicy : Type 0 where
  pub jira_projects : List Bytes
  pub bitbucket_repos : List Bytes
  pub gitlab_projects : List Bytes
  pub github_repos : List Bytes
  pub pg_allowed_tables : List Bytes
  pub slack_channels : List Bytes
  pub kibana_clusters : List Bytes
  pub kibana_indices : List Bytes
  pub clockify_projects : List Bytes
  pub email_allowed_senders : List Bytes
  pub email_allowed_mailboxes : List Bytes
  pub email_denied_senders : List Bytes
  pub email_denied_mailboxes : List Bytes
  pub trello_allowed_lists : List Bytes

pub record Workspace : Type 0 where
  pub description : Bytes
  pub site : Bytes
  pub sites : Map Site
  pub policy : WorkspacePolicy
  pub secrets : Map Bytes

pub record Tunnel : Type 0 where
  pub type : Bytes
  pub tunnel : Bytes
  pub check_host : Bytes
  pub check_port : ℤ

pub record Role : Type 0 where
  pub operations : List Bytes

pub record Grant : Type 0 where
  pub workspace : Bytes
  pub role : Bytes

pub record Agent : Type 0 where
  pub id : Bytes
  pub token_sha : Bytes
  pub grants : List Grant

pub record ServerConfig : Type 0 where
  pub listen_addr : Bytes
  pub port : ℤ
  pub tls_cert : Bytes
  pub tls_key : Bytes

pub record AuditConfig : Type 0 where
  pub dir : Bytes
  pub max_size_mb : ℤ

pub record SecretStoreConfig : Type 0 where
  pub backend : Bytes
  pub pass_dir : Bytes
  pub kdbx_path : Bytes
  pub kdbx_secret : Bytes

pub record FeedbackConfig : Type 0 where
  pub todo_path : Bytes

pub record Config : Type 0 where
  pub workspaces : Map Workspace
  pub roles : Map Role
  pub agents : List Agent
  pub server : ServerConfig
  pub audit : AuditConfig
  pub tunnels : Map Tunnel
  pub secret_store : SecretStoreConfig
  pub admin_token_sha : Bytes
  pub feedback : FeedbackConfig
  pub config_path : Bytes
  pub ops_path : Bytes

-- `WorkspacePolicy.List`: `none` is an unknown name.
unfoldable pub list : WorkspacePolicy → Bytes → Option (List Bytes)
unfolding str_eq
list p name =
    if str_eq name (codes "jira_projects")
    then some p.jira_projects
    else if str_eq name (codes "bitbucket_repos")
    then some p.bitbucket_repos
    else if str_eq name (codes "gitlab_projects")
    then some p.gitlab_projects
    else if str_eq name (codes "github_repos")
    then some p.github_repos
    else if str_eq name (codes "pg_allowed_tables")
    then some p.pg_allowed_tables
    else if str_eq name (codes "slack_channels")
    then some p.slack_channels
    else if str_eq name (codes "kibana_clusters")
    then some p.kibana_clusters
    else if str_eq name (codes "kibana_indices")
    then some p.kibana_indices
    else if str_eq name (codes "clockify_projects")
    then some p.clockify_projects
    else none

-- The loop of `GetAgentByTokenSHA`: the first agent with the hash.
unfoldable pub find_agent : List Agent → Bytes → Option Agent
unfolding str_eq
find_agent [] sha = none
find_agent (a ∷ agents) sha = if str_eq a.token_sha sha then some a else find_agent agents sha

unfoldable pub get_agent_by_token_sha : Config → Bytes → Option Agent
unfolding find_agent
get_agent_by_token_sha c sha = find_agent c.agents sha

unfoldable pub get_workspace : Config → Bytes → Option Workspace
unfolding lookup
get_workspace c name = lookup name c.workspaces

unfoldable pub get_role : Config → Bytes → Option Role
unfolding lookup
get_role c name = lookup name c.roles

unfoldable pub get_tunnel : Config → Bytes → Option Tunnel
unfolding lookup
get_tunnel c name = lookup name c.tunnels

-- The loop of `splitOp`: the parts so far, and the current one, which is kept only if it is not
-- empty at the end.
split_from : List Bytes → Bytes → Bytes → List Bytes
split_from parts [] [] = parts
split_from parts (c ∷ current) [] = parts ++ (c ∷ current) ∷ []
split_from parts current (c ∷ op) =
    let closed = split_from (parts ++ current ∷ []) [] op in
    let longer = split_from parts (current ++ c ∷ []) op in if c == b'.' then closed else longer

unfoldable pub split_op : Bytes → List Bytes
unfolding split_from
split_op op = split_from [] [] op

-- The operation's first part names a site of the workspace.
has_site : Workspace → List Bytes → Bool
has_site w (site ∷ _ ∷ _) = is_some (lookup site w.sites)
has_site w _ = false

unfoldable pub has_operation : Workspace → Bytes → Bool
unfolding has_site split_op lookup
has_operation w op = has_site w (split_op op)
