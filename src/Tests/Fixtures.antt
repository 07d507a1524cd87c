-- ===== src/Tests/Fixtures.antt =====
-- A small configuration with one agent and one operation.
use external_gateway.Prelude.{true, false, [], ◌∷◌, none, some, codes, pos}
use external_gateway.Value.{str, Params}
use external_gateway.Config.{Environment, Site, WorkspacePolicy, Workspace, Role, Agent, Config}
use external_gateway.Policy.{ParamDef, Operation}
use external_gateway.Policy.Constraints.{connected}
use external_gateway.Server.Execute.{Runtime, Patterns}

abbrev pub production : Environment
production = record {
  base_url = codes "https://jira.example";
  auth = record { type = codes "bearer"; header = [] };
  host = [];
  port = pos 0;
  imap_host = [];
  imap_port = pos 0;
  smtp_host = [];
  smtp_port = pos 0;
  proxy_host = [];
  proxy_port = pos 0;
  workspace = [];
  workspace_id = [];
  user_id = [];
  group = [];
  org = [];
  requires_tunnel = codes "vpn";
  databases = [];
  secret = [];
  user = [];
  secret_ref = codes "secret://acme/jira";
  cookie_secret_ref = [];
  oauth = none;
  insecure_skip_verify = false;
  ssl_mode = [];
}

abbrev pub jira : Site
jira = record { environments = (codes "prod", production) ∷ []; default_env = []; disabled = false }

abbrev pub acme_policy : WorkspacePolicy
acme_policy = record {
  jira_projects = codes "ACME" ∷ [];
  bitbucket_repos = [];
  gitlab_projects = [];
  github_repos = [];
  pg_allowed_tables = [];
  slack_channels = codes "C1" ∷ [];
  kibana_clusters = [];
  kibana_indices = [];
  clockify_projects = [];
  email_allowed_senders = [];
  email_allowed_mailboxes = [];
  email_denied_senders = [];
  email_denied_mailboxes = [];
  trello_allowed_lists = [];
}

abbrev pub acme : Workspace
acme = record {
  description = [];
  site = [];
  sites = (codes "jira", jira) ∷ [];
  policy = acme_policy;
  secrets = [];
}

abbrev pub developer : Agent
developer = record {
  id = codes "dev";
  token_sha = codes "t1";
  grants = record { workspace = codes "acme"; role = codes "reader" } ∷ [];
}

abbrev pub reader : Role
reader = record { operations = codes "jira.search" ∷ [] }

abbrev pub config : Config
config = record {
  workspaces = (codes "acme", acme) ∷ [];
  roles = (codes "reader", reader) ∷ [];
  agents = developer ∷ [];
  server = record { listen_addr = []; port = pos 8443; tls_cert = []; tls_key = [] };
  audit = record { dir = []; max_size_mb = pos 0 };
  tunnels =
      (
        codes "vpn",
        record { type = []; tunnel = codes "office"; check_host = []; check_port = pos 0 },
      )
      ∷ [];
  secret_store = record { backend = []; pass_dir = []; kdbx_path = []; kdbx_secret = [] };
  admin_token_sha = codes "admin";
  feedback = record { todo_path = [] };
  config_path = [];
  ops_path = [];
}

-- A text parameter of one segment.
abbrev pub text_param : ParamDef
text_param = record {
  type = codes "string";
  required = true;
  from = [];
  values = none;
  max = pos 0;
  max_len = pos 60;
  pattern = [];
  keys = none;
  default = none;
  multi_segment = false;
}

abbrev pub search : Operation
search = record {
  id = codes "jira.search";
  connector = codes "http-rest";
  site = codes "jira";
  method = codes "POST";
  path = codes "/rest/api/3/search/jql";
  params = (codes "jql", text_param) ∷ [];
  body_template = [];
  headers = [];
  multipart = none;
  slack_file_content = false;
  constraints = ((codes "type", str (codes "jql_scope")) ∷ []) ∷ [];
  response = record { allow_fields = [] };
}

abbrev pub runtime : Runtime
runtime = record {
  cfg = config;
  reg = (codes "jira.search", search) ∷ [];
  tunnel_checker = some (λ name. connected true);
}

-- Every pattern compiles and matches, and every text is a sort clause.
abbrev pub lenient : Patterns
lenient = record { compile = λ p. some (λ s. true); clause = λ s. true }

abbrev pub query : Params
query = (codes "jql", str (codes "status = Done")) ∷ []

-- The query in the scope of the workspace's project.
abbrev pub scoped : Params
scoped = (codes "jql", str (codes "(status = Done) AND project in (ACME)")) ∷ []
