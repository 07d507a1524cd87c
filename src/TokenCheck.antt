-- ===== src/TokenCheck.antt =====
-- internal/tokencheck/tokencheck.go: which kind of credential a site uses, and the outcome of a
-- check. The network, JSON and the text formats of Go's library are parameters.
use external_gateway.Prelude.{
  ℕ, ℤ, pos, is_zero, ◌&&◌, ◌||◌, Bool, true, false, not, Bytes, List, [], ◌∷◌, ◌++◌, Option, none,
  some, codes, str_eq, contains, has_prefix, has_suffix, take, drop, trim_space, is_some, Map,
  Result, ok, err, ltb, leb, ◌==◌, if◌then◌else◌, length, split, ◌≡◌, refl,
}
use external_gateway.Value.{Value, null, Fields, obj}
use external_gateway.Config.{Environment}
use external_gateway.Postgres.{to_lower}
use external_gateway.Redact.{find_field}
pub mod Replies
pub mod Checks

pub data State : Type 0 where
  accepted : State
  rejected : State
  unreachable : State
  unchecked : State

pub data Kind : Type 0 where
  gitlab : Kind
  github : Kind
  atlassian : Kind
  jira_server : Kind
  jenkins : Kind
  bitbucket : Kind
  kibana : Kind
  clockify : Kind
  authentik : Kind
  slack_session : Kind
  trello : Kind
  postgres : Kind
  imap : Kind
  oauth : Kind
  atlassian_mcp : Kind
  generic : Kind

pub record Outcome : Type 0 where
  pub state : State
  pub detail : Bytes
  pub identity : Bytes
  pub expires_at : Bytes
  pub scopes : List Bytes
  pub http_status : ℕ

-- `Result{State: …, HTTPStatus: …, Detail: …}`
abbrev pub outcome : State → ℕ → Bytes → Outcome
outcome state status detail = record {
  state = state;
  detail = detail;
  identity = [];
  expires_at = [];
  scopes = [];
  http_status = status;
}

unfoldable pub detect_kind : Bytes → Environment → Kind
unfolding str_eq contains has_prefix has_suffix to_lower
detect_kind site env =
    let base = to_lower env.base_url in
    if is_some env.oauth
    then oauth
    else if str_eq env.auth.type (codes "slack-session")
    then slack_session
    else if str_eq env.auth.type (codes "trello")
    then trello
    else if str_eq env.auth.type (codes "api-key") && contains base (codes "clockify")
    then clockify
    else if contains base (codes "mcp.atlassian.com")
    then atlassian_mcp
    else if contains base (codes "atlassian.net")
    then atlassian
    else if contains base (codes "gitlab")
    then gitlab
    else if contains base (codes "api.github.com")
    then github
    else if contains base (codes "api.bitbucket.org")
    then bitbucket
    else if str_eq site (codes "postgres") || ltb 0 (length env.databases)
    then postgres
    else if str_eq site (codes "gmail")
        || str_eq site (codes "email")
        || not (str_eq env.imap_host [])
        || str_eq env.base_url [] && has_prefix env.host (codes "imap.")
    then imap
    else if str_eq site (codes "jenkins")
    then jenkins
    else if str_eq site (codes "kibana")
    then kibana
    else if str_eq site (codes "authentik")
    then authentik
    else if has_suffix site (codes "jira")
    then jira_server
    else generic

unfoldable pub checkable : Kind → Bool
checkable oauth = false
checkable atlassian_mcp = false
checkable generic = false
checkable gitlab = true
checkable github = true
checkable atlassian = true
checkable jira_server = true
checkable jenkins = true
checkable bitbucket = true
checkable kibana = true
checkable clockify = true
checkable authentik = true
checkable slack_session = true
checkable trello = true
checkable postgres = true
checkable imap = true

pub record Request : Type 0 where
  pub method : Bytes
  pub url : Bytes
  pub headers : Map Bytes
  pub body : Bytes

pub record Response : Type 0 where
  pub status : ℕ
  pub header : Bytes → Bytes
  pub body : Bytes

-- The reply of `auth.test`.
pub record SlackReply : Type 0 where
  pub ok : Bool
  pub error : Bytes
  pub user : Bytes
  pub team : Bytes
  pub url : Bytes

-- The reply of `personal_access_tokens/self`.
pub record OwnToken : Type 0 where
  pub name : Bytes
  pub expires_at : Bytes
  pub scopes : List Bytes

-- Decoders of JSON into an object, into `self` and into `out`; `fmt.Sprint`; `%q`; and the header of
-- `SetBasicAuth`.
pub record Formats : Type 0 where
  pub object : Bytes → Option Fields
  pub own_token : Bytes → Option OwnToken
  pub slack_reply : Bytes → Option SlackReply
  pub print : Value → Bytes
  pub quote : Bytes → Bytes
  pub basic_auth : Bytes → Bytes → Bytes

pub record Login : Type 0 where
  pub host : Bytes
  pub port : ℤ
  pub user : Bytes
  pub password : Bytes
  pub database : Bytes
  pub ssl_mode : Bytes

-- The services: what the first or a further request is replied, and the message with which a
-- database or a mail server refuses a login, if it does.
pub record Network : Type 0 where
  pub send : ℕ → Request → Result Bytes Response
  pub connect : Login → Option Bytes
  pub mailboxes : Login → Option Bytes
