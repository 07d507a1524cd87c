-- ===== src/TokenCheck/Checks.antt =====
-- The checks of internal/tokencheck/tokencheck.go.
use external_gateway.Prelude.{
  ℕ, ℤ, pos, is_zero, ◌&&◌, ◌||◌, Bool, true, false, not, Bytes, List, [], ◌∷◌, ◌++◌, Option, none,
  some, codes, str_eq, contains, has_prefix, has_suffix, take, trim_space, Map, map, lookup,
  sort_strings, Result, ok, err, ltb, leb, ◌==◌, ◌-◌, if◌then◌else◌, length, split, ◌≡◌, refl,
}
use external_gateway.Value.{Value, null, bool, num, str, arr, obj, Fields, end}
use external_gateway.Config.{Environment}
use external_gateway.Postgres.{to_lower, trim_suffix}
use external_gateway.Policy.Jql.{join}
use external_gateway.Server.PathTemplate.{query_escape}
use external_gateway.Redact.{find_field, or_null}
use external_gateway.TokenCheck.{
  State, accepted, rejected, unreachable, unchecked, Kind, gitlab, github, atlassian, jira_server,
  jenkins, bitbucket, kibana, clockify, authentik, slack_session, trello, postgres, imap, oauth,
  atlassian_mcp, generic, Outcome, outcome, Request, Response, SlackReply, OwnToken, Formats, Login,
  Network,
}
use external_gateway.TokenCheck.Replies.{
  accepted_as, basic, bearer, classify, get_request, granted_scopes, identified, identity_parts,
  lookup_path, names_of, object_or_empty, or_else, port_or, slack_outcome, state_is_accepted,
  trim_slashes, unreachable_by, upstream_message, walk_path, wrong_login, wrong_password,
}
pub mod Fits
pub mod Justified

module _ (formats : Formats) (net : Network) (env : Environment) where
  unfoldable pub check_json : Request → List Bytes → Outcome
  unfolding unreachable_by classify identified
  check_json req fields = elim (net.send 1 req) [
    | err message ↦ unreachable_by formats env message
    | ok resp ↦ identified formats resp fields (classify formats resp)
  ]

  abbrev api_url : Bytes → Bytes
  api_url path = trim_slashes env.base_url ++ path

  abbrev with_own_token : Outcome → OwnToken → Outcome
  with_own_token res token = record {
    state = res.state;
    detail = if str_eq token.name [] then res.detail else codes "token name: " ++ token.name;
    identity = res.identity;
    expires_at = token.expires_at;
    scopes = token.scopes;
    http_status = res.http_status;
  }

  -- What the token says of itself, where GitLab tells.
  unfoldable pub described : Result Bytes Response → Outcome → Outcome
  unfolding str_eq
  described (err message) res = res
  described (ok resp) res =
      if resp.status == 200
      then elim (formats.own_token resp.body) [ none ↦ res | some token ↦ with_own_token res token ]
      else res

  abbrev pub user_request : Bytes → Request
  user_request token = get_request (api_url (codes "/user")) (bearer token)

  abbrev pub own_token_request : Bytes → Request
  own_token_request token =
      get_request (api_url (codes "/personal_access_tokens/self")) (bearer token)

  unfoldable pub check_gitlab : Bytes → Outcome
  unfolding check_json described trim_slashes
  check_gitlab token =
      let res = check_json (user_request token) (codes "username" ∷ codes "name" ∷ []) in
      if state_is_accepted res.state
      then described (net.send 2 (own_token_request token)) res
      else res

  unfoldable pub with_github_headers : Response → Outcome → Outcome
  unfolding lookup_path trim_space split str_eq
  with_github_headers resp res =
      if state_is_accepted res.state
      then record {
        state = res.state;
        detail = res.detail;
        identity = lookup_path formats (object_or_empty (formats.object resp.body)) (codes "login");
        expires_at = resp.header (codes "github-authentication-token-expiration");
        scopes = granted_scopes (resp.header (codes "X-OAuth-Scopes"));
        http_status = res.http_status;
      }
      else res

  unfoldable pub check_github : Bytes → Outcome
  unfolding unreachable_by classify with_github_headers trim_slashes
  check_github token = elim (net.send 1 (user_request token)) [
    | err message ↦ unreachable_by formats env message
    | ok resp ↦ with_github_headers resp (classify formats resp)
  ]

  abbrev pub slack_request : Bytes → Bytes → Request
  slack_request xoxc xoxd = record {
    method = codes "POST";
    url = api_url (codes "/auth.test");
    headers =
        (codes "Content-Type", codes "application/x-www-form-urlencoded")
        ∷ (codes "Cookie", codes "d=" ++ xoxd)
        ∷ [];
    body = codes "token=" ++ query_escape xoxc;
  }

  unfoldable pub slack_replied : Response → Outcome
  unfolding classify slack_outcome
  slack_replied resp = elim (formats.slack_reply resp.body) [
    | none ↦ classify formats resp
    | some out ↦ slack_outcome resp.status out
  ]

  unfoldable pub check_slack : Bytes → Bytes → Outcome
  unfolding unreachable_by slack_replied query_escape trim_slashes str_eq
  check_slack xoxc xoxd =
      if str_eq xoxd []
      then outcome unchecked 0 (codes "needs both the xoxc token and the d (xoxd) cookie")
      else elim (net.send 1 (slack_request xoxc xoxd)) [
        | err message ↦ unreachable_by formats env message
        | ok resp ↦ slack_replied resp
      ]

  -- The database that the check connects to.
  unfoldable pub first_database : List Bytes → Bytes
  unfolding lookup
  first_database [] = codes "postgres"
  first_database (name ∷ names) = elim (lookup name env.databases) [
    | none ↦ codes "postgres"
    | some d ↦ or_else d.db (codes "postgres")
  ]

  unfoldable pub postgres_login : Bytes → Login
  unfolding first_database sort_strings str_eq
  postgres_login password = record {
    host = or_else env.host env.base_url;
    port = port_or env.port 5432;
    user = env.user;
    password = password;
    database = first_database (sort_strings (names_of env.databases));
    ssl_mode = env.ssl_mode;
  }

  unfoldable pub check_postgres : Bytes → Outcome
  unfolding postgres_login wrong_password unreachable_by
  check_postgres password = elim (net.connect (postgres_login password)) [
    | none ↦ accepted_as (env.user ++ b'@' ∷ (postgres_login password).database)
    | some msg ↦
        if wrong_password msg then outcome rejected 0 msg else unreachable_by formats env msg
  ]

  unfoldable pub imap_login : Bytes → Login
  unfolding str_eq
  imap_login password = record {
    host = or_else (or_else env.imap_host env.host) env.base_url;
    port = port_or env.imap_port 993;
    user = env.user;
    password = password;
    database = [];
    ssl_mode = [];
  }

  unfoldable pub check_imap : Bytes → Outcome
  unfolding imap_login wrong_login unreachable_by
  check_imap password = elim (net.mailboxes (imap_login password)) [
    | none ↦ accepted_as env.user
    | some msg ↦ if wrong_login msg then outcome rejected 0 msg else unreachable_by formats env msg
  ]

  abbrev pub get_json : Bytes → Map Bytes → List Bytes → Outcome
  get_json path headers fields = check_json (get_request (api_url path) headers) fields

  -- The check of trimmed values, of which the first is not empty.
  unfoldable pub check_kind : Kind → Bytes → Bytes → Outcome
  unfolding check_json check_gitlab check_github check_slack check_postgres check_imap trim_suffix
      trim_slashes query_escape
  check_kind gitlab primary secondary = check_gitlab primary
  check_kind github primary secondary = check_github primary
  check_kind atlassian primary secondary =
      check_json
        (get_request
          (trim_suffix (trim_slashes env.base_url) (codes "/wiki") ++ codes "/rest/api/3/myself")
          (basic formats env.user primary))
        (codes "displayName" ∷ codes "emailAddress" ∷ [])
  check_kind jira_server primary secondary =
      get_json (codes "/rest/api/2/myself")
        (if str_eq env.auth.type (codes "bearer")
          then bearer primary
          else basic formats env.user primary)
        (codes "displayName" ∷ codes "name" ∷ [])
  check_kind jenkins primary secondary =
      get_json (codes "/me/api/json") (basic formats env.user primary)
        (codes "fullName" ∷ codes "id" ∷ [])
  check_kind bitbucket primary secondary =
      get_json (codes "/2.0/user") (basic formats env.user primary)
        (codes "display_name" ∷ codes "username" ∷ [])
  check_kind kibana primary secondary =
      if str_eq env.base_url []
      then outcome unchecked 0 (codes "no base_url configured")
      else get_json (codes "/api/status") (basic formats env.user primary) (codes "name" ∷ [])
  check_kind clockify primary secondary =
      get_json (codes "/user") ((or_else env.auth.header (codes "X-Api-Key"), primary) ∷ [])
        (codes "name" ∷ codes "email" ∷ [])
  check_kind authentik primary secondary =
      get_json (codes "/api/v3/core/users/me/") (bearer primary)
        (codes "user.username" ∷ codes "user.email" ∷ [])
  check_kind slack_session primary secondary = check_slack primary secondary
  check_kind trello primary secondary =
      if str_eq secondary []
      then outcome unchecked 0 (codes "needs both the API key and the token")
      else get_json
          (codes "/members/me?key="
            ++ query_escape primary
            ++ codes "&token="
            ++ query_escape secondary)
          [] (codes "username" ∷ codes "fullName" ∷ [])
  check_kind postgres primary secondary = check_postgres primary
  check_kind imap primary secondary = check_imap primary
  check_kind oauth primary secondary =
      outcome unchecked 0 (codes "no automatic check for this credential type")
  check_kind atlassian_mcp primary secondary =
      outcome unchecked 0 (codes "no automatic check for this credential type")
  check_kind generic primary secondary =
      outcome unchecked 0 (codes "no automatic check for this credential type")

  -- `Check`
  unfoldable pub check : Kind → Bytes → Bytes → Outcome
  unfolding check_kind trim_space
  check kind primary secondary =
      if str_eq (trim_space primary) []
      then outcome unchecked 0 (codes "no value")
      else check_kind kind (trim_space primary) (trim_space secondary)
