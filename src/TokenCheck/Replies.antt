-- ===== src/TokenCheck/Replies.antt =====
-- How internal/tokencheck/tokencheck.go reads a reply.
use external_gateway.Prelude.{
  ℕ, ℤ, pos, is_zero, ◌&&◌, ◌||◌, Bool, true, false, not, Bytes, List, [], ◌∷◌, ◌++◌, Option, none,
  some, codes, str_eq, contains, has_prefix, has_suffix, take, trim_space, Map, map, lookup,
  sort_strings, Result, ok, err, ltb, leb, ◌==◌, ◌-◌, if◌then◌else◌, length, split, ◌≡◌, refl,
}
use external_gateway.Value.{Value, null, bool, num, str, arr, obj, Fields, end}
use external_gateway.Config.{Environment}
use external_gateway.Postgres.{to_lower, trim_suffix}
use external_gateway.Policy.Jql.{join}
use external_gateway.Server.PathTemplate.{query_escape}
use external_gateway.Redact.{find_field, or_null}
use external_gateway.TokenCheck.{
  State, accepted, rejected, unreachable, unchecked, Kind, gitlab, github, atlassian, jira_server,
  jenkins, bitbucket, kibana, clockify, authentik, slack_session, trello, postgres, imap, oauth,
  atlassian_mcp, generic, Outcome, outcome, Request, Response, SlackReply, OwnToken, Formats, Login,
  Network,
}
pub mod Justifies

-- `strings.TrimRight(s, "/")`
unfoldable pub trim_slashes : Bytes → Bytes
trim_slashes [] = []
trim_slashes (c ∷ s) =
    let rest = trim_slashes s in if c == b'/' && str_eq rest [] then [] else c ∷ rest

abbrev pub state_is_accepted : State → Bool
state_is_accepted accepted = true
state_is_accepted rejected = false
state_is_accepted unreachable = false
state_is_accepted unchecked = false

-- A message of the database that tells a wrong password.
unfoldable pub wrong_password : Bytes → Bool
unfolding contains
wrong_password msg =
    contains msg (codes "password authentication failed")
    || contains msg (codes "SASL authentication failed")
    || contains msg (codes "28P01")
    || contains msg (codes "28000")

unfoldable pub wrong_login : Bytes → Bool
unfolding contains to_lower
wrong_login msg =
    let low = to_lower msg in
    contains low (codes "auth")
    || contains low (codes "credentials")
    || contains low (codes "login")

unfoldable pub slack_outcome : ℕ → SlackReply → Outcome
slack_outcome status out = if not out.ok then outcome rejected status out.error else record {
  state = accepted;
  detail = out.url;
  identity = out.user ++ codes " @ " ++ out.team;
  expires_at = [];
  scopes = [];
  http_status = status;
}

abbrev pub or_else : Bytes → Bytes → Bytes
or_else s default = if str_eq s [] then default else s

abbrev pub port_or : ℤ → ℕ → ℤ
port_or port default = if is_zero port then pos default else port

abbrev pub names_of : {V : Type 0} → Map V → List Bytes
names_of [] = []
names_of ((k, v) ∷ m) = k ∷ names_of m

abbrev pub accepted_as : Bytes → Outcome
accepted_as identity = record {
  state = accepted;
  detail = [];
  identity = identity;
  expires_at = [];
  scopes = [];
  http_status = 0;
}

abbrev pub object_or_empty : Option Fields → Fields
object_or_empty none = end
object_or_empty (some m) = m

abbrev pub granted_scopes : Bytes → List Bytes
granted_scopes s = if str_eq s [] then [] else map trim_space (split s b',')

abbrev pub bearer : Bytes → Map Bytes
bearer token = (codes "Authorization", codes "Bearer " ++ token) ∷ []

abbrev pub get_request : Bytes → Map Bytes → Request
get_request url headers = record { method = codes "GET"; url = url; headers = headers; body = [] }

module _ (formats : Formats) where
  abbrev first_present : List Bytes → Fields → Option Value
  first_present [] m = none
  first_present (k ∷ ks) m = elim (find_field k m) [ none ↦ first_present ks m | some v ↦ some v ]

  abbrev message_keys : List Bytes
  message_keys =
      codes "error_description" ∷ codes "message" ∷ codes "error" ∷ codes "errorMessages" ∷ []

  abbrev plain_message : Bytes → Bytes
  plain_message s =
      if has_prefix s (codes "<")
      then codes "HTML page returned (login wall or proxy?)"
      else if ltb 200 (length s)
      then take 200 s
      else s

  abbrev object_message : Bytes → Option Value → Bytes
  object_message body none = plain_message (trim_space body)
  object_message body (some v) = trim_space (formats.print v)

  unfoldable pub upstream_message : Bytes → Bytes
  unfolding find_field trim_space has_prefix
  upstream_message body = elim (formats.object body) [
    | none ↦ plain_message (trim_space body)
    | some m ↦ object_message body (first_present message_keys m)
  ]

  unfoldable pub unreachable_by : Environment → Bytes → Outcome
  unfolding str_eq
  unreachable_by env message = outcome unreachable 0 (
      if str_eq env.requires_tunnel []
      then message
      else message ++ codes " (needs tunnel " ++ formats.quote env.requires_tunnel ++ codes " up)")

  unfoldable pub classify : Response → Outcome
  unfolding upstream_message
  classify resp =
      if resp.status == 401 || resp.status == 403
      then outcome rejected resp.status (upstream_message resp.body)
      else if leb 200 resp.status && ltb resp.status 300
      then outcome accepted resp.status []
      else if leb 500 resp.status
      then outcome unreachable resp.status (upstream_message resp.body)
      else outcome rejected resp.status (upstream_message resp.body)

  -- The steps along a path; what is no object has nothing below it.
  unfoldable pub walk_path : List Bytes → Value → Bytes
  unfolding find_field
  walk_path [] null = []
  walk_path [] (bool b) = formats.print (bool b)
  walk_path [] (num n) = formats.print (num n)
  walk_path [] (str s) = formats.print (str s)
  walk_path [] (arr vs) = formats.print (arr vs)
  walk_path [] (obj fs) = formats.print (obj fs)
  walk_path (p ∷ parts) null = []
  walk_path (p ∷ parts) (bool b) = []
  walk_path (p ∷ parts) (num n) = []
  walk_path (p ∷ parts) (str s) = []
  walk_path (p ∷ parts) (arr vs) = []
  walk_path (p ∷ parts) (obj fs) = walk_path parts (or_null (find_field p fs))

  -- `lookup`
  unfoldable pub lookup_path : Fields → Bytes → Bytes
  unfolding walk_path split
  lookup_path m path = walk_path (split path b'.') (obj m)

  unfoldable pub identity_parts : Fields → List Bytes → List Bytes
  unfolding lookup_path str_eq
  identity_parts m [] = []
  identity_parts m (f ∷ fields) =
      let rest = identity_parts m fields in
      if str_eq (lookup_path m f) [] then rest else lookup_path m f ∷ rest

  abbrev pub basic : Bytes → Bytes → Map Bytes
  basic user secret = (codes "Authorization", formats.basic_auth user secret) ∷ []

  -- An accepted reply is to be an object, which names the account.
  unfoldable pub identified : Response → List Bytes → Outcome → Outcome
  unfolding identity_parts upstream_message join
  identified resp fields res =
      if state_is_accepted res.state
      then elim (formats.object resp.body) [
        | none ↦
            outcome rejected resp.status
              (codes "unexpected non-JSON response: " ++ upstream_message resp.body)
        | some m ↦ record res { identity = join (codes " / ") (identity_parts m fields) }
      ]
      else res
