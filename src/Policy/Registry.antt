-- ===== src/Policy/Registry.antt =====
-- `NewRegistry`, `loadFromFile` and `registerBuiltIn` of internal/policy/registry.go. Reading and
-- parsing the file come before: the operations arrive as the map that YAML gives.
use external_gateway.Prelude.{
  ℕ, Bool, true, false, not, ◌&&◌, ◌||◌, Bytes, List, [], ◌∷◌, Option, none, some, codes, str_eq,
  Map, lookup, insert, is_some, ℤ, pos, Result, ok, err, ◌>>=◌, ◌>>◌, guard, if◌then◌else◌,
}
use external_gateway.Value.{Value, num}
use external_gateway.Policy.{
  MultipartSpec, ParamDef, ResponsePolicy, Operation, PolicyError, bad_multipart, bad_pattern,
  Compile,
}
pub mod Loading

abbrev pub Loaded : Type 0 → Type 0
Loaded = Result PolicyError

unfoldable pub multipart_complete : Operation → MultipartSpec → Bool
unfolding str_eq lookup
multipart_complete op mp = not (
    str_eq mp.field []
    || not (is_some (lookup mp.filename_param op.params))
    || not (is_some (lookup mp.content_param op.params))
    || not (str_eq op.body_template []))

-- `op.ID = id`
unfoldable pub with_id : Bytes → Operation → Operation
with_id id op = record {
  id = id;
  connector = op.connector;
  site = op.site;
  method = op.method;
  path = op.path;
  params = op.params;
  body_template = op.body_template;
  headers = op.headers;
  multipart = op.multipart;
  slack_file_content = op.slack_file_content;
  constraints = op.constraints;
  response = op.response;
}

module _ (compile : Compile) where
  -- The loop over an operation's parameters.
  unfoldable pub check_patterns : Bytes → Map ParamDef → Loaded (Unit {0})
  unfolding str_eq
  check_patterns id [] = ok tt
  check_patterns id ((name, def) ∷ defs) =
      let rest = check_patterns id defs in
      if str_eq def.pattern [] || is_some (compile def.pattern)
      then rest
      else err (bad_pattern id name)

  unfoldable pub check_multipart : Bytes → Operation → Loaded (Unit {0})
  unfolding multipart_complete
  check_multipart id op = elim (op.multipart) [
    | none ↦ ok tt
    | some mp ↦ if multipart_complete op mp then ok tt else err (bad_multipart id)
  ]

  -- The loop of `loadFromFile`.
  unfoldable pub load_each : Map Operation → Map Operation → Loaded (Map Operation)
  load_each [] reg = ok reg
  load_each ((id, op) ∷ ops) reg = do
    check_patterns id op.params
    check_multipart id op
    load_each ops (insert id (with_id id op) reg)

-- A parameter with nothing set but its type and whether it is required.
abbrev plain_param : Bytes → Bool → ParamDef
plain_param type required = record {
  type = type;
  required = required;
  from = [];
  values = none;
  max = pos 0;
  max_len = pos 0;
  pattern = [];
  keys = none;
  default = none;
  multi_segment = false;
}

abbrev limited_text : ℕ → Bool → ParamDef
limited_text max_len required = record {
  type = codes "string";
  required = required;
  from = [];
  values = none;
  max = pos 0;
  max_len = pos max_len;
  pattern = [];
  keys = none;
  default = none;
  multi_segment = false;
}

-- `"maxResults": {Type: "int", Max: 100, Default: 50}`
abbrev max_results : ParamDef
max_results = record {
  type = codes "int";
  required = false;
  from = [];
  values = none;
  max = pos 100;
  max_len = pos 0;
  pattern = [];
  keys = none;
  default = some (num (record { negative = false; mant = 50; scale = 0 }));
  multi_segment = false;
}

-- `"type": {Type: "enum", Values: ..., Required: true}`
abbrev issue_type : ParamDef
issue_type = record {
  type = codes "enum";
  required = true;
  from = [];
  values = some (codes "Bug" ∷ codes "Task" ∷ codes "Story" ∷ []);
  max = pos 0;
  max_len = pos 0;
  pattern = [];
  keys = none;
  default = none;
  multi_segment = false;
}

-- An operation with the fields that the built-in ones set.
abbrev built_in :
    Bytes → Bytes → Bytes → Bytes → Bytes → Map ParamDef → Bytes → List Bytes → Operation
built_in id connector site method path params body_template allow_fields = record {
  id = id;
  connector = connector;
  site = site;
  method = method;
  path = path;
  params = params;
  body_template = body_template;
  headers = [];
  multipart = none;
  slack_file_content = false;
  constraints = [];
  response = record { allow_fields = allow_fields };
}

abbrev jira_search : Operation
jira_search =
    built_in (codes "jira.search") (codes "http-rest") (codes "jira") (codes "POST")
      (codes "/rest/api/3/search/jql")
      ((codes "jql", plain_param (codes "string") true) ∷ (codes "maxResults", max_results) ∷ []) []
      (codes "issues[].key" ∷ codes "issues[].fields.summary" ∷ codes "issues[].fields.status" ∷ [])

abbrev jira_create : Operation
jira_create =
    built_in (codes "jira.create") (codes "http-rest") (codes "jira") (codes "POST")
      (codes "/rest/api/2/issue")
      ((codes "project", plain_param (codes "enum") true)
        ∷ (codes "type", issue_type)
        ∷ (codes "summary", limited_text 255 true)
        ∷ (codes "description", limited_text 8000 false)
        ∷ [])
      (codes
        "{\"fields\":{\"project\":{\"key\":\"{{project}}\"},\"issuetype\":{\"name\":\"{{type}}\"},\"summary\":\"{{summary}}\",\"description\":\"{{description}}\"}}")
      []

abbrev jira_comment : Operation
jira_comment =
    built_in (codes "jira.comment") (codes "http-rest") (codes "jira") (codes "POST")
      (codes "/rest/api/3/issue/{issueKey}/comment")
      ((codes "issueKey", plain_param (codes "string") true)
        ∷ (codes "body", limited_text 8000 true)
        ∷ [])
      [] []

abbrev jira_status : Operation
jira_status =
    built_in (codes "jira.status") (codes "http-rest") (codes "jira") (codes "GET")
      (codes "/rest/api/3/issue/{issueKey}/transitions")
      ((codes "issueKey", plain_param (codes "string") true) ∷ []) [] []

abbrev pg_query : Operation
pg_query =
    built_in (codes "pg.query") (codes "postgres") (codes "postgres") [] []
      ((codes "env", plain_param (codes "string") true)
        ∷ (codes "db", plain_param (codes "string") true)
        ∷ (codes "sql", plain_param (codes "string") true)
        ∷ [])
      [] []

abbrev pub register_built_in : Map Operation → Map Operation
register_built_in reg = insert (codes "pg.query") pg_query (
    insert (codes "jira.status") jira_status (
      insert (codes "jira.comment") jira_comment
        (insert (codes "jira.create") jira_create (insert (codes "jira.search") jira_search reg))))

-- `len(reg.Operations) == 0` calls for the built-in ones.
abbrev or_built_in : Map Operation → Map Operation
or_built_in [] = register_built_in []
or_built_in (op ∷ ops) = op ∷ ops

-- `NewRegistry`, with the operations of the file where there is one.
unfoldable pub new_registry : Compile → Option (Map Operation) → Loaded (Map Operation)
unfolding load_each
new_registry compile none = ok (or_built_in [])
new_registry compile (some ops) = do reg ← load_each compile ops []; ok (or_built_in reg)
