-- ===== src/Policy/Validation.antt =====
-- `ValidateParams` of internal/policy/registry.go.
pub mod Acceptable
use external_gateway.Prelude.{
  Bool, true, false, not, ◌&&◌, ◌||◌, Bytes, List, [], ◌∷◌, Option, none, some, Map, lookup,
  sort_entries, str_eq, codes, has_prefix, trim_prefix, contains_string, is_positive, pos_part, ltb,
  length, Result, ok, err, ◌>>=◌, ◌>>◌, guard, if◌then◌else◌, is_some, ℕ, any, ◌==◌,
}
use external_gateway.Value.{
  Value, Params, Fields, null, bool, num, str, arr, obj, as_string, exceeds, keys,
}
use external_gateway.Config
use external_gateway.Config.{Workspace, WorkspacePolicy}
use external_gateway.Policy.{
  ParamDef, Operation, PolicyError, Compile, missing_required, unknown_parameter, not_a_string,
  not_an_object, not_an_integer, not_a_boolean, too_long, exceeds_max, pattern_mismatch,
  invalid_pattern, not_one_of, key_not_allowed, not_in_allow_list,
}

abbrev pub Checked : Type 0
Checked = Result PolicyError (Unit {0})

check_pattern : Compile → Bytes → Bytes → Bytes → Checked
check_pattern compile name pattern s = if str_eq pattern [] then ok tt else elim (compile pattern) [
  | none ↦ err (invalid_pattern name)
  | some matches ↦ guard (matches s) (pattern_mismatch name)
]

within_max_len : ParamDef → Bytes → Bool
within_max_len def s = not (is_positive def.max_len && ltb (pos_part def.max_len) (length s))

check_string : Compile → Bytes → ParamDef → Value → Checked
check_string compile name def v = elim (as_string (some v)) [
  | none ↦ err (not_a_string name)
  | some s ↦ do
    guard (within_max_len def s) (too_long name)
    check_pattern compile name def.pattern s
]

check_keys : Bytes → List Bytes → List Bytes → Checked
check_keys name allowed [] = ok tt
check_keys name allowed (k ∷ ks) = do
  guard (contains_string allowed k) (key_not_allowed name k)
  check_keys name allowed ks

check_object : Bytes → ParamDef → Value → Checked
check_object name def (obj m) = elim def.keys [
  | none ↦ ok tt
  | some allowed ↦ check_keys name allowed (keys m)
]
check_object name def _ = err (not_an_object name)

check_int : Bytes → ParamDef → Value → Checked
check_int name def (num f) =
    guard (not (is_positive def.max && exceeds f (pos_part def.max))) (exceeds_max name)
check_int name def _ = err (not_an_integer name)

check_bool : Bytes → Value → Checked
check_bool name (bool b) = ok tt
check_bool name _ = err (not_a_boolean name)

abbrev workspace_prefix : Bytes
workspace_prefix = codes "$workspace."

-- Membership in a workspace allow-list; an unknown or empty list restricts nothing.
in_allow_list : Option (List Bytes) → Bytes → Bool
in_allow_list none s = true
in_allow_list (some []) s = true
in_allow_list (some (p ∷ ps)) s = contains_string (p ∷ ps) s

check_enum : WorkspacePolicy → Bytes → ParamDef → Value → Checked
check_enum policy name def v = elim (as_string (some v)) [
  | none ↦ err (not_a_string name)
  | some s ↦
      if has_prefix def.from workspace_prefix
      then (let field = trim_prefix def.from workspace_prefix in
          guard (in_allow_list (Config.list policy field) s) (not_in_allow_list name field))
      else elim def.values [
        | none ↦ ok tt
        | some allowed ↦ guard (contains_string allowed s) (not_one_of name)
      ]
]

-- The `switch def.Type`; another type is not checked.
check_value : Compile → WorkspacePolicy → Bytes → ParamDef → Value → Checked
check_value compile policy name def v =
    if str_eq def.type (codes "string")
    then check_string compile name def v
    else if str_eq def.type (codes "object")
    then check_object name def v
    else if str_eq def.type (codes "int")
    then check_int name def v
    else if str_eq def.type (codes "bool")
    then check_bool name v
    else if str_eq def.type (codes "enum")
    then check_enum policy name def v
    else ok tt

-- One round of the loop over the declared parameters.
check_param : Compile → WorkspacePolicy → Params → Bytes → ParamDef → Checked
check_param compile policy params name def = elim (lookup name params) [
  | none ↦ guard (not def.required) (missing_required name)
  | some v ↦ check_value compile policy name def v
]

check_declared : Compile → WorkspacePolicy → Params → Map ParamDef → Checked
check_declared compile policy params [] = ok tt
check_declared compile policy params ((name, def) ∷ defs) = do
  check_param compile policy params name def
  check_declared compile policy params defs

-- `env` and `cluster` select the environment and need no declaration.
is_declared : Operation → Bytes → Bool
is_declared op name =
    str_eq name (codes "env") || str_eq name (codes "cluster") || is_some (lookup name op.params)

check_known : Operation → Params → Checked
check_known op [] = ok tt
check_known op ((name, v) ∷ params) = do
  guard (is_declared op name) (unknown_parameter name)
  check_known op params

unfoldable pub validate_params : Compile → Operation → Params → Workspace → Checked
unfolding check_pattern within_max_len check_string check_keys check_object check_int check_bool
    in_allow_list check_enum check_value check_param check_declared is_declared check_known
    sort_entries lookup str_eq has_prefix trim_prefix contains_string exceeds Config.list
validate_params compile op params ws = do
  check_declared compile ws.policy params (sort_entries op.params)
  check_known op params
