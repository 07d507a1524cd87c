-- ===== src/Policy.antt =====
-- internal/policy/registry.go: operations, their parameters and the registry.
pub mod Validation
pub mod Registry
pub mod Jql
pub mod Constraints
use external_gateway.Prelude.{
  Bool, Bytes, List, [], ◌∷◌, Option, none, some, Map, lookup, insert, ℤ, is_some, if◌then◌else◌,
}
use external_gateway.Value.{Value, Params}

pub record MultipartSpec : Type 0 where
  pub field : Bytes
  pub filename_param : Bytes
  pub content_param : Bytes

-- `values` and `keys` are `none` where the Go slice is nil, `default` where the interface is nil.
pub record ParamDef : Type 0 where
  pub type : Bytes
  pub required : Bool
  pub from : Bytes
  pub values : Option (List Bytes)
  pub max : ℤ
  pub max_len : ℤ
  pub pattern : Bytes
  pub keys : Option (List Bytes)
  pub default : Option Value
  pub multi_segment : Bool

pub record ResponsePolicy : Type 0 where
  pub allow_fields : List Bytes

pub record Operation : Type 0 where
  pub id : Bytes
  pub connector : Bytes
  pub site : Bytes
  pub method : Bytes
  pub path : Bytes
  pub params : Map ParamDef
  pub body_template : Bytes
  pub headers : Map Bytes
  pub multipart : Option MultipartSpec
  pub slack_file_content : Bool
  pub constraints : List (Map Value)
  pub response : ResponsePolicy

-- Everything that a refusal of the policy layer can say, with the names that it cites.
pub data PolicyError : Type 0 where
  missing_required unknown_parameter : Bytes → PolicyError
  not_a_string not_an_object not_an_integer not_a_boolean : Bytes → PolicyError
  too_long exceeds_max pattern_mismatch invalid_pattern not_one_of : Bytes → PolicyError
  key_not_allowed not_in_allow_list : Bytes → Bytes → PolicyError
  jql_required jql_parenthesis jql_unbalanced jql_order_by : PolicyError
  no_projects : Bytes → PolicyError
  bad_multipart : Bytes → PolicyError
  bad_pattern : Bytes → Bytes → PolicyError

-- A pattern that `regexp.Compile` accepts is its `MatchString`.
abbrev pub Compile : Type 0
Compile = Bytes → Option (Bytes → Bool)

unfoldable pub get : Map Operation → Bytes → Option Operation
unfolding lookup
get operations id = lookup id operations

-- One round of the loop of `ApplyDefaults`.
default_param : Bytes → ParamDef → Params → Params
default_param name def params = elim def.default [
  | none ↦ params
  | some v ↦ if is_some (lookup name params) then params else insert name v params
]

apply_from : Map ParamDef → Params → Params
apply_from [] params = params
apply_from ((name, def) ∷ defs) params = apply_from defs (default_param name def params)

-- `none` is a nil map, which stays nil.
unfoldable pub apply_defaults : Operation → Option Params → Option Params
unfolding default_param apply_from lookup insert
apply_defaults op none = none
apply_defaults op (some params) = some (apply_from op.params params)
