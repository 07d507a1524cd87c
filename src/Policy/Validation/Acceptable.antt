-- ===== src/Policy/Validation/Acceptable.antt =====
-- Which requests `ValidateParams` accepts, stated without the order of its tests.
use external_gateway.Prelude.{
  Bool, true, false, Bytes, List, [], ◌∷◌, Option, none, some, Map, lookup, sort_entries, str_eq,
  str_eq_iff, codes, has_prefix, trim_prefix, contains_string_iff, is_positive, pos_part, length,
  ok, seq-eq-ok, ◌≤◌, ◌≡◌, ◌≢◌, ◌↔◌, ◌⊎◌, inl, inr, refl, arith, All, All-sort_entries, Some,
  Option-cases,
}
use external_gateway.Value.{Value, Params, Fields, bool, num, str, obj, exceeds, keys, Float64}
use external_gateway.Config
use external_gateway.Config.{Workspace, WorkspacePolicy}
use external_gateway.Policy.{ParamDef, Operation, Compile}
use external_gateway.Policy.Validation.{
  check_pattern, within_max_len, check_string, check_keys, check_object, check_int, check_bool,
  workspace_prefix, in_allow_list, check_enum, check_value, check_param, check_declared,
  is_declared, check_known, validate_params,
}

abbrev pub StringFits : Compile → ParamDef → Value → Type 0
StringFits compile def v =
    (s : Bytes) × (v ≡ str s)
    × ((is_positive def.max_len ≡ true) → length s ≤ pos_part def.max_len)
    × ((def.pattern ≢ [])
        → (matches : Bytes → Bool) × (compile def.pattern ≡ some matches) × (matches s ≡ true))

abbrev pub ObjectFits : ParamDef → Value → Type 0
ObjectFits def v =
    (m : Fields) × (v ≡ obj m)
    × ((allowed : List Bytes)
        → def.keys ≡ some allowed
        → All (λ k. Some (λ a. a ≡ k) allowed) (keys m))

abbrev pub IntFits : ParamDef → Value → Type 0
IntFits def v =
    (f : Float64) × (v ≡ num f)
    × ((is_positive def.max ≡ true) → exceeds f (pos_part def.max) ≡ false)

abbrev pub BoolFits : Value → Type 0
BoolFits v = (b : Bool) × (v ≡ bool b)

check_pattern_sound :
    (compile : Compile) (name pattern s : Bytes)
    → check_pattern compile name pattern s ≡ ok tt
    → pattern ≢ []
    → (matches : Bytes → Bool) × (compile pattern ≡ some matches) × (matches s ≡ true)
unfolding check_pattern
check_pattern_sound compile name pattern s h ne = elim (Option-cases (compile pattern)) [
  | inl e ↦ absurd (ground (arith, str_eq_iff pattern []))
  | inr (m, e) ↦ (m, e, ground (arith, str_eq_iff pattern []))
]

check_string_sound :
    (compile : Compile) (name : Bytes) (def : ParamDef) (v : Value)
    → check_string compile name def v ≡ ok tt
    → StringFits compile def v
unfolding check_string within_max_len
check_string_sound compile name def (str s) h =
    (s, refl, λ p. ground arith, check_pattern_sound compile name def.pattern s (ground arith))
check_string_sound compile name def _ h = cc

check_keys_sound :
    (name : Bytes) (allowed ks : List Bytes)
    → check_keys name allowed ks ≡ ok tt
    → All (λ k. Some (λ a. a ≡ k) allowed) ks
unfolding check_keys
check_keys_sound name allowed [] h = tt
check_keys_sound name allowed (k ∷ ks) h = (
  (contains_string_iff allowed k).0 (ground arith),
  check_keys_sound name allowed ks (ground arith),
)

check_object_sound :
    (name : Bytes) (def : ParamDef) (v : Value) → check_object name def v ≡ ok tt → ObjectFits def v
unfolding check_object
check_object_sound name def (obj m) h =
    (m, refl, λ allowed e. check_keys_sound name allowed (keys m) (ground arith))
check_object_sound name def _ h = cc

check_int_sound :
    (name : Bytes) (def : ParamDef) (v : Value) → check_int name def v ≡ ok tt → IntFits def v
unfolding check_int
check_int_sound name def (num f) h = (f, refl, λ p. ground arith)
check_int_sound name def _ h = cc

check_bool_sound : (name : Bytes) (v : Value) → check_bool name v ≡ ok tt → BoolFits v
unfolding check_bool
check_bool_sound name (bool b) h = (b, refl)
check_bool_sound name _ h = cc

-- An enum value is a string; where it is drawn from a configured, nonempty workspace list or from
-- the listed values it is one of those.
abbrev pub EnumFits : WorkspacePolicy → ParamDef → Value → Type 0
EnumFits policy def v =
    (s : Bytes) × (v ≡ str s)
    × ((has_prefix def.from workspace_prefix ≡ true)
        → (allowed : List Bytes)
        → Config.list policy (trim_prefix def.from workspace_prefix) ≡ some allowed
        → allowed ≢ []
        → Some (λ a. a ≡ s) allowed)
    × ((has_prefix def.from workspace_prefix ≡ false)
        → (allowed : List Bytes) → def.values ≡ some allowed
        → Some (λ a. a ≡ s) allowed)

in_allow_list_sound :
    (o : Option (List Bytes)) (s : Bytes) (allowed : List Bytes)
    → in_allow_list o s ≡ true
    → o ≡ some allowed
    → allowed ≢ []
    → Some (λ a. a ≡ s) allowed
unfolding in_allow_list
in_allow_list_sound none s allowed h e ne = cc
in_allow_list_sound (some []) s allowed h e ne = absurd (ne (ground arith))
in_allow_list_sound (some (p ∷ ps)) s allowed h e ne =
    (contains_string_iff allowed s).0 (ground arith)

check_enum_sound :
    (policy : WorkspacePolicy) (name : Bytes) (def : ParamDef) (v : Value)
    → check_enum policy name def v ≡ ok tt
    → EnumFits policy def v
unfolding check_enum
check_enum_sound policy name def (str s) h = (
  s,
  refl,
  λ p allowed e ne. in_allow_list_sound _ s allowed (ground arith) e ne,
  λ p allowed e. (contains_string_iff allowed s).0 (ground arith),
)
check_enum_sound policy name def _ h = cc

-- The value fits the parameter's declared type.
pub record ValueFits (compile : Compile) (policy : WorkspacePolicy) (def : ParamDef) (v : Value)
    : Type 0 where
  pub as_text : def.type ≡ codes "string" → StringFits compile def v
  pub as_object : def.type ≡ codes "object" → ObjectFits def v
  pub as_int : def.type ≡ codes "int" → IntFits def v
  pub as_bool : def.type ≡ codes "bool" → BoolFits v
  pub as_enum : def.type ≡ codes "enum" → EnumFits policy def v

check_value_sound :
    (compile : Compile) (policy : WorkspacePolicy) (name : Bytes) (def : ParamDef) (v : Value)
    → check_value compile policy name def v ≡ ok tt
    → ValueFits compile policy def v
unfolding check_value str_eq
check_value_sound compile policy name def v h = record {
  as_text = λ e. check_string_sound compile name def v (simp e at h);
  as_object = λ e. check_object_sound name def v (simp e at h);
  as_int = λ e. check_int_sound name def v (simp e at h);
  as_bool = λ e. check_bool_sound name v (simp e at h);
  as_enum = λ e. check_enum_sound policy name def v (simp e at h);
}

-- A declared parameter is present if it is required, and a present one fits its type.
abbrev pub ParamFits : Compile → WorkspacePolicy → Params → Bytes × ParamDef → Type 0
ParamFits compile policy params entry =
    ((entry.1.required ≡ true) → lookup entry.0 params ≢ none)
    × ((v : Value) → lookup entry.0 params ≡ some v → ValueFits compile policy entry.1 v)

check_param_sound :
    (compile : Compile) (policy : WorkspacePolicy) (params : Params) (name : Bytes) (def : ParamDef)
    → check_param compile policy params name def ≡ ok tt
    → ParamFits compile policy params (name, def)
unfolding check_param
check_param_sound compile policy params name def h =
    (λ r. ground arith, λ v e. check_value_sound compile policy name def v (ground arith))

check_declared_sound :
    (compile : Compile) (policy : WorkspacePolicy) (params : Params) (defs : Map ParamDef)
    → check_declared compile policy params defs ≡ ok tt
    → All (ParamFits compile policy params) defs
unfolding check_declared
check_declared_sound compile policy params [] h = tt
check_declared_sound compile policy params ((name, def) ∷ defs) h =
    let (here, later) =
      (seq-eq-ok (check_param compile policy params name def)
          (check_declared compile policy params defs)).0
        h in
    (
      check_param_sound compile policy params name def here,
      check_declared_sound compile policy params defs later,
    )

-- The parameter is declared by the operation, or selects the environment.
abbrev pub IsKnown : Operation → Bytes × Value → Type 0
IsKnown op entry =
    (entry.0 ≡ codes "env") ⊎ (entry.0 ≡ codes "cluster") ⊎ (lookup entry.0 op.params ≢ none)

check_known_iff :
    (op : Operation) (params : Params) → (check_known op params ≡ ok tt) ↔ All (IsKnown op) params
unfolding check_known is_declared
check_known_iff op [] = ground arith
check_known_iff op ((name, v) ∷ params) = ground (
  arith,
  check_known_iff op params,
  str_eq_iff name (codes "env"),
  str_eq_iff name (codes "cluster"),
)

pub record IsAcceptable (compile : Compile) (op : Operation) (params : Params) (ws : Workspace)
    : Type 0 where
  pub declared : All (ParamFits compile ws.policy params) op.params
  pub known : All (IsKnown op) params

-- If `ValidateParams` accepts a request then every required parameter is present, every present
-- declared parameter fits its type with its length, pattern, keys, maximum, allow-list or values,
-- and every parameter sent is declared by the operation or is `env` or `cluster`.
pub validate_params-IsAcceptable :
    (compile : Compile) (op : Operation) (params : Params) (ws : Workspace)
    → validate_params compile op params ws ≡ ok tt
    → IsAcceptable compile op params ws
unfolding validate_params
validate_params-IsAcceptable compile op params ws h =
    let (declared, known) =
      (seq-eq-ok (check_declared compile ws.policy params (sort_entries op.params))
          (check_known op params)).0
        h in
    record {
      declared =
          (All-sort_entries (ParamFits compile ws.policy params) op.params).0
            (check_declared_sound compile ws.policy params (sort_entries op.params) declared);
      known = (check_known_iff op params).0 known;
    }
