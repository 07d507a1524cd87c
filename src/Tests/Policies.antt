-- ===== src/Tests/Policies.antt =====
-- The policy layer and the configuration at the small configuration.
use external_gateway.Prelude.{
  Bool, true, Bytes, [], ◌∷◌, none, some, codes, lookup, ok, ◌≡◌, ◌↔◌, refl, arith, insert,
}
use external_gateway.Config.Validate.{validate, IsValid, validate_iff}
use external_gateway.Policy.Validation.{validate_params}
use external_gateway.Policy.Validation.Acceptable.{IsAcceptable, validate_params-IsAcceptable}
use external_gateway.Policy.Jql.{check_jql_scope, effective_projects}
use external_gateway.Policy.Jql.Scope.{IsConfined, check_jql_scope-IsConfined}
use external_gateway.Policy.Constraints.{check_constraints, check_constraints_others}
use external_gateway.Policy.Registry.{new_registry}
use external_gateway.Policy.Registry.Loading.{AllLoaded, new_registry-AllLoaded}
use external_gateway.Tests.Fixtures.{config, acme, search, lenient, query, scoped}

abbrev any_clause : Bytes → Bool
any_clause s = true

validate_iff_example : (validate any_clause config ≡ ok tt) ↔ IsValid any_clause config
validate_iff_example = validate_iff any_clause config

validate_params-IsAcceptable_example : IsAcceptable lenient.compile search query acme
unfolding validate_params
validate_params-IsAcceptable_example =
    validate_params-IsAcceptable lenient.compile search query acme refl

check_jql_scope-IsConfined_example :
    IsConfined any_clause (effective_projects none acme) query scoped
unfolding check_jql_scope
check_jql_scope-IsConfined_example =
    check_jql_scope-IsConfined any_clause none acme query scoped refl (λ e. ground arith)

check_constraints_others_example : lookup (codes "other") scoped ≡ lookup (codes "other") query
unfolding check_constraints
check_constraints_others_example =
    check_constraints_others any_clause search acme query scoped (codes "other") refl
      (λ e. ground arith)

-- The operation under its own id.
loads :
    new_registry lenient.compile (some ((codes "jira.search", search) ∷ []))
    ≡ ok ((codes "jira.search", search) ∷ [])
unfolding new_registry insert external_gateway.Policy.Registry.check_patterns
    external_gateway.Policy.Registry.check_multipart external_gateway.Policy.Registry.with_id
loads = refl

new_registry-AllLoaded_example : AllLoaded lenient.compile ((codes "jira.search", search) ∷ [])
new_registry-AllLoaded_example =
    new_registry-AllLoaded lenient.compile (some ((codes "jira.search", search) ∷ []))
      ((codes "jira.search", search) ∷ []) loads
