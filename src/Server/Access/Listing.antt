-- ===== src/Server/Access/Listing.antt =====
-- `grantedOperations` lists exactly what the agent may run.
use external_gateway.Prelude.{
  Bool, Bytes, List, [], ◌∷◌, Option, none, some, Map, lookup, insert, lookup-insert,
  contains_string, str_eq_iff, if◌then◌else◌, ◌≡◌, ◌∙◌, refl, arith, Option-cases, Bool-cases, inl,
  inr,
}
use external_gateway.Config.{Config, Agent, Grant, Workspace, get_role}
use external_gateway.Policy.{Operation, get}
use external_gateway.Server.Access.{
  site_disabled, grant_allows, any_grant_allows, agent_has_op, grant_operations, grant_role,
  grant_each, granted_operations,
}

-- The registered operation, unless its site is disabled in the workspace.
pub usable : Map Operation → Workspace → Bytes → Option Operation
usable reg ws id = elim (get reg id) [
  | none ↦ none
  | some op ↦ if site_disabled ws op.site then none else some op
]

-- The first of two that is there.
or_else : Option Operation → Option Operation → Option Operation
or_else none o = o
or_else (some op) o = some op

listed_if : Bool → Option Operation → Option Operation → Option Operation
listed_if allowed u o = if allowed then or_else u o else o

listed_if-none : (b : Bool) (u : Option Operation) → listed_if b u none ≡ (if b then u else none)
unfolding listed_if or_else
listed_if-none b u = ground arith

module _ (c : Config) (reg : Map Operation) (ws : Workspace) (id : Bytes) where
  lookup-grant_operations :
      (ids : List Bytes) (ops : Map Operation)
      → lookup id (grant_operations reg ws ids ops)
        ≡ listed_if (contains_string ids id) (usable reg ws id) (lookup id ops)
  unfolding grant_operations contains_string listed_if or_else usable
  lookup-grant_operations [] ops = refl
  lookup-grant_operations (i ∷ ids) ops = elim (Option-cases (get reg i)) [
    | inl e ↦ ground (arith, lookup-grant_operations ids ops, str_eq_iff i id)
    | inr (op, e) ↦ elim (Bool-cases (site_disabled ws op.site)) [
      | inl d ↦ ground (arith, lookup-grant_operations ids ops, str_eq_iff i id)
      | inr d ↦ ground (
        arith,
        lookup-grant_operations ids (insert i op ops),
        lookup-insert i id op ops,
        str_eq_iff i id,
      )
    ]
  ]

  module _ (workspace : Bytes) where
    lookup-grant_role :
        (g : Grant) (ops : Map Operation)
        → lookup id (grant_role c reg ws workspace g ops)
          ≡ listed_if (grant_allows c workspace id g) (usable reg ws id) (lookup id ops)
    unfolding grant_role grant_allows listed_if
    lookup-grant_role g ops = elim (Option-cases (get_role c g.role)) [
      | inl e ↦ ground arith
      | inr (role, e) ↦ ground (arith, lookup-grant_operations role.operations ops)
    ]

    lookup-grant_each :
        (grants : List Grant) (ops : Map Operation)
        → lookup id (grant_each c reg ws workspace grants ops)
          ≡ listed_if (any_grant_allows c workspace id grants) (usable reg ws id) (lookup id ops)
    unfolding grant_each any_grant_allows listed_if or_else
    lookup-grant_each [] ops = refl
    lookup-grant_each (g ∷ grants) ops = ground (
      arith,
      lookup-grant_role g ops,
      lookup-grant_each grants (grant_role c reg ws workspace g ops),
    )

-- `grantedOperations`, which the capability and help pages list, has an operation exactly when the
-- agent is granted it in the workspace, it is registered, and its site is not disabled there; it
-- is then the registered operation.
pub granted_operations_lem :
    (c : Config) (reg : Map Operation) (agent : Agent) (workspace : Bytes) (ws : Workspace)
    (id : Bytes)
    → lookup id (granted_operations c reg agent workspace ws)
      ≡ (if agent_has_op c agent workspace id then usable reg ws id else none)
unfolding granted_operations agent_has_op
granted_operations_lem c reg agent workspace ws id =
    lookup-grant_each c reg ws id workspace agent.grants []
    ∙ listed_if-none (any_grant_allows c workspace id agent.grants) (usable reg ws id)
