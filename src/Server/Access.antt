-- ===== src/Server/Access.antt =====
-- Grants in internal/server/server.go: which operations of which workspace an agent may use.
pub mod Listing
use external_gateway.Prelude.{
  Bool, true, false, not, ◌&&◌, ◌||◌, Bytes, List, [], ◌∷◌, Option, none, some, Map, lookup, insert,
  lookup-insert, contains_string, contains_string_iff, str_eq, str_eq_iff, is_some, if◌then◌else◌,
  ◌≡◌, ◌≢◌, ◌↔◌, ◌⊎◌, inl, inr, refl, subst, arith, Option-cases, Bool-cases, Some,
}
use external_gateway.Config.{Config, Agent, Grant, Role, Site, Workspace, get_role}
use external_gateway.Policy.{Operation, get}

-- `ws.Sites[name].Disabled`: a missing site is not disabled.
unfoldable pub site_disabled : Workspace → Bytes → Bool
unfolding lookup
site_disabled ws name = elim (lookup name ws.sites) [ none ↦ false | some site ↦ site.disabled ]

-- The grant is in the workspace, and its role exists and names the operation.
grant_allows : Config → Bytes → Bytes → Grant → Bool
grant_allows c workspace op_id grant =
    str_eq grant.workspace workspace && elim (get_role c grant.role) [
      | none ↦ false
      | some role ↦ contains_string role.operations op_id
    ]

any_grant_allows : Config → Bytes → Bytes → List Grant → Bool
any_grant_allows c workspace op_id [] = false
any_grant_allows c workspace op_id (g ∷ grants) =
    grant_allows c workspace op_id g || any_grant_allows c workspace op_id grants

unfoldable pub agent_has_op : Config → Agent → Bytes → Bytes → Bool
unfolding grant_allows any_grant_allows str_eq contains_string get_role
agent_has_op c agent workspace op_id = any_grant_allows c workspace op_id agent.grants

in_workspace : Bytes → List Grant → Bool
in_workspace workspace [] = false
in_workspace workspace (g ∷ grants) = str_eq g.workspace workspace || in_workspace workspace grants

unfoldable pub agent_has_workspace : Agent → Bytes → Bool
unfolding in_workspace str_eq
agent_has_workspace agent workspace = in_workspace workspace agent.grants

-- The inner loop of `grantedOperations`.
grant_operations : Map Operation → Workspace → List Bytes → Map Operation → Map Operation
grant_operations reg ws [] ops = ops
grant_operations reg ws (id ∷ ids) ops = grant_operations reg ws ids (elim (get reg id) [
  | none ↦ ops
  | some op ↦ if site_disabled ws op.site then ops else insert id op ops
])

grant_role : Config → Map Operation → Workspace → Bytes → Grant → Map Operation → Map Operation
grant_role c reg ws workspace g ops =
    if str_eq g.workspace workspace
    then elim (get_role c g.role) [
      | none ↦ ops
      | some role ↦ grant_operations reg ws role.operations ops
    ]
    else ops

grant_each : Config → Map Operation → Workspace → Bytes → List Grant → Map Operation → Map Operation
grant_each c reg ws workspace [] ops = ops
grant_each c reg ws workspace (g ∷ grants) ops =
    grant_each c reg ws workspace grants (grant_role c reg ws workspace g ops)

unfoldable pub granted_operations :
    Config → Map Operation → Agent → Bytes → Workspace → Map Operation
unfolding grant_operations grant_role grant_each get site_disabled get_role insert str_eq
granted_operations c reg agent workspace ws = grant_each c reg ws workspace agent.grants []

-- A grant as the operator reads it.
abbrev pub Grants : Config → Bytes → Bytes → Grant → Type 0
Grants c workspace op_id g =
    (g.workspace ≡ workspace)
    × ((role : Role) × (get_role c g.role ≡ some role) × Some (λ o. o ≡ op_id) role.operations)

grant_allows_iff :
    (c : Config) (workspace op_id : Bytes) (g : Grant)
    → (grant_allows c workspace op_id g ≡ true) ↔ Grants c workspace op_id g
unfolding grant_allows
grant_allows_iff c workspace op_id g = elim (Option-cases (get_role c g.role)) [
  | inl e ↦ (λ h. absurd (ground arith), λ h. absurd (ground arith))
  | inr (role, e) ↦
      let (sound, complete) = contains_string_iff role.operations op_id in
      let (same, back) = str_eq_iff g.workspace workspace in
      (
        λ h. (same (ground arith), (role, e, sound (ground arith))),
        λ (w, (r, e', m)).
            let is_role : r ≡ role = cc in
            rw (back w, e) (complete (subst (λ r. Some (λ o. o ≡ op_id) r.operations) is_role m)),
      )
]

any_grant_allows_iff :
    (c : Config) (workspace op_id : Bytes) (grants : List Grant)
    → (any_grant_allows c workspace op_id grants ≡ true) ↔ Some (Grants c workspace op_id) grants
unfolding any_grant_allows
any_grant_allows_iff c workspace op_id [] = ground arith
any_grant_allows_iff c workspace op_id (g ∷ grants) =
    ground
      (arith, grant_allows_iff c workspace op_id g, any_grant_allows_iff c workspace op_id grants)

-- An agent has an operation in a workspace exactly when one of its grants is in that workspace and
-- that grant's role exists and lists the operation.
pub agent_has_op_iff :
    (c : Config) (agent : Agent) (workspace op_id : Bytes)
    → (agent_has_op c agent workspace op_id ≡ true) ↔ Some (Grants c workspace op_id) agent.grants
unfolding agent_has_op
agent_has_op_iff c agent workspace op_id = any_grant_allows_iff c workspace op_id agent.grants
