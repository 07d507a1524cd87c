-- ===== src/Server/Auth.antt =====
-- `authenticate` and `authenticateAdmin` of internal/server/server.go. The hex digest of SHA-256 is
-- the parameter `sha`.
use external_gateway.Prelude.{
  Bool, true, false, Bytes, List, [], ◌∷◌, none, some, codes, has_prefix, trim_prefix, drop, str_eq,
  str_eq_iff, is_some, if◌then◌else◌, ◌≡◌, ◌≢◌, ◌↔◌, refl, arith, Option-cases, Bool-cases, inl,
  inr, Some,
}
use external_gateway.Config.{Config, Agent, find_agent, get_agent_by_token_sha}

abbrev pub bearer : Bytes
bearer = codes "Bearer "

module _ (sha : Bytes → Bytes) where
  -- The second loop over the agents, which repeats the lookup.
  any_agent : List Agent → Bytes → Bytes
  unfolding str_eq
  any_agent [] token_sha = []
  any_agent (a ∷ agents) token_sha =
      if str_eq a.token_sha token_sha then token_sha else any_agent agents token_sha

  -- The token's hash if an agent has it, else the empty string; `auth` is the header's value.
  unfoldable pub authenticate : Config → Bytes → Bytes
  unfolding has_prefix any_agent get_agent_by_token_sha
  authenticate c auth =
      if has_prefix auth bearer
      then (let token_sha = sha (drop 7 auth) in
          if is_some (get_agent_by_token_sha c token_sha)
          then token_sha
          else any_agent c.agents token_sha)
      else []

  -- An unset admin hash admits nobody.
  unfoldable pub authenticate_admin : Config → Bytes → Bool
  unfolding str_eq has_prefix trim_prefix
  authenticate_admin c auth =
      if str_eq c.admin_token_sha []
      then false
      else if has_prefix auth bearer
      then str_eq (sha (trim_prefix auth bearer)) c.admin_token_sha
      else false

find_agent-any_agent :
    (sha : Bytes → Bytes) (agents : List Agent) (token_sha : Bytes)
    → find_agent agents token_sha ≡ none
    → any_agent sha agents token_sha ≡ []
unfolding find_agent any_agent
find_agent-any_agent sha [] t h = refl
find_agent-any_agent sha (a ∷ agents) t h = ground (arith, find_agent-any_agent sha agents t)

pub find_agent_sound :
    (agents : List Agent) (token_sha : Bytes) {a : Agent}
    → find_agent agents token_sha ≡ some a
    → Some (λ b. b ≡ a) agents × (a.token_sha ≡ token_sha)
unfolding find_agent
find_agent_sound [] t h = cc
find_agent_sound (b ∷ agents) t {a} h = elim (Bool-cases (str_eq b.token_sha t)) [
  | inl e ↦
      let same : b ≡ a = ground arith in (inl same, rw (← same) ((str_eq_iff b.token_sha t).0 e))
  | inr e ↦ let (m, h') = find_agent_sound agents t (ground arith) in (inr m, h')
]

-- A request that authenticates carries `Bearer ` and a token whose hash is the returned one, and
-- the configuration has an agent with that hash.
pub authenticate_sound :
    (sha : Bytes → Bytes) (c : Config) (auth : Bytes)
    → authenticate sha c auth ≢ []
    → (has_prefix auth bearer ≡ true)
      × (authenticate sha c auth ≡ sha (drop 7 auth))
      × ((a : Agent) × Some (λ b. b ≡ a) c.agents × (a.token_sha ≡ sha (drop 7 auth)))
unfolding authenticate get_agent_by_token_sha
authenticate_sound sha c auth h = elim (Bool-cases (has_prefix auth bearer)) [
  | inr e ↦ absurd (ground arith)
  | inl e ↦ elim (Option-cases (find_agent c.agents (sha (drop 7 auth)))) [
    | inl missing ↦ absurd (h (rw (e, missing) (find_agent-any_agent sha c.agents _ missing)))
    | inr (a, found) ↦
        let (m, same) = find_agent_sound c.agents (sha (drop 7 auth)) found in
        (e, ground arith, (a, m, same))
  ]
]

-- An admin request passes exactly when an admin hash is set, the header starts with `Bearer `, and
-- the token behind it has that hash.
pub authenticate_admin_iff :
    (sha : Bytes → Bytes) (c : Config) (auth : Bytes)
    → (authenticate_admin sha c auth ≡ true) ↔ (
        (c.admin_token_sha ≢ [])
        × (has_prefix auth bearer ≡ true)
        × (sha (trim_prefix auth bearer) ≡ c.admin_token_sha))
unfolding authenticate_admin
authenticate_admin_iff sha c auth = ground (
  arith,
  str_eq_iff c.admin_token_sha [],
  str_eq_iff (sha (trim_prefix auth bearer)) c.admin_token_sha,
)
