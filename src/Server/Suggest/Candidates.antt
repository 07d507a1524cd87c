-- ===== src/Server/Suggest/Candidates.antt =====
-- Which operations `closestAllowedOps` of internal/server/server.go suggests.
use external_gateway.Prelude.{
  ℕ, zero, suc, ◌≤◌, true, Bytes, List, [], ◌∷◌, some, Map, contains_string, str_eq, str_eq_iff,
  is_some, length, take, map, ltb, ◌≡◌, inl, inr, refl, sym, subst, arith, All, Some, Bool-cases,
  Option-cases, All-append,
}
use external_gateway.Config.{Config, Agent, Grant, Role, get_role}
use external_gateway.Policy.{Operation, get}
use external_gateway.Server.Access.{Grants, agent_has_op, agent_has_op_iff}
use external_gateway.Server.Suggest.{
  Scored, Search, half_longer, edit_distance, score, consider, consider_each, consider_grant,
  consider_grants, insert_scored, sort_scored, closest_allowed_ops,
}

-- A suggestion for an operation's name: granted, registered and near.
pub record IsSuggestible (c : Config) (reg : Map Operation) (agent : Agent)
    (workspace op_id id : Bytes) : Type 0 where
  pub granted : agent_has_op c agent workspace id ≡ true
  pub registered : is_some (get reg id) ≡ true
  pub near : edit_distance op_id id ≤ half_longer op_id id

module _ (c : Config) (reg : Map Operation) (agent : Agent) (workspace op_id : Bytes) where
  abbrev Fits : Scored → Type 0
  Fits s = IsSuggestible c reg agent workspace op_id s.id

  score-Fits :
      (cand : Bytes) (s : Scored)
      → agent_has_op c agent workspace cand ≡ true
      → score reg op_id cand ≡ some s
      → Fits s
  unfolding score
  score-Fits cand s g h =
      let name : cand ≡ s.id = ground arith in
      subst (λ k. IsSuggestible c reg agent workspace op_id k) name
        (record { granted = g; registered = ground arith; near = ground arith })

  consider-Fits :
      (cand : Bytes) (st : Search)
      → agent_has_op c agent workspace cand ≡ true
      → All Fits st.found
      → All Fits (consider reg op_id cand st).found
  unfolding consider
  consider-Fits cand st g h = elim (Bool-cases (contains_string st.seen cand)) [
    | inl e ↦ rw (e) h
    | inr e ↦ elim (Option-cases (score reg op_id cand)) [
      | inl n ↦ rw (e, n) h
      | inr (s, k) ↦ rw (e, k) (All-append Fits st.found (s ∷ []) h (score-Fits cand s g k, tt))
    ]
  ]

  consider_each-Fits :
      (cands : List Bytes) (st : Search)
      → All (λ cand. agent_has_op c agent workspace cand ≡ true) cands
      → All Fits st.found
      → All Fits (consider_each reg op_id cands st).found
  unfolding consider_each
  consider_each-Fits [] st g h = h
  consider_each-Fits (cand ∷ cands) st (a, g) h =
      consider_each-Fits cands (consider reg op_id cand st) g (consider-Fits cand st a h)

  -- The grant gives every operation of its role.
  role_granted :
      (g : Grant) (role : Role) (ids : List Bytes)
      → Some (λ k. k ≡ g) agent.grants
      → g.workspace ≡ workspace
      → get_role c g.role ≡ some role
      → ((id : Bytes) → Some (λ o. o ≡ id) ids → Some (λ o. o ≡ id) role.operations)
      → All (λ cand. agent_has_op c agent workspace cand ≡ true) ids
  role_granted g role [] m w r within = tt
  role_granted g role (id ∷ ids) m w r within = (
    (agent_has_op_iff c agent workspace id).1 (grants_some agent.grants m),
    role_granted g role ids m w r (λ i k. within i (inr k)),
  )
    where
      grants_some : (gs : List Grant) → Some (λ k. k ≡ g) gs → Some (Grants c workspace id) gs
      grants_some [] k = absurd k
      grants_some (x ∷ gs) (inl e) =
          inl (subst (Grants c workspace id) (sym e) (w, (role, r, within id (inl refl))))
      grants_some (x ∷ gs) (inr k) = inr (grants_some gs k)

  consider_grant-Fits :
      (g : Grant) (st : Search)
      → Some (λ k. k ≡ g) agent.grants
      → All Fits st.found
      → All Fits (consider_grant c reg workspace op_id g st).found
  unfolding consider_grant
  consider_grant-Fits g st m h = elim (Bool-cases (str_eq g.workspace workspace)) [
    | inr n ↦ rw (n) h
    | inl w ↦ elim (Option-cases (get_role c g.role)) [
      | inl e ↦ rw (w, e) h
      | inr (role, e) ↦
          rw (w, e)
            (consider_each-Fits role.operations st
              (role_granted g role role.operations m ((str_eq_iff g.workspace workspace).0 w) e
                (λ id k. k))
              h)
    ]
  ]

  consider_grants-Fits :
      (gs : List Grant) (st : Search)
      → ((g : Grant) → Some (λ k. k ≡ g) gs → Some (λ k. k ≡ g) agent.grants)
      → All Fits st.found
      → All Fits (consider_grants c reg workspace op_id gs st).found
  unfolding consider_grants
  consider_grants-Fits [] st m h = h
  consider_grants-Fits (g ∷ gs) st m h =
      consider_grants-Fits gs (consider_grant c reg workspace op_id g st) (λ k e. m k (inr e))
        (consider_grant-Fits g st (m g (inl refl)) h)

  insert_scored-Fits :
      (s : Scored) (ss : List Scored) → Fits s → All Fits ss → All Fits (insert_scored s ss)
  unfolding insert_scored
  insert_scored-Fits s [] h hs = (h, tt)
  insert_scored-Fits s (t ∷ ss) h (k, hs) = ground (arith, insert_scored-Fits s ss h hs)

  sort_scored-Fits : (ss : List Scored) → All Fits ss → All Fits (sort_scored ss)
  unfolding sort_scored
  sort_scored-Fits [] h = tt
  sort_scored-Fits (s ∷ ss) (h, hs) =
      insert_scored-Fits s (sort_scored ss) h (sort_scored-Fits ss hs)

  first_ids :
      (n : ℕ) (ss : List Scored)
      → All Fits ss
      → All (IsSuggestible c reg agent workspace op_id) (map (λ s. s.id) (take n ss))
  first_ids zero ss h = tt
  first_ids (suc n) [] h = tt
  first_ids (suc n) (s ∷ ss) (h, hs) = (h, first_ids n ss hs)

  length-first_ids : (n : ℕ) (ss : List Scored) → length (map (λ s. s.id) (take n ss)) ≤ n
  length-first_ids zero ss = omega arith
  length-first_ids (suc n) [] = omega arith
  length-first_ids (suc n) (s ∷ ss) = omega (arith, length-first_ids n ss)

  -- At most three operations are suggested, and each is one that the agent is granted in the
  -- workspace, that is registered, and whose edit distance to the asked id is at most half of the
  -- longer id's length.
  pub closest_allowed_ops-IsSuggestible :
      All
        (IsSuggestible c reg agent workspace op_id)
        (closest_allowed_ops c reg agent workspace op_id)
      × (length (closest_allowed_ops c reg agent workspace op_id) ≤ 3)
  unfolding closest_allowed_ops
  closest_allowed_ops-IsSuggestible = elim (Bool-cases (ltb 128 (length op_id))) [
    | inl e ↦ rw (e) (tt, omega arith)
    | inr e ↦ rw (e) (
      first_ids 3 _ (
          sort_scored-Fits _
            (consider_grants-Fits agent.grants (record { seen = []; found = [] }) (λ g m. m) tt)),
      length-first_ids 3 _,
    )
  ]
