-- ===== src/Server/Environment/Laws.antt =====
-- Which environment `resolveEnv` selects, whatever the order in which Go iterates the map.
use external_gateway.Prelude.{
  suc, inl, inr, codes, ◌≤◌, Bytes, List, [], ◌∷◌, some, Map, lookup, map, sort_strings,
  length-sort_strings, str_eq_iff, length, ok, err, ◌≡◌, ◌≢◌, ◌↔◌, ◌⊎◌, refl, ap, ◌∙◌, arith,
}
use external_gateway.Value.{Params, string_or_empty}
use external_gateway.Config.{Site, Environment}
use external_gateway.Server.Environment.{
  missing_env, first_nonempty, requested_env, chosen_env, env_names, find_env, resolve_requested,
  resolve_env,
}

chosen_env_many :
    (site_name : Bytes) (names : List Bytes)
    → 2 ≤ length names
    → chosen_env site_name names [] ≡ err (missing_env site_name)
unfolding chosen_env
chosen_env_many site_name [] h = absurd (omega arith)
chosen_env_many site_name (n ∷ []) h = absurd (omega arith)
chosen_env_many site_name (n ∷ m ∷ names) h = refl

length-keys : (m : Map Environment) → length (map (λ e. e.0) m) ≡ length m
length-keys [] = refl
length-keys (e ∷ m) = ap suc (length-keys m)

length-env_names : (m : Map Environment) → length (env_names m) ≡ length m
unfolding env_names
length-env_names m = length-sort_strings (map (λ e. e.0) m) ∙ length-keys m

find_env_iff :
    (m : Map Environment) (site_name name n : Bytes) (env : Environment)
    → (find_env m site_name name ≡ ok (n, env)) ↔ ((name ≡ n) × (lookup name m ≡ some env))
unfolding find_env
find_env_iff m site_name name n env = ground arith

-- The name `requested` selects the environment `name`; an empty one selects the only environment.
abbrev Picks : Map Environment → Bytes → Bytes → Environment → Type 0
Picks m requested name env =
    (lookup name m ≡ some env)
    × (((requested ≡ name) × (name ≢ [])) ⊎ ((requested ≡ []) × (length m ≡ 1)))

resolve_only :
    (site_name n name : Bytes) (e env : Environment)
    → (resolve_requested site_name ((n, e) ∷ []) [] ≡ ok (name, env))
      ↔ Picks ((n, e) ∷ []) [] name env
unfolding resolve_requested env_names chosen_env sort_strings lookup
resolve_only site_name n name e env =
    ground
      (arith, find_env_iff ((n, e) ∷ []) site_name n name env, str_eq_iff n name, str_eq_iff n n)

resolve_requested_iff :
    (site_name : Bytes) (m : Map Environment) (requested name : Bytes) (env : Environment)
    → (resolve_requested site_name m requested ≡ ok (name, env)) ↔ Picks m requested name env
unfolding resolve_requested
resolve_requested_iff site_name [] requested name env = unfold lookup in ground arith
resolve_requested_iff site_name (e ∷ es) (c ∷ s) name env =
    unfold chosen_env in ground (arith, find_env_iff (e ∷ es) site_name (c ∷ s) name env)
resolve_requested_iff site_name ((n, e) ∷ []) [] name env = resolve_only site_name n name e env
resolve_requested_iff site_name (e ∷ f ∷ es) [] name env =
    ground
      (arith, chosen_env_many site_name (env_names (e ∷ f ∷ es)), length-env_names (e ∷ f ∷ es))

-- The first of three texts that is not empty is `name`.
abbrev First : Bytes → Bytes → Bytes → Bytes → Type 0
First a b c name =
    (name ≢ []) × ((a ≡ name) ⊎ ((a ≡ []) × (b ≡ name)) ⊎ ((a ≡ []) × (b ≡ []) × (c ≡ name)))

first_nonempty-First :
    (a b c name : Bytes)
    → ((first_nonempty a (first_nonempty b c) ≡ name) × (name ≢ [])) ↔ First a b c name
unfolding first_nonempty
first_nonempty-First (x ∷ a) b c name = ground arith
first_nonempty-First [] (x ∷ b) c name = ground arith
first_nonempty-First [] [] c name = ground arith

first_nonempty-nil :
    (a b c : Bytes)
    → (first_nonempty a (first_nonempty b c) ≡ []) ↔ ((a ≡ []) × (b ≡ []) × (c ≡ []))
unfolding first_nonempty
first_nonempty-nil (x ∷ a) b c = ground arith
first_nonempty-nil [] (x ∷ b) c = ground arith
first_nonempty-nil [] [] c = ground arith

-- A text parameter of the request; empty where it is absent or no text.
abbrev asked : Params → Bytes → Bytes
asked params name = string_or_empty (lookup name params)

-- The site has the environment `env` under `name`; and `name` is the request's `env`, or its
-- `cluster` where `env` is empty, or the site's default where both are; or all three are empty and
-- the site has one environment alone.
abbrev pub Selects : Site → Params → Bytes → Environment → Type 0
Selects site params name env =
    (lookup name site.environments ≡ some env)
    × (First (asked params (codes "env")) (asked params (codes "cluster")) site.default_env name
        ⊎ (((asked params (codes "env") ≡ [])
              × (asked params (codes "cluster") ≡ [])
              × (site.default_env ≡ []))
            × (length site.environments ≡ 1)))

Picks-Selects :
    (site : Site) (params : Params) (name : Bytes) (env : Environment)
    → Picks site.environments (requested_env site params) name env ↔ Selects site params name env
unfolding requested_env
Picks-Selects site params name env =
    let f =
      first_nonempty-First (asked params (codes "env")) (asked params (codes "cluster"))
        site.default_env name in
    let n =
      first_nonempty-nil (asked params (codes "env")) (asked params (codes "cluster"))
        site.default_env in
    (
      λ (l, h). (l, elim h [ inl k ↦ inl (f.0 k) | inr (k, one) ↦ inr (n.0 k, one) ]),
      λ (l, h). (l, elim h [ inl k ↦ inl (f.1 k) | inr (k, one) ↦ inr (n.1 k, one) ]),
    )

-- `resolveEnv` returns an environment exactly when the site has one of that name and either the
-- request's `env` is this name, or `env` is empty and its `cluster` is, or both are empty and the
-- site's default is; or all three are empty and the site has this one environment alone. No order
-- of the environments enters.
pub resolve_env_iff :
    (site : Site) (site_name : Bytes) (params : Params) (name : Bytes) (env : Environment)
    → (resolve_env site site_name params ≡ ok (name, env)) ↔ Selects site params name env
unfolding resolve_env
resolve_env_iff site site_name params name env =
    let r =
      resolve_requested_iff site_name site.environments (requested_env site params) name env in
    let p = Picks-Selects site params name env in (λ h. p.0 (r.0 h), λ h. r.1 (p.1 h))
