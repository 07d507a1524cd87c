-- ===== src/Secrets/Refs.antt =====
-- `parseSecretRef` of internal/server/server.go, `ResolveSecretRef` of internal/secrets/resolver.go
-- and the keys of the resolver's cache.
use external_gateway.Prelude.{
  false, not, Bytes, [], ◌∷◌, ◌++◌, Option, none, some, codes, has_prefix, drop, ltb, if◌then◌else◌,
  ◌==◌, length, ◌||◌, ◌≡◌, ◌≢◌, refl, arith, All, Bool-cases, inl, inr, Result, ok, err, sym, ◌∙◌,
  ap,
}

-- The parts before and after the first slash.
unfoldable pub cut_slash : Bytes → Option (Bytes × Bytes)
cut_slash [] = none
cut_slash (c ∷ s) =
    let rest = cut_slash s in
    if c == b'/'
    then some ([], s)
    else elim rest [ none ↦ none | some (before, after) ↦ some (c ∷ before, after) ]

abbrev pub scheme : Bytes
scheme = codes "secret://"

-- The workspace and the name that a reference means; a text without the scheme is a name.
unfoldable pub parse_secret_ref : Bytes → Bytes × Bytes
unfolding cut_slash has_prefix
parse_secret_ref ref =
    if ltb (length ref) 9 || not (has_prefix ref scheme)
    then ([], ref)
    else elim (cut_slash (drop 9 ref)) [
      | none ↦ ([], drop 9 ref)
      | some (workspace, name) ↦ (workspace, name)
    ]

-- `ResolveSecretRef`: without a slash the whole is the workspace; the error carries the reference.
unfoldable pub resolve_secret_ref : Bytes → Result Bytes (Bytes × Bytes)
unfolding cut_slash has_prefix
resolve_secret_ref ref =
    if ltb (length ref) 9 || not (has_prefix ref scheme)
    then err ref
    else elim (cut_slash (drop 9 ref)) [
      | none ↦ ok (drop 9 ref, [])
      | some (workspace, name) ↦ ok (workspace, name)
    ]

-- `fmt.Sprintf("%s/%s", workspace, name)`
unfoldable pub cache_key : Bytes → Bytes → Bytes
cache_key workspace name = workspace ++ (b'/' ∷ name)

abbrev pub SlashFree : Bytes → Type 0
SlashFree = All (λ c. c ≢ b'/')

pub cut_slash-cache_key :
    (workspace name : Bytes)
    → SlashFree workspace
    → cut_slash (cache_key workspace name) ≡ some (workspace, name)
unfolding cut_slash cache_key
cut_slash-cache_key [] name f = refl
cut_slash-cache_key (c ∷ workspace) name (n, f) = elim (Bool-cases (c == b'/')) [
  | inl e ↦ absurd (ground arith)
  | inr e ↦ rw (e, cut_slash-cache_key workspace name f) refl
]

starts_scheme :
    (s : Bytes) → (ltb (length (scheme ++ s)) 9 || not (has_prefix (scheme ++ s) scheme)) ≡ false
unfolding has_prefix
starts_scheme s = ground arith

-- The reference `secret://<workspace>/<name>`, for a workspace without a slash, is read back as its
-- workspace and its name, by the server and by the resolver alike.
pub parse_secret_ref-cache_key :
    (workspace name : Bytes)
    → SlashFree workspace
    → (parse_secret_ref (scheme ++ cache_key workspace name) ≡ (workspace, name))
      × (resolve_secret_ref (scheme ++ cache_key workspace name) ≡ ok (workspace, name))
unfolding parse_secret_ref resolve_secret_ref
parse_secret_ref-cache_key workspace name f = (
  rw
      (
        parse_secret_ref,
        starts_scheme (cache_key workspace name),
        cut_slash-cache_key workspace name f,
      )
      refl,
  rw
      (
        resolve_secret_ref,
        starts_scheme (cache_key workspace name),
        cut_slash-cache_key workspace name f,
      )
      refl,
)

some_pair : (o p : Bytes × Bytes) → some o ≡ some p → o ≡ p
some_pair o p e = ap (λ r. elim r [ none ↦ o | some q ↦ q ]) e

-- Two secrets of workspaces without a slash have different places in the cache.
pub cache_key-injective :
    (workspace name other other_name : Bytes)
    → SlashFree workspace
    → SlashFree other
    → cache_key workspace name ≡ cache_key other other_name
    → (workspace ≡ other) × (name ≡ other_name)
cache_key-injective workspace name other other_name f g e =
    let same : some (workspace, name) ≡ some (other, other_name) =
      sym (cut_slash-cache_key workspace name f)
      ∙ ap cut_slash e
      ∙ cut_slash-cache_key other other_name g in
    (
      ap (λ p. p.0) (some_pair (workspace, name) (other, other_name) same),
      ap (λ p. p.1) (some_pair (workspace, name) (other, other_name) same),
    )
