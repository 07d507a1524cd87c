-- ===== src/Secrets/Registered.antt =====
-- What `Taint` of internal/secrets/resolver.go adds to the registry, and what it keeps.
use external_gateway.Prelude.{
  ◌≤◌, false, Bytes, List, [], ◌∷◌, ◌++◌, contains_string, contains_string_iff, ltb, length, drop,
  ◌≡◌, ◌⊎◌, inl, inr, refl, subst, arith, Some, Bool-cases,
}
use external_gateway.Secrets.Taint.{TaintRegistry, Codec, taint, taint_exact, taint_each, variants}

-- A value of the list.
abbrev pub IsIn : Bytes → List Bytes → Type 0
IsIn v = Some (λ x. x ≡ v)

module _ (codec : Codec) where
  -- Each digest of the registry is that of one of its values.
  abbrev pub IsRegister : TaintRegistry → Type 0
  IsRegister t = (d : Bytes) → IsIn d t.seen → (v : Bytes) × IsIn v t.values × (codec.digest v ≡ d)

  -- No registered value has the digest of this text, but the text itself.
  abbrev pub IsDistinct : TaintRegistry → Bytes → Type 0
  IsDistinct t secret =
      (v : Bytes) → IsIn v t.values → codec.digest v ≡ codec.digest secret → v ≡ secret

IsIn-append : (v : Bytes) (xs ys : List Bytes) → IsIn v xs ⊎ IsIn v ys → IsIn v (xs ++ ys)
IsIn-append v [] ys (inr h) = h
IsIn-append v [] ys (inl h) = elim h [ ]
IsIn-append v (x ∷ xs) ys (inl (inl e)) = inl e
IsIn-append v (x ∷ xs) ys (inl (inr h)) = inr (IsIn-append v xs ys (inl h))
IsIn-append v (x ∷ xs) ys (inr h) = inr (IsIn-append v xs ys (inr h))

pub not_short : (secret : Bytes) → 5 ≤ length secret → ltb (length secret) 5 ≡ false
not_short secret long = ground arith

module _ (codec : Codec) where
  taint_exact-keeps :
      (secret v : Bytes) (t : TaintRegistry)
      → IsIn v t.values
      → IsIn v (taint_exact codec secret t).values
  unfolding taint_exact
  taint_exact-keeps secret v t h = elim (Bool-cases (ltb (length secret) 5)) [
    | inl e ↦ rw (e) h
    | inr e ↦ elim (Bool-cases (contains_string t.seen (codec.digest secret))) [
      | inl q ↦ rw (e, q) h
      | inr q ↦ rw (e, q) (IsIn-append v t.values (secret ∷ []) (inl h))
    ]
  ]

  taint_exact-IsRegister :
      (secret : Bytes) (t : TaintRegistry)
      → IsRegister codec t
      → IsRegister codec (taint_exact codec secret t)
  unfolding taint_exact
  taint_exact-IsRegister secret t r = elim (Bool-cases (ltb (length secret) 5)) [
    | inl e ↦ rw (e) r
    | inr e ↦ elim (Bool-cases (contains_string t.seen (codec.digest secret))) [
      | inl q ↦ rw (e, q) r
      | inr q ↦
          rw (e, q)
            (λ d h. elim h [
              | inl p ↦ (secret, IsIn-append secret t.values (secret ∷ []) (inr (inl refl)), p)
              | inr p ↦ (
                (r d p).0,
                IsIn-append (r d p).0 t.values (secret ∷ []) (inl (r d p).1),
                (r d p).2,
              )
            ])
    ]
  ]

  taint_exact-lem :
      (secret : Bytes) (t : TaintRegistry)
      → IsDistinct codec t secret
      → IsRegister codec t
      → 5 ≤ length secret
      → IsIn secret (taint_exact codec secret t).values
  unfolding taint_exact
  taint_exact-lem secret t free r long =
      elim (Bool-cases (contains_string t.seen (codec.digest secret))) [
        | inl q ↦
            let known : (v : Bytes) × IsIn v t.values × (codec.digest v ≡ codec.digest secret) =
              r (codec.digest secret) ((contains_string_iff t.seen (codec.digest secret)).0 q) in
            rw (not_short secret long, q)
              (subst (λ x. IsIn x t.values) (free known.0 known.1 known.2) known.1)
        | inr q ↦
            rw (not_short secret long, q)
              (IsIn-append secret t.values (secret ∷ []) (inr (inl refl)))
      ]

  taint_each-keeps :
      (vs : List Bytes) (v : Bytes) (t : TaintRegistry)
      → IsIn v t.values
      → IsIn v (taint_each codec vs t).values
  unfolding taint_each
  taint_each-keeps [] v t h = h
  taint_each-keeps (u ∷ vs) v t h =
      taint_each-keeps vs v (taint_exact codec u t) (taint_exact-keeps u v t h)

  taint_each-IsRegister :
      (vs : List Bytes) (t : TaintRegistry)
      → IsRegister codec t
      → IsRegister codec (taint_each codec vs t)
  unfolding taint_each
  taint_each-IsRegister [] t r = r
  taint_each-IsRegister (u ∷ vs) t r =
      taint_each-IsRegister vs (taint_exact codec u t) (taint_exact-IsRegister u t r)

  pub taint-keeps :
      (secret v : Bytes) (t : TaintRegistry)
      → IsIn v t.values
      → IsIn v (taint codec secret t).values
  unfolding taint
  taint-keeps secret v t h = taint_each-keeps (variants codec secret) v t h

  pub taint-IsRegister :
      (secret : Bytes) (t : TaintRegistry)
      → IsRegister codec t
      → IsRegister codec (taint codec secret t)
  unfolding taint
  taint-IsRegister secret t r = taint_each-IsRegister (variants codec secret) t r

  pub taint-lem :
      (secret : Bytes) (t : TaintRegistry)
      → IsDistinct codec t secret
      → IsRegister codec t
      → 5 ≤ length secret
      → IsIn secret (taint codec secret t).values
  unfolding taint variants taint_each
  taint-lem secret t free r long =
      taint_each-keeps (drop 1 (variants codec secret)) secret (taint_exact codec secret t)
        (taint_exact-lem secret t free r long)
