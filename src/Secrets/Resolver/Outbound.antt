-- ===== src/Secrets/Resolver/Outbound.antt =====
-- A secret that `Resolve` has returned does not leave through `Redact`.
use external_gateway.Prelude.{
  ℕ, ◌≤◌, ◌-◌, true, false, Bytes, none, some, str_eq, Map, lookup, contains, insert, lookup-insert,
  Result, ok, err, ltb, leb, length, ◌≡◌, inl, inr, refl, sym, ◌∙◌, ap, subst, arith, Bool-cases,
  Option-cases,
}
use external_gateway.Secrets.Taint.{Codec, taint, redact}
use external_gateway.Secrets.Redaction.{StarFree, redact_values-removes}
use external_gateway.Secrets.Refs.{cache_key}
use external_gateway.Secrets.Resolver.{
  SecretStore, CachedSecret, World, check_empty, with_vault, remember, accept, fetch, resolve,
  SecretError,
}
use external_gateway.Secrets.Registered.{
  IsIn, IsRegister, IsDistinct, taint-keeps, taint-IsRegister, taint-lem,
}

pub some-injective : {A : Type 0} (a b : A) → some a ≡ some b → a ≡ b
some-injective a b e = ap (λ o. elim o [ none ↦ a | some x ↦ x ]) e

stored-here :
    (k key : Bytes) (c d : CachedSecret) (m : Map CachedSecret)
    → str_eq k key ≡ true
    → lookup key (insert k c m) ≡ some d
    → c ≡ d
stored-here k key c d m q h = some-injective c d (sym (rw (lookup-insert k key c m, q) refl) ∙ h)

stored-elsewhere :
    (key k : Bytes) (c : CachedSecret) (m : Map CachedSecret)
    → str_eq k key ≡ false
    → lookup key m ≡ lookup key (insert k c m)
stored-elsewhere key k c m q = rw (lookup-insert k key c m, q) refl

module _ {S : Type 0} (codec : Codec) (store : SecretStore S) where
  -- The registry is one, and the cached secrets of five bytes or more are registered.
  abbrev pub IsSound : World S → Type 0
  IsSound w =
      IsRegister codec w.registry
      × ((key : Bytes) (cached : CachedSecret)
          → lookup key w.cache ≡ some cached
          → 5 ≤ length cached.value
          → IsIn cached.value w.registry.values)

  remember-IsSound :
      (workspace name secret : Bytes) (now : ℕ) (w : World S)
      → IsDistinct codec w.registry secret
      → IsSound w
      → IsSound (remember codec store workspace name secret now w)
  unfolding remember
  remember-IsSound workspace name secret now w free (r, cached_in) = (
    taint-IsRegister codec secret w.registry r,
    λ key cached h long. elim (Bool-cases (str_eq (cache_key workspace name) key)) [
      | inl q ↦
          let same : record { value = secret; resolved = now } ≡ cached =
            stored-here (cache_key workspace name) key (record { value = secret; resolved = now })
              cached w.cache q h in
          subst (λ c. 5 ≤ length c.value → IsIn c.value (taint codec secret w.registry).values) same
            (taint-lem codec secret w.registry free r) long
      | inr q ↦ taint-keeps codec secret cached.value w.registry (
          cached_in key cached
            (stored-elsewhere key (cache_key workspace name)
                (record { value = secret; resolved = now }) w.cache q
              ∙ h)
            long)
    ],
  )

  -- What the store answers with is taken for no other registered value.
  abbrev pub Unmistaken : Result Bytes Bytes → World S → Type 0
  Unmistaken answer w = (secret : Bytes) → answer ≡ ok secret → IsDistinct codec w.registry secret

  accept-IsSound :
      (workspace name : Bytes) (now : ℕ) (answer : Result Bytes Bytes) (w : World S)
      → Unmistaken answer w
      → IsSound w
      → IsSound (accept codec store workspace name now answer w).1
  unfolding accept
  accept-IsSound workspace name now (err e) w free h = h
  accept-IsSound workspace name now (ok secret) w free h =
      elim (Bool-cases (leb (length secret) 1)) [
        | inl e ↦ rw (e) h
        | inr e ↦ rw (e) (remember-IsSound workspace name secret now w (free secret refl) h)
      ]

  fetch-IsSound :
      (workspace name : Bytes) (now : ℕ) (w : World S)
      → Unmistaken (store.resolve workspace name w.vault).0 w
      → IsSound w
      → IsSound (fetch codec store workspace name now w).1
  unfolding fetch with_vault
  fetch-IsSound workspace name now w free h =
      accept-IsSound workspace name now (store.resolve workspace name w.vault).0
        (with_vault (store.resolve workspace name w.vault).1 w) free h

  -- If the secret that the store would answer with has the digest of no registered value but
  -- itself, then `Resolve` keeps the world sound, whatever it answers: every digest of the registry
  -- is that of a registered value, and every cached secret of five bytes or more is registered for
  -- redaction.
  pub resolve-IsSound :
      (workspace name : Bytes) (looked now : ℕ) (w : World S)
      → Unmistaken (store.resolve workspace name w.vault).0 w
      → IsSound w
      → IsSound (resolve codec store workspace name looked now w).1
  unfolding resolve
  resolve-IsSound workspace name looked now w free h =
      elim (Option-cases (lookup (cache_key workspace name) w.cache)) [
        | inl e ↦ rw (e, resolve) (fetch-IsSound workspace name now w free h)
        | inr (cached, e) ↦ elim (Bool-cases (ltb (looked - cached.resolved) w.ttl)) [
          | inl q ↦ rw (e, resolve, q) h
          | inr q ↦ rw (e, resolve, q) (fetch-IsSound workspace name now w free h)
        ]
      ]

  -- What `Resolve` hands out.
  abbrev Returned : Bytes → Result SecretError Bytes × World S → Type 0
  Returned secret answer =
      (answer.0 ≡ ok secret) → 5 ≤ length secret → IsIn secret answer.1.registry.values

  accept-Returned :
      (workspace name secret : Bytes) (now : ℕ) (answer : Result Bytes Bytes) (w : World S)
      → IsDistinct codec w.registry secret
      → IsSound w
      → Returned secret (accept codec store workspace name now answer w)
  unfolding accept remember
  accept-Returned workspace name secret now (err e) w free h = λ p long. absurd (ground arith)
  accept-Returned workspace name secret now (ok v) w free h = elim (Bool-cases (leb (length v) 1)) [
    | inl e ↦ rw (e) (λ p long. absurd (ground arith))
    | inr e ↦ rw (e) (λ p long.
        let same : v ≡ secret = ground arith in
        subst (λ u. 5 ≤ length u → IsIn u (taint codec v w.registry).values) same
          (taint-lem codec v w.registry (subst (IsDistinct codec w.registry) (sym same) free) h.0)
          long)
  ]

  fetch-Returned :
      (workspace name secret : Bytes) (now : ℕ) (w : World S)
      → IsDistinct codec w.registry secret
      → IsSound w
      → Returned secret (fetch codec store workspace name now w)
  unfolding fetch with_vault
  fetch-Returned workspace name secret now w free h =
      accept-Returned workspace name secret now (store.resolve workspace name w.vault).0
        (with_vault (store.resolve workspace name w.vault).1 w) free h

  check_empty-eq-ok : (v secret : Bytes) → check_empty v ≡ ok secret → v ≡ secret
  unfolding check_empty
  check_empty-eq-ok v secret e = ground arith

  resolve-Returned :
      (workspace name secret : Bytes) (looked now : ℕ) (w : World S)
      → IsDistinct codec w.registry secret
      → IsSound w
      → Returned secret (resolve codec store workspace name looked now w)
  unfolding resolve
  resolve-Returned workspace name secret looked now w free h =
      elim (Option-cases (lookup (cache_key workspace name) w.cache)) [
        | inl e ↦ rw (e, resolve) (fetch-Returned workspace name secret now w free h)
        | inr (cached, e) ↦ elim (Bool-cases (ltb (looked - cached.resolved) w.ttl)) [
          | inl q ↦
              rw (e, resolve, q)
                (λ p long.
                  let same : cached.value ≡ secret = check_empty-eq-ok cached.value secret p in
                  subst (λ v. IsIn v w.registry.values) same
                    (h.1 (cache_key workspace name) cached e
                      (subst (λ v. 5 ≤ length v) (sym same) long)))
          | inr q ↦ rw (e, resolve, q) (fetch-Returned workspace name secret now w free h)
        ]
      ]

  -- If the world is sound, then a secret that `Resolve` returns, of five bytes or more, without a
  -- star, and with the digest of no value registered before but itself, is in no data that the
  -- registry then redacts, however often and in whatever surroundings it occurs there.
  pub resolve-redact :
      (workspace name secret : Bytes) (looked now : ℕ) (w : World S) (out : Bytes)
      → IsDistinct codec w.registry secret
      → IsSound w
      → (resolve codec store workspace name looked now w).0 ≡ ok secret
      → 5 ≤ length secret
      → StarFree secret
      → contains (redact (resolve codec store workspace name looked now w).1.registry out) secret
        ≡ false
  unfolding redact
  resolve-redact workspace name secret looked now w out free h p long f =
      redact_values-removes (resolve codec store workspace name looked now w).1.registry.values out
        secret f (λ e. ground arith)
        (resolve-Returned workspace name secret looked now w free h p long)
