-- ===== src/Secrets/Resolver/Freshness.antt =====
-- What `Resolve` of internal/secrets/resolver.go returns after a change of the secret.
use external_gateway.Prelude.{ℕ, Bytes, str_eq_refl, lookup-erase, ◌≡◌, refl}
use external_gateway.Secrets.Taint.{Codec}
use external_gateway.Secrets.Refs.{cache_key}
use external_gateway.Secrets.Resolver.{
  SecretStore, World, with_vault, forget, fetch, resolve, set, delete,
}

module _ {S : Type 0} (codec : Codec) (store : SecretStore S) where
  resolve-forget :
      (workspace name : Bytes) (looked now : ℕ) (w : World S)
      → resolve codec store workspace name looked now (forget workspace name w)
        ≡ fetch codec store workspace name now (forget workspace name w)
  unfolding resolve forget
  resolve-forget workspace name looked now w =
      rw
        (
          lookup-erase (cache_key workspace name) (cache_key workspace name) w.cache,
          resolve,
          str_eq_refl (cache_key workspace name),
        )
        refl

  -- After a set or a deletion, whether the store granted it or not, a secret is asked of the store
  -- again: no cached value answers, however little time has passed.
  pub resolve-after-change :
      (workspace name value : Bytes) (looked now : ℕ) (w : World S)
      → (resolve codec store workspace name looked now (set codec store workspace name value w).1
          ≡ fetch codec store workspace name now (set codec store workspace name value w).1)
        × (resolve codec store workspace name looked now (delete codec store workspace name w).1
            ≡ fetch codec store workspace name now (delete codec store workspace name w).1)
  unfolding set delete
  resolve-after-change workspace name value looked now w = (
    resolve-forget workspace name looked now
        (with_vault (store.set workspace name value w.vault).1 w),
    resolve-forget workspace name looked now (with_vault (store.delete workspace name w.vault).1 w),
  )
