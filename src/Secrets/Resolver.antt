-- ===== src/Secrets/Resolver.antt =====
-- `Resolver` of internal/secrets/resolver.go, with the store of internal/secrets/store.go as a
-- parameter. Times are readings of a clock that does not go back.
use external_gateway.Prelude.{
  ℕ, zero, suc, ◌-◌, Bool, true, false, not, Bytes, List, [], ◌∷◌, Option, none, some, codes,
  str_eq, Map, lookup, insert, erase, Result, ok, err, ltb, leb, if◌then◌else◌, length, ◌≡◌, refl,
}
use external_gateway.Secrets.Taint.{TaintRegistry, Codec, taint}
use external_gateway.Secrets.Refs.{cache_key}
pub mod Outbound
pub mod Freshness

-- `SecretStore`, over the state `S` of the store: a failure carries its message.
pub record SecretStore (S : Type 0) : Type 0 where
  pub resolve : Bytes → Bytes → S → Result Bytes Bytes × S
  pub set : Bytes → Bytes → Bytes → S → Result Bytes (Unit {0}) × S
  pub delete : Bytes → Bytes → S → Result Bytes (Unit {0}) × S
  -- `none` where the store is no `InfoStore`
  pub last_written : Option (Bytes → Bytes → S → Option ℕ)

pub record CachedSecret : Type 0 where
  pub value : Bytes
  pub resolved : ℕ

pub data SecretError : Type 0 where
  store_failure : Bytes → SecretError
  secret_empty : ℕ → SecretError
  cross_tenant : Bytes → Bytes → Bytes → SecretError

-- The resolver with the store's state and the registry of the values it hands out.
pub record World (S : Type 0) : Type 0 where
  pub cache : Map CachedSecret
  pub ttl : ℕ
  pub vault : S
  pub registry : TaintRegistry

unfoldable pub check_empty : Bytes → Result SecretError Bytes
check_empty secret = if leb (length secret) 1 then err (secret_empty (length secret)) else ok secret

module _ {S : Type 0} where
  unfoldable pub with_vault : S → World S → World S
  with_vault vault w = record { cache = w.cache; ttl = w.ttl; vault = vault; registry = w.registry }

  -- `r.forget`
  unfoldable pub forget : Bytes → Bytes → World S → World S
  unfolding erase cache_key
  forget workspace name w = record {
    cache = erase (cache_key workspace name) w.cache;
    ttl = w.ttl;
    vault = w.vault;
    registry = w.registry;
  }

  unfoldable pub flush_cache : World S → World S
  flush_cache w = record { cache = []; ttl = w.ttl; vault = w.vault; registry = w.registry }

  module _ (codec : Codec) (store : SecretStore S) where
    -- A fetched secret enters the cache and the registry; `now` is when it is stored.
    unfoldable pub remember : Bytes → Bytes → Bytes → ℕ → World S → World S
    unfolding insert cache_key taint
    remember workspace name secret now w = record {
      cache = insert (cache_key workspace name) (record { value = secret; resolved = now }) w.cache;
      ttl = w.ttl;
      vault = w.vault;
      registry = taint codec secret w.registry;
    }

    -- What `Resolve` does with the store's answer.
    unfoldable pub accept :
        Bytes → Bytes → ℕ → Result Bytes Bytes → World S → Result SecretError Bytes × World S
    unfolding remember
    accept workspace name now (err e) w = (err (store_failure e), w)
    accept workspace name now (ok secret) w =
        if leb (length secret) 1
        then (err (secret_empty (length secret)), w)
        else (ok secret, remember workspace name secret now w)

    -- The part of `Resolve` that asks the store.
    unfoldable pub fetch : Bytes → Bytes → ℕ → World S → Result SecretError Bytes × World S
    unfolding accept with_vault
    fetch workspace name now w =
        let answer = store.resolve workspace name w.vault in
        accept workspace name now answer.0 (with_vault answer.1 w)

    -- `r.Resolve`: `looked` is when the cache is looked at, `now` when the secret is stored.
    unfoldable pub resolve : Bytes → Bytes → ℕ → ℕ → World S → Result SecretError Bytes × World S
    unfolding fetch lookup cache_key check_empty
    resolve workspace name looked now w = elim (lookup (cache_key workspace name) w.cache) [
      | none ↦ fetch workspace name now w
      | some cached ↦
          if ltb (looked - cached.resolved) w.ttl
          then (check_empty cached.value, w)
          else fetch workspace name now w
    ]

    -- `r.Set` and `r.Delete`: the entry goes whether the store succeeds or fails.
    unfoldable pub set : Bytes → Bytes → Bytes → World S → Result Bytes (Unit {0}) × World S
    unfolding forget with_vault
    set workspace name value w =
        let answer = store.set workspace name value w.vault in
        (answer.0, forget workspace name (with_vault answer.1 w))

    unfoldable pub delete : Bytes → Bytes → World S → Result Bytes (Unit {0}) × World S
    unfolding forget with_vault
    delete workspace name w =
        let answer = store.delete workspace name w.vault in
        (answer.0, forget workspace name (with_vault answer.1 w))

    unfoldable pub last_written : Bytes → Bytes → World S → Option ℕ
    last_written workspace name w = elim (store.last_written) [
      | none ↦ none
      | some f ↦ f workspace name w.vault
    ]

    unfoldable pub resolve_with_workspace_check :
        Bytes → Bytes → Bytes → ℕ → ℕ → World S → Result SecretError Bytes × World S
    unfolding resolve str_eq
    resolve_with_workspace_check workspace name request looked now w =
        if not (str_eq workspace request)
        then (err (cross_tenant workspace name request), w)
        else resolve workspace name looked now w
