-- ===== src/Tests/SecretsAndJobs.antt =====
-- Secrets and jobs at concrete inputs.
use external_gateway.Prelude.{
  false, [], ◌∷◌, ◌++◌, none, some, codes, lookup, ok, ◌≡◌, ◌≤◌, refl, arith, contains, inl, inr,
}
use external_gateway.Secrets.Taint.{Codec, redact_values, redact}
use external_gateway.Secrets.Redaction.{redact_values-removes, StarFree}
use external_gateway.Secrets.Refs.{
  cache_key, scheme, parse_secret_ref, resolve_secret_ref, parse_secret_ref-cache_key,
  cache_key-injective, SlashFree,
}
use external_gateway.Secrets.Resolver.{
  SecretStore, World, resolve, fetch, set, delete, resolve_with_workspace_check,
}
use external_gateway.Secrets.Resolver.Outbound.{resolve-redact, resolve-IsSound, IsSound}
use external_gateway.Secrets.Resolver.Freshness.{resolve-after-change}
use external_gateway.Scheduler.{Job, Store, pending}
use external_gateway.Scheduler.Lifecycle.{claims, after, Follows, after-Follows}
use external_gateway.Scheduler.Lifecycle.Claims.{claim_count, claim_count_once}
use external_gateway.Scheduler.Runs.{Readings, process_jobs}
use external_gateway.Scheduler.Runs.Pass.{processed, process_jobs-lookup}

-- Texts are their own digests, and JSON does not change them.
abbrev plain : Codec
plain = record { digest = λ s. s; encode = λ html s. some (b'"' ∷ (s ++ (b'"' ∷ b'\n' ∷ []))) }

-- A store with one secret for everybody.
abbrev one_secret : SecretStore (Unit {0})
one_secret = record {
  resolve = λ workspace name s. (ok (codes "token1"), s);
  set = λ workspace name value s. (ok tt, s);
  delete = λ workspace name s. (ok tt, s);
  last_written = none;
}

abbrev fresh : World (Unit {0})
fresh = record { cache = []; ttl = 30; vault = tt; registry = record { seen = []; values = [] } }

fresh-IsSound : IsSound plain one_secret fresh
unfolding lookup
fresh-IsSound = (λ d h. absurd h, λ key cached h long. absurd (ground arith))

resolves :
    (resolve plain one_secret (codes "acme") (codes "jira") 5 6 fresh).0 ≡ ok (codes "token1")
unfolding resolve fetch
resolves = refl

token-StarFree : StarFree (codes "token1")
token-StarFree = ground arith

resolve-redact_example :
    contains
      (redact
        (resolve plain one_secret (codes "acme") (codes "jira") 5 6 fresh).1.registry
        (codes "a token1token1 b"))
      (codes "token1")
    ≡ false
resolve-redact_example =
    resolve-redact plain one_secret (codes "acme") (codes "jira") (codes "token1") 5 6 fresh
      (codes "a token1token1 b") (λ v h e. e) fresh-IsSound resolves (omega arith) token-StarFree

resolve-IsSound_example :
    IsSound plain one_secret (resolve plain one_secret (codes "acme") (codes "jira") 5 6 fresh).1
resolve-IsSound_example =
    resolve-IsSound plain one_secret (codes "acme") (codes "jira") 5 6 fresh (λ s k v h e. absurd h)
      fresh-IsSound

redact_values-removes_example :
    contains
      (redact_values (codes "ok" ∷ codes "token1" ∷ []) (codes "a token1token1 b"))
      (codes "token1")
    ≡ false
redact_values-removes_example =
    redact_values-removes (codes "ok" ∷ codes "token1" ∷ []) (codes "a token1token1 b")
      (codes "token1") token-StarFree (λ e. ground arith) (inr (inl refl))

resolve-after-change_example :
    (resolve plain one_secret
        (codes "acme")
        (codes "jira")
        7
        8
        (set plain one_secret (codes "acme") (codes "jira") (codes "new") fresh).1
      ≡ fetch plain one_secret
          (codes "acme")
          (codes "jira")
          8
          (set plain one_secret (codes "acme") (codes "jira") (codes "new") fresh).1)
    × (resolve plain one_secret
          (codes "acme")
          (codes "jira")
          7
          8
          (delete plain one_secret (codes "acme") (codes "jira") fresh).1
        ≡ fetch plain one_secret
            (codes "acme")
            (codes "jira")
            8
            (delete plain one_secret (codes "acme") (codes "jira") fresh).1)
resolve-after-change_example =
    resolve-after-change plain one_secret (codes "acme") (codes "jira") (codes "new") 7 8 fresh

granted :
    (resolve_with_workspace_check plain one_secret
      (codes "acme")
      (codes "jira")
      (codes "acme")
      5
      6
      fresh).0
    ≡ ok (codes "token1")
unfolding resolve_with_workspace_check fetch
granted = refl

acme-SlashFree : SlashFree (codes "ac")
acme-SlashFree = ground arith

parse_secret_ref-cache_key_example :
    (parse_secret_ref (scheme ++ cache_key (codes "ac") (codes "jira/x"))
      ≡ (codes "ac", codes "jira/x"))
    × (resolve_secret_ref (scheme ++ cache_key (codes "ac") (codes "jira/x"))
        ≡ ok (codes "ac", codes "jira/x"))
parse_secret_ref-cache_key_example =
    parse_secret_ref-cache_key (codes "ac") (codes "jira/x") acme-SlashFree

cache_key-injective_example : (codes "ac" ≡ codes "ac") × (codes "jira" ≡ codes "jira")
cache_key-injective_example =
    cache_key-injective (codes "ac") (codes "jira") (codes "ac") (codes "jira") acme-SlashFree
      acme-SlashFree refl

-- A pending job.
abbrev wrapup : Job
wrapup = record {
  id = codes "j1";
  agent_id = codes "dev";
  workspace = codes "acme";
  type = codes "clockify.wrapup";
  params = [];
  scheduled_at = 10;
  created_at = 1;
  status = pending;
  last_run = none;
  next_run = none;
  result = none;
}

abbrev jobs : Store
jobs = (codes "j1", wrapup) ∷ []

abbrev noon : Readings
noon = record { looked = λ id. 12; started = λ id. 13; ended = λ id. 14 }

after-Follows_example :
    Follows (lookup (codes "j1") jobs) (lookup (codes "j1") (after (claims (codes "j1") 12) jobs))
after-Follows_example = after-Follows (claims (codes "j1") 12) (codes "j1") jobs

claim_count_once_example :
    claim_count (codes "j1") (claims (codes "j1") 12 ∷ claims (codes "j1") 13 ∷ []) jobs ≤ 1
claim_count_once_example =
    claim_count_once (codes "j1") (claims (codes "j1") 12 ∷ claims (codes "j1") 13 ∷ []) jobs

process_jobs-lookup_example :
    lookup (codes "j1") (process_jobs noon jobs)
    ≡ processed noon (codes "j1") (lookup (codes "j1") jobs)
unfolding lookup
process_jobs-lookup_example = process_jobs-lookup noon (codes "j1") jobs (refl, tt)

-- A value that holds the placeholder can come about by a later replacement.
star_left :
    redact (record { seen = []; values = codes "x***y" ∷ codes "tok12" ∷ [] }) (codes "xtok12y")
    ≡ codes "x***y"
unfolding redact
star_left = refl
