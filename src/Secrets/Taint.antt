-- ===== src/Secrets/Taint.antt =====
-- `TaintRegistry` of internal/secrets/resolver.go: the values that must not leave the gateway.
use external_gateway.Prelude.{
  ℕ, zero, suc, ◌-◌, Bool, true, false, Bytes, List, [], ◌∷◌, ◌++◌, Option, none, some, codes,
  contains_string, has_prefix, length, take, drop, ltb, if◌then◌else◌, ◌==◌, trim_space, ◌≡◌, refl,
}
use external_gateway.Server.PathTemplate.{path_escape, query_escape}

-- `seen` holds the digests of the registered values.
pub record TaintRegistry : Type 0 where
  pub seen : List Bytes
  pub values : List Bytes

-- The libraries that the registry calls: the hex digest of SHA-256, and `json.Encoder.Encode` of a
-- string with HTML escaping on or off, `none` where it fails.
pub record Codec : Type 0 where
  pub digest : Bytes → Bytes
  pub encode : Bool → Bytes → Option Bytes

-- `bytes.ReplaceAll(s, old, new)` for a nonempty `old`; the first argument counts the bytes of a
-- match that are still to be passed over.
unfoldable pub replace_from : ℕ → Bytes → Bytes → Bytes → Bytes
unfolding has_prefix
replace_from k old new [] = []
replace_from (suc k) old new (c ∷ s) = replace_from k old new s
replace_from zero old new (c ∷ s) =
    let found = new ++ replace_from (length old - 1) old new s in
    let passed = c ∷ replace_from zero old new s in if has_prefix (c ∷ s) old then found else passed

unfoldable pub replace_all : Bytes → Bytes → Bytes → Bytes
unfolding replace_from
replace_all s old new = replace_from zero old new s

abbrev pub placeholder : Bytes
placeholder = codes "***"

-- The loop of `Redact`.
unfoldable pub redact_values : List Bytes → Bytes → Bytes
unfolding replace_all
redact_values [] out = out
redact_values ([] ∷ values) out = redact_values values out
redact_values ((c ∷ v) ∷ values) out = redact_values values (replace_all out (c ∷ v) placeholder)

unfoldable pub redact : TaintRegistry → Bytes → Bytes
unfolding redact_values
redact t s = redact_values t.values s

trim_newlines : Bytes → Bytes
trim_newlines [] = []
trim_newlines (c ∷ s) =
    let rest = trim_newlines s in
    elim rest [ [] ↦ if c == 10 then [] else c ∷ [] | d ∷ r ↦ c ∷ d ∷ r ]

module _ (codec : Codec) where
  -- Values of less than five bytes are not registered, nor is a value twice.
  unfoldable pub taint_exact : Bytes → TaintRegistry → TaintRegistry
  unfolding contains_string
  taint_exact secret t =
      if ltb (length secret) 5
      then t
      else if contains_string t.seen (codec.digest secret)
      then t
      else record { seen = codec.digest secret ∷ t.seen; values = t.values ++ secret ∷ [] }

  unfoldable pub is_tainted : Bytes → TaintRegistry → Bool
  unfolding contains_string
  is_tainted secret t = contains_string t.seen (codec.digest secret)

  -- The text between the quotes of a JSON string.
  unfoldable pub json_escaped : Bytes → Bool → Bytes
  unfolding trim_newlines
  json_escaped [] escape_html = []
  json_escaped (c ∷ v) escape_html = elim (codec.encode escape_html (c ∷ v)) [
    | none ↦ []
    | some out ↦
        let b = trim_newlines out in if ltb (length b) 2 then [] else take (length b - 2) (drop 1 b)
  ]

  -- The forms in which a secret may leave.
  unfoldable pub variants : Bytes → List Bytes
  unfolding json_escaped path_escape query_escape replace_all trim_space
  variants secret =
      let trimmed = trim_space secret in
      secret
      ∷ trimmed
      ∷ query_escape trimmed
      ∷ path_escape trimmed
      ∷ replace_all (query_escape trimmed) (codes "+") (codes "%20")
      ∷ json_escaped secret true
      ∷ json_escaped secret false
      ∷ json_escaped trimmed true
      ∷ json_escaped trimmed false
      ∷ []

  unfoldable pub taint_each : List Bytes → TaintRegistry → TaintRegistry
  unfolding taint_exact
  taint_each [] t = t
  taint_each (v ∷ vs) t = taint_each vs (taint_exact v t)

  unfoldable pub taint : Bytes → TaintRegistry → TaintRegistry
  unfolding variants taint_each
  taint secret t = taint_each (variants secret) t

redact_runs :
    redact (record { seen = []; values = codes "token1" ∷ [] }) (codes "a token1token1 b")
    ≡ codes "a ****** b"
unfolding redact
redact_runs = refl
