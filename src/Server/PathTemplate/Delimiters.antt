-- ===== src/Server/PathTemplate/Delimiters.antt =====
-- A value cannot change the structure of the path that it is substituted into.
use external_gateway.Prelude.{
  ℕ, Bool, true, false, not, ◌&&◌, ◌==◌, any, Bytes, List, [], ◌∷◌, ◌++◌, none, some, Map, lookup,
  has_suffix, has_byte, keep, keep-append, keep_none, All, ok, ◌>>=◌, bind-eq-ok, if◌then◌else◌,
  ◌≡◌, ◌≢◌, ◌⊎◌, ap, subst, ◌∙◌, arith, Bool-cases, Option-cases, inl, inr,
}
use external_gateway.Value.{Value, Params}
use external_gateway.Policy.{ParamDef}
use external_gateway.Server.PathTemplate.{
  Piece, text, hole, raw, pieces, path_escape, query_escape, has_path_injection, urlencode,
  without_urlencode, multi_segment, substitute, substitute_param, expand_hole, expand_piece,
  expand_pieces, expand_path_template,
}
use external_gateway.Server.PathTemplate.Injection.{
  is_delimiter, IsSegment, has_path_injection-IsRawSafe, has_path_injection-IsSegment,
  path_escape-IsSegment, query_escape-IsSegment,
}

-- Some parameter may span segments.
abbrev pub spans_segments : Map ParamDef → Bool
spans_segments = any (λ e. e.1.multi_segment)

-- The delimiters that no value may add: all of them, but for the slash if some parameter may span
-- segments.
pub is_fixed_by : Map ParamDef → ℕ → Bool
is_fixed_by defs c = is_delimiter c && not (spans_segments defs && c == b'/')

-- Those of a text, in order.
pub delimiters : Map ParamDef → Bytes → Bytes
delimiters defs = keep (is_fixed_by defs)

-- A text without one.
abbrev IsFree : Map ParamDef → Bytes → Type 0
IsFree defs = All (λ c. is_fixed_by defs c ≡ false)

multi_segment-spans_segments :
    (defs : Map ParamDef) (key : Bytes) → multi_segment defs key ≡ true → spans_segments defs ≡ true
unfolding multi_segment lookup
multi_segment-spans_segments [] key h = absurd (ground arith)
multi_segment-spans_segments ((k, def) ∷ defs) key h = elim (Bool-cases (spans_segments defs)) [
  | inl e ↦ ground arith
  | inr e ↦ ground (arith, multi_segment-spans_segments defs key)
]

IsSegment-IsFree : (defs : Map ParamDef) (t : Bytes) → IsSegment t → IsFree defs t
unfolding is_fixed_by
IsSegment-IsFree defs [] h = tt
IsSegment-IsFree defs (c ∷ t) (h, hs) = (ground arith, IsSegment-IsFree defs t hs)

spanning-IsFree :
    (defs : Map ParamDef) (t : Bytes)
    → spans_segments defs ≡ true
    → All (λ c. (c ≢ b'?') × (c ≢ b'#') × (c ≢ b'\\')) t
    → has_byte t b';' ≡ false
    → IsFree defs t
unfolding is_fixed_by is_delimiter has_byte
spanning-IsFree defs [] spans h e = tt
spanning-IsFree defs (c ∷ t) spans (h, hs) e =
    (rw (spans) (ground arith), spanning-IsFree defs t spans hs (ground arith))

raw-IsFree :
    (defs : Map ParamDef) (key t : Bytes)
    → has_path_injection t (multi_segment defs key) ≡ false
    → has_byte t b';' ≡ false
    → IsFree defs t
raw-IsFree defs key t safe e = elim (Bool-cases (multi_segment defs key)) [
  | inl m ↦
      spanning-IsFree defs t (multi_segment-spans_segments defs key m)
        (has_path_injection-IsRawSafe t (multi_segment defs key) safe).no_query e
  | inr m ↦ IsSegment-IsFree defs t (has_path_injection-IsSegment t (rw m at safe) e)
]

substitute-IsFree :
    (defs : Map ParamDef) (before key : Bytes) (encode : Bool) (s : Bytes) {t : Bytes}
    → substitute defs before key encode s ≡ ok t
    → IsFree defs t
unfolding substitute
substitute-IsFree defs before key encode s {t} h = elim cases [
  | inl e ↦
      subst (IsFree defs) e (IsSegment-IsFree defs (query_escape s) (query_escape-IsSegment s))
  | inr (inl e) ↦
      subst (IsFree defs) e (IsSegment-IsFree defs (path_escape s) (path_escape-IsSegment s))
  | inr (inr (e, safe, no_semicolon)) ↦
      subst (IsFree defs) e (raw-IsFree defs key s safe no_semicolon)
]
  where
    cases :
        (query_escape s ≡ t)
        ⊎ (path_escape s ≡ t)
        ⊎ ((s ≡ t)
            × (has_path_injection s (multi_segment defs key) ≡ false)
            × (has_byte s b';' ≡ false))
    cases = ground arith

module _ (sprint : Value → Bytes) (site : Map Bytes) (params : Params) (defs : Map ParamDef) where
  -- What a piece contributes that no request chooses: literal text, the configured value of a site
  -- placeholder, and a placeholder without a value as it stands.
  param_text : Bytes → Bytes → Bytes
  param_text name key = elim (lookup key params) [ none ↦ raw (hole name) | some _ ↦ [] ]

  unfoldable pub fixed : Piece → Bytes
  unfolding param_text raw without_urlencode urlencode lookup has_suffix
  fixed (text t) = t
  fixed (hole name) = elim (lookup name site) [
    | some v ↦ v
    | none ↦ param_text name (if has_suffix name urlencode then without_urlencode name else name)
  ]

  unfoldable pub fixed_text : List Piece → Bytes
  unfolding fixed
  fixed_text [] = []
  fixed_text (p ∷ ps) = fixed p ++ fixed_text ps

  substitute_param-delimiters :
      (before name key : Bytes) (encode : Bool) {t : Bytes}
      → substitute_param sprint site params defs before name key encode ≡ ok t
      → delimiters defs t ≡ delimiters defs (param_text name key)
  unfolding substitute_param param_text keep delimiters
  substitute_param-delimiters before name key encode {t} h =
      elim (Option-cases (lookup key params)) [
        | inl e ↦ ap (delimiters defs) (ground arith)
        | inr (val, e) ↦
            keep_none (is_fixed_by defs) t
              (substitute-IsFree defs before key encode (sprint val) (ground arith))
            ∙ rw (e, param_text)
      ]

  expand_piece-delimiters :
      (before : Bytes) (p : Piece) {t : Bytes}
      → expand_piece sprint site params defs before p ≡ ok t
      → delimiters defs t ≡ delimiters defs (fixed p)
  unfolding expand_piece expand_hole fixed
  expand_piece-delimiters before (text s) h = ap (delimiters defs) (ground arith)
  expand_piece-delimiters before (hole name) h = elim (Option-cases (lookup name site)) [
    | inr (v, e) ↦ ap (delimiters defs) (ground arith)
    | inl e ↦ elim (Bool-cases (has_suffix name urlencode)) [
      | inl s ↦
          substitute_param-delimiters before name (without_urlencode name) true (ground arith)
          ∙ ap (delimiters defs) (ground arith)
      | inr s ↦
          substitute_param-delimiters before name name false (ground arith)
          ∙ ap (delimiters defs) (ground arith)
    ]
  ]

  expand_pieces-delimiters :
      (before : Bytes) (ps : List Piece) {t : Bytes}
      → expand_pieces sprint site params defs before ps ≡ ok t
      → delimiters defs t ≡ delimiters defs (fixed_text ps)
  unfolding expand_pieces fixed_text delimiters
  expand_pieces-delimiters before [] h = ap (delimiters defs) (ground arith)
  expand_pieces-delimiters before (p ∷ ps) {t} h =
      let rest = expand_pieces sprint site params defs (before ++ raw p) ps in
      let (here, e, h₁) =
        bind-eq-ok (expand_piece sprint site params defs before p)
          (λ here. rest >>= λ later. ok (here ++ later)) h in
      let (later, e', same) = bind-eq-ok rest (λ later. ok (here ++ later)) h₁ in
      let whole : here ++ later ≡ t = cc in
      rw (← whole, keep-append, keep-append, expand_piece-delimiters before p e)
        (ap (λ d. delimiters defs (fixed p) ++ d)
          (expand_pieces-delimiters (before ++ raw p) ps e'))

-- The delimiters of an expanded path, in order, are those of the template's literal text, of the
-- configured site values and of placeholders without a value, whatever values the request gives:
-- question marks, hashes, backslashes and semicolons, and slashes too unless some parameter of the
-- operation may span segments.
pub expand_path_template-delimiters :
    (sprint : Value → Bytes) (tmpl : Bytes) (site : Map Bytes) (params : Params)
    (defs : Map ParamDef) {path : Bytes}
    → expand_path_template sprint tmpl site params defs ≡ ok path
    → delimiters defs path
      ≡ delimiters defs (fixed_text sprint site params defs (pieces [] none tmpl))
unfolding expand_path_template
expand_path_template-delimiters sprint tmpl site params defs h =
    expand_pieces-delimiters sprint site params defs [] (pieces [] none tmpl) h
