-- ===== src/Server/PathTemplate/Injection.antt =====
-- What `hasPathInjection` and the escapes let through.
use external_gateway.Prelude.{
  ℕ, ◌+◌, ◌*◌, ◌%◌, ◌<◌, ◌≤◌, Bool, true, false, ◌&&◌, ◌||◌, Bytes, List, [], ◌∷◌, codes, has_byte,
  contains, contains_any, any, All, All-append, split, str_eq_iff, subst, if◌then◌else◌, ◌==◌, ◌≡◌,
  ◌≢◌, ◌⊎◌, refl, arith, Bool-cases, inl, inr,
}
use external_gateway.Server.PathTemplate.{
  is_control, is_hex, unhex, unsafe_byte, bad_escape, no_segment, has_unsafe_escape,
  has_path_injection, unreserved, path_safe, hex_digit, percent, path_escape, query_escape,
}

-- A byte that ends a path segment, the path, or the query, for some server.
unfoldable pub is_delimiter : ℕ → Bool
is_delimiter c = c == b'/' || c == b'?' || c == b'#' || c == b'\\' || c == b';'

-- A text without delimiters.
abbrev pub IsSegment : Bytes → Type 0
IsSegment = All (λ c. is_delimiter c ≡ false)

-- `c` is the hexadecimal digit for `a`, in either case.
abbrev pub HexDigit : ℕ → ℕ → Type 0
HexDigit c a =
    ((c ≡ b'0' + a) × (a < 10))
    ⊎ ((c + 10 ≡ b'a' + a) × (10 ≤ a) × (a < 16))
    ⊎ ((c + 10 ≡ b'A' + a) × (10 ≤ a) × (a < 16))

-- Decoding this byte later makes no separator, no dot and no control character.
abbrev pub IsHarmless : ℕ → Type 0
IsHarmless b =
    (0x20 ≤ b)
    × (b ≢ 0x7f)
    × (b ≢ b'/')
    × (b ≢ b'\\')
    × (b ≢ b'.')
    × (b ≢ b'?')
    × (b ≢ b'#')
    × (b ≢ b';')

-- Every percent sign starts an escape of two digits for a harmless byte.
pub data SafeEscapes : Bytes → Type 0 where
  none_left : SafeEscapes []
  plain : {c : ℕ} {s : Bytes} → c ≢ b'%' → SafeEscapes s → SafeEscapes (c ∷ s)
  escape :
      {c h l : ℕ} {s : Bytes} (a b : ℕ)
      → c ≡ b'%'
      → HexDigit h a
      → HexDigit l b
      → IsHarmless (a * 16 + b)
      → SafeEscapes s
      → SafeEscapes (c ∷ h ∷ l ∷ s)

is_hex-HexDigit : (c : ℕ) → is_hex c ≡ true → HexDigit c (unhex c)
unfolding is_hex unhex
is_hex-HexDigit c h = ground arith

HexDigit-lt : (c a : ℕ) → HexDigit c a → a < 16
HexDigit-lt c a h = ground arith

unsafe_byte-IsHarmless : (b : ℕ) → unsafe_byte b ≡ false → IsHarmless b
unfolding unsafe_byte has_byte
unsafe_byte-IsHarmless b h = ground arith

bad_escape-IsHarmless :
    (h l : ℕ)
    → bad_escape h l ≡ false
    → HexDigit h (unhex h) × HexDigit l (unhex l) × IsHarmless (unhex h * 16 + unhex l)
unfolding bad_escape
bad_escape-IsHarmless h l e =
    let first = is_hex-HexDigit h (ground arith) in
    let second = is_hex-HexDigit l (ground arith) in
    let small : (unhex h * 16 + unhex l) % 256 ≡ unhex h * 16 + unhex l =
      omega (arith, HexDigit-lt h (unhex h) first, HexDigit-lt l (unhex l) second) in
    (first, second, subst IsHarmless small (unsafe_byte-IsHarmless _ (ground arith)))

has_unsafe_escape-SafeEscapes : (s : Bytes) → has_unsafe_escape s ≡ false → SafeEscapes s
unfolding has_unsafe_escape
has_unsafe_escape-SafeEscapes [] h = none_left
has_unsafe_escape-SafeEscapes (c ∷ []) h = plain (ground arith) none_left
has_unsafe_escape-SafeEscapes (c ∷ d ∷ []) h = elim (Bool-cases (c == b'%')) [
  | inl e ↦ absurd (ground arith)
  | inr e ↦ plain (ground arith) (has_unsafe_escape-SafeEscapes (d ∷ []) (ground arith))
]
has_unsafe_escape-SafeEscapes (c ∷ d ∷ l ∷ s) h = elim (Bool-cases (c == b'%')) [
  | inr e ↦ plain (ground arith) (has_unsafe_escape-SafeEscapes (d ∷ l ∷ s) (ground arith))
  | inl e ↦ elim (Bool-cases (bad_escape d l)) [
    | inl bad ↦ absurd (ground arith)
    | inr good ↦
        let (first, second, harmless) = bad_escape-IsHarmless d l good in
        escape (unhex d) (unhex l) (ground arith) first second harmless
          (has_unsafe_escape-SafeEscapes s (ground arith))
  ]
]

no_percent-SafeEscapes : (s : Bytes) → has_byte s b'%' ≡ false → SafeEscapes s
unfolding has_byte
no_percent-SafeEscapes [] h = none_left
no_percent-SafeEscapes (c ∷ s) h = plain (ground arith) (no_percent-SafeEscapes s (ground arith))

escapes_sound : (s : Bytes) → has_byte s b'%' && has_unsafe_escape s ≡ false → SafeEscapes s
escapes_sound s h = elim (Bool-cases (has_byte s b'%')) [
  | inl e ↦ has_unsafe_escape-SafeEscapes s (ground arith)
  | inr e ↦ no_percent-SafeEscapes s e
]

segments_sound :
    (segs : List Bytes)
    → any no_segment segs ≡ false
    → All (λ seg. (seg ≢ []) × (seg ≢ codes ".")) segs
unfolding no_segment
segments_sound [] h = tt
segments_sound (seg ∷ segs) h = (
  ground (arith, str_eq_iff seg [], str_eq_iff seg (codes ".")),
  segments_sound segs (ground arith),
)

-- What a raw value may not hold, whether it may span segments or not.
pub record IsRawSafe (s : Bytes) (multi : Bool) : Type 0 where
  pub no_parent : contains s (codes "..") ≡ false
  pub no_query : All (λ c. (c ≢ b'?') × (c ≢ b'#') × (c ≢ b'\\')) s
  pub no_control : All (λ c. (0x20 ≤ c) × (c ≢ 0x7f)) s
  pub one_segment : multi ≡ false → All (λ c. (c ≢ b'/') × (c ≢ b'%')) s
  pub segments : multi ≡ true → All (λ seg. (seg ≢ []) × (seg ≢ codes ".")) (split s b'/')
  pub escapes : multi ≡ true → SafeEscapes s

no_query_sound :
    (s : Bytes)
    → contains_any s (codes "?#\\") ≡ false
    → All (λ c. (c ≢ b'?') × (c ≢ b'#') × (c ≢ b'\\')) s
unfolding contains_any has_byte
no_query_sound [] h = tt
no_query_sound (c ∷ s) h = (ground arith, no_query_sound s (ground arith))

no_control_sound : (s : Bytes) → any is_control s ≡ false → All (λ c. (0x20 ≤ c) × (c ≢ 0x7f)) s
unfolding is_control
no_control_sound [] h = tt
no_control_sound (c ∷ s) h = (ground arith, no_control_sound s (ground arith))

one_segment_sound :
    (s : Bytes)
    → has_byte s b'/' ≡ false
    → has_byte s b'%' ≡ false
    → All (λ c. (c ≢ b'/') × (c ≢ b'%')) s
unfolding has_byte
one_segment_sound [] h k = tt
one_segment_sound (c ∷ s) h k = (ground arith, one_segment_sound s (ground arith) (ground arith))

-- A raw value that passes `hasPathInjection` has no `..`, no query, fragment or backslash and no
-- control character; if it must be one segment it has no slash and no percent sign, else each of
-- its segments is neither empty nor `.` and its escapes are safe.
pub has_path_injection-IsRawSafe :
    (s : Bytes) (multi : Bool) → has_path_injection s multi ≡ false → IsRawSafe s multi
unfolding has_path_injection
has_path_injection-IsRawSafe s multi h = record {
  no_parent = ground arith;
  no_query = no_query_sound s (ground arith);
  no_control = no_control_sound s (ground arith);
  one_segment = λ e. one_segment_sound s (ground arith) (ground arith);
  segments = λ e. segments_sound (split s b'/') (ground arith);
  escapes = λ e. escapes_sound s (ground arith);
}

raw-IsSegment :
    (s : Bytes)
    → All (λ c. (c ≢ b'?') × (c ≢ b'#') × (c ≢ b'\\')) s
    → All (λ c. (c ≢ b'/') × (c ≢ b'%')) s
    → has_byte s b';' ≡ false
    → IsSegment s
unfolding is_delimiter has_byte
raw-IsSegment [] h k e = tt
raw-IsSegment (c ∷ s) (h, hs) (k, ks) e = (ground arith, raw-IsSegment s hs ks (ground arith))

-- A raw value that must be one segment is one.
pub has_path_injection-IsSegment :
    (s : Bytes) → has_path_injection s false ≡ false → has_byte s b';' ≡ false → IsSegment s
has_path_injection-IsSegment s h e =
    let safe = has_path_injection-IsRawSafe s false h in
    raw-IsSegment s safe.no_query (safe.one_segment refl) e

percent-IsSegment : (c : ℕ) → IsSegment (percent c)
unfolding percent hex_digit is_delimiter
percent-IsSegment c = ground arith

path_safe-IsSegment : (c : ℕ) → path_safe c ≡ true → IsSegment (c ∷ [])
unfolding path_safe unreserved is_delimiter
path_safe-IsSegment c h = ground arith

pub path_escape-IsSegment : (s : Bytes) → IsSegment (path_escape s)
unfolding path_escape
path_escape-IsSegment [] = tt
path_escape-IsSegment (c ∷ s) = elim (Bool-cases (path_safe c)) [
  | inl e ↦
      rw e
        (All-append _ (c ∷ []) (path_escape s) (path_safe-IsSegment c e) (path_escape-IsSegment s))
  | inr e ↦
      rw e
        (All-append _ (percent c) (path_escape s) (percent-IsSegment c) (path_escape-IsSegment s))
]

unreserved-IsSegment : (c : ℕ) → unreserved c ≡ true → IsSegment (c ∷ [])
unfolding unreserved is_delimiter
unreserved-IsSegment c h = ground arith

plus-IsSegment : IsSegment (b'+' ∷ [])
unfolding is_delimiter
plus-IsSegment = (refl, tt)

query_escaped : ℕ → Bytes
query_escaped c = if unreserved c then c ∷ [] else if c == 32 then b'+' ∷ [] else percent c

query_escaped-IsSegment : (c : ℕ) → IsSegment (query_escaped c)
unfolding query_escaped
query_escaped-IsSegment c = elim (Bool-cases (unreserved c)) [
  | inl e ↦ rw e (unreserved-IsSegment c e)
  | inr e ↦ elim (Bool-cases (c == 32)) [
    | inl e' ↦ rw (e, e') plus-IsSegment
    | inr e' ↦ rw (e, e') (percent-IsSegment c)
  ]
]

pub query_escape-IsSegment : (s : Bytes) → IsSegment (query_escape s)
unfolding query_escape query_escaped
query_escape-IsSegment [] = tt
query_escape-IsSegment (c ∷ s) =
    All-append _ (query_escaped c) (query_escape s) (query_escaped-IsSegment c)
      (query_escape-IsSegment s)
