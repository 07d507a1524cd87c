-- ===== src/Server/PathTemplate.antt =====
-- internal/server/pathtemplate.go: the expansion of an operation's path template.
pub mod Injection
pub mod Delimiters
use external_gateway.Prelude.{
  ℕ, ◌+◌, ◌-◌, ◌*◌, ◌/◌, ◌%◌, Bool, true, false, not, ◌&&◌, ◌||◌, Bytes, List, [], ◌∷◌, ◌++◌,
  Option, none, some, Map, lookup, codes, str_eq, has_suffix, has_byte, contains, contains_any,
  has_prefix, take, length, any, split, Result, ok, err, ◌>>=◌, if◌then◌else◌, ltb, leb, ◌==◌, ◌≡◌,
  refl,
}
use external_gateway.Value.{Value, Params, str}
use external_gateway.Policy.{ParamDef}

unfoldable pub is_hex : ℕ → Bool
is_hex c = leb b'0' c && leb c b'9' || leb b'a' c && leb c b'f' || leb b'A' c && leb c b'F'

-- On bytes, where a difference wraps around.
unfoldable pub unhex : ℕ → ℕ
unhex c =
    if leb c b'9'
    then (c + 256 - b'0') % 256
    else if leb c b'F'
    then (c + 256 - b'A' + 10) % 256
    else (c + 256 - b'a' + 10) % 256

-- An escape must not decode to a separator, a dot, or a control character.
unsafe_byte : ℕ → Bool
unsafe_byte b = ltb b 0x20 || b == 0x7f || has_byte (codes "/\\.?#;") b

-- The escape of two digits behind a `%`.
bad_escape : ℕ → ℕ → Bool
bad_escape h l = not (is_hex h) || not (is_hex l) || unsafe_byte ((unhex h * 16 + unhex l) % 256)

unfoldable pub has_unsafe_escape : Bytes → Bool
unfolding unsafe_byte bad_escape is_hex unhex has_byte
has_unsafe_escape [] = false
has_unsafe_escape (c ∷ []) = c == b'%'
has_unsafe_escape (c ∷ h ∷ []) = elim (c == b'%') [
  | true ↦ true
  | false ↦ has_unsafe_escape (h ∷ [])
]
has_unsafe_escape (c ∷ h ∷ l ∷ s) = elim (c == b'%') [
  | true ↦ elim (bad_escape h l) [ true ↦ true | false ↦ has_unsafe_escape s ]
  | false ↦ has_unsafe_escape (h ∷ l ∷ s)
]

-- A segment that is empty or stands for the directory itself.
unfoldable pub no_segment : Bytes → Bool
unfolding str_eq
no_segment seg = str_eq seg [] || str_eq seg (codes ".")

unfoldable pub is_control : ℕ → Bool
is_control r = ltb r 0x20 || r == 0x7f

-- A control character is one byte of UTF-8, so the loop over characters may read bytes.
unfoldable pub has_path_injection : Bytes → Bool → Bool
has_path_injection s multi =
    contains s (codes "..")
    || contains_any s (codes "?#\\")
    || has_byte s b'%' && (not multi || has_unsafe_escape s)
    || not multi && has_byte s b'/'
    || multi && any no_segment (split s b'/')
    || any is_control s

-- A template as its literal texts and its placeholders, the matches of `pathPlaceholder`.
pub data Piece : Type 0 where
  text : Bytes → Piece
  hole : Bytes → Piece

-- `lit` is the literal text so far; `name` is what stands behind an open brace.
unfoldable pub pieces : Bytes → Option Bytes → Bytes → List Piece
pieces lit none [] = text lit ∷ []
pieces lit (some name) [] = text (lit ++ b'{' ∷ name) ∷ []
pieces lit none (c ∷ s) = elim (c == b'{') [
  | true ↦ pieces lit (some []) s
  | false ↦ pieces (lit ++ c ∷ []) none s
]
pieces lit (some name) (c ∷ s) = elim (c == b'{') [
  | true ↦ pieces (lit ++ b'{' ∷ name) (some []) s
  | false ↦ elim (c == b'}') [
    | false ↦ pieces lit (some (name ++ c ∷ [])) s
    | true ↦ elim name [
      | [] ↦ pieces (lit ++ b'{' ∷ b'}' ∷ []) none s
      | n ∷ ns ↦ text lit ∷ hole (n ∷ ns) ∷ pieces [] none s
    ]
  ]
]

unfoldable pub raw : Piece → Bytes
raw (text t) = t
raw (hole name) = b'{' ∷ name ++ b'}' ∷ []

-- `url.PathEscape` keeps these bytes, `url.QueryEscape` the first row of them.
unreserved : ℕ → Bool
unreserved c =
    leb b'a' c && leb c b'z'
    || leb b'A' c && leb c b'Z'
    || leb b'0' c && leb c b'9'
    || c == b'-'
    || c == b'_'
    || c == b'.'
    || c == b'~'

path_safe : ℕ → Bool
path_safe c =
    unreserved c || c == b'$' || c == b'&' || c == b'+' || c == b'=' || c == b':' || c == b'@'

hex_digit : ℕ → ℕ
hex_digit d = if ltb d 10 then b'0' + d else b'A' + (d - 10)

percent : ℕ → Bytes
percent c = b'%' ∷ hex_digit (c / 16 % 16) ∷ hex_digit (c % 16) ∷ []

unfoldable pub path_escape : Bytes → Bytes
unfolding path_safe unreserved percent hex_digit
path_escape [] = []
path_escape (c ∷ s) = (if path_safe c then c ∷ [] else percent c) ++ path_escape s

unfoldable pub query_escape : Bytes → Bytes
unfolding unreserved percent hex_digit
query_escape [] = []
query_escape (c ∷ s) =
    (if unreserved c then c ∷ [] else if c == 32 then b'+' ∷ [] else percent c) ++ query_escape s

urlencode : Bytes
urlencode = codes "|urlencode"

-- `strings.TrimSuffix(name, "|urlencode")` where it is a suffix.
without_urlencode : Bytes → Bytes
without_urlencode name = take (length name - length urlencode) name

multi_segment : Map ParamDef → Bytes → Bool
multi_segment defs key = elim (lookup key defs) [ none ↦ false | some def ↦ def.multi_segment ]

-- A value is substituted escaped, or raw if it cannot leave its place; `key` is cited otherwise.
substitute : Map ParamDef → Bytes → Bytes → Bool → Bytes → Result Bytes Bytes
substitute defs before key encode s =
    if has_suffix before (codes "?path=")
      || has_suffix before (codes "&path=")
      || encode && has_byte before b'?'
    then ok (query_escape s)
    else if encode
    then (if str_eq s (codes ".") || str_eq s (codes "..") then err key else ok (path_escape s))
    else if has_path_injection s (multi_segment defs key)
        || has_byte s b';'
        || has_byte before b'?' && contains_any s (codes "&=+")
    then err key
    else ok s

-- `fmt.Sprintf("%v", val)` is the argument `sprint`.
module _ (sprint : Value → Bytes) (site : Map Bytes) (params : Params) (defs : Map ParamDef) where
  substitute_param : Bytes → Bytes → Bytes → Bool → Result Bytes Bytes
  substitute_param before name key encode = elim (lookup key params) [
    | none ↦ ok (raw (hole name))
    | some val ↦ substitute defs before key encode (sprint val)
  ]

  expand_hole : Bytes → Bytes → Result Bytes Bytes
  expand_hole before name = elim (lookup name site) [
    | some v ↦ ok v
    | none ↦
        if has_suffix name urlencode
        then substitute_param before name (without_urlencode name) true
        else substitute_param before name name false
  ]

  expand_piece : Bytes → Piece → Result Bytes Bytes
  expand_piece before (text t) = ok t
  expand_piece before (hole name) = expand_hole before name

  expand_pieces : Bytes → List Piece → Result Bytes Bytes
  expand_pieces before [] = ok []
  expand_pieces before (p ∷ ps) = do
    here ← expand_piece before p
    later ← expand_pieces (before ++ raw p) ps
    ok (here ++ later)

-- The result, or the key of a value that is not allowed in a path.
unfoldable pub expand_path_template :
    (Value → Bytes) → Bytes → Map Bytes → Params → Map ParamDef → Result Bytes Bytes
unfolding pieces raw path_escape query_escape urlencode without_urlencode multi_segment substitute
    substitute_param expand_hole expand_piece expand_pieces has_path_injection has_unsafe_escape
    no_segment is_control contains split has_suffix has_byte contains_any lookup str_eq
expand_path_template sprint tmpl site params defs =
    expand_pieces sprint site params defs [] (pieces [] none tmpl)

-- `%v` of a string is the string; nothing else is printed here.
abbrev pub print_string : Value → Bytes
print_string (str s) = s
print_string _ = []

abbrev branch : Params
branch = (codes "b", str (codes "a/b c")) ∷ []

expand_tests :
    (expand_path_template print_string (codes "/x/{b|urlencode}/{c}?q={}") [] branch []
      ≡ ok (codes "/x/a%2Fb%20c/{c}?q={}"))
    × (expand_path_template print_string (codes "/x/{b}") [] branch [] ≡ err (codes "b"))
unfolding expand_path_template
expand_tests = (refl, refl)
