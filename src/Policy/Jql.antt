-- ===== src/Policy/Jql.antt =====
-- The JQL scope of internal/policy/registry.go: `splitJQLOrderBy` and `JQLScopeConstraint.Check`.
pub mod Nesting
pub mod Scanning
pub mod Scope
use external_gateway.Prelude.{
  ℕ, ◌+◌, ◌-◌, ◌≡◌, refl, Bool, true, false, not, ◌&&◌, ◌||◌, Bytes, List, [], ◌∷◌, ◌++◌, Option,
  none, some, lookup, insert, codes, Result, ok, err, ◌>>=◌, ◌>>◌, guard, if◌then◌else◌, ◌==◌, leb,
  is_some, take, drop, trim_space, str_eq,
}
use external_gateway.Value.{Params, str, as_string}
use external_gateway.Config.{Workspace}
use external_gateway.Policy.{
  PolicyError, jql_required, jql_parenthesis, jql_unbalanced, jql_order_by,
}

pub is_jql_word_byte : ℕ → Bool
is_jql_word_byte b =
    b == b'_' || leb b'0' b && leb b b'9' || leb b'a' b && leb b b'z' || leb b'A' b && leb b b'Z'

-- The letter `l` in either case.
letter : ℕ → ℕ → Bool
letter l c = c == l || c == l - 32

-- The class `\s` of a regular expression.
regex_space : ℕ → Bool
regex_space c = c == 9 || c == 10 || c == 12 || c == 13 || c == 32

-- The text behind a case-insensitive word.
after_word : Bytes → Bytes → Option Bytes
after_word [] s = some s
after_word (l ∷ word) [] = none
after_word (l ∷ word) (c ∷ s) = elim (letter l c) [ true ↦ after_word word s | false ↦ none ]

skip_spaces : Bytes → Bytes
skip_spaces [] = []
skip_spaces (c ∷ s) = elim (regex_space c) [ true ↦ skip_spaces s | false ↦ c ∷ s ]

-- `\b` behind a word byte.
at_word_end : Bytes → Bool
at_word_end [] = true
at_word_end (c ∷ s) = not (is_jql_word_byte c)

ends_by : Bytes → Bool
ends_by s = elim (after_word (codes "by") s) [ none ↦ false | some rest ↦ at_word_end rest ]

-- At least one space, then `by`.
spaces_by : Bytes → Bool
spaces_by [] = false
spaces_by (c ∷ s) = regex_space c && ends_by (skip_spaces s)

-- The regular expression `orderByStart`.
pub order_by_start : Bytes → Bool
unfolding letter regex_space after_word skip_spaces at_word_end is_jql_word_byte ends_by spaces_by
order_by_start s = elim (after_word (codes "order") s) [ none ↦ false | some rest ↦ spaces_by rest ]

-- The variables of the loop of `splitJQLOrderBy`. `quote` is 0 outside of quotes; `escaped` says
-- that a backslash in quotes has made the loop skip the byte at hand.
pub record Scan : Type 0 where
  pub quote : ℕ
  pub escaped : Bool
  pub depth : ℕ
  pub order_at : Option ℕ

abbrev pub Fallible : Type 0 → Type 0
Fallible A = Result PolicyError A

-- An `o` starts the ORDER BY clause at the top level, once, at the start of a word.
starts_order : Option ℕ → Scan → Bytes → Bool
starts_order prev st s =
    st.depth == 0
    && not (is_some st.order_at)
    && elim prev [ none ↦ true | some b ↦ not (is_jql_word_byte b) ]
    && order_by_start s

-- The `switch c` outside of quotes, at the index `i` of the byte `c`, which `s` follows.
unquoted : Option ℕ → ℕ → Scan → ℕ → Bytes → Fallible Scan
unquoted prev i st c s =
    if c == b'"' || c == b'\''
    then ok (record st { quote = c })
    else if c == b'('
    then ok (record st { depth = st.depth + 1 })
    else if c == b')'
    then (if st.depth == 0 then err jql_parenthesis else ok (record st { depth = st.depth - 1 }))
    else if (c == b'o' || c == b'O') && starts_order prev st (c ∷ s)
    then ok (record st { order_at = some i })
    else ok st

-- One round of the loop.
pub step : Option ℕ → ℕ → Scan → ℕ → Bytes → Fallible Scan
step prev i st c s =
    if st.escaped
    then ok (record st { escaped = false })
    else if not (st.quote == 0)
    then (if c == b'\\'
        then ok (record st { escaped = true })
        else if c == st.quote
        then ok (record st { quote = 0 })
        else ok st)
    else unquoted prev i st c s

pub scan : Option ℕ → ℕ → Scan → Bytes → Fallible Scan
scan prev i st [] = ok st
scan prev i st (c ∷ s) = do st' ← step prev i st c s; scan (some c) (i + 1) st' s

abbrev pub start : Scan
start = record { quote = 0; escaped = false; depth = 0; order_at = none }

-- The end of `splitJQLOrderBy`; `clause` is the regular expression `orderByClause`.
pub finish : (Bytes → Bool) → Bytes → Scan → Fallible (Bytes × Bytes)
finish clause jql st = do
  guard (st.quote == 0 && st.depth == 0) jql_unbalanced
  elim st.order_at [
    | none ↦ ok (trim_space jql, [])
    | some i ↦ do
      guard (clause (trim_space (drop i jql))) jql_order_by
      ok (trim_space (take i jql), trim_space (drop i jql))
  ]

unfoldable pub split_jql_order_by : (Bytes → Bool) → Bytes → Fallible (Bytes × Bytes)
unfolding starts_order order_by_start unquoted step scan finish trim_space
split_jql_order_by clause jql = do st ← scan none 0 start jql; finish clause jql st

-- `strings.Join(parts, sep)`
unfoldable pub join : Bytes → List Bytes → Bytes
join sep [] = []
join sep (p ∷ []) = p
join sep (p ∷ q ∷ ps) = p ++ sep ++ join sep (q ∷ ps)

abbrev pub project_scope : List Bytes → Bytes
project_scope projects = codes "project in (" ++ join (codes ",") projects ++ codes ")"

-- The query that is sent upstream.
unfoldable pub scoped_query : Bytes → Bytes → List Bytes → Bytes
unfolding join str_eq
scoped_query filter order projects =
    let scope = project_scope projects in
    let scoped =
      if str_eq filter [] then scope else codes "(" ++ filter ++ codes ") AND " ++ scope in
    if str_eq order [] then scoped else scoped ++ (codes " " ++ order)

-- `c.Projects`, or the workspace's where that is nil.
abbrev pub effective_projects : Option (List Bytes) → Workspace → List Bytes
effective_projects none ws = ws.policy.jira_projects
effective_projects (some projects) ws = projects

rewrite_jql : (Bytes → Bool) → List Bytes → Bytes → Params → Fallible Params
rewrite_jql clause [] jql params = ok params
rewrite_jql clause (p ∷ ps) jql params = do
  (filter, order) ← split_jql_order_by clause jql
  ok (insert (codes "jql") (str (scoped_query filter order (p ∷ ps))) params)

-- `JQLScopeConstraint.Check`; the parameters are returned as it leaves them.
unfoldable pub check_jql_scope :
    (Bytes → Bool) → Option (List Bytes) → Params → Workspace → Fallible Params
unfolding rewrite_jql split_jql_order_by scoped_query lookup insert str_eq trim_space
check_jql_scope clause projects params ws = elim (as_string (lookup (codes "jql") params)) [
  | none ↦ err jql_required
  | some jql ↦
      if str_eq (trim_space jql) []
      then err jql_required
      else rewrite_jql clause (effective_projects projects ws) jql params
]

-- `orderByClause` does not matter here.
abbrev any_clause : Bytes → Bool
any_clause _ = true

ordered :
    split_jql_order_by any_clause (codes "project = \"A)\" Order  BY created")
    ≡ ok (codes "project = \"A)\"", codes "Order  BY created")
unfolding split_jql_order_by
ordered = refl

escape_attempt :
    split_jql_order_by any_clause (codes "x) OR (project = OTHER") ≡ err jql_parenthesis
unfolding split_jql_order_by
escape_attempt = refl
