-- ===== src/Postgres/Walk.antt =====
-- The walk over a statement of internal/connectors/postgres/walk.go, and the checks of
-- internal/connectors/postgres/connector.go that use it.
use external_gateway.Prelude.{
  ℕ, ◌+◌, Bool, true, false, ◌&&◌, Bytes, List, [], ◌∷◌, ◌++◌, Option, none, some, str_eq,
  contains_string, trim_space, Result, ok, err, ◌>>=◌, ◌>>◌, guard, ltb, if◌then◌else◌,
}
use external_gateway.Postgres.{TableRef, to_lower, func_denied, table_ref_allowed}

-- A value as `reflect` shows it: an absent interface or pointer, a value of another kind, what an
-- interface or a pointer leads to, the elements of a slice or the exported fields of a struct, or a
-- node of the syntax tree. A function's name is a list of parts, `none` for a part that is no text; a
-- SELECT's fields leave out its WITH clause, whose items may be other than table expressions.
mutual
  pub data Tree : Type 0 where
    absent scalar : Tree
    boxed : Tree → Tree
    group : Trees → Tree
    node : Node → Tree

  pub data Trees : Type 0 where
    nothing : Trees
    both : Tree → Trees → Trees

  pub data Node : Type 0 where
    range_var : Bytes → Bytes → Node
    func_call : List (Option Bytes) → Trees → Node
    select_stmt : With → Trees → Node
    other_node : Trees → Node

  pub data With : Type 0 where
    no_with : With
    with_ctes : Bool → Ctes → With

  pub data Ctes : Type 0 where
    no_more : Ctes
    cte : Bytes → Tree → Ctes → Ctes
    not_a_cte : Ctes → Ctes

pub data QueryError : Type 0 where
  too_deep empty_query parse_error no_statement locking_select empty_explain not_a_select :
      QueryError
  function_denied : Bytes → QueryError
  table_denied : TableRef → QueryError

abbrev pub Walked : Type 0
Walked = Result QueryError (List TableRef)

abbrev pub max_walk_depth : ℕ
max_walk_depth = 500

-- `depth > maxWalkDepth`
abbrev pub within_depth : ℕ → Walked → Walked
within_depth depth walked = if ltb max_walk_depth depth then err too_deep else walked

unfoldable pub cte_names : Ctes → List Bytes
unfolding to_lower
cte_names no_more = []
cte_names (cte name query ctes) = to_lower name ∷ cte_names ctes
cte_names (not_a_cte ctes) = cte_names ctes

-- The names that the body of a SELECT sees.
unfoldable pub with_scope : With → List Bytes → List Bytes
unfolding cte_names
with_scope no_with scope = scope
with_scope (with_ctes recursive ctes) scope = cte_names ctes ++ scope

-- The last part of a function's name, where it is a text.
unfoldable pub last_part : List (Option Bytes) → Option Bytes
last_part [] = none
last_part (p ∷ []) = p
last_part (p ∷ q ∷ parts) = last_part (q ∷ parts)

abbrev pub is_denied : Option Bytes → Bool
is_denied none = false
is_denied (some name) = func_denied name

abbrev pub denied_name : Option Bytes → Bytes
denied_name none = []
denied_name (some name) = name

abbrev pub joined : Walked → Walked → Walked
joined first second = do refs ← first; more ← second; ok (refs ++ more)

unfoldable pub range_refs : Bytes → Bytes → List Bytes → List TableRef
unfolding str_eq contains_string to_lower
range_refs schema name scope =
    if str_eq schema [] && contains_string scope (to_lower name)
    then []
    else record { schema = to_lower schema; name = to_lower name } ∷ []

unfoldable mutual
  pub walk_value : Tree → List Bytes → ℕ → Walked
  walk_value absent scope depth = within_depth depth (ok [])
  walk_value scalar scope depth = within_depth depth (ok [])
  walk_value (boxed t) scope depth = within_depth depth (walk_value t scope (depth + 1))
  walk_value (group ts) scope depth = within_depth depth (walk_fields ts scope (depth + 1))
  walk_value (node n) scope depth = within_depth depth (walk_node n scope depth)

  pub walk_fields : Trees → List Bytes → ℕ → Walked
  walk_fields nothing scope depth = ok []
  walk_fields (both t ts) scope depth =
      joined (walk_value t scope depth) (walk_fields ts scope depth)

  pub walk_node : Node → List Bytes → ℕ → Walked
  walk_node (range_var schema name) scope depth = ok (range_refs schema name scope)
  walk_node (func_call name fields) scope depth =
      let rest = walk_fields fields scope (depth + 1) in
      if is_denied (last_part name)
      then err (function_denied (denied_name (last_part name)))
      else rest
  walk_node (select_stmt w fields) scope depth =
      joined (walk_with w scope (depth + 1)) (walk_fields fields (with_scope w scope) (depth + 1))
  walk_node (other_node fields) scope depth = walk_fields fields scope (depth + 1)

  pub walk_with : With → List Bytes → ℕ → Walked
  walk_with no_with scope depth = ok []
  walk_with (with_ctes true ctes) scope depth = walk_recursive ctes (cte_names ctes ++ scope) depth
  walk_with (with_ctes false ctes) scope depth = walk_in_order ctes scope depth

  pub walk_recursive : Ctes → List Bytes → ℕ → Walked
  walk_recursive no_more scope depth = ok []
  walk_recursive (cte name query ctes) scope depth =
      joined (walk_value query scope depth) (walk_recursive ctes scope depth)
  walk_recursive (not_a_cte ctes) scope depth = walk_recursive ctes scope depth

  pub walk_in_order : Ctes → List Bytes → ℕ → Walked
  walk_in_order no_more scope depth = ok []
  walk_in_order (cte name query ctes) scope depth =
      joined (walk_value query scope depth) (walk_in_order ctes (to_lower name ∷ scope) depth)
  walk_in_order (not_a_cte ctes) scope depth = walk_in_order ctes scope depth

-- `walkTables` for each statement, as `checkTableScope` calls it.
unfoldable pub walk_items : List Tree → Walked
unfolding walk_value
walk_items [] = ok []
walk_items (item ∷ items) = joined (walk_value item [] 0) (walk_items items)

unfoldable pub check_refs : List Bytes → List TableRef → Result QueryError (Unit {0})
unfolding table_ref_allowed
check_refs allowed [] = ok tt
check_refs allowed (ref ∷ refs) = do
  guard (table_ref_allowed ref allowed) (table_denied ref)
  check_refs allowed refs

-- A parsed statement by its type: a SELECT with the length of its locking clause, if it has the
-- clause, an EXPLAIN with what it explains, a statement of another type, or nothing.
pub data Form : Type 0 where
  select : Option ℕ → Form
  explain : Form → Form
  other nil : Form

-- A statement by its type, and as the walk sees it.
pub record Statement : Type 0 where
  pub form : Form
  pub tree : Tree

-- `if explain, ok := item.(*ExplainStmt); ok { item = explain.Query }`
unfoldable pub explained : Form → Form
explained (select locking) = select locking
explained (explain query) = query
explained other = other
explained nil = nil

-- `s.LockingClause != nil && s.LockingClause.Len() > 0`
abbrev pub is_locking : Option ℕ → Bool
is_locking none = false
is_locking (some n) = ltb 0 n

-- The type switch of `validateQueryAST`.
unfoldable pub check_form : Form → Result QueryError (Unit {0})
check_form (select locking) = if is_locking locking then err locking_select else ok tt
check_form (explain query) = err not_a_select
check_form other = err not_a_select
check_form nil = err empty_explain

-- The loop of `validateQueryAST`.
unfoldable pub check_forms : List Statement → Result QueryError (Unit {0})
unfolding check_form explained
check_forms [] = ok tt
check_forms (s ∷ statements) = do check_form (explained s.form); check_forms statements

abbrev pub trees : List Statement → List Tree
trees [] = []
trees (s ∷ statements) = s.tree ∷ trees statements

-- The SQL parser: `none` is an error.
module _ (parse : Bytes → Option (List Statement)) where
  unfoldable pub validate_query_ast : Bytes → Result QueryError (Unit {0})
  unfolding trim_space check_forms str_eq
  validate_query_ast query =
      if str_eq (trim_space query) [] then err empty_query else elim (parse (trim_space query)) [
        | none ↦ err parse_error
        | some statements ↦ elim statements [
          | [] ↦ err no_statement
          | s ∷ more ↦ check_forms (s ∷ more)
        ]
      ]

  unfoldable pub check_table_scope : List Bytes → Bytes → Result QueryError (Unit {0})
  check_table_scope allowed query = elim (parse (trim_space query)) [
    | none ↦ err parse_error
    | some statements ↦ do refs ← walk_items (trees statements); check_refs allowed refs
  ]

  -- The checks of `ExecuteQuery` before the transaction.
  unfoldable pub admit_query : List Bytes → Bytes → Result QueryError (Unit {0})
  admit_query [] query = validate_query_ast (trim_space query)
  admit_query (a ∷ allowed) query = do
    validate_query_ast (trim_space query)
    check_table_scope (a ∷ allowed) (trim_space query)
