-- ===== src/Postgres/Scope.antt =====
-- What the table scope of internal/connectors/postgres lets a statement touch.
use external_gateway.Prelude.{
  ℕ, ◌+◌, true, false, ◌&&◌, Bytes, List, [], ◌∷◌, ◌++◌, Option, some, str_eq, contains_string,
  trim_space, ok, ◌>>=◌, bind-eq-ok, ◌≡◌, ◌⊎◌, inl, inr, refl, sym, ◌∙◌, subst, arith, Some,
  Bool-cases,
}
use external_gateway.Postgres.{TableRef, to_lower, func_denied}
use external_gateway.Postgres.Rows.{Granted, table_ref_allowed_iff}
use external_gateway.Postgres.Walk.{
  Tree, absent, scalar, boxed, group, node, Trees, nothing, both, Node, range_var, func_call,
  select_stmt, other_node, With, no_with, with_ctes, Ctes, no_more, cte, not_a_cte, is_denied,
  last_part, Walked, within_depth, cte_names, with_scope, range_refs, joined, walk_value,
  walk_fields, walk_node, walk_with, walk_recursive, walk_in_order, walk_items, check_refs,
  Statement, trees, check_table_scope,
}

-- A table that a statement reads, or a function that it calls.
pub data Touch : Type 0 where
  reads : TableRef → Touch
  calls : Bytes → Touch

-- What stands in a statement, under the names of common table expressions that are in scope. Names
-- of the WITH clause are in scope in the SELECT's body; in its queries all of them under RECURSIVE,
-- else the earlier ones.
abbrev mutual
  pub Touches : Tree → List Bytes → Touch → Type 0
  Touches absent scope x = ⊥
  Touches scalar scope x = ⊥
  Touches (boxed t) scope x = Touches t scope x
  Touches (group ts) scope x = TouchesAny ts scope x
  Touches (node n) scope x = TouchesNode n scope x

  pub TouchesAny : Trees → List Bytes → Touch → Type 0
  TouchesAny nothing scope x = ⊥
  TouchesAny (both t ts) scope x = Touches t scope x ⊎ TouchesAny ts scope x

  pub TouchesNode : Node → List Bytes → Touch → Type 0
  TouchesNode (range_var schema name) scope x =
      ((str_eq schema [] && contains_string scope (to_lower name)) ≡ false)
      × (x ≡ reads (record { schema = to_lower schema; name = to_lower name }))
  TouchesNode (func_call name fields) scope x =
      ((f : Bytes) × (last_part name ≡ some f) × (x ≡ calls f)) ⊎ TouchesAny fields scope x
  TouchesNode (select_stmt w fields) scope x =
      TouchesWith w scope x ⊎ TouchesAny fields (with_scope w scope) x
  TouchesNode (other_node fields) scope x = TouchesAny fields scope x

  pub TouchesWith : With → List Bytes → Touch → Type 0
  TouchesWith no_with scope x = ⊥
  TouchesWith (with_ctes true ctes) scope x = TouchesAll ctes (cte_names ctes ++ scope) x
  TouchesWith (with_ctes false ctes) scope x = TouchesInOrder ctes scope x

  pub TouchesAll : Ctes → List Bytes → Touch → Type 0
  TouchesAll no_more scope x = ⊥
  TouchesAll (cte name query ctes) scope x = Touches query scope x ⊎ TouchesAll ctes scope x
  TouchesAll (not_a_cte ctes) scope x = TouchesAll ctes scope x

  pub TouchesInOrder : Ctes → List Bytes → Touch → Type 0
  TouchesInOrder no_more scope x = ⊥
  TouchesInOrder (cte name query ctes) scope x =
      Touches query scope x ⊎ TouchesInOrder ctes (to_lower name ∷ scope) x
  TouchesInOrder (not_a_cte ctes) scope x = TouchesInOrder ctes scope x

-- The walk has listed the table, or let the function pass.
abbrev Covers : List TableRef → Touch → Type 0
Covers refs (reads r) = Some (λ q. q ≡ r) refs
Covers refs (calls f) = func_denied f ≡ false

Covers-left : (xs ys : List TableRef) (x : Touch) → Covers xs x → Covers (xs ++ ys) x
Covers-left xs ys (calls f) h = h
Covers-left [] ys (reads r) h = absurd h
Covers-left (q ∷ xs) ys (reads r) (inl e) = inl e
Covers-left (q ∷ xs) ys (reads r) (inr h) = inr (Covers-left xs ys (reads r) h)

Covers-right : (xs ys : List TableRef) (x : Touch) → Covers ys x → Covers (xs ++ ys) x
Covers-right xs ys (calls f) h = h
Covers-right [] ys (reads r) h = h
Covers-right (q ∷ xs) ys (reads r) h = inr (Covers-right xs ys (reads r) h)

-- Whatever a successful walk returns covers.
abbrev Finds : Walked → Touch → Type 0
Finds walked x = (refs : List TableRef) → walked ≡ ok refs → Covers refs x

within_depth-Finds :
    (depth : ℕ) (w : Walked) (x : Touch) → Finds w x → Finds (within_depth depth w) x
within_depth-Finds depth w x f refs h = f refs (ground arith)

joined-left : (a b : Walked) (x : Touch) → Finds a x → Finds (joined a b) x
joined-left a b x f refs h =
    let (xs, first, rest) = bind-eq-ok a (λ xs. b >>= λ ys. ok (xs ++ ys)) h in
    let (ys, second, same) = bind-eq-ok b (λ ys. ok (xs ++ ys)) rest in
    let joint : xs ++ ys ≡ refs = ground arith in
    subst (λ r. Covers r x) joint (Covers-left xs ys x (f xs first))

joined-right : (a b : Walked) (x : Touch) → Finds b x → Finds (joined a b) x
joined-right a b x f refs h =
    let (xs, first, rest) = bind-eq-ok a (λ xs. b >>= λ ys. ok (xs ++ ys)) h in
    let (ys, second, same) = bind-eq-ok b (λ ys. ok (xs ++ ys)) rest in
    let joint : xs ++ ys ≡ refs = ground arith in
    subst (λ r. Covers r x) joint (Covers-right xs ys x (f ys second))

range_refs-Finds :
    (schema name : Bytes) (scope : List Bytes) (x : Touch)
    → TouchesNode (range_var schema name) scope x
    → Finds (ok (range_refs schema name scope)) x
unfolding range_refs
range_refs-Finds schema name scope x (hidden, e) refs h =
    let listed : range_refs schema name scope ≡ refs = ground arith in
    rw (sym listed, e, hidden) (inl refl)

mutual
  unfolding walk_value

  walk_value-Finds :
      (t : Tree) (scope : List Bytes) (depth : ℕ) (x : Touch)
      → Touches t scope x
      → Finds (walk_value t scope depth) x
  walk_value-Finds absent scope depth x h = absurd h
  walk_value-Finds scalar scope depth x h = absurd h
  walk_value-Finds (boxed t) scope depth x h =
      within_depth-Finds depth (walk_value t scope (depth + 1)) x
        (walk_value-Finds t scope (depth + 1) x h)
  walk_value-Finds (group ts) scope depth x h =
      within_depth-Finds depth (walk_fields ts scope (depth + 1)) x
        (walk_fields-Finds ts scope (depth + 1) x h)
  walk_value-Finds (node n) scope depth x h =
      within_depth-Finds depth (walk_node n scope depth) x (walk_node-Finds n scope depth x h)

  walk_fields-Finds :
      (ts : Trees) (scope : List Bytes) (depth : ℕ) (x : Touch)
      → TouchesAny ts scope x
      → Finds (walk_fields ts scope depth) x
  walk_fields-Finds nothing scope depth x h = absurd h
  walk_fields-Finds (both t ts) scope depth x (inl h) =
      joined-left (walk_value t scope depth) (walk_fields ts scope depth) x
        (walk_value-Finds t scope depth x h)
  walk_fields-Finds (both t ts) scope depth x (inr h) =
      joined-right (walk_value t scope depth) (walk_fields ts scope depth) x
        (walk_fields-Finds ts scope depth x h)

  walk_node-Finds :
      (n : Node) (scope : List Bytes) (depth : ℕ) (x : Touch)
      → TouchesNode n scope x
      → Finds (walk_node n scope depth) x
  walk_node-Finds (range_var schema name) scope depth x h = range_refs-Finds schema name scope x h
  walk_node-Finds (func_call name fields) scope depth x h = λ refs e.
      elim (Bool-cases (is_denied (last_part name))) [
        | inl d ↦ absurd (ground arith)
        | inr d ↦ elim h [
          | inl (f, last, s) ↦
              let free : func_denied f ≡ false = subst (λ o. is_denied o ≡ false) last d in
              rw (s) free
          | inr t ↦ walk_fields-Finds fields scope (depth + 1) x t refs (ground arith)
        ]
      ]
  walk_node-Finds (select_stmt w fields) scope depth x (inl h) =
      joined-left (walk_with w scope (depth + 1))
        (walk_fields fields (with_scope w scope) (depth + 1)) x
        (walk_with-Finds w scope (depth + 1) x h)
  walk_node-Finds (select_stmt w fields) scope depth x (inr h) =
      joined-right (walk_with w scope (depth + 1))
        (walk_fields fields (with_scope w scope) (depth + 1)) x
        (walk_fields-Finds fields (with_scope w scope) (depth + 1) x h)
  walk_node-Finds (other_node fields) scope depth x h =
      walk_fields-Finds fields scope (depth + 1) x h

  walk_with-Finds :
      (w : With) (scope : List Bytes) (depth : ℕ) (x : Touch)
      → TouchesWith w scope x
      → Finds (walk_with w scope depth) x
  walk_with-Finds no_with scope depth x h = absurd h
  walk_with-Finds (with_ctes true ctes) scope depth x h =
      walk_recursive-Finds ctes (cte_names ctes ++ scope) depth x h
  walk_with-Finds (with_ctes false ctes) scope depth x h = walk_in_order-Finds ctes scope depth x h

  walk_recursive-Finds :
      (ctes : Ctes) (scope : List Bytes) (depth : ℕ) (x : Touch)
      → TouchesAll ctes scope x
      → Finds (walk_recursive ctes scope depth) x
  walk_recursive-Finds no_more scope depth x h = absurd h
  walk_recursive-Finds (cte name query ctes) scope depth x (inl h) =
      joined-left (walk_value query scope depth) (walk_recursive ctes scope depth) x
        (walk_value-Finds query scope depth x h)
  walk_recursive-Finds (cte name query ctes) scope depth x (inr h) =
      joined-right (walk_value query scope depth) (walk_recursive ctes scope depth) x
        (walk_recursive-Finds ctes scope depth x h)
  walk_recursive-Finds (not_a_cte ctes) scope depth x h = walk_recursive-Finds ctes scope depth x h

  walk_in_order-Finds :
      (ctes : Ctes) (scope : List Bytes) (depth : ℕ) (x : Touch)
      → TouchesInOrder ctes scope x
      → Finds (walk_in_order ctes scope depth) x
  walk_in_order-Finds no_more scope depth x h = absurd h
  walk_in_order-Finds (cte name query ctes) scope depth x (inl h) =
      joined-left (walk_value query scope depth) (walk_in_order ctes (to_lower name ∷ scope) depth)
        x (walk_value-Finds query scope depth x h)
  walk_in_order-Finds (cte name query ctes) scope depth x (inr h) =
      joined-right (walk_value query scope depth) (walk_in_order ctes (to_lower name ∷ scope) depth)
        x (walk_in_order-Finds ctes (to_lower name ∷ scope) depth x h)
  walk_in_order-Finds (not_a_cte ctes) scope depth x h = walk_in_order-Finds ctes scope depth x h

-- Some statement of the list touches it.
abbrev pub AnyTouches : List Tree → Touch → Type 0
AnyTouches items x = Some (λ t. Touches t [] x) items

walk_items-Finds : (items : List Tree) (x : Touch) → AnyTouches items x → Finds (walk_items items) x
unfolding walk_items
walk_items-Finds [] x h = absurd h
walk_items-Finds (t ∷ items) x (inl h) =
    joined-left (walk_value t [] 0) (walk_items items) x (walk_value-Finds t [] 0 x h)
walk_items-Finds (t ∷ items) x (inr h) =
    joined-right (walk_value t [] 0) (walk_items items) x (walk_items-Finds items x h)

-- Tables on the list and functions that are not denied.
abbrev pub Permits : List Bytes → Touch → Type 0
Permits allowed (reads r) = Granted allowed r
Permits allowed (calls f) = func_denied f ≡ false

check_refs-Permits :
    (allowed : List Bytes) (refs : List TableRef) (x : Touch)
    → check_refs allowed refs ≡ ok tt
    → Covers refs x
    → Permits allowed x
unfolding check_refs
check_refs-Permits allowed refs (calls f) h c = c
check_refs-Permits allowed [] (reads r) h c = absurd c
check_refs-Permits allowed (q ∷ refs) (reads r) h (inl e) =
    subst (Granted allowed) e ((table_ref_allowed_iff q allowed).0 (ground arith))
check_refs-Permits allowed (q ∷ refs) (reads r) h (inr c) =
    check_refs-Permits allowed refs (reads r) (ground arith) c

-- If the table scope accepts a query, then each table that one of its parsed statements reads,
-- wherever it stands and unless it is the name of a common table expression in scope there, is
-- granted by an entry of the allow-list, and no function that it calls anywhere is denied.
pub check_table_scope-Permits :
    (parse : Bytes → Option (List Statement)) (allowed : List Bytes) (query : Bytes)
    (statements : List Statement) (x : Touch)
    → check_table_scope parse allowed query ≡ ok tt
    → parse (trim_space query) ≡ some statements
    → AnyTouches (trees statements) x
    → Permits allowed x
unfolding check_table_scope
check_table_scope-Permits parse allowed query statements x h p t =
    let opened : check_table_scope parse allowed query
        ≡ (walk_items (trees statements) >>= check_refs allowed) =
      rw (p, check_table_scope) refl in
    let passed : (walk_items (trees statements) >>= check_refs allowed) ≡ ok tt = sym opened ∙ h in
    let (refs, walked, checked) =
      bind-eq-ok (walk_items (trees statements)) (check_refs allowed) passed in
    check_refs-Permits allowed refs x checked (walk_items-Finds (trees statements) x t refs walked)
