-- ===== src/Tests/Queries.antt =====
-- The table scope at a concrete query.
use external_gateway.Prelude.{
  Bool, true, false, Bytes, List, [], ◌∷◌, Option, none, some, codes, ok, err, ◌≡◌, ◌≢◌, ◌↔◌, refl,
  inl, inr, str_eq,
}
use external_gateway.Postgres.{TableRef, table_ref_allowed, func_denied, to_lower}
use external_gateway.Postgres.Walk.{
  Tree, node, Trees, nothing, both, range_var, func_call, select_stmt, no_with, with_ctes, cte,
  no_more, Statement, select, check_table_scope, walk_items, check_refs, function_denied,
}
use external_gateway.Value.{str, Params}
use external_gateway.Postgres.{filter_table_rows}
use external_gateway.Postgres.Rows.{IsRow, NamesGranted, filter_table_rows_iff}
use external_gateway.Postgres.Scope.{reads, Permits, check_table_scope-Permits}

-- `WITH t AS (SELECT * FROM Users) SELECT * FROM t`
abbrev statement : Statement
statement = record {
  form = select none;
  tree = node (
      select_stmt
        (with_ctes false (
          cte (codes "T")
            (node (select_stmt no_with (both (node (range_var [] (codes "Users"))) nothing)))
            no_more))
        (both (node (range_var [] (codes "t"))) nothing));
}

abbrev users : TableRef
users = record { schema = []; name = codes "users" }

abbrev parse : Bytes → Option (List Statement)
parse s = some (statement ∷ [])

accepted : check_table_scope parse (codes " users " ∷ []) (codes "q") ≡ ok tt
unfolding check_table_scope walk_items check_refs external_gateway.Postgres.Walk.range_refs
    external_gateway.Postgres.Walk.with_scope
accepted = refl

check_table_scope-Permits_example : Permits (codes " users " ∷ []) (reads users)
unfolding str_eq to_lower external_gateway.Prelude.contains_string
    external_gateway.Postgres.Walk.with_scope
check_table_scope-Permits_example =
    check_table_scope-Permits parse (codes " users " ∷ []) (codes "q") (statement ∷ [])
      (reads users) accepted refl (inl (inl (inl (inr (inl (refl, refl))))))

abbrev user_row : Params
user_row = (codes "table_name", str (codes "Users")) ∷ []

filter_table_rows_iff_example :
    IsRow user_row (filter_table_rows (codes "users" ∷ []) [] (user_row ∷ [] ∷ []))
    ↔ (IsRow user_row (user_row ∷ [] ∷ []) × NamesGranted (codes "users" ∷ []) [] user_row)
filter_table_rows_iff_example =
    filter_table_rows_iff (codes "users") [] [] (user_row ∷ [] ∷ []) user_row
