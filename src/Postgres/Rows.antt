-- ===== src/Postgres/Rows.antt =====
-- `FilterTableRows` of internal/connectors/postgres/connector.go.
use external_gateway.Prelude.{
  true, false, Option, none, some, codes, lookup, str_eq, str_eq_iff, has_suffix, has_prefix,
  contains, trim_space, if◌then◌else◌, ◌++◌, ◌≢◌, ◌⊎◌, refl, arith, Bytes, List, [], ◌∷◌, ◌≡◌, ◌↔◌,
  inl, inr, sym, ◌∙◌, ap, Some, Bool-cases, Bool, ◌||◌, subst,
}
use external_gateway.Value.{Params, as_string}
use external_gateway.Postgres.{
  TableRef, to_lower, trim_suffix, entry_allows, table_ref_allowed, table_allowed, row_allowed,
  filter_rows, filter_table_rows,
}

-- The row is one of the rows.
abbrev pub IsRow : Params → List Params → Type 0
IsRow row = Some (λ r. r ≡ row)

filter_rows_sound :
    (allowed : List Bytes) (schema : Bytes) (rows : List Params) (row : Params)
    → IsRow row (filter_rows allowed schema rows)
    → IsRow row rows × (row_allowed allowed schema row ≡ true)
unfolding filter_rows
filter_rows_sound allowed schema [] row = λ h. absurd h
filter_rows_sound allowed schema (r ∷ rows) row = elim (Bool-cases (row_allowed allowed schema r)) [
  | inl e ↦ rw (e) (λ h. elim h [
    | inl same ↦ (inl same, ap (row_allowed allowed schema) (sym same) ∙ e)
    | inr k ↦ (
      inr (filter_rows_sound allowed schema rows row k).0,
      (filter_rows_sound allowed schema rows row k).1,
    )
  ])
  | inr e ↦ rw (e) (λ k. (
    inr (filter_rows_sound allowed schema rows row k).0,
    (filter_rows_sound allowed schema rows row k).1,
  ))
]

filter_rows_complete :
    (allowed : List Bytes) (schema : Bytes) (rows : List Params) (row : Params)
    → IsRow row rows
    → row_allowed allowed schema row ≡ true
    → IsRow row (filter_rows allowed schema rows)
unfolding filter_rows
filter_rows_complete allowed schema [] row h a = absurd h
filter_rows_complete allowed schema (r ∷ rows) row (inl same) a =
    rw (ap (row_allowed allowed schema) same ∙ a) (inl same)
filter_rows_complete allowed schema (r ∷ rows) row (inr k) a =
    elim (Bool-cases (row_allowed allowed schema r)) [
      | inl e ↦ rw (e) (inr (filter_rows_complete allowed schema rows row k a))
      | inr e ↦ rw (e) (filter_rows_complete allowed schema rows row k a)
    ]

-- What an entry of the list, trimmed and in lower case, grants: everything; the tables of a schema,
-- where it ends in `.*`; else one table of one schema, where it has a dot; else a table by its bare
-- name, of the schema `public` or of none. Where no schema is given, a catalog entry grants the
-- tables of `pg_`.
abbrev pub Grants : Bytes → TableRef → Type 0
Grants a ref =
    (a ≢ [])
    × ((a ≡ codes "*")
        ⊎ (a ≡ codes "*.*")
        ⊎ ((has_suffix a (codes ".*") ≡ true) × (ref.schema ≡ trim_suffix a (codes ".*")))
        ⊎ ((has_suffix a (codes ".*") ≡ false)
            × (contains a (codes ".") ≡ true)
            × (a ≡ ref.schema ++ b'.' ∷ ref.name))
        ⊎ ((has_suffix a (codes ".*") ≡ false)
            × (contains a (codes ".") ≡ false)
            × (a ≡ ref.name)
            × ((ref.schema ≡ []) ⊎ (ref.schema ≡ codes "public")))
        ⊎ ((ref.schema ≡ [])
            × (has_prefix ref.name (codes "pg_") ≡ true)
            × ((a ≡ codes "pg_catalog.*") ⊎ (a ≡ codes "pg_catalog." ++ ref.name))))

entry_allows_iff : (ref : TableRef) (a : Bytes) → (entry_allows ref a ≡ true) ↔ Grants a ref
unfolding entry_allows
entry_allows_iff ref a = ground (
  arith,
  str_eq_iff a [],
  str_eq_iff a (codes "*"),
  str_eq_iff a (codes "*.*"),
  str_eq_iff ref.schema (trim_suffix a (codes ".*")),
  str_eq_iff a (ref.schema ++ b'.' ∷ ref.name),
  str_eq_iff a ref.name,
  str_eq_iff ref.schema [],
  str_eq_iff ref.schema (codes "public"),
  str_eq_iff a (codes "pg_catalog.*"),
  str_eq_iff a (codes "pg_catalog." ++ ref.name),
)

-- Some entry of the list grants the table.
abbrev pub Granted : List Bytes → TableRef → Type 0
Granted allowed ref = Some (λ a. Grants (to_lower (trim_space a)) ref) allowed

or_iff :
    (b c : Bool) {P Q : Type 0} → ((b ≡ true) ↔ P) → ((c ≡ true) ↔ Q) → ((b || c) ≡ true) ↔ (P ⊎ Q)
or_iff true c f g = (λ _. inl (f.0 refl), λ _. refl)
or_iff false c f g =
    (λ h. inr (g.0 h), λ k. elim k [ inl p ↦ absurd (ground arith) | inr q ↦ g.1 q ])

pub table_ref_allowed_iff :
    (ref : TableRef) (allowed : List Bytes)
    → (table_ref_allowed ref allowed ≡ true) ↔ Granted allowed ref
unfolding table_ref_allowed
table_ref_allowed_iff ref [] = ground arith
table_ref_allowed_iff ref (a ∷ allowed) =
    or_iff (entry_allows ref (to_lower (trim_space a))) (table_ref_allowed ref allowed)
      (entry_allows_iff ref (to_lower (trim_space a))) (table_ref_allowed_iff ref allowed)

-- A table of a row, in the schema of the query, else in `public`.
abbrev pub in_schema : Bytes → Bytes → TableRef
in_schema schema name = record {
  schema = to_lower (if str_eq schema [] then codes "public" else schema);
  name = to_lower name;
}

-- A row whose `table_name` is a text that names a granted table.
abbrev pub NamesGranted : List Bytes → Bytes → Params → Type 0
NamesGranted allowed schema row =
    (name : Bytes) × (as_string (lookup (codes "table_name") row) ≡ some name)
    × Granted allowed (in_schema schema name)

row_allowed_iff :
    (entry : Bytes) (allowed : List Bytes) (schema : Bytes) (row : Params)
    → (row_allowed (entry ∷ allowed) schema row ≡ true) ↔ NamesGranted (entry ∷ allowed) schema row
unfolding row_allowed table_allowed
row_allowed_iff entry allowed schema row = named (as_string (lookup (codes "table_name") row))
  where
    named :
        (o : Option Bytes)
        → ((elim o [ none ↦ false | some name ↦ table_allowed (entry ∷ allowed) schema name ])
            ≡ true)
          ↔ ((name : Bytes) × (o ≡ some name) × Granted (entry ∷ allowed) (in_schema schema name))
    named none = (λ h. absurd (ground arith), λ (name, e, g). absurd (ground arith))
    named (some name) = (
      λ h. (name, refl, (table_ref_allowed_iff (in_schema schema name) (entry ∷ allowed)).0 h),
      λ (n, e, g).
          let same : n ≡ name = cc in
          subst (λ m. table_ref_allowed (in_schema schema m) (entry ∷ allowed) ≡ true) same
            ((table_ref_allowed_iff (in_schema schema n) (entry ∷ allowed)).1 g),
    )

-- Under a list that is not empty, the rows that are left are exactly those whose `table_name` is a
-- text, and names a table that an entry of the list, trimmed and in lower case, grants: `*` or
-- `*.*`; the schema and `.*`; the schema, a dot and the table; or the table alone, of `public`.
-- The schema is `public` where none is given, and names are compared in lower case.
pub filter_table_rows_iff :
    (entry : Bytes) (allowed : List Bytes) (schema : Bytes) (rows : List Params) (row : Params)
    → IsRow row (filter_table_rows (entry ∷ allowed) schema rows)
      ↔ (IsRow row rows × NamesGranted (entry ∷ allowed) schema row)
unfolding filter_table_rows
filter_table_rows_iff entry allowed schema rows row =
    let r = row_allowed_iff entry allowed schema row in
    (
      λ h.
          let (here, kept) = filter_rows_sound (entry ∷ allowed) schema rows row h in
          (here, r.0 kept),
      λ h. filter_rows_complete (entry ∷ allowed) schema rows row h.0 (r.1 h.1),
    )
