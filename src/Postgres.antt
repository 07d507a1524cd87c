-- ===== src/Postgres.antt =====
-- internal/connectors/postgres/connector.go and walk.go: which statements and which tables a query
-- may name. The SQL parser is a parameter; its trees are modelled as the walk sees them. Names are
-- ASCII.
use external_gateway.Prelude.{
  ℕ, zero, suc, ◌+◌, Bool, true, false, not, ◌&&◌, ◌||◌, Bytes, List, [], ◌∷◌, ◌++◌, Option, none,
  some, codes, str_eq, Map, lookup, contains_string, has_prefix, has_suffix, contains, trim_space,
  length, take, ◌-◌, map, any, Result, ok, err, ◌>>=◌, ◌>>◌, guard, ltb, leb, if◌then◌else◌,
}
use external_gateway.Value.{Params, as_string}
pub mod Walk
pub mod Scope
pub mod Rows
pub mod Statements

-- `strings.ToLower`
abbrev lower_byte : ℕ → ℕ
lower_byte c = if leb 65 c && leb c 90 then c + 32 else c

unfoldable pub to_lower : Bytes → Bytes
to_lower s = map lower_byte s

-- `strings.TrimSuffix(s, p)`
unfoldable pub trim_suffix : Bytes → Bytes → Bytes
unfolding has_suffix
trim_suffix s p = if has_suffix s p then take (length s - length p) s else s

pub record TableRef : Type 0 where
  pub schema : Bytes
  pub name : Bytes

-- What an entry of the list, already trimmed and in lower case, says of a table.
unfoldable pub entry_allows : TableRef → Bytes → Bool
unfolding str_eq has_suffix trim_suffix contains has_prefix
entry_allows ref a =
    if str_eq a []
    then false
    else if str_eq a (codes "*") || str_eq a (codes "*.*")
    then true
    else (if has_suffix a (codes ".*")
        then str_eq ref.schema (trim_suffix a (codes ".*"))
        else if contains a (codes ".")
        then str_eq a (ref.schema ++ (b'.' ∷ ref.name))
        else str_eq a ref.name && (str_eq ref.schema [] || str_eq ref.schema (codes "public")))
      || str_eq ref.schema []
        && has_prefix ref.name (codes "pg_")
        && (str_eq a (codes "pg_catalog.*") || str_eq a (codes "pg_catalog." ++ ref.name))

-- `tableAllowed`
unfoldable pub table_ref_allowed : TableRef → List Bytes → Bool
unfolding entry_allows to_lower trim_space
table_ref_allowed ref [] = false
table_ref_allowed ref (a ∷ allowed) =
    entry_allows ref (to_lower (trim_space a)) || table_ref_allowed ref allowed

-- `TableAllowed`
unfoldable pub table_allowed : List Bytes → Bytes → Bytes → Bool
unfolding table_ref_allowed to_lower str_eq
table_allowed [] schema name = true
table_allowed (a ∷ allowed) schema name =
    table_ref_allowed
      (record {
        schema = to_lower (if str_eq schema [] then codes "public" else schema);
        name = to_lower name;
      })
      (a ∷ allowed)

-- Whether a row's `table_name` is a text that the list allows.
unfoldable pub row_allowed : List Bytes → Bytes → Params → Bool
unfolding table_allowed lookup
row_allowed allowed schema row = elim (as_string (lookup (codes "table_name") row)) [
  | none ↦ false
  | some name ↦ table_allowed allowed schema name
]

unfoldable pub filter_rows : List Bytes → Bytes → List Params → List Params
unfolding row_allowed
filter_rows allowed schema [] = []
filter_rows allowed schema (row ∷ rows) =
    let rest = filter_rows allowed schema rows in
    if row_allowed allowed schema row then row ∷ rest else rest

-- `FilterTableRows`; the count is the length of the rows.
unfoldable pub filter_table_rows : List Bytes → Bytes → List Params → List Params
unfolding filter_rows
filter_table_rows [] schema rows = rows
filter_table_rows (a ∷ allowed) schema rows = filter_rows (a ∷ allowed) schema rows

abbrev pub denied_func_prefixes : List Bytes
denied_func_prefixes =
    codes "query_to_xml"
    ∷ codes "table_to_xml"
    ∷ codes "schema_to_xml"
    ∷ codes "database_to_xml"
    ∷ codes "cursor_to_xml"
    ∷ codes "dblink"
    ∷ codes "pg_read_"
    ∷ codes "pg_ls_"
    ∷ codes "pg_stat_file"
    ∷ codes "pg_file_"
    ∷ codes "lo_"
    ∷ codes "pg_terminate_backend"
    ∷ codes "pg_cancel_backend"
    ∷ codes "pg_sleep"
    ∷ codes "set_config"
    ∷ codes "ts_stat"
    ∷ codes "pg_reload_conf"
    ∷ codes "pg_rotate_logfile"
    ∷ codes "pg_switch_wal"
    ∷ codes "pg_notify"
    ∷ codes "pg_advisory_"
    ∷ codes "pg_logical_"
    ∷ codes "pg_create_"
    ∷ codes "pg_drop_"
    ∷ codes "pg_replication_"
    ∷ codes "pg_export_snapshot"
    ∷ codes "nextval"
    ∷ codes "setval"
    ∷ codes "currval"
    ∷ codes "pg_backup_"
    ∷ codes "ts_rewrite"
    ∷ codes "crosstab"
    ∷ codes "connectby"
    ∷ codes "xpath_table"
    ∷ codes "pg_stat_get_"
    ∷ codes "pg_show_all_"
    ∷ codes "pg_sequence_last_value"
    ∷ codes "pg_promote"
    ∷ codes "pg_wal_replay_"
    ∷ codes "pg_import_system_collations"
    ∷ []

unfoldable pub func_denied : Bytes → Bool
unfolding to_lower has_prefix
func_denied name = any (λ p. has_prefix (to_lower name) p) denied_func_prefixes
