-- ===== src/Postgres/Statements.antt =====
-- Which statements `ExecuteQuery` of internal/connectors/postgres/connector.go lets run.
use external_gateway.Prelude.{Bytes, List, ◌∷◌, Option, none, some, ◌≡◌, ◌⊎◌, All}
use external_gateway.Postgres.Walk.{Form, select, explain, Statement, trees}
use external_gateway.Postgres.Scope.{Touch, AnyTouches, Permits}

-- A SELECT without a locking clause, or with an empty one.
abbrev pub IsReading : Form → Type 0
IsReading f = (f ≡ select none) ⊎ (f ≡ select (some 0))

-- Such a SELECT, or the EXPLAIN of one.
abbrev pub IsReadOnly : Form → Type 0
IsReadOnly f = IsReading f ⊎ ((query : Form) × (f ≡ explain query) × IsReading query)

-- At least one statement, and only SELECTs that lock nothing, or the EXPLAIN of one.
pub record OnlySelects (parse : Bytes → Option (List Statement)) (query : Bytes) : Type 0 where
  pub first : Statement
  pub more : List Statement
  pub parsed : parse query ≡ some (first ∷ more)
  pub selects : All (λ s. IsReadOnly s.form) (first ∷ more)

-- Whatever the statements of the query touch, the list permits.
abbrev pub Confined :
    (parse : Bytes → Option (List Statement)) (allowed : List Bytes) (query : Bytes) → Type 0
Confined parse allowed query =
    (statements : List Statement) (x : Touch)
    → parse query ≡ some statements
    → AnyTouches (trees statements) x
    → Permits allowed x
