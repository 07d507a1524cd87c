-- ===== src/Lib.antt =====
-- A model of the gateway that stands between agents and a company's services: it checks who asks,
-- what they may run and with which parameters, keeps the secrets and hides them in what it returns.
--
-- The parts and the files that model them
--
-- Value.antt: decoded JSON values and request parameters. A Go map is an association list in the
-- order in which the runtime iterates; a theorem that holds for every list holds for every order. A
-- nil map reads as the empty one. Text is a list of bytes.
--
-- Config.antt, Config/Validate.antt (internal/config/config.go): the configuration's types, `find`
-- and `get` functions, `WorkspacePolicy.List`, `HasOperation` and `Validate`.
--
-- Policy.antt and its children (internal/policy/registry.go): the operations and their registry
-- (`NewRegistry`, `loadFromFile`, `registerBuiltIn`, `ApplyDefaults`) in Policy.antt and
-- Policy/Registry.antt, `ValidateParams` in Policy/Validation.antt, the JQL scope constraint with
-- `splitJQLOrderBy` in Policy/Jql.antt, `CheckConstraints` and `CheckTunnel` in
-- Policy/Constraints.antt.
--
-- Server.antt and its children (internal/server/server.go, internal/server/pathtemplate.go):
-- `authenticate` and `authenticateAdmin` in Server/Auth.antt, grants in Server/Access.antt, the
-- choice of environment and the tunnel check in Server/Environment.antt, `executeOp` up to its
-- connector and `handleDryRun` in Server/Execute.antt, path templates in Server/PathTemplate.antt.
-- A request's body is given as what the two ways of decoding it see: `executeOp` reads it whole, the
-- dry run takes the first value of the stream; a refusal is a value that says where the handler
-- returned. `executeOp` asks the configuration for the agent, the registry for the operation and
-- the policy layer for the verdict on the parameters, in the order of the code.
--
-- Server/Suggest.antt and its children: `closestAllowedOps`, the suggestions for an operation that
-- is not known, with `editDistance`.
--
-- Redact.antt and its children (internal/redact/hook.go, and `shapeResponse` of
-- internal/server/server.go): what an allow-list of fields leaves of a decoded response.
--
-- Workcal.antt and its children (internal/workcal/pl.go): the Polish working days, with Easter and
-- the public holidays. A date is the number of its days since 1 January of the year 0, and the
-- calendar of the package `time` is written out on these numbers. The loop of `WorkingDays` has
-- fuel for every day of its range and one more, the round that ends it.
--
-- Worklogs.antt and its children (internal/server/jira_worklog.go): the parameters in
-- Worklogs/Params.antt, the bodies sent in Worklogs/Entries.antt, `addWorklog`, `updateWorklog`,
-- `deleteWorklog` and `ownWorklog` in Worklogs/Writes.antt, `tempoWorklogs` in Worklogs/Pages.antt,
-- the periods and the norm in Worklogs/Norm.antt, the activity map in Worklogs/Activities.antt. Each
-- request is an event with its reply, written to a log; Jira and Tempo are functions of the log, so
-- a reply may depend on all that came before. Tempo's ids and times are natural numbers. Hours are
-- hundredths, as the code rounds them. The loop over pages has fuel, since it goes on for as long
-- as Tempo sends pages.
--
-- Secrets.antt and its children (internal/secrets/resolver.go, internal/secrets/store.go): the
-- references in Secrets/Refs.antt, the registry of values and `Redact` in Secrets/Taint.antt, the
-- cache with `Resolve`, `Set`, `Delete` and the workspace check in Secrets/Resolver.antt. Each call
-- passes on the world: cache, store and registry.
--
-- TokenCheck.antt and its children (internal/tokencheck/tokencheck.go): `DetectKind` and
-- `Checkable` in TokenCheck.antt, the reading of replies in TokenCheck/Replies.antt, `Check` with the
-- checks of each kind in TokenCheck/Checks.antt.
--
-- Scheduler.antt and its children (internal/scheduler/scheduler.go): the job store, whose calls
-- hold the lock from start to end and so are the steps of an interleaving
-- (Scheduler/Lifecycle.antt), and the pass over the due jobs (Scheduler/Runs.antt).
--
-- Postgres.antt and its children (internal/connectors/postgres/connector.go and walk.go): the table
-- allow-list and the row filter in Postgres.antt, the walk over a parsed statement with the scopes
-- of its common table expressions and the check of the statements in Postgres/Walk.antt. A parsed statement is
-- its type, with the length of a locking clause, and the tree that reflection shows. The walk's
-- depth limit of 500 is the code's; beyond it the walk refuses.
--
-- Prelude.antt and its children: lists, text, maps, results, sorting and splitting, after the Go
-- library functions that the code calls. Tests.antt: runs at concrete inputs.
--
-- Bounds. Other loops are structural recursion on what they walk over, so no fuel is needed. A
-- float64 is an exact dyadic number; maxima of parameters are compared exactly, as Go does up to 2
-- ^ 53. Times are readings of a clock that does not go back.
--
-- Parameters of the model: regular expressions (whether one compiles and what it matches), SHA-256
-- as a digest, the JSON encoder, `fmt`'s `%v`, `filepath.IsAbs`, the tunnel checker, Jira and
-- Tempo, the services that a credential is checked with, and the secret store. The redaction
-- theorems ask that no other registered value has the digest of the secret, since the registry
-- keeps digests to tell what it has.
--
-- Not modelled: network, files, windows and rendering (the connectors, the audit log, the desktop
-- programs, the help pages), and what surrounds a decoded request (HTTP parsing and YAML). An empty
-- YAML list is read as an unset one.
pub mod Prelude
pub mod Value
pub mod Config
pub mod Policy
pub mod Server
pub mod Secrets
pub mod Scheduler
pub mod Postgres
pub mod Redact
pub mod Workcal
pub mod Worklogs
pub mod TokenCheck
pub mod Tests
