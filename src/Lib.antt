-- ===== src/Lib.antt =====
-- The core of docstore, a version control service for documents over PostgreSQL.
--
-- Parts and files
--
-- - Base: Boolean tests, lists, and the operations on texts of Go's package strings.
-- - Hash: CommitHash of internal/hash/hash.go; Hash/Sorted is about the order of the files,
--   Hash/Lines about what can be read back from the bytes that are hashed.
-- - Store: the tables of internal/db/migrations as a record `Db` of lists, newest row first
--   (Store/Tables), with the queries (Store/Rows: GetFile of internal/store/store.go and
--   latestChanges of internal/db/store.go) and the statements (Store/Writes) that the operations of
--   internal/db/store.go share. One file holds each group of operations: Store/Commit (Commit),
--   Store/Branches (CreateBranch, UpdateBranchDraft, SetBranchAutoMerge, DeleteBranch,
--   CreateReview), Store/Merge (Merge), Store/Rebase (Rebase, branchCommitGroups); the modules
--   below them hold their theorems. Store/Tree (MaterializeTree) and Store/Diff (GetDiff) are the
--   reads of internal/store/store.go. Store/Invariant is about all of them at once, Store/Lookup
--   and Store/Changes hold lemmas on the queries.
-- - Ci: the table ci_jobs (Ci/Jobs: internal/db/ci_jobs.go) and the handlers of cmd/ci-
--   scheduler/main.go by which workers claim, heartbeat and complete jobs (Ci/Handlers).
-- - Access: roles (Access/Roles: GetRole, SetRole, DeleteRole and HasAdmin of
--   internal/db/store.go), and the middleware that enforces them (Access/Rbac: RBACMiddleware,
--   repoAndSubPath and roleAllows of internal/server/middleware.go, splitRepoPath of
--   internal/server/url.go).
-- - Policy: ResolveOwners of internal/policy/owners.go.
-- - Gate: what decides on a merge. Gate/Tables adds the tables check_runs and proposals to those of
--   Store; Gate/Checks holds CreateCheckRun, RetryChecks and ListCheckRuns, Gate/Proposals the
--   statements on proposals, all of internal/db/store.go; Gate/Policy holds AssembleInput and
--   EvaluatePolicy of internal/merge/policy.go with Evaluate of internal/policy/engine.go;
--   Gate/AutoMerge holds tryAutoMerge of internal/automerge/worker.go, and Gate/Handler handleMerge
--   of internal/server/handlers_proposals.go.
-- - Events: the outbox of webhooks, internal/events/outbox.go (Events/Tables, Events/Outbox).
-- - Client: the loops of Verify and Pull of internal/cli/app.go over the chain of commits
--   (Client/Chain).
-- - Ui: the line diff of internal/ui/diff.go (Ui/Diff: lcsEditScript).
-- - Config: the conditions of CI jobs, EvalIf of internal/ciconfig/expr.go.
-- - Examples: the operations on small tables, and the theorems applied to them.
--
-- How the parts interact: Merge and Rebase use the queries and statements of Commit and the chain
-- hash of Hash; tryAutoMerge reads the tables through GetDiff, the check runs, the proposals, the
-- roles and the owners, asks the policies, and calls Merge; the client computes the hashes of Hash;
-- the handlers of Ci/Handlers call the statements of Ci/Jobs; the middleware asks the tables of
-- Access/Roles.
--
-- How the code is read
--
-- - A transaction (WithTx of internal/db/tx.go) is a function from the tables before it to a result
--   and the tables after it. A rollback restores the rows, and does not give back the values of a
--   sequence and the UUIDs that were drawn. Transactions run one after another, as the row locks
--   they take make them do on one branch; panics and errors of the driver are left out.
-- - SHA-256, the decimal and time formats, the bytes of a string, UUIDs and the blob store are
--   parameters (`Primitives`, `Env`). Times are numbers, in seconds where the code adds to them.
-- - Numbers do not overflow: sequences are 64-bit in the code and count commits.
-- - Go maps are lists in the order in which they are visited. Where a query leaves the order of
--   equal rows open, the newest row comes first.
-- - Loops are structural recursion. The parser of Config recurses on fuel, three times the length
--   of the text and three: a call or a turn of a loop takes one, and at most three of them read
--   nothing. The backtracking of lcsEditScript recurses on fuel, the number of lines of both texts,
--   of which each round takes one at least.
-- - An int16 is the number of its value plus 2 ^ 15 and wraps at 2 ^ 16. A query that OPA prepared
--   is a function from the input to its answer, a webhook's POST one from the request to its
--   outcome, and the policy cache is what its Load answers.
--
-- Not modelled: the other HTTP handlers around the store, the rest of the client and of the UIs,
-- the SDK, the executor and the worker, secrets, the event log and its broker, the registry,
-- issues, releases and organisations beyond their members, the loading of policies and the rest of
-- the CI configuration.
pub mod Access
pub mod Base
pub mod Ci
pub mod Client
pub mod Config
pub mod Events
pub mod Examples
pub mod Gate
pub mod Hash
pub mod Policy
pub mod Store
pub mod Ui
