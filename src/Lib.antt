-- ===== src/Lib.antt =====
-- The release transactions of a publishing node. The node takes a release request over HTTP, fetches
-- the commit from Git or the artifact from an OCI registry, builds a snapshot of it beside the live
-- one, switches the link `latest` of the deployment directory to it, tests and reloads nginx, and
-- restores the version before where any of this fails. Every step of it is stored in one state file
-- for each target, so that a restarted service can end what was interrupted.
--
-- Base             what all parts share: results that may fail (an error with its text), Go's maps as
--                  association lists, the parts of strings and path/filepath that the code uses, among
--                  them `Within` of internal/infrastructure/fsutil/fs.go
-- Release          internal/domain/release: requests, results and their statuses, and the validation of
--                  requests (`ValidateApplyRequest`, `ValidateRollbackRequest`,
--                  `ValidateNginxCommandRequest`) with the identities they accept; Accepted has what is
--                  known of an accepted request
-- State            internal/domain/state and internal/domain/target: versions, records, target states
-- Publisher        internal/application/publisher/runner.go, a module for each part of it:
--   World          the state of the process and of the disk, and the actions on it
--   Store          `save`, `load`, `publish`, and the state store of
--                  internal/infrastructure/state/store.go
--   Steps          `step`, `stepWithOutput`, the calls of nginx, the link, `verify`
--   Finish         `result`, `fail`, `uncertain`, `commitGitStage`, `commit`, `restore`
--   Targets        `Target`, `Resolve`, `ensureTarget`, `duplicate`, and the lock of a transaction
--   Activate       `apply`, from the durable intent on
--   Prepare        `apply`, from the accepted request to the verified candidate
--   Apply          `apply`, `Apply`, `Stage`, `takeover`
--   Rollback       `RollbackCurrent`
--   Command        `runNginxCommand`: test, reload and abort
--   Startup        `NewWithRuntime`, `recoverStartup`, `checkStoredBaseline`
--   Gives, Invariant, Laws
--                  postconditions of actions, a rule for each way to compose them, and the traversal of
--                  the transactions for any invariant of the world
--   WriteAhead, Agreement, Exclusive, Allowed, Takeover, Unique, Links
--                  the properties, each from that traversal or from the definitions
--   Examples       a node and a request on which the theorems are applied
--
-- Snapshot         internal/application/publisher/apply.go, over the content of a deployment directory:
--   Types          manifests, the files of a snapshot, the two places of a snapshot
--   Load           `loadManifest`, `verifySnapshot`, `existingSnapshotLink`
--   Cleanup        `cleanupSnapshots`
--   Exact, Needed, Kept, Left, Bounds
--                  the properties of both
--   Examples       a directory on which the theorems are applied
-- Http             internal/interfaces/httpapi and internal/config/ipaccess.go:
--   Access         the address of a client behind proxies, the list of those allowed
--   Types          the contract `Publisher`, routes and responses
--   Server         the handlers of server.go over any `Publisher`
--   Runner         `Health` and `State` of the runner, and the runner as the `Publisher`
--   Spoof, Guarded, Keeps, Answered
--                  the properties; Keeps carries what a `Publisher` keeps over to the server
--   Examples       a server on which the theorems are applied
--
-- Config           internal/config/load.go:
--   Types          the configuration, and the calls that its checks make
--   Resolve        `TargetForEnv`, `resolvePaths`, `ValidateArtifactRepository`
--   Settings       the settings of one target in `Validate`
--   Validate       the rest of `Validate`
--   Apart, Environment, Resolved
--                  the properties
--   Examples       a configuration on which the theorems are applied
--
-- Archive          internal/infrastructure/archive/extract.go:
--   Extract        `Extract` over the entries of an archive
--   Bounds         the property
--   Examples       an archive on which the theorem is applied
--
-- Oras             internal/infrastructure/oras/client.go:
--   Manifest       `validateManifest`
--   Accepted       the property
--   Examples       a manifest on which the theorem is applied
--
-- A transaction is a function from the world to a result and the next world. The world holds the fields
-- of `Runner` that change (views, blocked, stopping, the channel `busy`), whether the node is locked, the
-- state files, the links, and a trace of the saves, switches, tests and reloads that were made. What the
-- system around the node answers is the record `Node`, an argument of every definition: the clock, fresh
-- identities, contexts that may end, file operations, Git, ORAS and nginx. Each answer is a function of
-- the number of calls made before, so that the answers may change from call to call and any of them may
-- be an error; nothing is assumed of such a record. A write of a state file
-- or of the link is in place, was not made, or failed after the rename. A pointer to a record that the
-- Go code changes in place is a value that is passed on and attached to the state before it is saved.
-- There is no fuel: the loops of the code run over lists, and the definitions recur on these. A Go map
-- is iterated in the order of its list, an order that the theorems leave open.
--
-- The server is a function from a request and the state of its publisher to a response and the next
-- state. A `Publisher` is a record of operations over a state of any type; the theorem on all servers
-- asks of it only what each operation keeps, and the runner fills it with the transactions above. The
-- packages net, net/http and encoding/json are records of functions that nothing is assumed of, and so
-- are the file system and the parsing of URLs in the checks of a configuration. The runner takes
-- `TargetForEnv` as an answer of the node, which the record of the configuration does not restrict.
--
-- Not modelled: the building of snapshots, the migration of old layouts and the check of retained assets
-- (internal/application/publisher), whose outcomes, as those of the verification and cleaning of
-- snapshots, are answers of the node to the runner; the decoding of the configuration; metrics, logs and the recovery from a panic, which do not act
-- on a transaction; JSON encoding; a second process, which the lock of the node keeps out.
pub mod Base
pub mod Release
pub mod State
pub mod Publisher
pub mod Snapshot
pub mod Http
pub mod Config
pub mod Archive
pub mod Oras
