-- ===== src/Lib.antt =====
-- OpenLore serves a tree of documents to agents and people over SSH, HTTP and MCP. The documents are
-- grouped in docsets, each with display roots; roles hold grants on docsets, and every read and every
-- mutation of a session passes through the gates of pkg/openlore/authz.go. This library models those
-- gates, what they are built on, and the store of the refresh tokens by which a client stays logged
-- in.
--
-- The files, by part of the program:
--   Prelude: shared names, lists, byte strings (a Go string is the list of its bytes), Go maps as
--     association lists in the order in which `range` visits them, results of fallible code.
--   Path: `CleanPath` and `WalkDir`'s path arithmetic (pkg/vfs/vfs.go), `pathWithinRoot`
--     (pkg/openlore/server.go), `replacePathRoot` (pkg/openlore/alias_fs.go), `IsDirConfigPath`
--     (pkg/rules/engine.go).
--   Vfs: the read-only filesystem interface and `WalkDir` (pkg/vfs/vfs.go). A filesystem is a record
--     of functions, so that the theorems hold for any.
--   Config: the part of the configuration that authorization reads (internal/config/config.go).
--   AuthorizationStore: the store that resolves a principal to a policy
--     (pkg/openlore/authorization_store.go). Server.Policy takes it, or a custom store as a function.
--   Identity, Grants: callers, token scopes, grant types (pkg/openlore/identity.go,
--     pkg/openlore/grants.go, the publish grant of pkg/openlore/inbox.go).
--   Server: the state that the gates read; below it Policy (`currentPolicy`, `capabilityDenial`),
--     Access (`effectiveGrantNames`), Governing (`canonicalPath`, `mostSpecificDocset`,
--     `grantsForPath`, `readableRoots`), Writes (`identityWriteError`, `mutationDeniedError` of
--     pkg/openlore/scoped_write_fs.go), Startup (`validateGrantsFor`), all of
--     pkg/openlore/authz.go.
--   ScopedRead: `scopedReadFS`, the reads of a session (pkg/openlore/authz.go).
--   Changeset, Writable: change sets with their validation (pkg/vfs/changeset.go) and the interfaces of
--     a filesystem that can be written (pkg/vfs/vfs.go).
--   ScopedWrite: `scopedWriteFS`, the mutations of a session (pkg/openlore/scoped_write_fs.go), with
--     Server.SessionWrites for the authorizer that pkg/openlore/server.go gives it.
--   Snapshot, Restore, Commit: the snapshot of a batch, its restoration, and `CommitChangeSet`, which
--     rolls back by them (pkg/vfs/changeset.go).
--   History: what a commit leaves behind, with the records of the history index
--     (pkg/openlore/middleware.go, pkg/openlore/history_blobs.go, pkg/openlore/writelog.go).
--   LogState, WriteLog: the state of the applier and what it does with one entry; below WriteLog
--     System, the log with its goroutines as a step relation (pkg/openlore/writelog.go).
--   AliasFs: the view of a filesystem through aliases, as `newLiveAliasFS` makes it
--     (pkg/openlore/alias_fs.go).
--   RefreshStore: rotation and revocation of refresh tokens (pkg/openlore/refreshstore.go).
--   Jobs: the registry of background jobs and the pool that runs them, as a step relation
--     (pkg/openlore/jobs.go). The results of a command and of its write are any.
--   AuthCode, TokenEndpoint: authorization codes and the endpoint that exchanges codes, assertions and
--     refresh tokens (pkg/openlore/tokenendpoint.go, with pieces of pkg/openlore/clientstore.go and
--     pkg/openlore/authorize.go).
--
-- A session reads through ScopedRead, built from the readable roots and the docset roots that
-- Governing computes, which ask Access, which asks Policy; a mutation goes through ScopedWrite, which
-- asks Writes, which asks Governing in the same way. An admitted change set is sent to WriteLog, whose
-- applier commits it by Commit and records it by History. Errors are values: a gate returns the reason for
-- a denial, and `sentinel` the error that Go wraps.
--
-- Bounds and fuel: lengths and times are natural numbers, since none is computed that could overflow
-- a Go int. `WalkDir` and the capture of pre-images recur on fuel, one unit for a level of the tree;
-- without fuel they stop with an error, which denies a whole-tree removal and refuses a batch, and the
-- theorems hold for every amount. The search for the root of a missing path has the length of the path
-- for fuel, since a parent is shorter.
--
-- Not modelled: the transports and their parsing, the disk, SQL, signatures and clocks (a call takes
-- the time and what the disk answers), the locks but those of the write log (an operation under a mutex is one step), the text
-- of error messages, and the components that the configuration of docsets does not reach.
pub mod Prelude
pub mod Path
pub mod Vfs
pub mod Config
pub mod AuthorizationStore
pub mod Identity
pub mod Grants
pub mod Server
pub mod ScopedRead
pub mod RefreshStore
pub mod Changeset
pub mod Writable
pub mod ScopedWrite
pub mod AliasFs
pub mod Snapshot
pub mod Commit
pub mod History
pub mod WriteLog
pub mod AuthCode
pub mod TokenEndpoint
pub mod Jobs
pub mod LogState
pub mod Restore
