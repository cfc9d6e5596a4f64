-- ===== src/Lib.antt =====
-- ExcelSync keeps a folder of office files in step with a cloud: a desktop client watches the folder,
-- records files and jobs in a local SQLite database, and uploads contents to a storage backend; a
-- Cloudflare Worker decides who may reach which file, reserves, receives and commits uploads, and
-- keeps every version in D1.
--
-- The parts and their files:
-- * Local models src/main/db.ts, the class LocalDb. Schema has the rows and the status tests,
--   Statements the SQL statements with the constraints of the schema, and one function stands for
--   each method: Files (ensureFile, renameFile, upsertRemoteMetadata, ...), Presence
--   (upsertRemoteFile, markMissing, ...), Queue (queueUpsert, queueWaitingUpsert), Jobs (queueRename,
--   cancelPendingById, ...), Marks (markUploading, markRetry, markSynced, ...), Imports
--   (beginTelegramImport, setTelegramCheckpoint, setSettings, ...) and Dispatch (nextReadyPending, requeueBlockedErrors, recoverInterruptedJobs, ...; Recovery has a restart). Calls collects the methods
--   that write, so that a run is a list of calls; Sound has the invariant of the queue.
-- * Engine models src/main/sync-engine.ts: the dispatch of jobs by processOne over the model of
--   LocalDb (dispatch, pump, process_one, finish), runs of such steps mixed with calls on the
--   database, and the wait of scheduleRetry. Task has code that awaits: the outcome of each operation of
--   the disk or the network is an argument, and so are the calls of LocalDb that others make meanwhile.
--   With it Ready models handleFileReady and handleFileDeleted, Conflict createConflict, Process
--   processUpsert and processRename, Jobs runPending and handleProcessingError, Actions the requests of
--   the user (resolveConflict, restore, trashSaasFile, ...), Group syncTelegramUserGroup and Pull
--   pullRemoteChanges.
-- * Cloud models the Worker. Schema has the rows of D1, Access models worker/src/access.ts with Like
--   for SQLite's LIKE, Storage models shared/storage-capabilities.ts, Requests has what the handlers
--   of worker/src/index.ts share (with recordDomainEvent, recordFileStateSnapshot and
--   assertFileLeaseCompatible of worker/src/collab-upgrade.ts), and Preflight, Upload, Commit and
--   Trash have the handlers themselves; Leases has the leases of
--   worker/src/collab-upgrade.ts that lock a file for editing, and their view as a table of locks;
--   Rewind has the rewinds of that file (Items and Execute do them); Login has the throttle of
--   logins, with what other logins do while one awaits as an argument; Members the members of a workspace of worker/src/enterprise.ts. Calls has the requests and
--   their runs; Kept has what no request takes away.
-- * Cache models the pruning of the cache of previews in src/main/version-cache.ts.
-- * Base has the shared tests, lists, texts, and actions: an action maps a state to a result or an
--   error and the state after it. What a statement wrote before an error stays, unless a transaction
--   rolls it back, as in the source.
--
-- A table is the list of its rows. Times are milliseconds, and each call is given the time and the
-- fresh ids it uses, so a run fixes them as it likes. Texts are compared exactly, and NOCASE and
-- toLowerCase fold ASCII letters. Numbers are natural numbers; where the source subtracts a retention
-- from a version, the model adds it on the other side of the comparison. Fuel stands in two places: the
-- decimal digits, with more fuel than digits, and the loop of processOne, whose rounds are as many as
-- there are free places for jobs, since each round but the last takes one.
--
-- Not modelled: the ids of history rows and of events; the JSON text of a stored receipt, which is
-- held as its value; the texts of notifications; the parsing and normalising of a request's names and paths, which arrive normalised; a user's
-- default workspace, which a preflight is given; the bytes of an upload, of which the size, the
-- signature's fit and the hash are given; and the storage provider, which is an argument. The timers
-- of the sync engine, its hints and the presence of open files, the views, sessions, comments, the comparison
-- of versions and what else enterprise administration does are left out. The
-- addresses and user names of logins stand for their hashes. SQLite's LIKE is modelled for any texts: the bound
-- that D1 sets on the length of a pattern, beyond which the statement fails, is left out.
mod Base
pub mod Local
pub mod Engine
pub mod Cache
pub mod Cloud
