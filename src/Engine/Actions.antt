-- ===== src/Engine/Actions.antt =====
-- src/main/sync-engine.ts: what the user asks of the engine for one file: resolveConflict, restore,
-- restoreLocalCopy, trashSaasFile, permanentlyDelete and restoreTrash.
pub mod Unanswered
use excel_sync.Base.{
  ℕ, String, ◌<>◌, Bool, true, false, ◌&&◌, not, Option, none, some, List, [], ◌∷◌, ◌==◌, string_eq,
  option_eq, eqb, ltb, leb, if◌then◌else◌, find, select, gets, pure, throw, require, guard, ◌>>=◌,
  ◌>>◌, when_some, clip, decimal,
}
use excel_sync.Local.Schema.{
  FileRow, PendingRow, StateRow, Db, is_upsert, is_conflict, is_active, CloudStatus, trashed,
  conflict, synced, state_of_file,
}
use excel_sync.Local.Statements.{get_file, get_pending, log}
use excel_sync.Local.Files.{
  RemoteInput, upsert_state, upsert_remote_metadata, mark_cloud_trashed, mark_cloud_deleted,
}
use excel_sync.Local.Presence.{update_cloud_state}
use excel_sync.Local.Queue.{queue_upsert}
use excel_sync.Local.Jobs.{cancel_pending_by_id}
use excel_sync.Local.Marks.{mark_uploading}
use excel_sync.Engine.Task.{Fault, plain, Task, Await, await, local}
use excel_sync.Engine.Ready.{FileInfo, Found, handle_file_ready}
use excel_sync.Engine.Conflict.{Remote, World}
use excel_sync.Engine.Jobs.{run_pending}

-- `ORDER BY updated_at DESC LIMIT 1`
unfoldable pub last_updated : Option PendingRow → List PendingRow → Option PendingRow
last_updated best [] = best
last_updated none (p ∷ ps) = last_updated (some p) ps
last_updated (some b) (p ∷ ps) =
    last_updated (if ltb b.updated_at p.updated_at then some p else some b) ps

unfoldable pub get_conflict_pending_for_file : String → Db → Option PendingRow
get_conflict_pending_for_file id db =
    last_updated none (select (λ p. p.file_id == id && is_conflict p.status) db.pendings)

pub data Choice : Type 0 where
  local_copy cloud_copy both : Choice

-- What the disk and the network answer. `copy_name` is the name that the error message has after
-- `local copy=`, where it has one that is a base name; `found` is the file that is handed to handleFileReady.
pub record Fetch : Type 0 where
  pub sqlite : Fault
  pub copy_name : Option String
  pub remote : Await Remote
  pub info : Await FileInfo
  pub hash : Await String
  pub remove_copy : Await (Unit {0})
  pub copy_back : Await (Unit {0})
  pub found : Found

pub record Fetched : Type 0 where
  pub version : ℕ
  pub hash : String
  pub info : FileInfo

-- The cloud's content over the local file: its version, hash and state.
unfoldable pub fetch_remote : Fetch → Task Fetched
fetch_remote w = do
  remote ← await w.remote
  info ← await w.info
  hash ← when_some remote.hash (await w.hash) pure
  pure (record { version = remote.version; hash = hash; info = info })

unfoldable pub drop_conflict : ℕ → Fetch → PendingRow → Task (Unit {0})
drop_conflict now w p = do
  dropped ← local w.sqlite (cancel_pending_by_id now p.id)
  guard dropped (plain "CONFLICT_NOT_RESOLVED")

unfoldable pub choose_copy : ℕ → Fetch → PendingRow → FileRow → String → Choice → Task (Unit {0})
choose_copy now w p file name cloud_copy = do
  await w.remove_copy
  drop_conflict now w p
  local w.sqlite (
      log now "CONFLICT_RESOLVED_CLOUD" (some file.id)
        (some (clip 1000 ("V" <> decimal file.current_version))))
choose_copy now w p file name both = do
  drop_conflict now w p
  handle_file_ready now w.found
  local w.sqlite (log now "CONFLICT_RESOLVED_BOTH" (some file.id) (some (clip 1000 name)))
choose_copy now w p file name local_copy = do
  await w.copy_back
  await w.remove_copy
  drop_conflict now w p
  handle_file_ready now w.found
  local w.sqlite (
      log now "CONFLICT_RESOLVED_LOCAL" (some file.id)
        (some (clip 1000 ("base=V" <> decimal file.current_version))))

unfoldable pub resolve_conflict : ℕ → Fetch → String → Choice → Task (Unit {0})
resolve_conflict now w file_id choice = do
  pending ← gets (get_conflict_pending_for_file file_id)
  found ← gets (get_file file_id)
  p ← require pending (plain "CONFLICT_NOT_FOUND")
  file ← require found (plain "CONFLICT_NOT_FOUND")
  guard (is_upsert p.operation) (plain "CONFLICT_NOT_FOUND")
  name ← require w.copy_name (plain "CONFLICT_COPY_NOT_FOUND")
  remote ← fetch_remote w
  local w.sqlite (update_cloud_state now file.id remote.version (some remote.hash) conflict)
  local w.sqlite
      (upsert_state now file.id remote.info.size remote.info.mtime_ms (some remote.hash) true)
  choose_copy now w p file name choice

abbrev error_or : String → Option String → String
error_or s none = s
error_or s (some e) = e

unfoldable pub require_finished : Option PendingRow → Task (Unit {0})
require_finished none = pure tt
require_finished (some p) = throw (plain (error_or "RESTORE_SYNC_INCOMPLETE" p.error_code))

-- An old version becomes a new upload, which runs at once. `path` is `none` without a sync directory;
-- `can_sync` is whether the cloud may be reached.
unfoldable pub restore :
    ℕ → Fetch → World → String → Option String → ℕ → String → Await Bool → Task (Unit {0})
restore now w job fresh path source_version file_id can_sync = do
  found ← gets (get_file file_id)
  file ← require found (plain "LOCAL_FILE_RECORD_MISSING")
  guard (ltb 0 source_version && leb source_version file.current_version)
      (plain "VERSION_NOT_AVAILABLE")
  absolute ← require path (plain "SYNC_DIRECTORY_NOT_CONFIGURED")
  source ← fetch_remote w
  local w.sqlite
      (upsert_state now file.id source.info.size source.info.mtime_ms (some source.hash) true)
  backend ← gets (λ db. db.settings.default_storage_backend)
  queued ← local w.sqlite (
      queue_upsert now fresh file (record {
        path = absolute;
        hash = source.hash;
        size = source.info.size;
        priority = 0;
        storage_backend = backend;
        restored_from_version = some source_version;
      }))
  pending ← require queued (plain "RESTORE_QUEUE_FAILED")
  local w.sqlite (
      log now "RESTORE_QUEUED" (some file.id)
        (some (clip 1000 ("from V" <> decimal source_version))))
  allowed ← await can_sync
  guard allowed (plain "AUTH_REQUIRED")
  local w.sqlite (mark_uploading now pending.id)
  run_pending now job pending
  remaining ← gets (get_pending pending.id)
  require_finished remaining

-- `remote.version || file.current_version`
abbrev version_or : ℕ → ℕ → ℕ
version_or version current = if eqb version 0 then current else version

unfoldable pub restore_local_copy : ℕ → Fetch → Option String → String → Task (Unit {0})
restore_local_copy now w path file_id = do
  found ← gets (get_file file_id)
  file ← require found (plain "CLOUD_FILE_NOT_AVAILABLE")
  guard (ltb 0 file.current_version && is_active file.cloud_status)
      (plain "CLOUD_FILE_NOT_AVAILABLE")
  _ ← require path (plain "SYNC_DIRECTORY_NOT_CONFIGURED")
  remote ← fetch_remote w
  local w.sqlite (
      update_cloud_state now file.id (version_or remote.version file.current_version)
        (some remote.hash) synced)
  local w.sqlite
      (upsert_state now file.id remote.info.size remote.info.mtime_ms (some remote.hash) true)
  local w.sqlite (
      log now "LOCAL_COPY_RESTORED" (some file.id)
        (some (clip 1000 ("V" <> decimal (version_or remote.version file.current_version)))))

unfoldable pub trash_saas_file : ℕ → Fault → Await (Unit {0}) → String → Task (Unit {0})
trash_saas_file now sqlite trash_file file_id = do
  found ← gets (get_file file_id)
  file ← require found (plain "CLOUD_FILE_NOT_AVAILABLE")
  guard (ltb 0 file.current_version && is_active file.cloud_status)
      (plain "CLOUD_FILE_NOT_AVAILABLE")
  await trash_file
  local sqlite (mark_cloud_trashed now file.id)

abbrev pub is_trashed : CloudStatus → Bool
is_trashed trashed = true
is_trashed _ = false

unfoldable pub permanently_delete : ℕ → Fault → Await (Unit {0}) → String → Task (Unit {0})
permanently_delete now sqlite delete_file file_id = do
  found ← gets (get_file file_id)
  file ← require found (plain "FILE_NOT_TRASHED")
  guard (is_trashed file.cloud_status) (plain "FILE_NOT_TRASHED")
  await delete_file
  local sqlite (mark_cloud_deleted now file_id)

-- `state?.exists_flag === 1 && state.last_hash && state.last_hash !== restored.current_hash`
abbrev has_other_content : Option String → Option StateRow → Bool
has_other_content hash none = false
has_other_content hash (some s) =
    s.exists_flag
    && elim s.last_hash [ none ↦ false | some h ↦ not (h == "") && not (some h == hash) ]

-- `restored` is the file that the Worker answers with; `found` is its local file, where there is a root.
unfoldable pub restore_trash : ℕ → Fault → Await RemoteInput → Option Found → Task (Unit {0})
restore_trash now sqlite restored found = do
  input ← await restored
  file ← local sqlite (upsert_remote_metadata now input)
  state ← gets (λ db. find (state_of_file file.id) db.states)
  when_some found (pure tt)
      λ w. if has_other_content input.hash state then handle_file_ready now w else pure tt
  local sqlite (
      log now "SAAS_TRASH_RESTORED" (some input.id)
        (some (clip 1000 ("V" <> decimal input.version))))
