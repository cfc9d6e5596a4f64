-- ===== src/Engine/Conflict.antt =====
-- src/main/sync-engine.ts: createConflict, and what the disk and the network answer to a job.
use excel_sync.Base.{
  ℕ, String, ◌<>◌, Bool, true, false, Option, some, string_eq, option_eq, if◌then◌else◌, pure,
  attempt, ◌>>=◌, ◌>>◌, when_some, clip, decimal,
}
use excel_sync.Local.Schema.{Receipt, FileRow, PendingRow, synced}
use excel_sync.Local.Statements.{log}
use excel_sync.Local.Files.{upsert_state}
use excel_sync.Local.Presence.{update_cloud_state}
use excel_sync.Local.Marks.{mark_conflict}
use excel_sync.Engine.Task.{Fault, api, system, Task, Await, await, local}
use excel_sync.Engine.Ready.{Snapshot, FileInfo, Found}

-- What the API answers to a preflight; `committed` and `noop` give the version and the hash.
pub data Preflight : Type 0 where
  conflict : ℕ → Preflight
  noop committed : ℕ → String → Preflight
  upload_required commit_required : String → Preflight

pub record Remote : Type 0 where
  pub version : ℕ
  pub hash : Option String

-- createConflict: the name of the local copy, and what the disk and the network answer.
pub record ConflictWorld : Type 0 where
  pub copy_name : String
  pub copy : Await (Unit {0})
  pub remote : Await Remote
  pub info : Await FileInfo
  pub remote_hash : Await String

-- What the disk and the network answer to a job, and the file as handleFileReady finds it. `storage` is
-- the upload by the storage router, where there is one, and `upload` the one by the API.
pub record World : Type 0 where
  pub sqlite : Fault
  pub info : Await FileInfo
  pub stable : Await Snapshot
  pub hash : Await String
  pub signature : Await (Unit {0})
  pub preflight : Await Preflight
  pub verified_hash : Await String
  pub storage : Option (Await (Option Receipt))
  pub upload : Await (Unit {0})
  pub record_receipt : Await (Unit {0})
  pub commit : Await (ℕ × String)
  pub conflict : ConflictWorld
  pub rename : Await (Unit {0})
  pub found : Found

-- `suppress` is in `found`.
unfoldable pub restore_remote : ℕ → World → PendingRow → FileRow → Task Bool
restore_remote now w p file = do
  remote ← await w.conflict.remote
  info ← await w.conflict.info
  hash ← when_some remote.hash (await w.conflict.remote_hash) pure
  local w.sqlite (update_cloud_state now file.id remote.version (some hash) synced)
  local w.sqlite (upsert_state now file.id info.size info.mtime_ms (some hash) true)
  local w.sqlite (
      log now "CONFLICT_REMOTE_RESTORED" (some file.id)
        (some (clip 1000 ("V" <> decimal remote.version))))
  pure true

abbrev pub fault_message : Fault → String
fault_message (api _ _ _ message) = message
fault_message (system _ message) = message

unfoldable pub report_download : ℕ → World → FileRow → Fault → Task Bool
report_download now w file e =
    local w.sqlite (
      log now "CONFLICT_REMOTE_DOWNLOAD_FAILED" (some file.id) (some (clip 1000 (fault_message e))))
    >> pure false

unfoldable pub create_conflict : ℕ → World → PendingRow → FileRow → String → Task (Unit {0})
create_conflict now w p file detail = do
  await w.conflict.copy
  ready ← attempt (restore_remote now w p file) (report_download now w file)
  local w.sqlite (
      mark_conflict now p.id (
        detail
        <> "; local copy="
        <> w.conflict.copy_name
        <> (if ready then "" else "; remote refresh required")))
