-- ===== src/Engine/Ready.antt =====
-- src/main/sync-engine.ts: handleFileReady, which records a file that the watcher found stable, and
-- handleFileDeleted.
use excel_sync.Base.{
  ℕ, String, ◌<>◌, Bool, true, false, ◌&&◌, ◌||◌, not, Option, none, some, ◌==◌, string_eq,
  option_eq, eqb, ltb, min, max, ◌+◌, ◌-◌, ◌*◌, if◌then◌else◌, is_some, gets, pure, attempt, ◌>>=◌,
  ◌>>◌, when_some, clip, decimal,
}
use excel_sync.Local.Schema.{Backend, Receipt, FileRow, delete, is_active}
use excel_sync.Local.Statements.{get_file, get_file_by_path, log}
use excel_sync.Local.Files.{
  FileInput, upsert_state, ensure_waiting_file, ensure_file, rename_file,
  find_recently_missing_by_hash,
}
use excel_sync.Local.Presence.{mark_missing, remove_unsynced_file}
use excel_sync.Local.Queue.{queue_waiting_upsert, queue_upsert}
use excel_sync.Local.Jobs.{cancel_pending, queue_rename, set_upload_receipt}
use excel_sync.Local.Dispatch.{set_pending_priority_for_file}
use excel_sync.Engine.Task.{Fault, api, system, Task, Await, await, local}

-- What waitForStableReadableFile answers.
pub record Snapshot : Type 0 where
  pub size : ℕ
  pub mtime_ms : ℕ

pub record FileInfo : Type 0 where
  pub is_file : Bool
  pub size : ℕ
  pub mtime_ms : ℕ

-- The path and what the engine knows of it (its place below the root, `none` outside of it; whether it
-- is suppressed; its hints), what the disk answers, and the ids that are drawn.
pub record Found : Type 0 where
  pub path : String
  pub relative_path : Option String
  pub logical_name : String
  pub extension : String
  pub is_managed : Bool
  pub is_suppressed : Bool
  pub priority : ℕ
  pub storage_backend : Option Backend
  pub import_receipt : Option Receipt
  pub stopped : Bool
  pub stable : Await Snapshot
  pub stopped_after_stable : Bool
  pub signature : Await (Unit {0})
  pub hash : Await String
  pub stopped_after_hash : Bool
  pub stopped_at_error : Bool
  pub info : Await FileInfo
  pub fresh_file_id : String
  pub fresh_pending_id : String
  pub sqlite : Fault

abbrev input_of : Found → String → FileInput
input_of w relative_path = record {
  relative_path = relative_path;
  logical_name = w.logical_name;
  extension = w.extension;
}

-- `{ ...importReceipt, sha256: hash, size: stable.size }`
abbrev receipt_for : Receipt → String → Snapshot → Receipt
receipt_for r hash stable = record r { sha256 = hash; size = stable.size }

abbrev backend_or : Backend → Option Backend → Backend
backend_or b none = b
backend_or b (some a) = a

-- queueUpsert, and the receipt of an import for the job that it made; whether it made one.
unfoldable pub queue_content : ℕ → Found → FileRow → String → Snapshot → Task Bool
queue_content now w file hash stable = do
  default ← gets (λ db. db.settings.default_storage_backend)
  queued ← local w.sqlite (
      queue_upsert now w.fresh_pending_id file (record {
        path = w.path;
        hash = hash;
        size = stable.size;
        priority = w.priority;
        storage_backend = backend_or default w.storage_backend;
        restored_from_version = none;
      }))
  when_some queued (pure false) λ job. when_some w.import_receipt (pure true) λ receipt.
      local w.sqlite (set_upload_receipt now job.id (receipt_for receipt hash stable)) >> pure true

-- A file that went missing under another path, with this content, has moved here.
unfoldable pub follow_rename : ℕ → Found → String → String → Snapshot → FileRow → Task (Unit {0})
follow_rename now w relative_path hash stable renamed = do
  local w.sqlite (cancel_pending renamed.id (some delete))
  local w.sqlite (rename_file now renamed.id (input_of w relative_path))
  local w.sqlite (upsert_state now renamed.id stable.size stable.mtime_ms (some hash) true)
  found ← gets (get_file renamed.id)
  file ← when_some found (pure renamed) pure
  if ltb 0 file.current_version && file.current_hash == some hash
      then local w.sqlite (queue_rename now w.fresh_pending_id file w.path w.priority) >> pure tt
      else local w.sqlite (cancel_pending file.id none)
        >> queue_content now w file hash stable
        >> pure tt

unfoldable pub queue_change : ℕ → Found → String → FileRow → String → Snapshot → Task (Unit {0})
queue_change now w relative_path file hash stable = do
  queued ← queue_content now w file hash stable
  if queued
      then local w.sqlite (log now "FILE_CHANGED" (some file.id) (some (clip 1000 relative_path)))
      else pure tt

unfoldable pub record_new : ℕ → Found → String → String → Snapshot → Task (Unit {0})
record_new now w relative_path hash stable = do
  moved ← gets (find_recently_missing_by_hash hash (now - 10000))
  when_some moved
      (do
        file ← local w.sqlite (
            ensure_file now w.fresh_file_id (input_of w relative_path) hash stable.size
              stable.mtime_ms)
        queue_change now w relative_path file hash stable)
      (follow_rename now w relative_path hash stable)

unfoldable pub record_known : ℕ → Found → String → String → Snapshot → FileRow → Task (Unit {0})
record_known now w relative_path hash stable file = do
  local w.sqlite (upsert_state now file.id stable.size stable.mtime_ms (some hash) true)
  if not (is_active file.cloud_status)
      then local w.sqlite
          (log now "TRASHED_LOCAL_CHANGE_IGNORED" (some file.id) (some (clip 1000 relative_path)))
      else queue_change now w relative_path file hash stable

-- The `try`.
unfoldable pub record_content : ℕ → Found → String → Task (Unit {0})
record_content now w relative_path = do
  stable ← await w.stable
  if w.stopped_after_stable then pure tt else do
    await w.signature
    hash ← await w.hash
    if w.stopped_after_hash then pure tt else do
      found ← gets (get_file_by_path relative_path)
      when_some found (record_new now w relative_path hash stable)
          (record_known now w relative_path hash stable)

abbrev is_waiting_code : String → Bool
is_waiting_code code =
    code == "FILE_NOT_STABLE"
    || code == "EBUSY"
    || code == "EPERM"
    || code == "EACCES"
    || code == "FILE_LOCK_WIN32"

unfoldable pub place_holder : ℕ → Found → String → Task (Option FileRow)
place_holder now w relative_path =
    attempt
      (do
        info ← await w.info
        if not info.is_file then pure none else do
          file ← local w.sqlite (
              ensure_waiting_file now w.fresh_file_id (input_of w relative_path) info.size
                info.mtime_ms)
          pure (some file))
      (λ _. pure none)

unfoldable pub wait_for_release : ℕ → Found → String → String → String → FileRow → Task (Unit {0})
wait_for_release now w relative_path code message file = do
  base ← gets (λ db. db.settings.retry_base_seconds)
  local w.sqlite (
      queue_waiting_upsert now w.fresh_pending_id file w.path code message
        (now + max 3 base * 1000))
  local w.sqlite (set_pending_priority_for_file now file.id (min 2 w.priority))
  local w.sqlite
      (log now "FILE_WAITING_FOR_RELEASE" (some file.id) (some (clip 1000 relative_path)))

abbrev id_of : Option FileRow → Option String
id_of none = none
id_of (some f) = some f.id

unfoldable pub log_unstable : ℕ → Found → String → String → Option FileRow → Task (Unit {0})
log_unstable now w relative_path message file = local w.sqlite (
    log now "FILE_STABILITY_ERROR" (id_of file)
      (some (clip 1000 (relative_path <> ": " <> message))))

unfoldable pub recover_content : ℕ → Found → String → String → String → Task (Unit {0})
recover_content now w relative_path code message = if w.stopped_at_error then pure tt else do
  known ← gets (get_file_by_path relative_path)
  file ←
      if not (is_some known) && is_waiting_code code
      then place_holder now w relative_path
      else pure known
  if is_waiting_code code
      then when_some file (log_unstable now w relative_path message file)
          (wait_for_release now w relative_path code message)
      else log_unstable now w relative_path message file

-- The `catch`. An ApiError has a code of its own.
unfoldable pub recover_fault : ℕ → Found → String → Fault → Task (Unit {0})
recover_fault now w relative_path (api _ code _ message) =
    recover_content now w relative_path code message
recover_fault now w relative_path (system code message) =
    recover_content now w relative_path code message

unfoldable pub handle_file_ready : ℕ → Found → Task (Unit {0})
handle_file_ready now w =
    if w.stopped || (not (is_some w.import_receipt) && w.is_suppressed) || not w.is_managed
    then pure tt
    else when_some w.relative_path (pure tt) λ relative_path.
      attempt (record_content now w relative_path) (recover_fault now w relative_path)

unfoldable pub forget_copy : ℕ → Fault → String → FileRow → Task (Unit {0})
forget_copy now sqlite relative_path file =
    if eqb file.current_version 0
    then local sqlite
        (log now "UNSYNCED_FILE_REMOVED" (some file.id) (some (clip 1000 relative_path)))
      >> local sqlite (remove_unsynced_file file.id)
    else local sqlite (
        log now "LOCAL_COPY_REMOVED" (some file.id) (
          some (
            clip 1000 (
              relative_path
              <> "; cloud version V"
              <> decimal file.current_version
              <> " retained"))))

-- `skipped` is whether the engine is stopped or the path suppressed.
unfoldable pub handle_file_deleted : ℕ → Fault → Bool → Option String → Task (Unit {0})
handle_file_deleted now sqlite skipped relative_path =
    if skipped
    then pure tt
    else when_some relative_path (pure tt) λ path. do
      missing ← local sqlite (mark_missing now path)
      when_some missing (pure tt) (forget_copy now sqlite path)
