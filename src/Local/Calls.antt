-- ===== src/Local/Calls.antt =====
-- src/main/db.ts: LocalDb as its callers see it, one constructor for each method that writes, with
-- the time and the fresh identifiers that the method draws.
use excel_sync.Base.{ℕ, String, Bool, Option, List, [], ◌∷◌}
use excel_sync.Local.Schema.{SyncStatus, Operation, Backend, FileRow, Receipt, Db}
use excel_sync.Local.Files.{
  FileInput, RemoteInput, upsert_state, ensure_waiting_file, ensure_file, rename_file,
  upsert_remote_metadata, mark_cloud_trashed, mark_cloud_deleted,
}
use excel_sync.Local.Presence.{
  upsert_remote_file, remove_unsynced_file, mark_missing, update_cloud_state, set_favorite,
  mark_opened,
}
use excel_sync.Local.Queue.{UpsertInput, queue_waiting_upsert, queue_upsert}
use excel_sync.Local.Jobs.{
  prepare_pending_upload, mark_pending_no_change, cancel_pending, requeue_pending,
  cancel_pending_by_id, queue_rename, set_upload_receipt, clear_upload_receipt,
}
use excel_sync.Local.Marks.{
  mark_uploading, mark_retry, mark_error, mark_conflict, mark_synced, mark_rename_synced,
}
use excel_sync.Local.Dispatch.{
  boost_ready_pending, set_pending_priority_for_file, set_pending_storage_backend_for_file,
  rebase_queued_for_file, requeue_auth_blocked, requeue_permission_blocked,
  recover_interrupted_jobs,
}
use excel_sync.Local.Imports.{
  ImportInput, SettingsPatch, begin_telegram_import, complete_telegram_import,
  remember_telegram_upload, fail_telegram_import, set_telegram_checkpoint, set_settings,
}
use excel_sync.Local.Statements.{log}

pub data Call : Type 0 where
  upserts_state : ℕ → String → ℕ → ℕ → Option String → Bool → Call
  ensures_waiting_file : ℕ → String → FileInput → ℕ → ℕ → Call
  ensures_file : ℕ → String → FileInput → String → ℕ → ℕ → Call
  renames_file : ℕ → String → FileInput → Call
  upserts_remote_metadata : ℕ → RemoteInput → Call
  marks_cloud_trashed : ℕ → String → Call
  marks_cloud_deleted : ℕ → String → Call
  upserts_remote_file : ℕ → RemoteInput → Call
  removes_unsynced_file : String → Call
  marks_missing : ℕ → String → Call
  updates_cloud_state : ℕ → String → ℕ → Option String → SyncStatus → Call
  sets_favorite : String → Bool → Call
  marks_opened : ℕ → String → Call
  queues_waiting_upsert : ℕ → String → FileRow → String → String → String → ℕ → Call
  queues_upsert : ℕ → String → FileRow → UpsertInput → Call
  prepares_pending_upload : ℕ → String → String → ℕ → Call
  marks_pending_no_change : ℕ → String → Call
  cancels_pending : String → Option Operation → Call
  requeues_pending : ℕ → String → Call
  cancels_pending_by_id : ℕ → String → Call
  queues_rename : ℕ → String → FileRow → String → ℕ → Call
  sets_upload_receipt : ℕ → String → Receipt → Call
  clears_upload_receipt : ℕ → String → Call
  marks_uploading : ℕ → String → Call
  marks_retry : ℕ → String → String → String → ℕ → Call
  marks_error : ℕ → String → String → String → Call
  marks_conflict : ℕ → String → String → Call
  marks_synced : ℕ → String → ℕ → String → ℕ → Option ℕ → Call
  marks_rename_synced : ℕ → String → Call
  boosts_ready_pending : ℕ → ℕ → Call
  sets_pending_priority_for_file : ℕ → String → ℕ → Call
  sets_pending_storage_backend_for_file : ℕ → String → Backend → Call
  rebases_queued_for_file : ℕ → String → ℕ → Call
  requeues_auth_blocked : ℕ → Call
  requeues_permission_blocked : ℕ → Call
  restarts : ℕ → Call
  begins_telegram_import : ImportInput → Call
  completes_telegram_import : String → ℕ → String → String → Call
  remembers_telegram_upload : ImportInput → String → String → Call
  fails_telegram_import : String → ℕ → String → Call
  sets_telegram_checkpoint : String → ℕ → Call
  sets_settings : SettingsPatch → Call
  logs : ℕ → String → Option String → Option String → Call

-- The database after a call, whether it returned or threw.
unfoldable pub perform : Call → Db → Db
perform (upserts_state now id size mtime hash here) db =
    (upsert_state now id size mtime hash here db).1
perform (ensures_waiting_file now fresh input size mtime) db =
    (ensure_waiting_file now fresh input size mtime db).1
perform (ensures_file now fresh input hash size mtime) db =
    (ensure_file now fresh input hash size mtime db).1
perform (renames_file now id input) db = (rename_file now id input db).1
perform (upserts_remote_metadata now input) db = (upsert_remote_metadata now input db).1
perform (marks_cloud_trashed now id) db = (mark_cloud_trashed now id db).1
perform (marks_cloud_deleted now id) db = (mark_cloud_deleted now id db).1
perform (upserts_remote_file now input) db = (upsert_remote_file now input db).1
perform (removes_unsynced_file id) db = (remove_unsynced_file id db).1
perform (marks_missing now path) db = (mark_missing now path db).1
perform (updates_cloud_state now id version hash status) db =
    (update_cloud_state now id version hash status db).1
perform (sets_favorite id favorite) db = (set_favorite id favorite db).1
perform (marks_opened now id) db = (mark_opened now id db).1
perform (queues_waiting_upsert now fresh file path code message retry_at) db =
    (queue_waiting_upsert now fresh file path code message retry_at db).1
perform (queues_upsert now fresh file input) db = (queue_upsert now fresh file input db).1
perform (prepares_pending_upload now id hash size) db =
    (prepare_pending_upload now id hash size db).1
perform (marks_pending_no_change now id) db = (mark_pending_no_change now id db).1
perform (cancels_pending id operation) db = (cancel_pending id operation db).1
perform (requeues_pending now id) db = (requeue_pending now id db).1
perform (cancels_pending_by_id now id) db = (cancel_pending_by_id now id db).1
perform (queues_rename now fresh file path priority) db =
    (queue_rename now fresh file path priority db).1
perform (sets_upload_receipt now id receipt) db = (set_upload_receipt now id receipt db).1
perform (clears_upload_receipt now id) db = (clear_upload_receipt now id db).1
perform (marks_uploading now id) db = (mark_uploading now id db).1
perform (marks_retry now id code message retry_at) db =
    (mark_retry now id code message retry_at db).1
perform (marks_error now id code message) db = (mark_error now id code message db).1
perform (marks_conflict now id detail) db = (mark_conflict now id detail db).1
perform (marks_synced now id version hash size source) db =
    (mark_synced now id version hash size source db).1
perform (marks_rename_synced now id) db = (mark_rename_synced now id db).1
perform (boosts_ready_pending now priority) db = (boost_ready_pending now priority db).1
perform (sets_pending_priority_for_file now id priority) db =
    (set_pending_priority_for_file now id priority db).1
perform (sets_pending_storage_backend_for_file now id backend) db =
    (set_pending_storage_backend_for_file now id backend db).1
perform (rebases_queued_for_file now id base) db = (rebase_queued_for_file now id base db).1
perform (requeues_auth_blocked now) db = (requeue_auth_blocked now db).1
perform (requeues_permission_blocked now) db = (requeue_permission_blocked now db).1
perform (restarts now) db = recover_interrupted_jobs now db
perform (begins_telegram_import input) db = (begin_telegram_import input db).1
perform (completes_telegram_import chat_id message_id path sha256) db =
    (complete_telegram_import chat_id message_id path sha256 db).1
perform (remembers_telegram_upload input path sha256) db =
    (remember_telegram_upload input path sha256 db).1
perform (fails_telegram_import chat_id message_id message) db =
    (fail_telegram_import chat_id message_id message db).1
perform (sets_telegram_checkpoint chat_id message_id) db =
    (set_telegram_checkpoint chat_id message_id db).1
perform (sets_settings patch) db = (set_settings patch db).1
perform (logs now event file detail) db = (log now event file detail db).1

unfoldable pub run : List Call → Db → Db
run [] db = db
run (c ∷ cs) db = run cs (perform c db)
