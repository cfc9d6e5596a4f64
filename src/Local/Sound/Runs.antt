-- ===== src/Local/Sound/Runs.antt =====
-- Every call of LocalDb keeps the invariant of the queue, and so does every sequence of calls.
use excel_sync.Base.{List, [], ◌∷◌}
use excel_sync.Local.Schema.{Db}
use excel_sync.Local.Calls.{
  Call, perform, run, upserts_state, ensures_waiting_file, ensures_file, renames_file,
  upserts_remote_metadata, marks_cloud_trashed, marks_cloud_deleted, upserts_remote_file,
  removes_unsynced_file, marks_missing, updates_cloud_state, sets_favorite, marks_opened,
  queues_waiting_upsert, queues_upsert, prepares_pending_upload, marks_pending_no_change,
  cancels_pending, requeues_pending, cancels_pending_by_id, queues_rename, sets_upload_receipt,
  clears_upload_receipt, marks_uploading, marks_retry, marks_error, marks_conflict, marks_synced,
  marks_rename_synced, boosts_ready_pending, sets_pending_priority_for_file,
  sets_pending_storage_backend_for_file, rebases_queued_for_file, requeues_auth_blocked,
  requeues_permission_blocked, restarts, begins_telegram_import, completes_telegram_import,
  remembers_telegram_upload, fails_telegram_import, sets_telegram_checkpoint, sets_settings, logs,
}
use excel_sync.Local.Sound.{IsSound, log-Keeps}
use excel_sync.Local.Sound.Imports.{
  begin_telegram_import-Keeps, complete_telegram_import-Keeps, remember_telegram_upload-Keeps,
  fail_telegram_import-Keeps, set_telegram_checkpoint-Keeps, set_settings-Keeps,
}
use excel_sync.Local.Sound.Files.{
  upsert_state-Keeps, ensure_waiting_file-Keeps, ensure_file-Keeps, rename_file-Keeps,
  upsert_remote_metadata-Keeps, mark_cloud_trashed-Keeps, mark_cloud_deleted-Keeps,
  upsert_remote_file-Keeps, remove_unsynced_file-Keeps, mark_missing-Keeps,
  update_cloud_state-Keeps, set_favorite-Keeps, mark_opened-Keeps,
}
use excel_sync.Local.Sound.Jobs.{
  queue_waiting_upsert-Keeps, queue_upsert-Keeps, prepare_pending_upload-Keeps,
  mark_pending_no_change-Keeps, cancel_pending-Keeps, requeue_pending-Keeps,
  cancel_pending_by_id-Keeps, queue_rename-Keeps, set_upload_receipt-Keeps,
  clear_upload_receipt-Keeps, mark_uploading-Keeps, mark_retry-Keeps, mark_error-Keeps,
  mark_conflict-Keeps, mark_synced-Keeps, mark_rename_synced-Keeps, boost_ready_pending-Keeps,
  set_pending_priority_for_file-Keeps, set_pending_storage_backend_for_file-Keeps,
  rebase_queued_for_file-Keeps, requeue_auth_blocked-Keeps, requeue_permission_blocked-Keeps,
  recover_interrupted_jobs-IsSound,
}

pub perform-IsSound : (c : Call) (db : Db) → IsSound db → IsSound (perform c db)
unfolding perform
perform-IsSound (upserts_state now id size mtime hash here) db h =
    (upsert_state-Keeps now id size mtime hash here).at db h
perform-IsSound (ensures_waiting_file now fresh input size mtime) db h =
    (ensure_waiting_file-Keeps now fresh input size mtime).at db h
perform-IsSound (ensures_file now fresh input hash size mtime) db h =
    (ensure_file-Keeps now fresh input hash size mtime).at db h
perform-IsSound (renames_file now id input) db h = (rename_file-Keeps now id input).at db h
perform-IsSound (upserts_remote_metadata now input) db h =
    (upsert_remote_metadata-Keeps now input).at db h
perform-IsSound (marks_cloud_trashed now id) db h = (mark_cloud_trashed-Keeps now id).at db h
perform-IsSound (marks_cloud_deleted now id) db h = (mark_cloud_deleted-Keeps now id).at db h
perform-IsSound (upserts_remote_file now input) db h = (upsert_remote_file-Keeps now input).at db h
perform-IsSound (removes_unsynced_file id) db h = (remove_unsynced_file-Keeps id).at db h
perform-IsSound (marks_missing now path) db h = (mark_missing-Keeps now path).at db h
perform-IsSound (updates_cloud_state now id version hash status) db h =
    (update_cloud_state-Keeps now id version hash status).at db h
perform-IsSound (sets_favorite id favorite) db h = (set_favorite-Keeps id favorite).at db h
perform-IsSound (marks_opened now id) db h = (mark_opened-Keeps now id).at db h
perform-IsSound (queues_waiting_upsert now fresh file path code message retry_at) db h =
    (queue_waiting_upsert-Keeps now fresh file path code message retry_at).at db h
perform-IsSound (queues_upsert now fresh file input) db h =
    (queue_upsert-Keeps now fresh file input).at db h
perform-IsSound (prepares_pending_upload now id hash size) db h =
    (prepare_pending_upload-Keeps now id hash size).at db h
perform-IsSound (marks_pending_no_change now id) db h =
    (mark_pending_no_change-Keeps now id).at db h
perform-IsSound (cancels_pending id operation) db h = (cancel_pending-Keeps id operation).at db h
perform-IsSound (requeues_pending now id) db h = (requeue_pending-Keeps now id).at db h
perform-IsSound (cancels_pending_by_id now id) db h = (cancel_pending_by_id-Keeps now id).at db h
perform-IsSound (queues_rename now fresh file path priority) db h =
    (queue_rename-Keeps now fresh file path priority).at db h
perform-IsSound (sets_upload_receipt now id receipt) db h =
    (set_upload_receipt-Keeps now id receipt).at db h
perform-IsSound (clears_upload_receipt now id) db h = (clear_upload_receipt-Keeps now id).at db h
perform-IsSound (marks_uploading now id) db h = (mark_uploading-Keeps now id).at db h
perform-IsSound (marks_retry now id code message retry_at) db h =
    (mark_retry-Keeps now id code message retry_at).at db h
perform-IsSound (marks_error now id code message) db h =
    (mark_error-Keeps now id code message).at db h
perform-IsSound (marks_conflict now id detail) db h = (mark_conflict-Keeps now id detail).at db h
perform-IsSound (marks_synced now id version hash size source) db h =
    (mark_synced-Keeps now id version hash size source).at db h
perform-IsSound (marks_rename_synced now id) db h = (mark_rename_synced-Keeps now id).at db h
perform-IsSound (boosts_ready_pending now priority) db h =
    (boost_ready_pending-Keeps now priority).at db h
perform-IsSound (sets_pending_priority_for_file now id priority) db h =
    (set_pending_priority_for_file-Keeps now id priority).at db h
perform-IsSound (sets_pending_storage_backend_for_file now id backend) db h =
    (set_pending_storage_backend_for_file-Keeps now id backend).at db h
perform-IsSound (rebases_queued_for_file now id base) db h =
    (rebase_queued_for_file-Keeps now id base).at db h
perform-IsSound (requeues_auth_blocked now) db h = (requeue_auth_blocked-Keeps now).at db h
perform-IsSound (requeues_permission_blocked now) db h =
    (requeue_permission_blocked-Keeps now).at db h
perform-IsSound (restarts now) db h = recover_interrupted_jobs-IsSound now db h
perform-IsSound (begins_telegram_import input) db h = (begin_telegram_import-Keeps input).at db h
perform-IsSound (completes_telegram_import chat_id message_id path sha256) db h =
    (complete_telegram_import-Keeps chat_id message_id path sha256).at db h
perform-IsSound (remembers_telegram_upload input path sha256) db h =
    (remember_telegram_upload-Keeps input path sha256).at db h
perform-IsSound (fails_telegram_import chat_id message_id message) db h =
    (fail_telegram_import-Keeps chat_id message_id message).at db h
perform-IsSound (sets_telegram_checkpoint chat_id message_id) db h =
    (set_telegram_checkpoint-Keeps chat_id message_id).at db h
perform-IsSound (sets_settings patch) db h = (set_settings-Keeps patch).at db h
perform-IsSound (logs now event file detail) db h = (log-Keeps now event file detail).at db h

-- Whatever methods of LocalDb that write files, versions and jobs (those of Local.Calls) are called,
-- in any order, at any times and with any arguments, and whether they return or throw: if at the start
-- every queued job belongs to a file of the database and has a priority of at most 4, then so it is at
-- the end.
pub run-IsSound : (cs : List Call) (db : Db) → IsSound db → IsSound (run cs db)
unfolding run
run-IsSound [] db h = h
run-IsSound (c ∷ cs) db h = run-IsSound cs (perform c db) (perform-IsSound c db h)
