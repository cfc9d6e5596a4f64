-- ===== src/Local/Jobs.antt =====
-- src/main/db.ts: the methods of LocalDb on one queued job: preparing, requeuing, cancelling,
-- renaming, and its upload receipt.
use excel_sync.Base.{
  ℕ, String, ◌<>◌, Bool, true, false, ◌&&◌, not, Option, none, some, ◌==◌, string_eq, ltb, find,
  gets, modify, pure, transaction, ◌>>=◌, ◌>>◌, when_some, if◌then◌else◌, decimal, clip,
}
use excel_sync.Local.Schema.{
  Operation, FileRow, PendingRow, Receipt, synced, pending, error, uploading, upsert, rename,
  telegram_user_group, is_active, is_upsert, is_rename, is_in_flight, is_uploading, pending_of_file,
  pending_with_id,
}
use excel_sync.Local.Statements.{
  Local, insert_pending, update_pending, remove_pendings, log, get_file, get_pending,
}
use excel_sync.Local.Queue.{clamp_priority, fresh_row, set_status}

unfoldable pub prepare_pending_upload : ℕ → String → String → ℕ → Local (Option PendingRow)
prepare_pending_upload now id hash size = do
  found ← gets (get_pending id)
  when_some found (pure none) λ p. if not (is_upsert p.operation) then pure none else do
    modify (
        update_pending id (λ q. record q {
          hash = some hash;
          size = some size;
          status = uploading;
          next_retry_at = none;
          error_code = none;
          error_message = none;
          updated_at = now;
        }))
    gets (get_pending id)

abbrev operation_name : Operation → String
operation_name upsert = "UPSERT"
operation_name rename = "RENAME"
operation_name Operation.delete = "DELETE"

no_change : ℕ → PendingRow → Local Bool
unfolding set_status
no_change now p = do
  transaction
      (do modify (remove_pendings (pending_with_id p.id)); modify (set_status now synced p.file_id))
  log now "NO_CHANGE" (some p.file_id) (some (operation_name p.operation))
  pure true

unfoldable pub mark_pending_no_change : ℕ → String → Local Bool
unfolding no_change
mark_pending_no_change now id = do
  found ← gets (get_pending id)
  when_some found (pure false) (λ p. no_change now p)

unfoldable pub cancel_pending : String → Option Operation → Local (Unit {0})
cancel_pending id none = modify (remove_pendings (pending_of_file id))
cancel_pending id (some upsert) =
    modify (remove_pendings (λ p. (p.file_id == id) && is_upsert p.operation))
cancel_pending id (some rename) =
    modify (remove_pendings (λ p. (p.file_id == id) && is_rename p.operation))
cancel_pending id (some Operation.delete) = modify (
    remove_pendings
      (λ p. (p.file_id == id) && not (is_upsert p.operation) && not (is_rename p.operation)))

requeue : ℕ → PendingRow → Local Bool
unfolding set_status
requeue now old = do
  transaction (do
    modify (
        update_pending old.id (λ p. if is_uploading p.status then p else record p {
          status = pending;
          priority = 2;
          next_retry_at = none;
          error_code = none;
          error_message = none;
          updated_at = now;
        }))
    modify (set_status now pending old.file_id))
  log now "TASK_REQUEUED" (some old.file_id) (some (operation_name old.operation))
  pure true

unfoldable pub requeue_pending : ℕ → String → Local Bool
unfolding requeue
requeue_pending now id = do
  found ← gets (get_pending id)
  when_some found (pure false) λ p. if is_uploading p.status then pure false else requeue now p

settle_file : ℕ → Option FileRow → Local (Unit {0})
unfolding set_status
settle_file now file =
    when_some file (pure tt)
      λ f. modify (set_status now (if ltb 0 f.current_version then synced else error) f.id)

cancel : ℕ → PendingRow → Local Bool
unfolding settle_file
cancel now old = do
  file ← gets (get_file old.file_id)
  transaction (do
    modify (remove_pendings (λ p. (p.id == old.id) && not (is_uploading p.status)))
    settle_file now file)
  log now "TASK_CANCELLED" (some old.file_id) (some (operation_name old.operation))
  pure true

unfoldable pub cancel_pending_by_id : ℕ → String → Local Bool
unfolding cancel
cancel_pending_by_id now id = do
  found ← gets (get_pending id)
  when_some found (pure false) λ p. if is_uploading p.status then pure false else cancel now p

active_rename : String → PendingRow → Bool
active_rename id p = (p.file_id == id) && is_rename p.operation && is_in_flight p.status

rename_again : ℕ → FileRow → String → ℕ → PendingRow → Local (Option PendingRow)
rename_again now file path priority old = do
  modify (
      update_pending old.id (λ p. record p {
        local_path = path;
        base_version = file.current_version;
        priority = clamp_priority priority;
        updated_at = now;
        status = pending;
        next_retry_at = none;
      }))
  gets (get_pending old.id)

rename_key : FileRow → String
rename_key file = file.id <> ":" <> decimal file.current_version <> ":RENAME:" <> file.logical_name

rename_first : ℕ → String → FileRow → String → ℕ → Local (Option PendingRow)
unfolding set_status rename_key
rename_first now fresh file path priority = do
  insert_pending (record (fresh_row fresh now file rename path (rename_key file)) {
    priority = clamp_priority priority;
  })
  modify (set_status now pending file.id)
  log now "RENAME_PENDING" (some file.id) (some (clip 1000 file.relative_path))
  gets (get_pending fresh)

unfoldable pub queue_rename : ℕ → String → FileRow → String → ℕ → Local (Option PendingRow)
unfolding active_rename rename_again rename_first
queue_rename now fresh file path priority =
    if not (is_active file.cloud_status) then pure none else do
      existing ← gets (λ db. find (active_rename file.id) db.pendings)
      when_some existing (rename_first now fresh file path priority)
          (rename_again now file path priority)

-- `JSON.stringify({ chatId, messageId })`
abbrev pub locator : Receipt → String
locator r = "{\"chatId\":\"" <> r.chat_id <> "\",\"messageId\":" <> decimal r.message_id <> "}"

unfoldable pub set_upload_receipt : ℕ → String → Receipt → Local (Option PendingRow)
set_upload_receipt now id receipt = do
  modify (
      update_pending id (λ p. record p {
        upload_receipt = some receipt;
        storage_backend = telegram_user_group;
        storage_locator = some (locator receipt);
        updated_at = now;
      }))
  gets (get_pending id)

unfoldable pub clear_upload_receipt : ℕ → String → Local (Unit {0})
clear_upload_receipt now id = modify (
    update_pending id
      (λ p. record p { upload_receipt = none; storage_locator = none; updated_at = now }))
