-- ===== src/Local/Marks.antt =====
-- src/main/db.ts: the methods of LocalDb that mark the outcome of a job: markUploading, markRetry,
-- markError, markConflict, markSynced, markRenameSynced.
use excel_sync.Base.{
  ℕ, String, ◌<>◌, Option, none, some, string_eq, gets, modify, pure, transaction, ◌>>=◌, ◌>>◌,
  when_some, decimal, clip, ◌+◌,
}
use excel_sync.Local.Schema.{
  SyncStatus, PendingRow, VersionRow, synced, retry_wait, error, conflict, uploading,
  pending_with_id,
}
use excel_sync.Local.Statements.{
  Local, update_file, update_pending, remove_pendings, put_version, log, get_pending,
}
use excel_sync.Local.Queue.{set_status}

abbrev pub owner : Option PendingRow → Option String
owner none = none
owner (some p) = some p.file_id

unfoldable pub set_owner_status : ℕ → SyncStatus → Option PendingRow → Local (Unit {0})
unfolding set_status
set_owner_status now status found =
    when_some found (pure tt) λ p. modify (set_status now status p.file_id)

unfoldable pub mark_uploading : ℕ → String → Local (Unit {0})
unfolding set_owner_status
mark_uploading now id = do
  modify (
      update_pending id (λ p. record p {
        status = uploading;
        attempt_count = p.attempt_count + 1;
        error_code = none;
        error_message = none;
        updated_at = now;
      }))
  found ← gets (get_pending id)
  set_owner_status now uploading found

unfoldable pub mark_retry : ℕ → String → String → String → ℕ → Local (Unit {0})
unfolding set_owner_status
mark_retry now id code message retry_at = do
  found ← gets (get_pending id)
  modify (
      update_pending id (λ p. record p {
        status = retry_wait;
        next_retry_at = some retry_at;
        error_code = some code;
        error_message = some (clip 1000 message);
        updated_at = now;
      }))
  set_owner_status now retry_wait found
  log now "RETRY_WAIT" (owner found) (some (clip 1000 (code <> ": " <> message)))

unfoldable pub mark_error : ℕ → String → String → String → Local (Unit {0})
unfolding set_owner_status
mark_error now id code message = do
  found ← gets (get_pending id)
  modify (
      update_pending id (λ p. record p {
        status = error;
        error_code = some code;
        error_message = some (clip 1000 message);
        updated_at = now;
      }))
  set_owner_status now error found
  log now "ERROR" (owner found) (some (clip 1000 (code <> ": " <> message)))

unfoldable pub mark_conflict : ℕ → String → String → Local (Unit {0})
unfolding set_owner_status
mark_conflict now id detail = do
  found ← gets (get_pending id)
  modify (
      update_pending id (λ p. record p {
        status = conflict;
        error_code = some "BASE_VERSION_CONFLICT";
        error_message = some (clip 1000 detail);
        updated_at = now;
      }))
  set_owner_status now conflict found
  log now "CONFLICT" (owner found) (some (clip 1000 detail))

-- `a ?? b ?? null` on the source version
abbrev source_of : Option ℕ → Option ℕ → Option ℕ
source_of none b = b
source_of (some a) b = some a

synced_version : ℕ → ℕ → String → ℕ → Option ℕ → PendingRow → VersionRow → VersionRow
synced_version now version hash size source p v = record v {
  hash = hash;
  size = size;
  base_version = p.base_version;
  source_version = source_of source p.restored_from_version;
  storage_backend = some p.storage_backend;
  storage_locator = p.storage_locator;
  synced_at = now;
}

settle_synced : ℕ → ℕ → String → ℕ → Option ℕ → PendingRow → Local (Unit {0})
unfolding synced_version
settle_synced now version hash size source p = do
  transaction (do
    modify (
        update_file p.file_id (λ f. record f {
          current_version = version;
          current_hash = some hash;
          storage_backend = some p.storage_backend;
          storage_locator = p.storage_locator;
          status = synced;
          updated_at = now;
        }))
    put_version
        (synced_version now version hash size source p (record {
          file_id = p.file_id;
          version = version;
          hash = hash;
          size = size;
          base_version = 0;
          source_version = none;
          storage_backend = none;
          storage_locator = none;
          synced_at = now;
        }))
        (synced_version now version hash size source p)
    modify (remove_pendings (pending_with_id p.id)))
  log now "SYNCED" (some p.file_id) (some ("V" <> decimal version <> " hash=" <> clip 12 hash))

unfoldable pub mark_synced : ℕ → String → ℕ → String → ℕ → Option ℕ → Local (Unit {0})
unfolding settle_synced
mark_synced now id version hash size source = do
  found ← gets (get_pending id)
  when_some found (pure tt) (λ p. settle_synced now version hash size source p)

unfoldable pub mark_rename_synced : ℕ → String → Local (Unit {0})
unfolding set_status
mark_rename_synced now id = do
  found ← gets (get_pending id)
  when_some found (pure tt) λ p. do
    transaction
        (do modify (set_status now synced p.file_id); modify (remove_pendings (pending_with_id id)))
    log now "RENAME_SYNCED" (some p.file_id) none
