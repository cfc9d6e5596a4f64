-- ===== src/Local/Presence.antt =====
-- src/main/db.ts: the methods of LocalDb that follow a file from the cloud to the disk and away
-- from it: upsertRemoteFile, removeUnsyncedFile, markMissing, updateCloudState, setFavorite, markOpened.
pub mod Keeping
use excel_sync.Base.{
  ℕ, ◌-◌, ltb, String, ◌<>◌, Bool, true, false, ◌&&◌, not, Option, none, some, ◌==◌, string_eq, eqb,
  gets, guard, modify, pure, require, transaction, ◌>>=◌, ◌>>◌, when_some, if◌then◌else◌, decimal,
}
use excel_sync.Local.Schema.{
  SyncStatus, FileRow, synced, active, local_path_occupied, local_file_record_missing,
  pending_of_file,
}
use excel_sync.Local.Statements.{
  Local, insert_file, update_file, move_file, put_state, update_state, remove_pendings, put_version,
  remove_files, log, get_file, get_file_by_path,
}
use excel_sync.Local.Files.{
  RemoteInput, apply_remote, remote_file, remote_backend, remote_locator, occupied_by_other,
  or_else,
}

store_row : ℕ → RemoteInput → Option FileRow → Local (Unit {0})
store_row now input existing =
    when_some existing
      (insert_file (remote_file now input (remote_backend input none) (remote_locator input none)))
      (λ f.
        move_file input.id input.relative_path
          (apply_remote now input (remote_backend input (some f)) (remote_locator input (some f))))

store_version : ℕ → RemoteInput → Option FileRow → Option String → Local (Unit {0})
store_version now input existing known = when_some known (pure tt) λ hash.
    put_version
      (record {
        file_id = input.id;
        version = input.version;
        hash = hash;
        size = input.size;
        base_version = input.version - 1;
        source_version = none;
        storage_backend = remote_backend input existing;
        storage_locator = remote_locator input existing;
        synced_at = now;
      })
      (λ v. record v {
        hash = hash;
        size = input.size;
        storage_backend = remote_backend input existing;
        storage_locator = remote_locator input existing;
        synced_at = now;
      })

-- `input.cloud_status` is the `'active'` that the statement writes.
unfoldable pub upsert_remote_file : ℕ → RemoteInput → Local FileRow
unfolding store_row store_version
upsert_remote_file now given = do
  let input = record given { cloud_status = active }
  occupied ← gets (get_file_by_path input.relative_path)
  guard (not (occupied_by_other input.id occupied)) local_path_occupied
  existing ← gets (get_file input.id)
  transaction (do
    store_row now input existing
    put_state
        (record {
          file_id = input.id;
          size = input.size;
          mtime_ms = input.mtime_ms;
          last_hash = input.hash;
          last_seen_at = now;
          exists_flag = true;
        })
        (λ s. record s {
          size = input.size;
          mtime_ms = input.mtime_ms;
          last_hash = input.hash;
          last_seen_at = now;
          exists_flag = true;
        })
    store_version now input existing input.hash)
  log now "REMOTE_APPLIED" (some input.id)
      (some (input.relative_path <> " V" <> decimal input.version))
  stored ← gets (get_file input.id)
  require stored local_file_record_missing

unfoldable pub remove_unsynced_file : String → Local (Unit {0})
remove_unsynced_file id = transaction (do
  modify (remove_pendings (pending_of_file id))
  modify (remove_files (λ f. (f.id == id) && eqb f.current_version 0)))

-- A file that the cloud has leaves its queued jobs; the cloud's copy is not touched.
forget_jobs : ℕ → FileRow → Local (Unit {0})
forget_jobs now file = if not (ltb 0 file.current_version) then pure tt else do
  modify (remove_pendings (pending_of_file file.id))
  modify (update_file file.id (λ f. record f { status = synced; updated_at = now }))

mark_missing_file : ℕ → FileRow → Local (Option FileRow)
unfolding forget_jobs
mark_missing_file now file = do
  transaction (do
    modify (update_state file.id (λ s. record s { exists_flag = false; last_seen_at = now }))
    forget_jobs now file)
  stored ← gets (get_file file.id)
  pure (or_else stored (some file))

unfoldable pub mark_missing : ℕ → String → Local (Option FileRow)
unfolding mark_missing_file
mark_missing now path = do
  found ← gets (get_file_by_path path)
  when_some found (pure none) (λ file. mark_missing_file now file)

unfoldable pub update_cloud_state : ℕ → String → ℕ → Option String → SyncStatus → Local (Unit {0})
update_cloud_state now id version hash status = modify (
    update_file id (λ f. record f {
      current_version = version;
      current_hash = hash;
      status = status;
      cloud_status = active;
      updated_at = now;
    }))

unfoldable pub set_favorite : String → Bool → Local (Unit {0})
set_favorite id favorite = modify (update_file id (λ f. record f { favorite = favorite }))

unfoldable pub mark_opened : ℕ → String → Local (Unit {0})
mark_opened now id = modify (update_file id (λ f. record f { last_opened_at = some now }))
