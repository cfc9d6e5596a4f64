-- ===== src/Cloud/Trash.antt =====
-- worker/src/index.ts: handleRename, handleDelete, handleTrash, handlePermanentDelete and
-- handleRestoreFromTrash. The names and paths of a request arrive normalised.
use excel_sync.Base.{
  ℕ, String, ◌<>◌, Bool, ◌&&◌, not, none, some, ◌==◌, string_eq, eqb, update, count, if◌then◌else◌,
  decimal, gets, modify, guard, pure, ◌>>=◌, ◌>>◌,
}
use excel_sync.Cloud.Schema.{
  editor, manager, active, trashed, deleted, FileRow, Handler, HttpError, http,
}
use excel_sync.Cloud.Access.{can_create_resource_at_path}
use excel_sync.Cloud.Requests.{
  Request, is_active, is_trashed, get_owned_file, record_event, record_domain_event,
  record_file_state_snapshot, path_conflict,
}

-- A handler's answer: `{ ok: true }`, or status 409 with the version that the cloud has.
pub data Reply : Type 0 where
  done : Reply
  base_version_conflict : ℕ → Reply

-- An `UPDATE files … WHERE matches`, which must change one row.
unfoldable pub update_one : (FileRow → Bool) → (FileRow → FileRow) → HttpError → Handler (Unit {0})
update_one matches f e = do
  changes ← gets (λ c. count matches c.files)
  modify (λ c. record c { files = update matches f c.files })
  guard (eqb changes 1) e

-- The three records that a change of a file leaves: in sync_events, domain_events and
-- file_state_history.
unfoldable pub record_change :
    Request → FileRow → String → String → String → String → String → Handler (Unit {0})
record_change rq file event detail key event_type state = do
  record_event rq file.id event detail
  record_domain_event rq file.workspace_id file.id (key <> ":" <> file.id <> ":" <> decimal rq.now)
      event_type
  record_file_state_snapshot rq file.id state

-- `WHERE id = ? AND workspace_id = ? AND current_version = ?`
abbrev is_at : FileRow → ℕ → FileRow → Bool
is_at file version f =
    f.id == file.id && f.workspace_id == file.workspace_id && eqb f.current_version version

move_file : Request → FileRow → String → String → ℕ → Handler Reply
move_file rq file logical_name relative_path base_version = do
  taken ← gets (path_conflict file.workspace_id relative_path file.id)
  guard (not taken) (http 409 "PATH_ALREADY_EXISTS")
  update_one (is_at file base_version)
      (λ f. record f {
        logical_name = logical_name;
        relative_path = relative_path;
        updated_at = rq.now;
        updated_by = rq.user.id;
      })
      (http 409 "BASE_VERSION_CONFLICT")
  record_change rq file "RENAME" relative_path "rename"
      (if file.relative_path == relative_path then "FILE_RENAMED" else "FILE_MOVED")
      (if file.relative_path == relative_path then "RENAME" else "MOVE")
  pure done

unfoldable pub handle_rename : Request → String → String → String → ℕ → Handler Reply
unfolding move_file
handle_rename rq file_id logical_name relative_path base_version = do
  file ← get_owned_file rq file_id editor
  allowed ← gets (λ c.
      can_create_resource_at_path c rq.user
        (record {
          workspace_id = file.workspace_id;
          storage_connection_id = file.home_storage_connection_id;
          file_id = some file.id;
          relative_path = relative_path;
        })
        editor)
  guard allowed (http 403 "RESOURCE_MOVE_FORBIDDEN")
  if not (eqb file.current_version base_version)
      then pure (base_version_conflict file.current_version)
      else move_file rq file logical_name relative_path base_version

unfoldable pub handle_delete : Request → String → ℕ → Handler Reply
handle_delete rq file_id base_version = do
  file ← get_owned_file rq file_id editor
  if not (eqb file.current_version base_version)
      then pure (base_version_conflict file.current_version)
      else record_event rq file_id "LEGACY_LOCAL_DELETE_IGNORED" ("base=" <> decimal base_version)
        >> pure done

put_in_trash : Request → FileRow → ℕ → Handler Reply
put_in_trash rq file base_version = do
  update_one (λ f. is_at file base_version f && is_active f.status)
      (λ f. record f {
        status = trashed;
        trashed_at = some rq.now;
        trashed_by = some rq.user.id;
        updated_at = rq.now;
        updated_by = rq.user.id;
      })
      (http 409 "BASE_VERSION_CONFLICT")
  record_change rq file "SAAS_TRASHED" ("base=" <> decimal base_version) "trash" "FILE_TRASHED"
      "TRASH"
  pure done

unfoldable pub handle_trash : Request → String → ℕ → Handler Reply
unfolding put_in_trash
handle_trash rq file_id base_version = do
  file ← get_owned_file rq file_id editor
  guard (is_active file.status) (http 409 "FILE_NOT_ACTIVE")
  if not (eqb file.current_version base_version)
      then pure (base_version_conflict file.current_version)
      else put_in_trash rq file base_version

-- `WHERE id = ? AND workspace_id = ? AND status = 'trashed'`
abbrev is_trashed_file : FileRow → FileRow → Bool
is_trashed_file file f =
    f.id == file.id && f.workspace_id == file.workspace_id && is_trashed f.status

unfoldable pub handle_permanent_delete : Request → String → Handler Reply
handle_permanent_delete rq file_id = do
  file ← get_owned_file rq file_id manager
  guard (is_trashed file.status) (http 409 "FILE_NOT_TRASHED")
  update_one (is_trashed_file file)
      (λ f. record f { status = deleted; updated_at = rq.now; updated_by = rq.user.id })
      (http 409 "FILE_NOT_TRASHED")
  record_change rq file "SAAS_PERMANENTLY_DELETED"
      ("V" <> decimal file.current_version <> "; storage object retained by provider policy")
      "delete" "FILE_PERMANENTLY_DELETED" "DELETE"
  pure done

-- The stored path was normalised when it was stored, so normalising it changes nothing.
unfoldable pub handle_restore_from_trash : Request → String → Handler Reply
handle_restore_from_trash rq file_id = do
  file ← get_owned_file rq file_id editor
  guard (is_trashed file.status) (http 409 "FILE_NOT_TRASHED")
  taken ← gets (
      path_conflict file.workspace_id
        (if file.relative_path == "" then file.logical_name else file.relative_path) file.id)
  guard (not taken) (http 409 "PATH_ALREADY_EXISTS")
  update_one (is_trashed_file file)
      (λ f. record f {
        status = active;
        trashed_at = none;
        trashed_by = none;
        updated_at = rq.now;
        updated_by = rq.user.id;
      })
      (http 409 "FILE_NOT_TRASHED")
  record_change rq file "SAAS_TRASH_RESTORED" ("V" <> decimal file.current_version) "trash-restore"
      "FILE_RESTORED_FROM_TRASH" "RESTORE"
  pure done
