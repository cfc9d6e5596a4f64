-- ===== src/Cloud/Rewind.antt =====
-- worker/src/collab-upgrade.ts: the plan of a rewind, which takes the files of a workspace or a folder
-- back to their state at a time. A folder arrives normalised.
pub mod Items
pub mod Execute
pub mod Restores
use excel_sync.Base.{
  ℕ, String, ◌<>◌, Bool, true, false, ◌&&◌, ◌||◌, not, Option, none, some, List, [], ◌∷◌, ◌++◌,
  ◌==◌, string_eq, eqb, ltb, leb, any, select, take, if◌then◌else◌, is_some, gets, require, guard,
  pure, ◌>>=◌, ◌>>◌,
}
use excel_sync.Cloud.Schema.{
  AuthUser, WorkspaceRole, manager, editor, FileStatus, active, trashed, deleted, FileRow, Snapshot,
  RewindScope, folder_scope, workspace_scope, RewindAction, noop, restore_path, restore_status,
  restore_version, trash_new, RewindStep, Cloud, Handler, http,
}
use excel_sync.Cloud.Like.{like}
use excel_sync.Cloud.Access.{
  get_effective_workspace_role, workspace_role_at_least, is_system_admin,
  can_create_resource_at_path,
}
use excel_sync.Cloud.Requests.{Request}

pub record RewindInput : Type 0 where
  pub workspace_id : String
  pub scope : RewindScope
  pub folder : String
  pub target_time : ℕ
  pub idempotency_key : String

abbrev pub is_workspace_scope : RewindScope → Bool
is_workspace_scope workspace_scope = true
is_workspace_scope folder_scope = false

-- The scope's value: the folder, or nothing for the workspace.
unfoldable pub require_rewind_permission : Request → RewindInput → Handler String
require_rewind_permission rq input = do
  role ← gets (λ c. get_effective_workspace_role c rq.user input.workspace_id)
  guard (is_some role) (http 403 "WORKSPACE_FORBIDDEN")
  if is_workspace_scope input.scope
      then guard (workspace_role_at_least role manager) (http 403 "REWIND_FORBIDDEN") >> pure ""
      else do
        guard (workspace_role_at_least role editor) (http 403 "REWIND_FORBIDDEN")
        allowed ← gets (λ c.
            can_create_resource_at_path c rq.user
              (record {
                workspace_id = input.workspace_id;
                storage_connection_id = none;
                file_id = none;
                relative_path = input.folder <> "/.rewind-scope";
              })
              editor)
        guard (is_system_admin rq.user || allowed) (http 403 "REWIND_FORBIDDEN")
        pure input.folder

-- `relative_path = ? OR relative_path LIKE ?`
abbrev pub is_under : String → String → Bool
is_under folder path = path == folder || like (folder <> "/%") path

was_under : Cloud → String → String → FileRow → Bool
was_under c workspace_id folder f =
    any
      (λ h. h.file_id == f.id && h.workspace_id == workspace_id && is_under folder h.relative_path)
      c.snapshots

-- `ORDER BY created_at ASC`: a row goes before the first that is not older.
unfoldable pub insert_file : FileRow → List FileRow → List FileRow
insert_file f [] = f ∷ []
insert_file f (g ∷ gs) = if leb f.created_at g.created_at then f ∷ g ∷ gs else g ∷ insert_file f gs

unfoldable pub sort_files : List FileRow → List FileRow
sort_files [] = []
sort_files (f ∷ fs) = insert_file f (sort_files fs)

unfoldable pub candidate_files : Cloud → String → RewindScope → String → List FileRow
unfolding was_under
candidate_files c workspace_id workspace_scope _ =
    take 5000 (sort_files (select (λ f. f.workspace_id == workspace_id) c.files))
candidate_files c workspace_id folder_scope folder = take 5000 (
    sort_files (
      select
        (λ f.
          f.workspace_id == workspace_id
          && (is_under folder f.relative_path || was_under c workspace_id folder f))
        c.files))

-- `ORDER BY created_at DESC LIMIT 1`
unfoldable pub latest : Option Snapshot → List Snapshot → Option Snapshot
latest best [] = best
latest none (h ∷ hs) = latest (some h) hs
latest (some b) (h ∷ hs) = latest (if ltb b.created_at h.created_at then some h else some b) hs

unfoldable pub state_at : Cloud → ℕ → String → Option Snapshot
state_at c time file_id =
    latest none (select (λ h. h.file_id == file_id && leb h.created_at time) c.snapshots)

abbrev pub same_status : FileStatus → FileStatus → Bool
same_status active active = true
same_status trashed trashed = true
same_status deleted deleted = true
same_status _ _ = false

abbrev pub step : FileRow → RewindAction → RewindStep
step f action = record {
  file_id = f.id;
  action = action;
  target_version = none;
  target_logical_name = none;
  target_relative_path = none;
  target_status = none;
}

abbrev pub version_steps : Snapshot → FileRow → List RewindStep
version_steps t f =
    if ltb 0 t.content_version && not (eqb t.content_version f.current_version)
    then record (step f restore_version) { target_version = some t.content_version } ∷ []
    else []

abbrev pub path_steps : Snapshot → FileRow → List RewindStep
path_steps t f =
    if not (t.relative_path == f.relative_path) || not (t.logical_name == f.logical_name)
    then record (step f restore_path) {
      target_relative_path = some t.relative_path;
      target_logical_name = some t.logical_name;
    }
      ∷ []
    else []

abbrev pub status_steps : Snapshot → FileRow → List RewindStep
status_steps t f =
    if not (same_status t.status f.status)
    then record (step f restore_status) { target_status = some t.status } ∷ []
    else []

abbrev or_noop : FileRow → List RewindStep → List RewindStep
or_noop f [] = step f noop ∷ []
or_noop f (s ∷ ss) = s ∷ ss

unfoldable pub steps_to : Snapshot → FileRow → List RewindStep
steps_to t f = or_noop f (version_steps t f ++ path_steps t f ++ status_steps t f)

-- What becomes of a file, or `none` where its state at the time is not known.
unfoldable pub plan_file : Cloud → ℕ → FileRow → Option (List RewindStep)
plan_file c time f = elim (state_at c time f.id) [
  | some t ↦ some (steps_to t f)
  | none ↦
      if ltb time f.created_at && not (same_status f.status deleted)
      then some (record (step f trash_new) { target_status = some trashed } ∷ [])
      else none
]

abbrev pub add_plan : Option (List RewindStep) → Option (List RewindStep) → Option (List RewindStep)
add_plan none rest = none
add_plan (some steps) none = none
add_plan (some steps) (some rest) = some (steps ++ rest)

-- The steps of all files, or `none` where a file is unsupported.
unfoldable pub plan_files : Cloud → ℕ → List FileRow → Option (List RewindStep)
plan_files c time [] = some []
plan_files c time (f ∷ fs) = add_plan (plan_file c time f) (plan_files c time fs)

unfoldable pub plan_rewind : Cloud → String → RewindScope → String → ℕ → Option (List RewindStep)
plan_rewind c workspace_id scope scope_value time =
    plan_files c time (candidate_files c workspace_id scope scope_value)
