-- ===== src/Cloud/Kept/Refusals.antt =====
-- worker/src/index.ts: what a user who may not reach a file can do to it.
use excel_sync.Base.{ℕ, String, ◌≡◌, err}
use excel_sync.Cloud.Schema.{Cloud, Handler, WorkspaceRole, editor, manager, http}
use excel_sync.Cloud.Requests.{Request}
use excel_sync.Cloud.Trash.{
  Reply, handle_rename, handle_delete, handle_trash, handle_permanent_delete,
  handle_restore_from_trash,
}

-- The answer 404, and a cloud that stays as it was.
abbrev pub IsRefused : Handler Reply → Cloud → Type 0
IsRefused m c = m c ≡ (err (http 404 "FILE_NOT_FOUND"), c)

-- A request on a file that exists.
pub data FileRequest : Type 0 where
  renames : String → String → ℕ → FileRequest
  deletes_locally trashes : ℕ → FileRequest
  restores_from_trash deletes_permanently : FileRequest

unfoldable pub serve : Request → String → FileRequest → Handler Reply
serve rq id (renames name path version) = handle_rename rq id name path version
serve rq id (deletes_locally version) = handle_delete rq id version
serve rq id (trashes version) = handle_trash rq id version
serve rq id restores_from_trash = handle_restore_from_trash rq id
serve rq id deletes_permanently = handle_permanent_delete rq id

-- Only a manager may delete a file for good; an editor may do the rest.
abbrev pub role_for : FileRequest → WorkspaceRole
role_for deletes_permanently = manager
role_for _ = editor
