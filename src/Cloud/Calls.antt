-- ===== src/Cloud/Calls.antt =====
-- The requests on files, their leases and their rewinds that the Worker answers, and runs of them.
use excel_sync.Base.{ℕ, String, Option, List, [], ◌∷◌}
use excel_sync.Cloud.Schema.{Cloud}
use excel_sync.Cloud.Requests.{Request}
use excel_sync.Cloud.Preflight.{PreflightInput, handle_preflight}
use excel_sync.Cloud.Upload.{Provider, Part, UploadReceipt, handle_upload, handle_upload_receipt}
use excel_sync.Cloud.Commit.{handle_commit}
use excel_sync.Cloud.Trash.{
  handle_rename, handle_delete, handle_trash, handle_permanent_delete, handle_restore_from_trash,
}
use excel_sync.Cloud.Leases.{
  handle_file_lease_get, handle_file_lease_acquire, handle_file_lease_heartbeat,
  handle_file_lease_release, handle_file_lease_takeover_request, handle_file_lease_force_takeover,
}
use excel_sync.Cloud.Rewind.{RewindInput}
use excel_sync.Cloud.Rewind.Items.{Clones}
use excel_sync.Cloud.Rewind.Execute.{handle_rewind_execute, handle_rewind_retry}

pub data Call : Type 0 where
  preflights : PreflightInput → Call
  uploads : Option Provider → String → Part → Call
  receives : String → UploadReceipt → Call
  -- The environment's retention limit, the new row's id, and the intent.
  commits : Option ℕ → String → String → Call
  renames : String → String → String → ℕ → Call
  deletes trashes : String → ℕ → Call
  deletes_permanently restores : String → Call
  asks_lease asks_takeover : String → Call
  -- The lease id of the body, and the new one.
  acquires : String → Option String → String → Call
  heartbeats releases : String → String → Call
  takes_over : String → String → Call
  -- What storage answers, the new operation's id and those of its items.
  rewinds : Clones → RewindInput → String → (ℕ → String) → Call
  retries_rewind : Clones → String → Call

-- The tables after a request, whether it was answered or refused.
unfoldable pub perform : Request → Call → Cloud → Cloud
perform rq (preflights input) c = (handle_preflight rq input c).1
perform rq (uploads provider id part) c = (handle_upload rq provider id part c).1
perform rq (receives id receipt) c = (handle_upload_receipt rq id receipt c).1
perform rq (commits limit version_id id) c = (handle_commit rq limit version_id id c).1
perform rq (renames id name path version) c = (handle_rename rq id name path version c).1
perform rq (deletes id version) c = (handle_delete rq id version c).1
perform rq (trashes id version) c = (handle_trash rq id version c).1
perform rq (deletes_permanently id) c = (handle_permanent_delete rq id c).1
perform rq (restores id) c = (handle_restore_from_trash rq id c).1
perform rq (asks_lease id) c = (handle_file_lease_get rq id c).1
perform rq (asks_takeover id) c = (handle_file_lease_takeover_request rq id c).1
perform rq (acquires id requested fresh) c = (handle_file_lease_acquire rq id requested fresh c).1
perform rq (heartbeats id lease_id) c = (handle_file_lease_heartbeat rq id lease_id c).1
perform rq (releases id lease_id) c = (handle_file_lease_release rq id lease_id c).1
perform rq (takes_over id fresh) c = (handle_file_lease_force_takeover rq id fresh c).1
perform rq (rewinds clones input id fresh) c = (handle_rewind_execute rq clones input id fresh c).1
perform rq (retries_rewind clones id) c = (handle_rewind_retry rq clones id c).1

unfoldable pub run : List (Request × Call) → Cloud → Cloud
run [] c = c
run ((rq, call) ∷ calls) c = run calls (perform rq call c)
