-- ===== src/Cloud/Kept/Runs.antt =====
-- No request takes a recorded version away.
use excel_sync.Base.{List, [], ◌∷◌}
use excel_sync.Cloud.Schema.{Cloud}
use excel_sync.Cloud.Requests.{Request}
use excel_sync.Cloud.Calls.{
  Call, perform, run, preflights, uploads, receives, commits, renames, deletes, trashes,
  deletes_permanently, restores, asks_lease, asks_takeover, acquires, heartbeats, releases,
  takes_over, rewinds, retries_rewind,
}
use excel_sync.Cloud.Kept.{Mark, HasVersion}
use excel_sync.Cloud.Kept.Files.{
  handle_preflight-Keeps, handle_upload-Keeps, handle_upload_receipt-Keeps, handle_rename-Keeps,
  handle_delete-Keeps, handle_trash-Keeps, handle_permanent_delete-Keeps,
  handle_restore_from_trash-Keeps,
}
use excel_sync.Cloud.Kept.Leases.{
  handle_file_lease_get-Keeps, handle_file_lease_acquire-Keeps, handle_file_lease_heartbeat-Keeps,
  handle_file_lease_release-Keeps, handle_file_lease_takeover_request-Keeps,
  handle_file_lease_force_takeover-Keeps,
}
use excel_sync.Cloud.Kept.Rewinds.{handle_rewind_execute-Keeps, handle_rewind_retry-Keeps}
use excel_sync.Cloud.Kept.Content.{handle_commit-Keeps}

perform-HasVersion :
    (m : Mark) (rq : Request) (call : Call) (c : Cloud)
    → HasVersion m c
    → HasVersion m (perform rq call c)
unfolding perform
perform-HasVersion m rq (preflights input) c h = (handle_preflight-Keeps m rq input).at c h
perform-HasVersion m rq (uploads provider id part) c h =
    (handle_upload-Keeps m rq provider id part).at c h
perform-HasVersion m rq (receives id receipt) c h =
    (handle_upload_receipt-Keeps m rq id receipt).at c h
perform-HasVersion m rq (commits limit version_id id) c h =
    (handle_commit-Keeps m rq limit version_id id).at c h
perform-HasVersion m rq (renames id name path version) c h =
    (handle_rename-Keeps m rq id name path version).at c h
perform-HasVersion m rq (deletes id version) c h = (handle_delete-Keeps m rq id version).at c h
perform-HasVersion m rq (trashes id version) c h = (handle_trash-Keeps m rq id version).at c h
perform-HasVersion m rq (deletes_permanently id) c h =
    (handle_permanent_delete-Keeps m rq id).at c h
perform-HasVersion m rq (restores id) c h = (handle_restore_from_trash-Keeps m rq id).at c h
perform-HasVersion m rq (asks_lease id) c h = (handle_file_lease_get-Keeps m rq id).at c h
perform-HasVersion m rq (asks_takeover id) c h =
    (handle_file_lease_takeover_request-Keeps m rq id).at c h
perform-HasVersion m rq (acquires id requested fresh) c h =
    (handle_file_lease_acquire-Keeps m rq id requested fresh).at c h
perform-HasVersion m rq (heartbeats id lease_id) c h =
    (handle_file_lease_heartbeat-Keeps m rq id lease_id).at c h
perform-HasVersion m rq (releases id lease_id) c h =
    (handle_file_lease_release-Keeps m rq id lease_id).at c h
perform-HasVersion m rq (takes_over id fresh) c h =
    (handle_file_lease_force_takeover-Keeps m rq id fresh).at c h
perform-HasVersion m rq (rewinds clones input id fresh) c h =
    (handle_rewind_execute-Keeps m rq clones input id fresh).at c h
perform-HasVersion m rq (retries_rewind clones id) c h =
    (handle_rewind_retry-Keeps m rq clones id).at c h

-- Where a version of a file is recorded with a hash and the file has reached that version, both stay
-- so, whatever requests on files, leases and rewinds (those of Cloud.Calls) follow, by any users and
-- in any order, answered or refused.
pub run-HasVersion :
    (m : Mark) (calls : List (Request × Call)) (c : Cloud)
    → HasVersion m c
    → HasVersion m (run calls c)
unfolding run
run-HasVersion m [] c h = h
run-HasVersion m ((rq, call) ∷ calls) c h =
    run-HasVersion m calls (perform rq call c) (perform-HasVersion m rq call c h)
