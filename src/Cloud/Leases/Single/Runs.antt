-- ===== src/Cloud/Leases/Single/Runs.antt =====
-- Cloud.Calls: runs of requests, and the leases.
use excel_sync.Base.{ℕ, String, Option, List, [], ◌∷◌}
use excel_sync.Base.Outcome.Keeps.{Keeps, Keeps-pure, Keeps-throw, Keeps-bind, Keeps-attempt}
use excel_sync.Cloud.Schema.{
  Cloud, FileRow, IntentRow, VersionRow, WorkspaceRole, IntentStatus, reserved, uploaded, committed,
  abandoned,
}
use excel_sync.Cloud.Requests.{
  Request, get_owned_file, assert_file_lease_compatible, record_event, record_file_state_snapshot,
}
use excel_sync.Cloud.Trash.{
  update_one, record_change, handle_rename, handle_delete, handle_trash, handle_permanent_delete,
  handle_restore_from_trash,
}
use excel_sync.Cloud.Upload.{
  Provider, Part, UploadReceipt, find_intent, save_upload, store_part, handle_upload,
  handle_upload_receipt,
}
use excel_sync.Cloud.Commit.{
  handle_commit, commit_uploaded_intent, commit_uploaded, replay_commit, advance, announce, abandon,
  commit_batch, insert_version, update_file, finish_batch,
}
use excel_sync.Cloud.Preflight.{
  PreflightInput, handle_preflight, answer_intent, answer_status, create_file, judge,
  report_conflict, reserve, find_target, check_target, require_editor, check_storage, check_replay,
  check_path,
}
use excel_sync.Cloud.Leases.{
  lease_payload, require_access, handle_file_lease_get, handle_file_lease_acquire,
  handle_file_lease_heartbeat, handle_file_lease_release, handle_file_lease_takeover_request,
  handle_file_lease_force_takeover, acquire, announce_lease, force_takeover, release, tell_previous,
}
use excel_sync.Cloud.Calls.{
  Call, perform, run, preflights, uploads, receives, commits, renames, deletes, trashes,
  deletes_permanently, restores, asks_lease, asks_takeover, acquires, heartbeats, releases,
  takes_over, rewinds, retries_rewind,
}
use excel_sync.Base.{Result, ok, err}
use excel_sync.Cloud.Schema.{RewindItem, RewindOperation}
use excel_sync.Cloud.Rewind.{RewindInput, require_rewind_permission}
use excel_sync.Cloud.Rewind.Items.{
  assert_rewind_file_idle, complete_simple_item, complete_version_item, conclude,
  insert_version_row, version_batch, stored_clone, Clones,
}
use excel_sync.Cloud.Rewind.Execute.{
  do_item, fail_item, execute_item, execute_items, finish_rewind, announce_rewind, execute_open,
  execute_rewind_operation, start_rewind, handle_rewind_execute, handle_rewind_retry,
}
use excel_sync.Cloud.Leases.Single.{Single, single_rules}

clone-Single : (r : Result String (String × ℕ)) → Keeps Single (stored_clone r)
unfolding stored_clone
clone-Single (ok stored) = Keeps-pure _
clone-Single (err message) = Keeps-throw _

module _ (rq : Request) where
  get_owned_file-Single :
      (id : String) (role : WorkspaceRole) → Keeps Single (get_owned_file rq id role)
  unfolding get_owned_file
  get_owned_file-Single id role = search single_rules depth 40

  assert_file_lease_compatible-Single :
      (id : String) → Keeps Single (assert_file_lease_compatible rq id)
  unfolding assert_file_lease_compatible
  assert_file_lease_compatible-Single id = search single_rules depth 40

  record_file_state_snapshot-Single :
      (id event : String) → Keeps Single (record_file_state_snapshot rq id event)
  unfolding record_file_state_snapshot
  record_file_state_snapshot-Single id event = search single_rules depth 40

  record_change-Single :
      (file : FileRow) (event detail key event_type state : String)
      → Keeps Single (record_change rq file event detail key event_type state)
  unfolding record_change record_event
  record_change-Single file event detail key event_type state =
      search (single_rules, record_file_state_snapshot-Single) depth 40

  ruleset request_rules = (
    single_rules, get_owned_file-Single, assert_file_lease_compatible-Single,
    record_file_state_snapshot-Single, record_change-Single,
  )

  rename-Single :
      (id name path : String) (version : ℕ) → Keeps Single (handle_rename rq id name path version)
  unfolding handle_rename update_one
  rename-Single id name path version = search request_rules depth 40

  delete-Single : (id : String) (version : ℕ) → Keeps Single (handle_delete rq id version)
  unfolding handle_delete record_event
  delete-Single id version = search request_rules depth 40

  trash-Single : (id : String) (version : ℕ) → Keeps Single (handle_trash rq id version)
  unfolding handle_trash update_one
  trash-Single id version = search request_rules depth 40

  permanent_delete-Single : (id : String) → Keeps Single (handle_permanent_delete rq id)
  unfolding handle_permanent_delete update_one
  permanent_delete-Single id = search request_rules depth 40

  restore-Single : (id : String) → Keeps Single (handle_restore_from_trash rq id)
  unfolding handle_restore_from_trash update_one
  restore-Single id = search request_rules depth 40

  upload-Single :
      (provider : Option Provider) (id : String) (part : Part)
      → Keeps Single (handle_upload rq provider id part)
  unfolding handle_upload find_intent store_part save_upload
  upload-Single provider id part = search request_rules depth 40

  receipt-Single :
      (id : String) (receipt : UploadReceipt) → Keeps Single (handle_upload_receipt rq id receipt)
  unfolding handle_upload_receipt find_intent save_upload
  receipt-Single id receipt = search request_rules depth 40

  get-Single : (id : String) → Keeps Single (handle_file_lease_get rq id)
  unfolding handle_file_lease_get lease_payload
  get-Single id = search request_rules depth 40

  acquire-Single :
      (id : String) (requested : Option String) (fresh : String)
      → Keeps Single (handle_file_lease_acquire rq id requested fresh)
  unfolding handle_file_lease_acquire require_access acquire announce_lease lease_payload
  acquire-Single id requested fresh = search request_rules depth 40

  heartbeat-Single :
      (id lease_id : String) → Keeps Single (handle_file_lease_heartbeat rq id lease_id)
  unfolding handle_file_lease_heartbeat require_access lease_payload
  heartbeat-Single id lease_id = search request_rules depth 40

  release-Single : (id lease_id : String) → Keeps Single (handle_file_lease_release rq id lease_id)
  unfolding handle_file_lease_release release
  release-Single id lease_id = search request_rules depth 40

  takeover_request-Single : (id : String) → Keeps Single (handle_file_lease_takeover_request rq id)
  unfolding handle_file_lease_takeover_request require_access
  takeover_request-Single id = search request_rules depth 40

  force_takeover-Single :
      (id fresh : String) → Keeps Single (handle_file_lease_force_takeover rq id fresh)
  unfolding handle_file_lease_force_takeover force_takeover require_access lease_payload
      tell_previous
  force_takeover-Single id fresh = search request_rules depth 40

  commit_batch-Single :
      (retention : ℕ) (intent : IntentRow) (current : FileRow) (v : VersionRow)
      → Keeps Single (commit_batch rq retention intent current v)
  unfolding commit_batch insert_version update_file finish_batch
  commit_batch-Single retention intent current v = search request_rules depth 40

  commit-Single :
      (limit : Option ℕ) (version_id id : String)
      → Keeps Single (handle_commit rq limit version_id id)
  unfolding handle_commit commit_uploaded_intent commit_uploaded replay_commit advance announce
      abandon
  commit-Single limit version_id id = search (request_rules, commit_batch-Single) depth 40

  answer_status-Single :
      (file : FileRow) (i : IntentRow) (status : IntentStatus)
      → Keeps Single (answer_status rq file i status)
  unfolding answer_status
  answer_status-Single file i committed = search request_rules depth 6
  answer_status-Single file i uploaded = Keeps-pure _
  answer_status-Single file i abandoned = Keeps-throw _
  answer_status-Single file i reserved = Keeps-pure _

  judge-Single :
      (input : PreflightInput) (file : FileRow) (workspace_id : String)
      (connection_id : Option String)
      → Keeps Single (judge rq input file workspace_id connection_id)
  unfolding judge report_conflict reserve answer_intent
  judge-Single input file workspace_id connection_id =
      search (request_rules, answer_status-Single) depth 40

  find_target-Single : (input : PreflightInput) → Keeps Single (find_target rq input)
  unfolding find_target check_target require_editor
  find_target-Single input = search request_rules depth 40

  preflight-Single : (input : PreflightInput) → Keeps Single (handle_preflight rq input)
  unfolding handle_preflight require_editor check_path check_replay check_storage create_file
  preflight-Single input = search (request_rules, find_target-Single, judge-Single) depth 40

  rewind_item-Single :
      (clones : Clones) (workspace_id : String) (item : RewindItem)
      → Keeps Single (execute_item rq clones workspace_id item)
  unfolding execute_item do_item fail_item assert_rewind_file_idle complete_simple_item
      complete_version_item conclude version_batch insert_version_row
  rewind_item-Single clones workspace_id item =
      search (request_rules, Keeps-attempt, clone-Single) depth 60

  rewind_items-Single :
      (clones : Clones) (workspace_id : String) (items : List RewindItem)
      → Keeps Single (execute_items rq clones workspace_id items)
  unfolding execute_items
  rewind_items-Single clones workspace_id [] = Keeps-pure _
  rewind_items-Single clones workspace_id (i ∷ is) =
      Keeps-bind _ _ (rewind_item-Single clones workspace_id i)
        λ _. Keeps-bind _ _ (rewind_items-Single clones workspace_id is) λ _. Keeps-pure _

  rewind_end-Single :
      (operation : RewindOperation) (counts : ℕ × ℕ)
      → Keeps Single (finish_rewind rq operation counts)
  unfolding finish_rewind announce_rewind
  rewind_end-Single operation (done_items, failures) = search request_rules depth 20

  operation-Single :
      (clones : Clones) (id : String) → Keeps Single (execute_rewind_operation rq clones id)
  unfolding execute_rewind_operation execute_open
  operation-Single clones id =
      search (request_rules, rewind_items-Single, rewind_end-Single) depth 20

  rewind-Single :
      (clones : Clones) (input : RewindInput) (id : String) (fresh : ℕ → String)
      → Keeps Single (handle_rewind_execute rq clones input id fresh)
  unfolding handle_rewind_execute start_rewind require_rewind_permission
  rewind-Single clones input id fresh = search (request_rules, operation-Single) depth 30

  retry-Single : (clones : Clones) (id : String) → Keeps Single (handle_rewind_retry rq clones id)
  unfolding handle_rewind_retry
  retry-Single clones id = search (request_rules, operation-Single) depth 20

  perform-Single : (call : Call) (c : Cloud) → Single c → Single (perform rq call c)
  unfolding perform
  perform-Single (preflights input) c h = (preflight-Single input).at c h
  perform-Single (uploads provider id part) c h = (upload-Single provider id part).at c h
  perform-Single (receives id receipt) c h = (receipt-Single id receipt).at c h
  perform-Single (commits limit version_id id) c h = (commit-Single limit version_id id).at c h
  perform-Single (renames id name path version) c h = (rename-Single id name path version).at c h
  perform-Single (deletes id version) c h = (delete-Single id version).at c h
  perform-Single (trashes id version) c h = (trash-Single id version).at c h
  perform-Single (deletes_permanently id) c h = (permanent_delete-Single id).at c h
  perform-Single (restores id) c h = (restore-Single id).at c h
  perform-Single (asks_lease id) c h = (get-Single id).at c h
  perform-Single (asks_takeover id) c h = (takeover_request-Single id).at c h
  perform-Single (acquires id requested fresh) c h = (acquire-Single id requested fresh).at c h
  perform-Single (heartbeats id lease_id) c h = (heartbeat-Single id lease_id).at c h
  perform-Single (releases id lease_id) c h = (release-Single id lease_id).at c h
  perform-Single (takes_over id fresh) c h = (force_takeover-Single id fresh).at c h
  perform-Single (rewinds clones input id fresh) c h = (rewind-Single clones input id fresh).at c h
  perform-Single (retries_rewind clones id) c h = (retry-Single clones id).at c h

-- Where each file has one lease at most, each has one lease at most after any requests on files,
-- leases and rewinds (those of Cloud.Calls), by any users and in any order, answered or refused.
pub run-Single : (calls : List (Request × Call)) (c : Cloud) → Single c → Single (run calls c)
unfolding run
run-Single [] c h = h
run-Single ((rq, call) ∷ calls) c h =
    run-Single calls (perform rq call c) (perform-Single rq call c h)
