-- ===== src/Cloud/Kept/Files.antt =====
-- The requests on files that store no content take no recorded version away.
use excel_sync.Base.{ℕ, String, Option, [], ◌∷◌, ◌++◌, string_eq, any-append_keeps}
use excel_sync.Base.Outcome.Keeps.{Keeps, Keeps-modify, Keeps-pure, Keeps-throw}
use excel_sync.Cloud.Schema.{
  reserved, committed, uploaded, abandoned, IntentStatus, FileRow, IntentRow, Cloud,
}
use excel_sync.Cloud.Requests.{Request}
use excel_sync.Cloud.Trash.{
  handle_rename, handle_delete, handle_trash, handle_permanent_delete, handle_restore_from_trash,
}
use excel_sync.Cloud.Upload.{
  Provider, Part, UploadReceipt, find_intent, save_upload, store_part, handle_upload,
  handle_upload_receipt,
}
use excel_sync.Cloud.Preflight.{
  PreflightInput, handle_preflight, answer_intent, answer_status, create_file, judge,
  report_conflict, reserve, find_target, check_target, require_editor, check_storage, check_replay,
  check_path,
}
use excel_sync.Cloud.Kept.{Mark, reaches, HasVersion, request_rules}

pub handle_rename-Keeps :
    (m : Mark) (rq : Request) (id name path : String) (version : ℕ)
    → Keeps (HasVersion m) (handle_rename rq id name path version)
unfolding handle_rename
handle_rename-Keeps m rq id name path version = search request_rules depth 14

pub handle_delete-Keeps :
    (m : Mark) (rq : Request) (id : String) (version : ℕ)
    → Keeps (HasVersion m) (handle_delete rq id version)
unfolding handle_delete
handle_delete-Keeps m rq id version = search request_rules depth 14

pub handle_trash-Keeps :
    (m : Mark) (rq : Request) (id : String) (version : ℕ)
    → Keeps (HasVersion m) (handle_trash rq id version)
unfolding handle_trash
handle_trash-Keeps m rq id version = search request_rules depth 14

pub handle_permanent_delete-Keeps :
    (m : Mark) (rq : Request) (id : String) → Keeps (HasVersion m) (handle_permanent_delete rq id)
unfolding handle_permanent_delete
handle_permanent_delete-Keeps m rq id = search request_rules depth 14

pub handle_restore_from_trash-Keeps :
    (m : Mark) (rq : Request) (id : String) → Keeps (HasVersion m) (handle_restore_from_trash rq id)
unfolding handle_restore_from_trash
handle_restore_from_trash-Keeps m rq id = search request_rules depth 14

pub handle_upload_receipt-Keeps :
    (m : Mark) (rq : Request) (id : String) (receipt : UploadReceipt)
    → Keeps (HasVersion m) (handle_upload_receipt rq id receipt)
unfolding handle_upload_receipt find_intent save_upload
handle_upload_receipt-Keeps m rq id receipt = search request_rules depth 14

pub handle_upload-Keeps :
    (m : Mark) (rq : Request) (provider : Option Provider) (id : String) (part : Part)
    → Keeps (HasVersion m) (handle_upload rq provider id part)
unfolding handle_upload find_intent store_part save_upload
handle_upload-Keeps m rq provider id part = search request_rules depth 24

append_file-HasVersion :
    (m : Mark) (f : FileRow) (c : Cloud)
    → HasVersion m c
    → HasVersion m (record c { files = c.files ++ f ∷ [] })
append_file-HasVersion m f c h = record {
  reached = any-append_keeps (reaches m) c.files (f ∷ []) h.reached;
  recorded = h.recorded;
}

answer_status-Keeps :
    (m : Mark) (rq : Request) (file : FileRow) (i : IntentRow) (status : IntentStatus)
    → Keeps (HasVersion m) (answer_status rq file i status)
unfolding answer_status
answer_status-Keeps m rq file i committed = search request_rules depth 6
answer_status-Keeps m rq file i uploaded = Keeps-pure _
answer_status-Keeps m rq file i abandoned = Keeps-throw _
answer_status-Keeps m rq file i reserved = Keeps-pure _

create_file-Keeps :
    (m : Mark) (rq : Request) (input : PreflightInput) (workspace_id : String)
    (connection_id : Option String)
    → Keeps (HasVersion m) (create_file rq input workspace_id connection_id)
unfolding create_file
create_file-Keeps m rq input workspace_id connection_id =
    search (request_rules, Keeps-modify, append_file-HasVersion) depth 14

judge-Keeps :
    (m : Mark) (rq : Request) (input : PreflightInput) (file : FileRow) (workspace_id : String)
    (connection_id : Option String)
    → Keeps (HasVersion m) (judge rq input file workspace_id connection_id)
unfolding judge report_conflict reserve answer_intent
judge-Keeps m rq input file workspace_id connection_id =
    search (request_rules, answer_status-Keeps) depth 14

find_target-Keeps :
    (m : Mark) (rq : Request) (input : PreflightInput) → Keeps (HasVersion m) (find_target rq input)
unfolding find_target check_target require_editor
find_target-Keeps m rq input = search request_rules depth 24

check_storage-Keeps :
    (m : Mark) (rq : Request) (input : PreflightInput) (workspace_id : String)
    → Keeps (HasVersion m) (check_storage rq input workspace_id)
unfolding check_storage
check_storage-Keeps m rq input workspace_id = search request_rules depth 14

check_replay-Keeps :
    (m : Mark) (rq : Request) (input : PreflightInput) (workspace_id : String) (i : IntentRow)
    → Keeps (HasVersion m) (check_replay rq input workspace_id i)
unfolding check_replay
check_replay-Keeps m rq input workspace_id i = search request_rules depth 14

pub handle_preflight-Keeps :
    (m : Mark) (rq : Request) (input : PreflightInput)
    → Keeps (HasVersion m) (handle_preflight rq input)
unfolding handle_preflight require_editor check_path
handle_preflight-Keeps m rq input =
    search
      (
        request_rules, find_target-Keeps, check_replay-Keeps, check_storage-Keeps,
        create_file-Keeps, judge-Keeps,
      )
      depth 24
