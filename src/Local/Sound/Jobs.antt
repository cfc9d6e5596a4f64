-- ===== src/Local/Sound/Jobs.antt =====
-- The methods on jobs keep the invariant of the queue.
use excel_sync.Base.{
  ℕ, min, max, String, ◌≡◌, refl, Bool, true, false, Option, none, some, List, [], ◌∷◌,
  if◌then◌else◌, ◌≤◌, arith, modify, string_eq,
}
use excel_sync.Base.Outcome.Keeps.{Keeps, Keeps-modify, Keeps-pure, Keeps-bind}
use excel_sync.Local.Schema.{Operation, upsert, Backend, FileRow, PendingRow, Receipt, Db, DbError}
use excel_sync.Local.Statements.{Local, update_pendings}
use excel_sync.Local.Queue.{UpsertInput, queue_waiting_upsert, queue_upsert, catch_insert}
use excel_sync.Local.Jobs.{
  prepare_pending_upload, mark_pending_no_change, cancel_pending, requeue_pending,
  cancel_pending_by_id, queue_rename, set_upload_receipt, clear_upload_receipt,
}
use excel_sync.Local.Marks.{
  mark_uploading, mark_retry, mark_error, mark_conflict, mark_synced, mark_rename_synced,
}
use excel_sync.Local.Dispatch.{
  boost_ready_pending, set_pending_priority_for_file, set_pending_storage_backend_for_file,
  rebase_row, rebase_rows, rebase_queued_for_file, set_files_pending, requeue_blocked_errors,
  requeue_auth_blocked, requeue_permission_blocked, recover_interrupted_jobs,
}
use excel_sync.Local.Sound.{
  IsSound, update_pendings-IsSound, update_file-IsSound, insert_pending-Keeps,
}
use excel_sync.Local.Sound.Files.{statement_rules}

pub modify_pendings-Keeps :
    (p : PendingRow → Bool) (f : PendingRow → PendingRow)
    → ((q : PendingRow) → q.priority ≤ 4 → (f q).priority ≤ 4)
    → ((q : PendingRow) → (f q).file_id ≡ q.file_id)
    → Keeps {E = DbError} IsSound (modify (update_pendings p f))
modify_pendings-Keeps p f low keep =
    Keeps-modify (update_pendings p f) (update_pendings-IsSound p f low keep)

pub clamp_priority_low : (p : ℕ) → min 4 (max 0 p) ≤ 4
clamp_priority_low p = omega arith

pub min_low : (p k : ℕ) → p ≤ 4 → min p k ≤ 4
min_low p k h = omega arith

pub four_low : 2 ≤ 4
four_low = omega arith

pub zero_low : 0 ≤ 4
zero_low = omega arith

guarded_low :
    (b : Bool) (q r : PendingRow)
    → q.priority ≤ 4
    → r.priority ≤ 4
    → (if b then q else r).priority ≤ 4
guarded_low true q r hq hr = hq
guarded_low false q r hq hr = hr

guarded_file :
    (b : Bool) (q r : PendingRow) (id : String)
    → q.file_id ≡ id
    → r.file_id ≡ id
    → (if b then q else r).file_id ≡ id
guarded_file true q r id hq hr = hq
guarded_file false q r id hq hr = hr

keep_catch :
    (file : FileRow) (hash : String) (db : Db) (m : Local (Unit {0}))
    → IsSound (m db).1
    → IsSound (catch_insert file hash m db).1
unfolding catch_insert
keep_catch file hash db m h = h

pub catch_insert-Keeps :
    (file : FileRow) (hash : String) (m : Local (Unit {0}))
    → Keeps IsSound m
    → Keeps IsSound (catch_insert file hash m)
catch_insert-Keeps file hash m k = record { at = λ db h. keep_catch file hash db m (k.at db h) }

pub ruleset job_rules = (
  statement_rules, modify_pendings-Keeps, insert_pending-Keeps, catch_insert-Keeps,
  clamp_priority_low, min_low, four_low, zero_low,
)

pub set_upload_receipt-Keeps :
    (now : ℕ) (id : String) (receipt : Receipt) → Keeps IsSound (set_upload_receipt now id receipt)
unfolding set_upload_receipt
set_upload_receipt-Keeps now id receipt = search job_rules depth 12

pub clear_upload_receipt-Keeps :
    (now : ℕ) (id : String) → Keeps IsSound (clear_upload_receipt now id)
unfolding clear_upload_receipt
clear_upload_receipt-Keeps now id = search job_rules depth 12

pub prepare_pending_upload-Keeps :
    (now : ℕ) (id hash : String) (size : ℕ)
    → Keeps IsSound (prepare_pending_upload now id hash size)
unfolding prepare_pending_upload
prepare_pending_upload-Keeps now id hash size = search job_rules depth 12

pub mark_pending_no_change-Keeps :
    (now : ℕ) (id : String) → Keeps IsSound (mark_pending_no_change now id)
unfolding mark_pending_no_change
mark_pending_no_change-Keeps now id = search job_rules depth 12

pub cancel_pending_by_id-Keeps :
    (now : ℕ) (id : String) → Keeps IsSound (cancel_pending_by_id now id)
unfolding cancel_pending_by_id
cancel_pending_by_id-Keeps now id = search job_rules depth 12

pub queue_rename-Keeps :
    (now : ℕ) (fresh : String) (file : FileRow) (path : String) (priority : ℕ)
    → Keeps IsSound (queue_rename now fresh file path priority)
unfolding queue_rename
queue_rename-Keeps now fresh file path priority = search job_rules depth 12

pub queue_upsert-Keeps :
    (now : ℕ) (fresh : String) (file : FileRow) (input : UpsertInput)
    → Keeps IsSound (queue_upsert now fresh file input)
unfolding queue_upsert
queue_upsert-Keeps now fresh file input = search job_rules depth 14

pub queue_waiting_upsert-Keeps :
    (now : ℕ) (fresh : String) (file : FileRow) (path code message : String) (retry_at : ℕ)
    → Keeps IsSound (queue_waiting_upsert now fresh file path code message retry_at)
unfolding queue_waiting_upsert
queue_waiting_upsert-Keeps now fresh file path code message retry_at = search job_rules depth 14

pub mark_uploading-Keeps : (now : ℕ) (id : String) → Keeps IsSound (mark_uploading now id)
unfolding mark_uploading
mark_uploading-Keeps now id = search job_rules depth 12

pub mark_retry-Keeps :
    (now : ℕ) (id code message : String) (retry_at : ℕ)
    → Keeps IsSound (mark_retry now id code message retry_at)
unfolding mark_retry
mark_retry-Keeps now id code message retry_at = search job_rules depth 12

pub mark_error-Keeps :
    (now : ℕ) (id code message : String) → Keeps IsSound (mark_error now id code message)
unfolding mark_error
mark_error-Keeps now id code message = search job_rules depth 12

pub mark_conflict-Keeps :
    (now : ℕ) (id detail : String) → Keeps IsSound (mark_conflict now id detail)
unfolding mark_conflict
mark_conflict-Keeps now id detail = search job_rules depth 12

pub mark_synced-Keeps :
    (now : ℕ) (id : String) (version : ℕ) (hash : String) (size : ℕ) (source : Option ℕ)
    → Keeps IsSound (mark_synced now id version hash size source)
unfolding mark_synced
mark_synced-Keeps now id version hash size source = search job_rules depth 12

pub mark_rename_synced-Keeps : (now : ℕ) (id : String) → Keeps IsSound (mark_rename_synced now id)
unfolding mark_rename_synced
mark_rename_synced-Keeps now id = search job_rules depth 12

pub boost_ready_pending-Keeps :
    (now : ℕ) (priority : ℕ) → Keeps IsSound (boost_ready_pending now priority)
unfolding boost_ready_pending
boost_ready_pending-Keeps now priority = search job_rules depth 12

pub set_pending_priority_for_file-Keeps :
    (now : ℕ) (id : String) (priority : ℕ)
    → Keeps IsSound (set_pending_priority_for_file now id priority)
unfolding set_pending_priority_for_file
set_pending_priority_for_file-Keeps now id priority = search job_rules depth 12

pub set_pending_storage_backend_for_file-Keeps :
    (now : ℕ) (id : String) (backend : Backend)
    → Keeps IsSound (set_pending_storage_backend_for_file now id backend)
unfolding set_pending_storage_backend_for_file
set_pending_storage_backend_for_file-Keeps now id backend = search job_rules depth 12

pub requeue_pending-Keeps : (now : ℕ) (id : String) → Keeps IsSound (requeue_pending now id)
unfolding requeue_pending
requeue_pending-Keeps now id = search (job_rules, guarded_low, guarded_file) depth 14

pub cancel_pending-Keeps :
    (id : String) (operation : Option Operation) → Keeps IsSound (cancel_pending id operation)
unfolding cancel_pending
cancel_pending-Keeps id none = search job_rules
cancel_pending-Keeps id (some upsert) = search job_rules
cancel_pending-Keeps id (some _) = search job_rules

rebase_row-Keeps :
    (now : ℕ) (id : String) (base : ℕ) (p : PendingRow) → Keeps IsSound (rebase_row now id base p)
unfolding rebase_row
rebase_row-Keeps now id base p = search job_rules depth 12

pub rebase_rows-Keeps :
    (now : ℕ) (id : String) (base : ℕ) (ps : List PendingRow)
    → Keeps IsSound (rebase_rows now id base ps)
unfolding rebase_rows
rebase_rows-Keeps now id base [] = Keeps-pure tt
rebase_rows-Keeps now id base (p ∷ ps) =
    Keeps-bind (rebase_row now id base p) (λ _. rebase_rows now id base ps)
      (rebase_row-Keeps now id base p) (λ _. rebase_rows-Keeps now id base ps)

pub rebase_queued_for_file-Keeps :
    (now : ℕ) (id : String) (base : ℕ) → Keeps IsSound (rebase_queued_for_file now id base)
unfolding rebase_queued_for_file
rebase_queued_for_file-Keeps now id base = search (job_rules, rebase_rows-Keeps) depth 12

set_files_pending-IsSound :
    (now : ℕ) (ps : List PendingRow) (db : Db) → IsSound db → IsSound (set_files_pending now ps db)
unfolding set_files_pending
set_files_pending-IsSound now [] db h = h
set_files_pending-IsSound now (p ∷ ps) db h =
    set_files_pending-IsSound now ps _ (update_file-IsSound p.file_id _ (λ x. refl) db h)

set_files_pending-Keeps :
    (now : ℕ) (ps : List PendingRow)
    → Keeps {E = DbError} IsSound (modify (set_files_pending now ps))
set_files_pending-Keeps now ps =
    Keeps-modify (set_files_pending now ps) (set_files_pending-IsSound now ps)

requeue_blocked_errors-Keeps :
    (now : ℕ) (codes : List String) (event : String)
    → Keeps IsSound (requeue_blocked_errors now codes event)
unfolding requeue_blocked_errors
requeue_blocked_errors-Keeps now codes event = search (job_rules, set_files_pending-Keeps) depth 14

pub requeue_auth_blocked-Keeps : (now : ℕ) → Keeps IsSound (requeue_auth_blocked now)
unfolding requeue_auth_blocked
requeue_auth_blocked-Keeps now = requeue_blocked_errors-Keeps now _ _

pub requeue_permission_blocked-Keeps : (now : ℕ) → Keeps IsSound (requeue_permission_blocked now)
unfolding requeue_permission_blocked
requeue_permission_blocked-Keeps now = requeue_blocked_errors-Keeps now _ _

pub recover_interrupted_jobs-IsSound :
    (now : ℕ) (db : Db) → IsSound db → IsSound (recover_interrupted_jobs now db)
unfolding recover_interrupted_jobs
recover_interrupted_jobs-IsSound now db h = search update_pendings-IsSound
