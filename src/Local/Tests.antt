-- ===== src/Local/Tests.antt =====
-- Runs of LocalDb at concrete databases.
use excel_sync.Base.{
  true, false, none, some, [], ◌∷◌, ◌≡◌, refl, ok, string_eq, decimal, arith, ◌>>=◌, when_some,
  transaction,
}
use excel_sync.Local.Schema.{
  FileRow, PendingRow, Db, telegram_bot, pending, uploading, synced, active, upsert,
}
use excel_sync.Local.Queue.{
  UpsertInput, queue_upsert, has_active_pending_for_hash, oldest, catch_insert,
}
use excel_sync.Local.Statements.{insert_pending, log}
use excel_sync.Local.Queue.Again.{queue_upsert_again}
use excel_sync.Local.Calls.{run, queues_upsert, marks_uploading, restarts, marks_missing}
use excel_sync.Local.Sound.{IsSound}
use excel_sync.Local.Sound.Runs.{run-IsSound}
use excel_sync.Local.Presence.{mark_missing}
use excel_sync.Local.Presence.Keeping.{CloudKept, mark_missing-CloudKept}
use excel_sync.Local.Dispatch.{next_ready_pending, is_ready}
use excel_sync.Local.Schema.{uploading}
use excel_sync.Local.Dispatch.Choice.{IsChoice, next_ready_pending-IsChoice}

abbrev a_file : FileRow
a_file = record {
  id = "f1";
  relative_path = "Reports/sales.xlsx";
  logical_name = "sales.xlsx";
  extension = ".xlsx";
  current_version = 3;
  current_hash = some "aa";
  status = synced;
  cloud_status = active;
  favorite = false;
  last_opened_at = none;
  created_at = 1;
  updated_at = 1;
  storage_backend = some telegram_bot;
  storage_locator = none;
}

abbrev an_uploading_job : PendingRow
an_uploading_job = record {
  id = "p1";
  file_id = "f1";
  operation = upsert;
  local_path = "Reports/sales.xlsx";
  hash = some "bb";
  size = some 10;
  base_version = 3;
  idempotency_key = "f1:3:bb";
  status = uploading;
  attempt_count = 1;
  priority = 0;
  next_retry_at = none;
  error_code = none;
  error_message = none;
  storage_backend = telegram_bot;
  storage_locator = none;
  upload_receipt = none;
  restored_from_version = none;
  created_at = 2;
  updated_at = 2;
}

abbrev a_db : Db
a_db = record {
  files = a_file ∷ [];
  states = [];
  pendings = an_uploading_job ∷ [];
  versions = [];
  history = [];
  imports = [];
  checkpoints = [];
  settings = record {
    sync_directory = "C:/Sync";
    worker_url = "";
    auto_sync = true;
    start_with_windows = false;
    retry_base_seconds = 10;
    retention_limit = 20;
    default_storage_backend = telegram_bot;
  };
}

abbrev an_input : UpsertInput
an_input = record {
  path = "Reports/sales.xlsx";
  hash = "cc";
  size = 12;
  priority = 9;
  storage_backend = telegram_bot;
  restored_from_version = none;
}

a_db-IsSound : IsSound a_db
unfolding string_eq
a_db-IsSound = record { owned = (refl, tt); ranged = (omega arith, tt) }

run-IsSound_example : IsSound (
    run
      (queues_upsert 5 "p2" a_file an_input
        ∷ marks_uploading 6 "p2"
        ∷ marks_missing 7 "Reports/sales.xlsx"
        ∷ restarts 8
        ∷ [])
      a_db)
run-IsSound_example = run-IsSound _ a_db a_db-IsSound

abbrev a_queued_job : PendingRow
a_queued_job = record an_uploading_job {
  id = "p2";
  hash = some "cc";
  size = some 12;
  idempotency_key = "f1:3:cc";
  status = pending;
  attempt_count = 0;
  priority = 4;
  created_at = 5;
  updated_at = 5;
}

queue_upsert_first : (queue_upsert 5 "p2" a_file an_input a_db).0 ≡ ok (some a_queued_job)
unfolding queue_upsert string_eq decimal ◌>>=◌ has_active_pending_for_hash when_some oldest
    catch_insert transaction insert_pending log
queue_upsert_first = refl

queue_upsert_again_example :
    let after = (queue_upsert 5 "p2" a_file an_input a_db).1 in
    queue_upsert 9 "p3" a_file (record an_input { priority = 0 }) after ≡ (ok none, after)
queue_upsert_again_example =
    queue_upsert_again 5 9 "p2" "p3" a_file an_input (record an_input { priority = 0 }) a_db
      queue_upsert_first refl

mark_missing-CloudKept_example : CloudKept a_db (mark_missing 9 "reports/SALES.xlsx" a_db)
mark_missing-CloudKept_example = mark_missing-CloudKept 9 "reports/SALES.xlsx" a_db

next_ready_pending-IsChoice_example :
    IsChoice false (is_ready 9 []) (record a_queued_job { priority = 2 } ∷ a_queued_job ∷ []) (
      next_ready_pending 9 [] false
        (record a_db { pendings = record a_queued_job { priority = 2 } ∷ a_queued_job ∷ [] }))
next_ready_pending-IsChoice_example =
    next_ready_pending-IsChoice 9 [] false
      (record a_db { pendings = record a_queued_job { priority = 2 } ∷ a_queued_job ∷ [] })

abbrev an_interrupted_db : Db
an_interrupted_db = record a_db {
  pendings = record a_queued_job { status = uploading } ∷ a_queued_job ∷ [];
}
