-- ===== src/Engine/Tests.antt =====
-- Runs of the engine.
use excel_sync.Base.{
  refl, true, false, [], ◌∷◌, ◌≤◌, ◌<◌, ◌+◌, ◌*◌, ◌≡◌, ◌&&◌, All, none, some, arith, ok, err, map,
  ◌>>=◌, when_some, attempt, string_eq, to_lower, decimal, clip, transaction,
}
use excel_sync.Engine.{
  Engine, dispatches, finishes, calls, run, delay_seconds, schedule_retry, process_one,
}
use excel_sync.Engine.Task.{Fault, api, system, plain, Await}
use excel_sync.Engine.Ready.{Found}
use excel_sync.Engine.Conflict.{World}
use excel_sync.Engine.Process.{process_upsert}
use excel_sync.Engine.Jobs.{process, run_pending}
use excel_sync.Engine.Settled.{Settled}
use excel_sync.Base.{none}
use excel_sync.Engine.Settled.Failed.{Failed, run_pending-Failed}
use excel_sync.Local.Schema.{retry_wait}
use excel_sync.Engine.Settled.Errors.{Calm, run_pending-Settled}
use excel_sync.Engine.Ready.{
  handle_file_ready, record_content, record_new, queue_change, queue_content,
}
use excel_sync.Engine.Task.{await, local}
use excel_sync.Local.Statements.{get_file_by_path, insert_file, put_state, insert_pending, log}
use excel_sync.Local.Files.{find_recently_missing_by_hash, ensure_file, upsert_state}
use excel_sync.Local.Queue.{
  queue_upsert, catch_insert, set_status, has_active_pending_for_hash, oldest,
}
use excel_sync.Local.Jobs.{set_upload_receipt}
use excel_sync.Engine.Exclusive.{IsExclusive, run-IsExclusive}
use excel_sync.Engine.Drain.{IsDrained, process_one-IsDrained}
use excel_sync.Engine.Delay.{schedule_retry-waits, delay_seconds-bounds}
use excel_sync.Local.Schema.{PendingRow, Db, telegram_bot, upsert, uploading, pending_with_id}
use excel_sync.Local.Dispatch.{is_ready}
use excel_sync.Local.Calls as LocalCalls
use excel_sync.Local.Calls.{restarts}

abbrev an_engine : Engine
an_engine = record {
  db = record {
    files = [];
    states = [];
    pendings = [];
    versions = [];
    history = [];
    imports = [];
    checkpoints = [];
    settings = record {
      sync_directory = "C:/Sync";
      worker_url = "";
      auto_sync = true;
      start_with_windows = false;
      retry_base_seconds = 10;
      retention_limit = 20;
      default_storage_backend = telegram_bot;
    };
  };
  active = record { id = "p1"; file_id = "f1" } ∷ [];
  dispatch_counter = 0;
  paused = false;
  stopped = false;
  cloud_access_enabled = true;
  shutdown_draining = false;
}

an_engine-IsExclusive : IsExclusive an_engine
an_engine-IsExclusive = record { apart = (tt, tt); few = omega arith }

run-IsExclusive_example : IsExclusive (
    run
      (dispatches 5 true
        ∷ calls (restarts 6)
        ∷ finishes (record { id = "p1"; file_id = "f1" })
        ∷ dispatches 7 true
        ∷ [])
      an_engine)
run-IsExclusive_example = run-IsExclusive _ an_engine an_engine-IsExclusive

delay_seconds-bounds_example :
    (10 ≤ delay_seconds 10 20)
    × (delay_seconds 10 20 ≤ 3600)
    × (delay_seconds 10 20 ≤ delay_seconds 10 21)
delay_seconds-bounds_example = delay_seconds-bounds 10 20 (omega arith)

abbrev a_job : PendingRow
a_job = record {
  id = "p1";
  file_id = "f1";
  operation = upsert;
  local_path = "sales.xlsx";
  hash = some "bb";
  size = some 10;
  base_version = 3;
  idempotency_key = "f1:3:bb";
  status = uploading;
  attempt_count = 1;
  priority = 0;
  next_retry_at = none;
  error_code = none;
  error_message = none;
  storage_backend = telegram_bot;
  storage_locator = none;
  upload_receipt = none;
  restored_from_version = none;
  created_at = 2;
  updated_at = 2;
}

abbrev a_db : Db
a_db = record an_engine.db { pendings = a_job ∷ [] }

twenty_seconds : 20000 < 9 + delay_seconds 10 1 * 1000
unfolding delay_seconds
twenty_seconds = omega arith

schedule_retry-waits_example :
    All
      (λ q. (pending_with_id "p1" q && is_ready 20000 [] q) ≡ false)
      (schedule_retry 9 a_job "NETWORK_ERROR" "offline" a_db).1.pendings
schedule_retry-waits_example =
    schedule_retry-waits 9 20000 a_job "NETWORK_ERROR" "offline" a_db twenty_seconds

process_one-IsDrained_example : IsDrained 9 (process_one 9 true an_engine)
process_one-IsDrained_example = process_one-IsDrained 9 an_engine refl (omega arith)

abbrev offline : Fault
offline = api 503 "SERVICE_UNAVAILABLE" true "offline"

abbrev no_answer : {A : Type 0} → Await A
no_answer = record { meanwhile = []; outcome = err offline }

abbrev a_found : Found
a_found = record {
  path = "C:/Sync/sales.xlsx";
  relative_path = some "sales.xlsx";
  logical_name = "sales.xlsx";
  extension = ".xlsx";
  is_managed = true;
  is_suppressed = false;
  priority = 0;
  storage_backend = none;
  import_receipt = none;
  stopped = false;
  stable = record { meanwhile = []; outcome = ok (record { size = 10; mtime_ms = 5 }) };
  stopped_after_stable = false;
  signature = record { meanwhile = []; outcome = ok tt };
  hash = record { meanwhile = []; outcome = ok "bb" };
  stopped_after_hash = false;
  stopped_at_error = false;
  info = no_answer;
  fresh_file_id = "f2";
  fresh_pending_id = "p2";
  sqlite = system "ERR_SQLITE_ERROR" "constraint failed";
}

abbrev a_world : World
a_world = record {
  sqlite = system "ERR_SQLITE_ERROR" "constraint failed";
  info = no_answer;
  stable = no_answer;
  hash = no_answer;
  signature = no_answer;
  preflight = no_answer;
  verified_hash = no_answer;
  storage = none;
  upload = no_answer;
  record_receipt = no_answer;
  commit = no_answer;
  conflict = record {
    copy_name = "sales (conflict).xlsx";
    copy = record { meanwhile = []; outcome = ok tt };
    remote = no_answer;
    info = no_answer;
    remote_hash = no_answer;
  };
  rename = no_answer;
  found = a_found;
}

a_world-Calm : Calm a_world
a_world-Calm = record {
  copied = refl;
  while_copied = refl;
  while_downloaded = refl;
  while_examined = refl;
  while_hashed = refl;
}

-- The job's file is not in the database.
job_throws : process 9 a_world a_job upsert a_db ≡ (err (plain "LOCAL_FILE_RECORD_MISSING"), a_db)
unfolding process process_upsert ◌>>=◌
job_throws = refl

run_pending-Settled_example : Settled "p1" (run_pending 9 a_world a_job a_db).1
run_pending-Settled_example = run_pending-Settled 9 a_world a_job a_db a_world-Calm job_throws

-- The file's content is queued as a job of its own.
found_file_is_queued :
    map (λ p. p.file_id) (handle_file_ready 5 a_found an_engine.db).1.pendings ≡ "f2" ∷ []
unfolding handle_file_ready when_some attempt record_content ◌>>=◌ await get_file_by_path
    LocalCalls.run record_new find_recently_missing_by_hash local ensure_file insert_file
    upsert_state put_state string_eq queue_change queue_content queue_upsert insert_pending
    catch_insert set_status to_lower decimal clip log has_active_pending_for_hash oldest transaction
    set_upload_receipt
found_file_is_queued = refl

run_pending-Failed_example : Failed "p1" retry_wait a_db (run_pending 9 a_world a_job a_db).1
unfolding string_eq
run_pending-Failed_example = run_pending-Failed 9 a_world a_job a_db job_throws refl
