-- ===== src/Local/Dispatch/Recovery.antt =====
-- src/main/db.ts, recoverInterruptedJobs: the queue after a restart.
use excel_sync.Base.{ℕ, String, Option, ◌≡◌, true, false, List, [], ◌⊎◌}
use excel_sync.Local.Schema.{Backend, PendingRow, Operation, Receipt, is_uploading}
use excel_sync.Local.Dispatch.{is_ready}

-- What a job asks for.
pub record Order : Type 0 where
  pub id : String
  pub file_id : String
  pub operation : Operation
  pub local_path : String
  pub base_version : ℕ
  pub hash : Option String
  pub size : Option ℕ
  pub priority : ℕ
  pub created_at : ℕ
  pub upload_receipt : Option Receipt
  pub idempotency_key : String
  pub attempt_count : ℕ
  pub storage_backend : Backend
  pub storage_locator : Option String
  pub restored_from_version : Option ℕ

abbrev pub order : PendingRow → Order
order p = record {
  id = p.id;
  file_id = p.file_id;
  operation = p.operation;
  local_path = p.local_path;
  base_version = p.base_version;
  hash = p.hash;
  size = p.size;
  priority = p.priority;
  created_at = p.created_at;
  upload_receipt = p.upload_receipt;
  idempotency_key = p.idempotency_key;
  attempt_count = p.attempt_count;
  storage_backend = p.storage_backend;
  storage_locator = p.storage_locator;
  restored_from_version = p.restored_from_version;
}

-- What became of the job `p`: an interrupted upload may be dispatched at any time, with the same order, and
-- any other job is as it was.
abbrev pub Recovered : PendingRow → PendingRow → Type 0
Recovered p q =
    ((is_uploading p.status ≡ true) × (order q ≡ order p) × ((now : ℕ) → is_ready now [] q ≡ true))
    ⊎ ((is_uploading p.status ≡ false) × (q ≡ p))
