-- ===== src/Engine/Task.antt =====
-- src/main/sync-engine.ts: a job's code that awaits the disk and the network. While it awaits, others
-- call the database; what they called and what the awaited operation answers are arguments.
use excel_sync.Base.{ℕ, String, Bool, List, Result, Action, throw, attempt}
use excel_sync.Local.Schema.{
  Db, DbError, constraint_failed, local_path_occupied, local_file_record_missing,
}
use excel_sync.Local.Statements.{Local}
use excel_sync.Local.Calls.{Call, run}

-- What is thrown: an ApiError with its status, code, `retryable` and message, or another error with
-- its `code ?? message` and its message.
pub data Fault : Type 0 where
  api : ℕ → String → Bool → String → Fault
  system : String → String → Fault

abbrev pub Task : Type 0 → Type 0
Task A = Action Db Fault A

-- `new Error(code)`
abbrev pub plain : String → Fault
plain code = system code code

pub record Await (A : Type 0) : Type 0 where
  pub meanwhile : List Call
  pub outcome : Result Fault A

-- What SQLite's error says is given.
abbrev fault_of : Fault → DbError → Fault
fault_of sqlite constraint_failed = sqlite
fault_of sqlite local_path_occupied = plain "LOCAL_PATH_OCCUPIED"
fault_of sqlite local_file_record_missing = plain "LOCAL_FILE_RECORD_MISSING"

module _ {A : Type 0} where
  unfoldable pub await : Await A → Task A
  await a db = (a.outcome, run a.meanwhile db)

  -- A call of a method of LocalDb.
  unfoldable pub local : Fault → Local A → Task A
  local sqlite m = attempt m (λ e. throw (fault_of sqlite e))
