-- ===== src/Engine/Jobs.antt =====
-- src/main/sync-engine.ts: runPending and handleProcessingError.
use excel_sync.Base.{
  ℕ, String, ◌<>◌, Bool, ◌&&◌, ◌||◌, not, some, ◌==◌, string_eq, option_eq, eqb, ◌+◌, if◌then◌else◌,
  gets, attempt, ◌>>=◌, ◌>>◌, when_some,
}
use excel_sync.Local.Schema.{Operation, upsert, rename, PendingRow, is_upsert}
use excel_sync.Local.Statements.{get_file, log}
use excel_sync.Local.Jobs.{cancel_pending}
use excel_sync.Local.Marks.{mark_retry, mark_error, mark_conflict}
use excel_sync.Engine.{schedule_retry}
use excel_sync.Engine.Task.{Fault, api, system, Task, local}
use excel_sync.Engine.Conflict.{World, create_conflict}
use excel_sync.Engine.Process.{process_upsert, process_rename}

abbrev pub expired_session : String → Bool
expired_session code = code == "AUTH_REQUIRED" || code == "INVALID_SESSION"

abbrev pub is_conflict_answer : ℕ → String → Bool
is_conflict_answer status code = eqb status 409 || code == "BASE_VERSION_CONFLICT"

abbrev pub is_final : ℕ → Bool → Bool
is_final status retryable = not retryable || eqb status 401 || eqb status 403 || eqb status 413

unfoldable pub handle_conflict : ℕ → World → PendingRow → String → String → Task (Unit {0})
handle_conflict now w p code message = do
  found ← gets (get_file p.file_id)
  when_some found (local w.sqlite (mark_conflict now p.id message)) λ file.
      if is_upsert p.operation
      then create_conflict now w p file ("Commit conflict: " <> code)
      else local w.sqlite (mark_conflict now p.id message)

unfoldable pub handle_processing_error : ℕ → World → PendingRow → Fault → Task (Unit {0})
handle_processing_error now w p (api status code retryable message) =
    if expired_session code
    then local w.sqlite (mark_retry now p.id code message (now + 3600000))
    else if is_conflict_answer status code
    then handle_conflict now w p code message
    else if is_final status retryable
    then local w.sqlite (mark_error now p.id code message)
    else local w.sqlite (schedule_retry now p code message)
handle_processing_error now w p (system code message) =
    if code == "ENOENT" && is_upsert p.operation
    then local w.sqlite (mark_error now p.id "LOCAL_FILE_MISSING" "File disappeared before upload")
    else if code == "FILE_TOO_LARGE"
    then local w.sqlite
        (mark_error now p.id "FILE_TOO_LARGE" "Telegram-backed V1 supports files up to 20 MB")
    else local w.sqlite (schedule_retry now p code message)

unfoldable pub ignore_delete : ℕ → World → PendingRow → Task (Unit {0})
ignore_delete now w p = do
  local w.sqlite (cancel_pending p.file_id (some Operation.delete))
  local w.sqlite (
      log now "LEGACY_DELETE_IGNORED" (some p.file_id)
        (some "Local deletion no longer deletes SaaS files"))

unfoldable pub process : ℕ → World → PendingRow → Operation → Task (Unit {0})
process now w p upsert = process_upsert now w p
process now w p rename = process_rename now w p
process now w p Operation.delete = ignore_delete now w p

unfoldable pub run_pending : ℕ → World → PendingRow → Task (Unit {0})
run_pending now w p = attempt (process now w p p.operation) (handle_processing_error now w p)
