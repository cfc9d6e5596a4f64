-- ===== src/Local/Queue.antt =====
-- src/main/db.ts: the methods of LocalDb that put jobs into the queue pending_sync and take them out.
pub mod Again
use excel_sync.Base.{
  ℕ, min, max, String, ◌<>◌, Bool, true, false, ◌&&◌, ◌||◌, not, Option, none, some, List, [], ◌∷◌,
  ◌==◌, string_eq, ltb, any, select, gets, modify, pure, transaction, ◌>>=◌, ◌>>◌, when_some,
  if◌then◌else◌, decimal, is_some, clip, Result, ok, err,
}
use excel_sync.Local.Schema.{
  SyncStatus, Operation, Backend, FileRow, PendingRow, Db, DbError, pending, retry_wait, upsert,
  is_active, is_upsert, is_in_flight, is_retry_wait, is_uploading, hash_is, telegram_bot,
}
use excel_sync.Local.Statements.{
  Local, insert_pending, update_file, update_pending, log, get_pending,
}

-- `Math.min(4, Math.max(0, priority))`; a priority is never below 0 here.
abbrev pub clamp_priority : ℕ → ℕ
clamp_priority p = min 4 (max 0 p)

abbrev active_with_hash : String → String → PendingRow → Bool
active_with_hash id hash p =
    (p.file_id == id) && hash_is hash p.hash && is_upsert p.operation && is_in_flight p.status

unfoldable pub has_active_pending_for_hash : String → String → Db → Bool
has_active_pending_for_hash id hash db = any (active_with_hash id hash) db.pendings

-- `ORDER BY created_at DESC LIMIT 1`
unfoldable pub newest : Option PendingRow → List PendingRow → Option PendingRow
newest best [] = best
newest none (p ∷ ps) = newest (some p) ps
newest (some b) (p ∷ ps) = newest (if ltb b.created_at p.created_at then some p else some b) ps

-- `ORDER BY created_at ASC LIMIT 1`
unfoldable pub oldest : Option PendingRow → List PendingRow → Option PendingRow
oldest best [] = best
oldest none (p ∷ ps) = oldest (some p) ps
oldest (some b) (p ∷ ps) = oldest (if ltb p.created_at b.created_at then some p else some b) ps

abbrev active_upsert : String → PendingRow → Bool
active_upsert id p = (p.file_id == id) && is_upsert p.operation && is_in_flight p.status

unfoldable pub set_status : ℕ → SyncStatus → String → Db → Db
set_status now status id = update_file id (λ f. record f { status = status; updated_at = now })

abbrev pub fresh_row : String → ℕ → FileRow → Operation → String → String → PendingRow
fresh_row id now file operation path key = record {
  id = id;
  file_id = file.id;
  operation = operation;
  local_path = path;
  hash = none;
  size = none;
  base_version = file.current_version;
  idempotency_key = key;
  status = pending;
  attempt_count = 0;
  priority = 0;
  next_retry_at = none;
  error_code = none;
  error_message = none;
  storage_backend = telegram_bot;
  storage_locator = none;
  upload_receipt = none;
  restored_from_version = none;
  created_at = now;
  updated_at = now;
}

abbrev waiting_key : FileRow → String
waiting_key file =
    file.id <> ":" <> decimal file.current_version <> ":WAITING:" <> file.relative_path

wait_again : ℕ → FileRow → String → String → String → ℕ → PendingRow → Local (Option PendingRow)
unfolding set_status
wait_again now file path code message retry_at old =
    if is_uploading old.status then gets (get_pending old.id) else do
      modify (
          update_pending old.id (λ p. record p {
            local_path = path;
            status = retry_wait;
            priority = min p.priority 2;
            next_retry_at = some retry_at;
            error_code = some code;
            error_message = some (clip 1000 message);
            updated_at = now;
          }))
      modify (set_status now retry_wait file.id)
      gets (get_pending old.id)

wait_first : ℕ → String → FileRow → String → String → String → ℕ → Local (Option PendingRow)
unfolding set_status
wait_first now fresh file path code message retry_at = do
  transaction (do
    backend ← gets (λ db. db.settings.default_storage_backend)
    insert_pending (record (fresh_row fresh now file upsert path (waiting_key file)) {
      storage_backend = backend;
      status = retry_wait;
      priority = 2;
      next_retry_at = some retry_at;
      error_code = some code;
      error_message = some (clip 1000 message);
    })
    modify (set_status now retry_wait file.id))
  log now "WAITING_FOR_FILE" (some file.id) (some (clip 1000 (code <> ": " <> message)))
  gets (get_pending fresh)

unfoldable pub queue_waiting_upsert :
    ℕ → String → FileRow → String → String → String → ℕ → Local (Option PendingRow)
unfolding wait_again wait_first
queue_waiting_upsert now fresh file path code message retry_at =
    if not (is_active file.cloud_status) then pure none else do
      existing ← gets (λ db. newest none (select (active_upsert file.id) db.pendings))
      when_some existing (wait_first now fresh file path code message retry_at)
          (wait_again now file path code message retry_at)

abbrev is_waiting_row : String → PendingRow → Bool
is_waiting_row id p =
    (p.file_id == id) && is_upsert p.operation && is_retry_wait p.status && not (is_some p.hash)

-- What the caller of `queueUpsert` gives beside the file.
pub record UpsertInput : Type 0 where
  pub path : String
  pub hash : String
  pub size : ℕ
  pub priority : ℕ
  pub storage_backend : Backend
  pub restored_from_version : Option ℕ

abbrev pub upsert_key : FileRow → UpsertInput → String
upsert_key file input = elim input.restored_from_version [
  | none ↦ file.id <> ":" <> decimal file.current_version <> ":" <> input.hash
  | some v ↦
      file.id
      <> ":"
      <> decimal file.current_version
      <> ":"
      <> input.hash
      <> ":RESTORE:"
      <> decimal v
]

abbrev pub upsert_row : String → ℕ → FileRow → UpsertInput → PendingRow
upsert_row fresh now file input =
    record (fresh_row fresh now file upsert input.path (upsert_key file input)) {
      hash = some input.hash;
      size = some input.size;
      storage_backend = input.storage_backend;
      restored_from_version = input.restored_from_version;
      priority = clamp_priority input.priority;
    }

abbrev filled : ℕ → FileRow → UpsertInput → PendingRow → PendingRow
filled now file input p = record p {
  local_path = input.path;
  hash = some input.hash;
  size = some input.size;
  base_version = file.current_version;
  storage_backend = input.storage_backend;
  restored_from_version = input.restored_from_version;
  status = pending;
  priority = clamp_priority input.priority;
  next_retry_at = none;
  error_code = none;
  error_message = none;
  updated_at = now;
}

fill_waiting : ℕ → FileRow → UpsertInput → PendingRow → Local (Option PendingRow)
unfolding set_status
fill_waiting now file input old = do
  transaction (do
    modify (update_pending old.id (filled now file input))
    modify (set_status now pending file.id))
  log now "WAITING_FILE_READY" (some file.id) (some ("hash=" <> clip 12 input.hash))
  gets (get_pending old.id)

-- The insertion and its `catch`: an active job with this hash makes the failure harmless.
recover_insert : FileRow → String → Db → Result DbError (Unit {0}) → Result DbError Bool
recover_insert file hash db (ok _) = ok true
recover_insert file hash db (err e) =
    if has_active_pending_for_hash file.id hash db then ok false else err e

unfoldable pub catch_insert : FileRow → String → Local (Unit {0}) → Local Bool
unfolding recover_insert
catch_insert file hash m db = let (r, after) = m db in (recover_insert file hash after r, after)

add_upsert : ℕ → String → FileRow → UpsertInput → Local (Option PendingRow)
unfolding set_status
add_upsert now fresh file input = do
  inserted ← catch_insert file input.hash (
      transaction (do
        insert_pending (upsert_row fresh now file input)
        modify (set_status now pending file.id)))
  if not inserted then pure none else do
    log now "PENDING" (some file.id) (some ("hash=" <> clip 12 input.hash))
    pure (some (upsert_row fresh now file input))

add_unless_taken : ℕ → String → FileRow → UpsertInput → Local (Option PendingRow)
unfolding add_upsert
add_unless_taken now fresh file input = do
  taken ← gets (λ db. any (λ p. p.idempotency_key == upsert_key file input) db.pendings)
  if taken then pure none else add_upsert now fresh file input

unfoldable pub queue_upsert : ℕ → String → FileRow → UpsertInput → Local (Option PendingRow)
unfolding fill_waiting add_unless_taken
queue_upsert now fresh file input = if not (is_active file.cloud_status) then pure none else do
  busy ← gets (has_active_pending_for_hash file.id input.hash)
  let unchanged = not (is_some input.restored_from_version) && hash_is input.hash file.current_hash
  if unchanged || busy then pure none else do
    waiting ← gets (λ db. oldest none (select (is_waiting_row file.id) db.pendings))
    when_some waiting (add_unless_taken now fresh file input) (fill_waiting now file input)
