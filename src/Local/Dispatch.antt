-- ===== src/Local/Dispatch.antt =====
-- src/main/db.ts: the choice of the next job, priorities, rebasing, and the jobs that a login or a
-- permission frees again.
pub mod Choice
pub mod Recovery
use excel_sync.Base.{
  ℕ, min, String, ◌<>◌, Bool, true, false, ◌&&◌, ◌||◌, not, Option, none, some, List, [], ◌∷◌, ◌==◌,
  string_eq, eqb, ltb, leb, any, select, count, length, gets, modify, pure, throw, transaction,
  ◌>>=◌, ◌>>◌, if◌then◌else◌, decimal, is_some,
}
use excel_sync.Local.Schema.{
  SyncStatus, Backend, PendingRow, Db, constraint_failed, pending, is_upsert, is_queued, is_blocked,
  is_uploading, is_retry_wait,
}
use excel_sync.Local.Statements.{Local, update_pending, update_pendings, log}
use excel_sync.Local.Queue.{clamp_priority, set_status, oldest}

abbrev pub member : String → List String → Bool
member s = any (λ t. t == s)

abbrev is_due : ℕ → Option ℕ → Bool
is_due now none = true
is_due now (some t) = leb t now

abbrev is_pending : SyncStatus → Bool
is_pending pending = true
is_pending _ = false

-- The `WHERE` of `nextReadyPending`.
abbrev pub is_ready : ℕ → List String → PendingRow → Bool
is_ready now excluded p =
    (is_pending p.status || (is_retry_wait p.status && is_due now p.next_retry_at))
    && not (member p.file_id excluded)

-- `ORDER BY priority ASC, created_at ASC`
abbrev pub comes_before : PendingRow → PendingRow → Bool
comes_before p q =
    ltb p.priority q.priority || (eqb p.priority q.priority && ltb p.created_at q.created_at)

unfoldable pub most_urgent : Option PendingRow → List PendingRow → Option PendingRow
most_urgent best [] = best
most_urgent none (p ∷ ps) = most_urgent (some p) ps
most_urgent (some b) (p ∷ ps) = most_urgent (if comes_before p b then some p else some b) ps

unfoldable pub next_ready_pending : ℕ → List String → Bool → Db → Option PendingRow
unfolding most_urgent
next_ready_pending now excluded prefer_oldest db =
    if prefer_oldest
    then oldest none (select (is_ready now excluded) db.pendings)
    else most_urgent none (select (is_ready now excluded) db.pendings)

unfoldable pub boost_ready_pending : ℕ → ℕ → Local ℕ
boost_ready_pending now priority = do
  changes ← gets (λ db. count (λ p. is_queued p.status) db.pendings)
  modify (
      update_pendings (λ p. is_queued p.status)
        (λ p. record p { priority = min p.priority (clamp_priority priority); updated_at = now }))
  pure changes

unfoldable pub set_pending_priority_for_file : ℕ → String → ℕ → Local (Unit {0})
set_pending_priority_for_file now id priority = modify (
    update_pendings (λ p. (p.file_id == id) && is_queued p.status)
      (λ p. record p { priority = clamp_priority priority; updated_at = now }))

-- A job whose upload is done keeps the backend that holds its bytes.
abbrev pub can_change_backend : String → PendingRow → Bool
can_change_backend id p =
    (p.file_id == id)
    && is_upsert p.operation
    && is_queued p.status
    && not (is_some p.upload_receipt)

unfoldable pub set_pending_storage_backend_for_file : ℕ → String → Backend → Local ℕ
set_pending_storage_backend_for_file now id backend = do
  changes ← gets (λ db. count (can_change_backend id) db.pendings)
  modify (
      update_pendings (can_change_backend id)
        (λ p. record p { storage_backend = backend; storage_locator = none; updated_at = now }))
  pure changes

abbrev rebased_key : String → ℕ → PendingRow → String
rebased_key id base p = elim p.hash [
  | none ↦ id <> ":" <> decimal base <> ":WAITING:" <> p.id
  | some h ↦ id <> ":" <> decimal base <> ":" <> h
]

abbrev key_taken : String → PendingRow → Db → Bool
key_taken key p db = any (λ q. not (q.id == p.id) && q.idempotency_key == key) db.pendings

-- One `update.run`: the key is unique.
unfoldable pub rebase_row : ℕ → String → ℕ → PendingRow → Local (Unit {0})
rebase_row now id base p = do
  taken ← gets (key_taken (rebased_key id base p) p)
  if taken
      then throw constraint_failed
      else modify (
          update_pending p.id (λ q. record q {
            base_version = base;
            idempotency_key = rebased_key id base p;
            updated_at = now;
          }))

unfoldable pub rebase_rows : ℕ → String → ℕ → List PendingRow → Local (Unit {0})
rebase_rows now id base [] = pure tt
rebase_rows now id base (p ∷ ps) = do rebase_row now id base p; rebase_rows now id base ps

-- `ORDER BY created_at ASC`
insert_by_age : PendingRow → List PendingRow → List PendingRow
insert_by_age p [] = p ∷ []
insert_by_age p (q ∷ qs) =
    if leb p.created_at q.created_at then p ∷ q ∷ qs else q ∷ insert_by_age p qs

by_age : List PendingRow → List PendingRow
unfolding insert_by_age
by_age [] = []
by_age (p ∷ ps) = insert_by_age p (by_age ps)

unfoldable pub rebase_queued_for_file : ℕ → String → ℕ → Local (Unit {0})
unfolding rebase_rows rebase_row by_age
rebase_queued_for_file now id base = do
  rows ← gets (λ db. by_age (select (λ p. (p.file_id == id) && is_queued p.status) db.pendings))
  transaction (rebase_rows now id base rows)

abbrev code_in : List String → Option String → Bool
code_in codes none = false
code_in codes (some c) = member c codes

abbrev pub is_blocked_by : List String → PendingRow → Bool
is_blocked_by codes p = is_blocked p.status && code_in codes p.error_code

unfoldable pub set_files_pending : ℕ → List PendingRow → Db → Db
unfolding set_status
set_files_pending now [] db = db
set_files_pending now (p ∷ ps) db = set_files_pending now ps (set_status now pending p.file_id db)

unfoldable pub requeue_blocked_errors : ℕ → List String → String → Local ℕ
unfolding set_files_pending
requeue_blocked_errors now codes event = do
  rows ← gets (λ db. select (is_blocked_by codes) db.pendings)
  if eqb (length rows) 0 then pure 0 else do
    transaction (do
      modify (
          update_pendings (is_blocked_by codes) (λ p. record p {
            status = pending;
            next_retry_at = none;
            error_code = none;
            error_message = none;
            updated_at = now;
          }))
      modify (set_files_pending now rows))
    log now event none (some (decimal (length rows) <> " pending item(s)"))
    pure (length rows)

unfoldable pub requeue_auth_blocked : ℕ → Local ℕ
requeue_auth_blocked now =
    requeue_blocked_errors now ("AUTH_REQUIRED" ∷ "INVALID_SESSION" ∷ []) "AUTH_BLOCKED_REQUEUED"

unfoldable pub requeue_permission_blocked : ℕ → Local ℕ
requeue_permission_blocked now =
    requeue_blocked_errors now
      ("WORKSPACE_UPLOAD_FORBIDDEN" ∷ "WORKSPACE_FORBIDDEN" ∷ "FORBIDDEN" ∷ [])
      "PERMISSION_BLOCKED_REQUEUED"

-- The constructor's `recoverInterruptedJobs`.
unfoldable pub recover_interrupted_jobs : ℕ → Db → Db
recover_interrupted_jobs now =
    update_pendings (λ p. is_uploading p.status)
      (λ p. record p {
        status = pending;
        next_retry_at = none;
        error_code = some "APP_RESTART_RECOVERY";
        error_message = some "Recovered interrupted upload after app restart";
        updated_at = now;
      })
