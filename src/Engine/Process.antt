-- ===== src/Engine/Process.antt =====
-- src/main/sync-engine.ts: processUpsert and processRename.
use excel_sync.Base.{
  ℕ, String, ◌<>◌, Bool, true, false, ◌&&◌, ◌||◌, not, Option, none, some, ◌==◌, string_eq,
  option_eq, eqb, if◌then◌else◌, is_some, Result, ok, err, gets, pure, throw, require, attempt,
  ◌>>=◌, ◌>>◌, when_some, decimal,
}
use excel_sync.Local.Schema.{
  Backend, telegram_user_group, Receipt, FileRow, StateRow, PendingRow, state_of_file,
}
use excel_sync.Base.{find}
use excel_sync.Local.Statements.{get_file}
use excel_sync.Local.Files.{upsert_state}
use excel_sync.Local.Jobs.{
  prepare_pending_upload, mark_pending_no_change, cancel_pending, set_upload_receipt,
}
use excel_sync.Local.Marks.{mark_synced, mark_rename_synced}
use excel_sync.Local.Dispatch.{rebase_queued_for_file}
use excel_sync.Local.Imports.{remember_telegram_upload}
use excel_sync.Engine.Task.{Fault, api, system, plain, Task, Await, await, local}
use excel_sync.Engine.Ready.{Snapshot, FileInfo, handle_file_ready}
use excel_sync.Engine.Conflict.{
  Preflight, conflict, noop, committed, upload_required, commit_required, World, create_conflict,
}

-- The content that the job finds, and whether its hash is that of the job and was not read again.
pub record Content : Type 0 where
  pub stable : Snapshot
  pub hash : String
  pub reused : Bool

unfoldable pub read_content : World → Task Content
read_content w = do
  stable ← await w.stable
  hash ← await w.hash
  pure (record { stable = stable; hash = hash; reused = false })

-- The hash and the size of the job: `!pending.hash || pending.size === null` is `none`.
abbrev pub known_content : PendingRow → Option (String × ℕ)
known_content p = elim p.hash [
  | none ↦ none
  | some h ↦ if h == "" then none else elim p.size [ none ↦ none | some n ↦ some (h, n) ]
]

abbrev has_content : String × ℕ → StateRow → Bool
has_content (hash, size) s = s.last_hash == some hash && eqb s.size size

-- canReuseVerifiedSnapshot, with what is reused.
abbrev reusable : PendingRow → Option StateRow → Option (String × StateRow)
reusable p cached = elim cached [
  | none ↦ none
  | some s ↦ elim (known_content p) [
    | none ↦ none
    | some c ↦ if eqb p.attempt_count 0 && has_content c s then some (c.0, s) else none
  ]
]

-- Times of change are whole milliseconds here, so a difference below one is none.
abbrev same_snapshot : FileInfo → StateRow → Bool
same_snapshot info s = info.is_file && eqb info.size s.size && eqb info.mtime_ms s.mtime_ms

unfoldable pub reuse_content : World → String × StateRow → Task Content
reuse_content w (hash, s) = do
  info ← await w.info
  if not (same_snapshot info s)
      then read_content w
      else pure (record {
        stable = record { size = info.size; mtime_ms = info.mtime_ms };
        hash = hash;
        reused = true;
      })

unfoldable pub change_again : ℕ → World → FileRow → Task (Unit {0})
change_again now w file =
    local w.sqlite (cancel_pending file.id none) >> handle_file_ready now w.found

unfoldable pub settle : ℕ → World → PendingRow → FileRow → ℕ → String → ℕ → Task (Unit {0})
settle now w p file version hash size = do
  local w.sqlite (mark_synced now p.id version hash size none)
  local w.sqlite (rebase_queued_for_file now file.id version)

unfoldable pub settle_verified :
    ℕ → World → PendingRow → FileRow → Bool → String × ℕ → ℕ → String → Task (Unit {0})
settle_verified now w p file reused (hash, size) version answered =
    if not reused then settle now w p file version answered size else do
      verified ← await w.verified_hash
      if not (verified == hash)
          then change_again now w file
          else settle now w p file version answered size

abbrev is_user_group : Backend → Bool
is_user_group telegram_user_group = true
is_user_group _ = false

unfoldable pub upload_by_api : World → PendingRow → Task (Option Receipt)
upload_by_api w p =
    if is_user_group p.storage_backend
    then throw (plain "TELEGRAM_USER_STORAGE_UNAVAILABLE")
    else await w.upload >> pure none

unfoldable pub upload_by_storage :
    ℕ → World → PendingRow → Await (Option Receipt) → Task (Option Receipt)
upload_by_storage now w p storage = do
  receipt ← await storage
  when_some receipt (await w.upload >> pure none)
      λ r. local w.sqlite (set_upload_receipt now p.id r) >> pure (some r)

unfoldable pub upload_content : ℕ → World → PendingRow → Task (Option Receipt)
upload_content now w p =
    when_some p.upload_receipt (when_some w.storage (upload_by_api w p) (upload_by_storage now w p))
      (λ r. pure (some r))

unfoldable pub remember_receipt : World → FileRow → Receipt → Task (Unit {0})
remember_receipt w file r = do
  local w.sqlite (
      remember_telegram_upload
        (record {
          chat_id = r.chat_id;
          message_id = r.message_id;
          file_name = r.file_name;
          size = r.size;
        })
        file.relative_path r.sha256)
  await w.record_receipt

unfoldable pub commit_content : ℕ → World → PendingRow → FileRow → ℕ → Task (Unit {0})
commit_content now w p file size = do done ← await w.commit; settle now w p file done.0 done.1 size

unfoldable pub upload_and_commit : ℕ → World → PendingRow → FileRow → ℕ → Task (Unit {0})
upload_and_commit now w p file size = do
  receipt ← upload_content now w p
  when_some receipt (pure tt) (remember_receipt w file)
  commit_content now w p file size

unfoldable pub act :
    ℕ → World → PendingRow → FileRow → Bool → String × ℕ → Preflight → Task (Unit {0})
act now w p file reused content (conflict version) =
    create_conflict now w p file ("Cloud advanced to V" <> decimal version)
act now w p file reused content (noop version hash) =
    settle_verified now w p file reused content version hash
act now w p file reused content (committed version hash) =
    settle_verified now w p file reused content version hash
act now w p file reused content (upload_required _) = upload_and_commit now w p file content.1
act now w p file reused content (commit_required _) = commit_content now w p file content.1

-- What the preflight answered or threw.
unfoldable pub answer_preflight :
    ℕ → World → PendingRow → FileRow → Bool → String × ℕ → Result Fault Preflight → Task (Unit {0})
answer_preflight now w p file reused content (ok answer) = act now w p file reused content answer
answer_preflight now w p file reused content (err (system code message)) =
    throw (system code message)
answer_preflight now w p file reused content (err (api status code retryable message)) =
    if eqb status 409
    then create_conflict now w p file ("Preflight conflict: " <> code)
    else throw (api status code retryable message)

-- What the await answered or threw, as a value.
unfoldable pub outcome_of : {A : Type 0} → Await A → Task (Result Fault A)
outcome_of a = attempt (do x ← await a; pure (ok x)) (λ e. pure (err e))

unfoldable pub send : ℕ → World → FileRow → Content → PendingRow → Task (Unit {0})
send now w file content p = do
  wanted ← require (known_content p) (plain "PENDING_UPLOAD_INVALID")
  if not (content.hash == wanted.0) || not (eqb content.stable.size wanted.1)
      then change_again now w file
      else do
        answer ← outcome_of w.preflight
        answer_preflight now w p file content.reused wanted answer

unfoldable pub settle_unchanged : ℕ → World → FileRow → Content → PendingRow → Task (Unit {0})
settle_unchanged now w file content p = do
  local w.sqlite (mark_pending_no_change now p.id)
  local w.sqlite (
      upsert_state now file.id content.stable.size content.stable.mtime_ms (some content.hash) true)

unfoldable pub send_prepared : ℕ → World → FileRow → Content → PendingRow → Task (Unit {0})
send_prepared now w file content p = do
  prepared ← local w.sqlite (prepare_pending_upload now p.id content.hash content.stable.size)
  ready ← when_some prepared (pure p) pure
  send now w file content ready

-- A job without a hash: a content that the file has already needs no upload.
unfoldable pub prepare : ℕ → World → FileRow → Content → PendingRow → Task (Unit {0})
prepare now w file content p =
    if file.current_hash == some content.hash
    then settle_unchanged now w file content p
    else send_prepared now w file content p

unfoldable pub process_upsert : ℕ → World → PendingRow → Task (Unit {0})
process_upsert now w p = do
  found ← gets (get_file p.file_id)
  file ← require found (plain "LOCAL_FILE_RECORD_MISSING")
  cached ← gets (λ db. find (state_of_file file.id) db.states)
  content ← when_some (reusable p cached) (read_content w) (reuse_content w)
  await w.signature
  if is_some (known_content p) then send now w file content p else prepare now w file content p

unfoldable pub process_rename : ℕ → World → PendingRow → Task (Unit {0})
process_rename now w p = do
  found ← gets (get_file p.file_id)
  _ ← require found (plain "LOCAL_FILE_RECORD_MISSING")
  await w.rename
  local w.sqlite (mark_rename_synced now p.id)
