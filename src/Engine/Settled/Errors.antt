-- ===== src/Engine/Settled/Errors.antt =====
-- src/main/sync-engine.ts, handleProcessingError: what becomes of a job whose processing threw.
use excel_sync.Base.{
  ℕ, String, Bool, true, false, ◌&&◌, some, [], ◌==◌, string_eq, ◌≡◌, refl, find, if◌then◌else◌,
  Result, ok, err, Action, continue, pure, ◌>>=◌, when_some, attempt, throw, Bool-cases,
  Option-cases, inl, inr, find-holds, any-find-some, ==_iff,
}
use excel_sync.Base.Outcome.{recover}
use excel_sync.Base.Outcome.Keeps.{Keeps, keeps_rules}
use excel_sync.Local.Schema.{is_upsert, FileRow, PendingRow, Db, file_with_id}
use excel_sync.Local.Statements.{Local}
use excel_sync.Local.Calls.{run}
use excel_sync.Engine.{schedule_retry}
use excel_sync.Engine.Task.{Fault, api, system, Task, Await, await, local}
use excel_sync.Engine.Conflict.{World, restore_remote, report_download, create_conflict}
use excel_sync.Engine.Jobs.{
  expired_session, is_conflict_answer, is_final, handle_conflict, handle_processing_error, process,
  run_pending,
}
use excel_sync.Engine.Settled.{
  local-Keeps, Settled, Known, Returns, log-Known, upsert_state-Known, update_cloud_state-Known,
  log-Returns, mark_conflict-Settles, mark_retry-Settles, mark_error-Settles,
}

-- The conflict copy is made, and nobody calls the database while createConflict awaits.
pub record Calm (w : World) : Type 0 where
  pub copied : w.conflict.copy.outcome ≡ ok tt
  pub while_copied : w.conflict.copy.meanwhile ≡ []
  pub while_downloaded : w.conflict.remote.meanwhile ≡ []
  pub while_examined : w.conflict.info.meanwhile ≡ []
  pub while_hashed : w.conflict.remote_hash.meanwhile ≡ []

recover-state :
    {E F S A : Type 0} (f : E → Action S F A) (r : Result E A × S)
    → ((e : E) (s : S) → (f e s).1 ≡ s)
    → (recover f r).1 ≡ r.1
recover-state f (ok a, s) k = refl
recover-state f (err e, s) k = k e s

-- A call of LocalDb ends in the same database, whether its error is translated or not.
pub local-state :
    {A : Type 0} (sqlite : Fault) (m : Local A) (db : Db) → (local sqlite m db).1 ≡ (m db).1
unfolding local attempt throw
local-state sqlite m db = recover-state _ (m db) (λ e s. refl)

local-Settles :
    {A : Type 0} {id : String} (sqlite : Fault) (m : Local A) (db : Db)
    → Settled id (m db).1
    → Settled id (local sqlite m db).1
local-Settles sqlite m db h = rw (local-state sqlite m db) h

continue-Settles :
    {A B : Type 0} {id : String} (k : A → Task B) (r : Result Fault A × Db)
    → Returns r
    → ((a : A) (db : Db) → Settled id (k a db).1)
    → Settled id (continue k r).1
continue-Settles k (ok a, db) h settles = settles a db
continue-Settles k (err e, db) h settles = absurd h

recover-Returns :
    {E F A : Type 0} (P : Db → Type 0) (f : E → Action Db F A) (r : Result E A × Db)
    → P r.1
    → ((e : E) (db : Db) → P db → Returns (f e db))
    → Returns (recover f r)
recover-Returns P f (ok a, db) h k = tt
recover-Returns P f (err e, db) h k = k e db h

found-Known :
    (id : String) (db : Db) (file : FileRow)
    → find (file_with_id id) db.files ≡ some file
    → Known file.id db
found-Known id db file e =
    let same = (==_iff file.id id).0 (find-holds (file_with_id id) db.files e) in
    record { known = rw same (any-find-some (file_with_id id) db.files e) }

continued_recover-Returns :
    {E A B : Type 0} (f : E → Task A) (k : A → Task B) (r : Result E A × Db)
    → Returns r
    → ((a : A) (s : Db) → Returns (k a s))
    → Returns (continue k (recover f r))
continued_recover-Returns f k (ok a, s) h r = r a s
continued_recover-Returns f k (err e, s) h r = absurd h

local-Returns :
    {A B : Type 0} (sqlite : Fault) (m : Local A) (k : A → Task B) (db : Db)
    → Returns (m db)
    → ((a : A) (s : Db) → Returns (k a s))
    → Returns ((local sqlite m >>= k) db)
unfolding local attempt ◌>>=◌
local-Returns sqlite m k db h r = continued_recover-Returns _ k (m db) h r

await-still :
    (a : Await (Unit {0})) (db : Db)
    → a.outcome ≡ ok tt
    → a.meanwhile ≡ []
    → await a db ≡ (ok tt, db)
unfolding await run
await-still a db e f = rw (e, f) refl

await-Known :
    {A : Type 0} {file_id : String} (a : Await A)
    → a.meanwhile ≡ []
    → Keeps (Known file_id) (await a)
unfolding await run
await-Known a e = record { at = λ db h. rw e h }

pick :
    {A : Type 0} {id : String} (b : Bool) (m n : Task A)
    → ((db : Db) → Settled id (m db).1)
    → ((db : Db) → Settled id (n db).1)
    → (db : Db) → Settled id ((if b then m else n) db).1
pick true m n h k = h
pick false m n h k = k

module _ (now : ℕ) (w : World) (calm : Calm w) where
  restore_remote-Known :
      (file_id : String) (p : PendingRow) (file : FileRow)
      → Keeps (Known file_id) (restore_remote now w p file)
  unfolding restore_remote
  restore_remote-Known file_id p file =
      search
        (
          keeps_rules,
          local-Keeps,
          log-Known,
          upsert_state-Known,
          update_cloud_state-Known,
          await-Known w.conflict.remote calm.while_downloaded,
          await-Known w.conflict.info calm.while_examined,
          await-Known w.conflict.remote_hash calm.while_hashed,
        )
        depth 30

  report_download-Returns :
      (file : FileRow) (e : Fault) (db : Db)
      → Known file.id db
      → Returns (report_download now w file e db)
  unfolding report_download pure
  report_download-Returns file e db h =
      local-Returns w.sqlite _ _ db (log-Returns now _ file.id _ db h) (λ a s. tt)

  create_conflict-Settles :
      (p : PendingRow) (file : FileRow) (detail : String) (db : Db)
      → Known file.id db
      → Settled p.id (create_conflict now w p file detail db).1
  unfolding create_conflict ◌>>=◌ attempt
  create_conflict-Settles p file detail db h =
      rw (await-still w.conflict.copy db calm.copied calm.while_copied) (
        continue-Settles _ _
          (recover-Returns (Known file.id) (report_download now w file)
            (restore_remote now w p file db) ((restore_remote-Known file.id p file).at db h)
            (report_download-Returns file))
          (λ ready s. local-Settles w.sqlite _ s (mark_conflict-Settles now p.id _ s)))

  handle_conflict-Settles :
      (p : PendingRow) (code message : String) (db : Db)
      → Settled p.id (handle_conflict now w p code message db).1
  unfolding handle_conflict ◌>>=◌ when_some
  handle_conflict-Settles p code message db =
      elim (Option-cases (find (file_with_id p.file_id) db.files)) [
        | inl e ↦ rw e (local-Settles w.sqlite _ db (mark_conflict-Settles now p.id message db))
        | inr (file, e) ↦ rw e (elim (Bool-cases (is_upsert p.operation)) [
          | inl u ↦ rw u (create_conflict-Settles p file _ db (found-Known p.file_id db file e))
          | inr u ↦ rw u (local-Settles w.sqlite _ db (mark_conflict-Settles now p.id message db))
        ])
      ]

  schedule_retry-Settles :
      (p : PendingRow) (code message : String) (db : Db)
      → Settled p.id (schedule_retry now p code message db).1
  unfolding schedule_retry
  schedule_retry-Settles p code message db = mark_retry-Settles now p.id code message _ db

  settled :
      {A : Type 0} {id : String} (m : Local A)
      → ((db : Db) → Settled id (m db).1)
      → (db : Db) → Settled id (local w.sqlite m db).1
  settled m h db = local-Settles w.sqlite m db (h db)

  settles :
      (p : PendingRow) (e : Fault) (db : Db) → Settled p.id (handle_processing_error now w p e db).1
  unfolding handle_processing_error
  settles p (api status code retryable message) db =
      pick (expired_session code) _ _ (settled _ (mark_retry-Settles now p.id code message _))
        (pick (is_conflict_answer status code) _ _ (handle_conflict-Settles p code message) (
          pick (is_final status retryable) _ _
            (settled _ (mark_error-Settles now p.id code message))
            (settled _ (schedule_retry-Settles p code message))))
        db
  settles p (system code message) db =
      pick (code == "ENOENT" && is_upsert p.operation) _ _
        (settled _ (mark_error-Settles now p.id _ _))
        (pick (code == "FILE_TOO_LARGE") _ _ (settled _ (mark_error-Settles now p.id _ _))
          (settled _ (schedule_retry-Settles p code message)))
        db

-- Where processing a job throws, the conflict copy can be made, and nobody calls the database while
-- createConflict awaits: after runPending the job is not marked as uploading.
pub run_pending-Settled :
    (now : ℕ) (w : World) (p : PendingRow) (db : Db) {e : Fault} {s : Db}
    → Calm w
    → process now w p p.operation db ≡ (err e, s)
    → Settled p.id (run_pending now w p db).1
unfolding run_pending attempt
run_pending-Settled now w p db {e} {s} calm thrown = rw thrown (settles now w calm p e s)
