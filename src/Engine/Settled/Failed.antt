-- ===== src/Engine/Settled/Failed.antt =====
-- src/main/sync-engine.ts, handleProcessingError: what a failure writes, and what it leaves alone.
use excel_sync.Base.{
  ℕ, String, Bool, true, false, ◌&&◌, ◌||◌, not, Option, List, [], ◌∷◌, ◌==◌, string_eq, ◌≡◌, refl,
  ◌∙◌, arith, map, update, select, All, if◌then◌else◌, err, Bool-cases, inl, inr, modify, ◌>>=◌,
  attempt,
}
use excel_sync.Base.Outcome.Keeps.{Keeps, Keeps-modify, keeps_rules}
use excel_sync.Local.Schema.{
  SyncStatus, retry_wait, error, PendingRow, Db, DbError, is_upsert, pending_with_id,
}
use excel_sync.Local.Statements.{Local, log}
use excel_sync.Local.Queue.{set_status}
use excel_sync.Local.Presence.Keeping.{view, map-view-update}
use excel_sync.Local.Marks.{owner, mark_retry, mark_error, set_owner_status}
use excel_sync.Engine.{schedule_retry}
use excel_sync.Engine.Task.{Fault, api, system, local}
use excel_sync.Engine.Conflict.{World}
use excel_sync.Engine.Jobs.{
  expired_session, is_conflict_answer, is_final, handle_processing_error, process, run_pending,
}
use excel_sync.Engine.Settled.{same_files, same_versions, same_pendings}
use excel_sync.Engine.Settled.Errors.{local-state}

-- What a failed job `id` leaves of the database `before`: no file changes what the cloud knows of it, no
-- version is added or changed, no other job is touched, and the job has the status.
pub record Failed (id : String) (status : SyncStatus) (before after : Db) : Type 0 where
  pub files : map view after.files ≡ map view before.files
  pub versions : after.versions ≡ before.versions
  pub others :
      select (λ p. not (pending_with_id id p)) after.pendings
      ≡ select (λ p. not (pending_with_id id p)) before.pendings
  pub marked : All (λ p. pending_with_id id p ≡ true → p.status ≡ status) after.pendings

update-others :
    (id : String) (f : PendingRow → PendingRow) (ps : List PendingRow)
    → ((p : PendingRow) → (f p).id ≡ p.id)
    → select (λ p. not (pending_with_id id p)) (update (pending_with_id id) f ps)
      ≡ select (λ p. not (pending_with_id id p)) ps
update-others id f [] k = refl
update-others id f (p ∷ ps) k = ground (arith, k p, update-others id f ps k)

update-marked :
    (id : String) (status : SyncStatus) (f : PendingRow → PendingRow) (ps : List PendingRow)
    → ((p : PendingRow) → (f p).status ≡ status)
    → All (λ p. pending_with_id id p ≡ true → p.status ≡ status) (update (pending_with_id id) f ps)
update-marked id status f [] k = tt
update-marked id status f (p ∷ ps) k = elim (Bool-cases (pending_with_id id p)) [
  | inl e ↦ rw e ((λ _. k p), update-marked id status f ps k)
  | inr e ↦ rw e ((λ t. cc), update-marked id status f ps k)
]

updated :
    (id : String) (status : SyncStatus) (f : PendingRow → PendingRow) (db : Db)
    → ((p : PendingRow) → (f p).id ≡ p.id)
    → ((p : PendingRow) → (f p).status ≡ status)
    → Failed id status db (record db { pendings = update (pending_with_id id) f db.pendings })
updated id status f db h k = record {
  files = refl;
  versions = refl;
  others = update-others id f db.pendings h;
  marked = update-marked id status f db.pendings k;
}

set_status-Failed :
    {id : String} {status : SyncStatus} {before : Db} (now : ℕ) (s : SyncStatus) (file_id : String)
    → Keeps {E = DbError} (Failed id status before) (modify (set_status now s file_id))
unfolding set_status
set_status-Failed now s file_id = Keeps-modify _ λ db h. record {
  files = map-view-update _ _ db.files (λ x. refl) ∙ h.files;
  versions = h.versions;
  others = h.others;
  marked = h.marked;
}

log-Failed :
    {id : String} {status : SyncStatus} {before : Db} (now : ℕ) (event : String)
    (file detail : Option String)
    → Keeps (Failed id status before) (log now event file detail)
log-Failed now event file detail = record {
  at = λ db h. record {
    files = rw (same_files now event file detail db) h.files;
    versions = rw (same_versions now event file detail db) h.versions;
    others = rw (same_pendings now event file detail db) h.others;
    marked = rw (same_pendings now event file detail db) h.marked;
  };
}

announced :
    {id : String} {status : SyncStatus} {before : Db} (now : ℕ) (s : SyncStatus)
    (found : Option PendingRow) (event : String) (detail : Option String)
    → Keeps
        (Failed id status before)
        (set_owner_status now s found >>= λ _. log now event (owner found) detail)
unfolding set_owner_status
announced now s found event detail = search (keeps_rules, set_status-Failed, log-Failed) depth 12

mark_retry-Failed :
    (now : ℕ) (id code message : String) (retry_at : ℕ) (db : Db)
    → Failed id retry_wait db (mark_retry now id code message retry_at db).1
unfolding mark_retry ◌>>=◌
mark_retry-Failed now id code message retry_at db =
    (announced now retry_wait _ "RETRY_WAIT" _).at _
      (updated id retry_wait _ db (λ p. refl) (λ p. refl))

mark_error-Failed :
    (now : ℕ) (id code message : String) (db : Db)
    → Failed id error db (mark_error now id code message db).1
unfolding mark_error ◌>>=◌
mark_error-Failed now id code message db =
    (announced now error _ "ERROR" _).at _ (updated id error _ db (λ p. refl) (λ p. refl))

schedule_retry-Failed :
    (now : ℕ) (p : PendingRow) (code message : String) (db : Db)
    → Failed p.id retry_wait db (schedule_retry now p code message db).1
unfolding schedule_retry
schedule_retry-Failed now p code message db = mark_retry-Failed now p.id code message _ db

local-Failed :
    {A : Type 0} {id : String} {status : SyncStatus} (sqlite : Fault) (m : Local A) (db : Db)
    → Failed id status db (m db).1
    → Failed id status db (local sqlite m db).1
local-Failed sqlite m db h = rw (local-state sqlite m db) h

-- The failures after which a job is not tried again.
abbrev pub is_permanent : PendingRow → Fault → Bool
is_permanent p (api status code retryable message) =
    not (expired_session code) && is_final status retryable
is_permanent p (system code message) =
    (code == "ENOENT" && is_upsert p.operation) || code == "FILE_TOO_LARGE"

-- The failures that are conflicts with the cloud.
abbrev pub is_conflicting : Fault → Bool
is_conflicting (api status code retryable message) =
    not (expired_session code) && is_conflict_answer status code
is_conflicting (system code message) = false

fails :
    (now : ℕ) (w : World) (p : PendingRow) (e : Fault) (db : Db)
    → is_conflicting e ≡ false
    → Failed p.id
        (if is_permanent p e then error else retry_wait)
        db
        (handle_processing_error now w p e db).1
unfolding handle_processing_error
fails now w p (api status code retryable message) db h = elim (Bool-cases (expired_session code)) [
  | inl x ↦ rw x (local-Failed w.sqlite _ db (mark_retry-Failed now p.id code message _ db))
  | inr x ↦
      let no_conflict = (rw x at h) in
      rw (x, no_conflict)
        (elim (Bool-cases (is_final status retryable)) [
          | inl f ↦ rw f (local-Failed w.sqlite _ db (mark_error-Failed now p.id code message db))
          | inr f ↦ rw f (local-Failed w.sqlite _ db (schedule_retry-Failed now p code message db))
        ])
]
fails now w p (system code message) db h =
    elim (Bool-cases (code == "ENOENT" && is_upsert p.operation)) [
      | inl x ↦ rw x (local-Failed w.sqlite _ db (mark_error-Failed now p.id _ _ db))
      | inr x ↦ rw x (elim (Bool-cases (code == "FILE_TOO_LARGE")) [
        | inl f ↦ rw f (local-Failed w.sqlite _ db (mark_error-Failed now p.id _ _ db))
        | inr f ↦ rw f (local-Failed w.sqlite _ db (schedule_retry-Failed now p code message db))
      ])
    ]

-- Where processing a job throws something that is no conflict with the cloud, runPending leaves what is known
-- of every file's cloud version, every recorded version and every other job as they were when it
-- threw, and marks the job ERROR where the failure is permanent and RETRY_WAIT where it is not.
pub run_pending-Failed :
    (now : ℕ) (w : World) (p : PendingRow) (db : Db) {e : Fault} {s : Db}
    → process now w p p.operation db ≡ (err e, s)
    → is_conflicting e ≡ false
    → Failed p.id (if is_permanent p e then error else retry_wait) s (run_pending now w p db).1
unfolding run_pending attempt
run_pending-Failed now w p db {e} {s} thrown h = rw thrown (fails now w p e s h)
