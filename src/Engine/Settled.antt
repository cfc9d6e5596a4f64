-- ===== src/Engine/Settled.antt =====
-- src/main/sync-engine.ts, runPending: the job that was run is marked as uploading no longer.
pub mod Errors
pub mod Failed
use excel_sync.Base.{
  ℕ, String, Bool, true, false, ◌&&◌, ◌||◌, not, Option, none, some, List, [], ◌∷◌, ◌++◌, ◌==◌,
  string_eq, ◌≡◌, refl, ◌∙◌, sym, arith, any, update, remove, if◌then◌else◌, Result, ok, err,
  modify, gets, pure, ◌>>=◌, ◌>>◌, when_some, transaction, throw, attempt, Action, Bool-cases, inl,
  inr, ==_iff, any-update,
}
use excel_sync.Base.Outcome.Keeps.{
  Keeps, Keeps-modify, Keeps-attempt, Keeps-throw, Keeps-bind, keeps_rules,
}
use excel_sync.Base.Outcome.Ensures.{
  Ensures, Ensures-bind, Ensures-guard, Ensures-require, Ensures-imp, Ensures-gets, Ensures-Keeps,
  Ensures-known,
}
use excel_sync.Local.Schema.{
  SyncStatus, Operation, upsert, FileRow, PendingRow, Db, DbError, is_uploading, pending_with_id,
  file_with_id, has_file, retry_wait, conflict, error,
}
use excel_sync.Local.Statements.{Local, update_pending, log}
use excel_sync.Local.Queue.{set_status}
use excel_sync.Local.Marks.{
  owner, mark_retry, mark_error, mark_conflict, mark_synced, set_owner_status,
}
use excel_sync.Local.Files.{upsert_state}
use excel_sync.Local.Presence.{update_cloud_state}
use excel_sync.Local.Statements.{put_state}
use excel_sync.Engine.{schedule_retry}
use excel_sync.Engine.Task.{Fault, local}

abbrev pub is_running : String → PendingRow → Bool
is_running id p = pending_with_id id p && is_uploading p.status

pub record Settled (id : String) (db : Db) : Type 0 where
  pub idle : any (is_running id) db.pendings ≡ false

update-idle :
    (id : String) (f : PendingRow → PendingRow) (ps : List PendingRow)
    → ((p : PendingRow) → is_uploading (f p).status ≡ false)
    → any (is_running id) (update (pending_with_id id) f ps) ≡ false
update-idle id f [] k = refl
update-idle id f (p ∷ ps) k = ground (arith, k p, update-idle id f ps k)

remove-idle :
    (id : String) (ps : List PendingRow)
    → any (is_running id) (remove (pending_with_id id) ps) ≡ false
remove-idle id [] = refl
remove-idle id (p ∷ ps) = ground (arith, remove-idle id ps)

same_jobs-Keeps :
    {id : String} (f : Db → Db)
    → ((db : Db) → (f db).pendings ≡ db.pendings)
    → Keeps {E = DbError} (Settled id) (modify f)
same_jobs-Keeps f k = Keeps-modify f λ db h. record { idle = rw (k db) h.idle }

-- Whatever the state before, the job is settled after.
abbrev Settles : {E A : Type 0} → String → Action Db E A → Type 0
Settles id m = (db : Db) → Settled id (m db).1

pub same_pendings :
    (now : ℕ) (event : String) (file detail : Option String) (db : Db)
    → (log now event file detail db).1.pendings ≡ db.pendings
unfolding log modify throw
same_pendings now event file detail db = ground arith

pub same_files :
    (now : ℕ) (event : String) (file detail : Option String) (db : Db)
    → (log now event file detail db).1.files ≡ db.files
unfolding log modify throw
same_files now event file detail db = ground arith

pub same_versions :
    (now : ℕ) (event : String) (file detail : Option String) (db : Db)
    → (log now event file detail db).1.versions ≡ db.versions
unfolding log modify throw
same_versions now event file detail db = ground arith

pub log-Settled :
    {id : String} (now : ℕ) (event : String) (file detail : Option String)
    → Keeps (Settled id) (log now event file detail)
unfolding log modify throw
log-Settled now event file detail = record {
  at = λ db h. record { idle = rw (same_pendings now event file detail db) h.idle };
}

announced :
    {id : String} (now : ℕ) (status : SyncStatus) (found : Option PendingRow) (event : String)
    (detail : Option String)
    → Keeps
        (Settled id)
        (set_owner_status now status found >>= λ _. log now event (owner found) detail)
unfolding set_owner_status set_status
announced now status found event detail =
    search (keeps_rules, same_jobs-Keeps, log-Settled) depth 12

pub mark_retry-Settles :
    (now : ℕ) (id code message : String) (retry_at : ℕ)
    → Settles id (mark_retry now id code message retry_at)
unfolding mark_retry ◌>>=◌
mark_retry-Settles now id code message retry_at db =
    (announced now retry_wait _ "RETRY_WAIT" _).at _
      (record { idle = update-idle id _ db.pendings (λ p. refl) })

pub mark_error-Settles :
    (now : ℕ) (id code message : String) → Settles id (mark_error now id code message)
unfolding mark_error ◌>>=◌
mark_error-Settles now id code message db =
    (announced now error _ "ERROR" _).at _
      (record { idle = update-idle id _ db.pendings (λ p. refl) })

pub mark_conflict-Settles :
    (now : ℕ) (id detail : String) → Settles id (mark_conflict now id detail)
unfolding mark_conflict ◌>>=◌
mark_conflict-Settles now id detail db =
    (announced now conflict _ "CONFLICT" _).at _
      (record { idle = update-idle id _ db.pendings (λ p. refl) })

pub record Known (file_id : String) (db : Db) : Type 0 where
  pub known : has_file file_id db ≡ true

pub log-Known :
    {file_id : String} (now : ℕ) (event : String) (file detail : Option String)
    → Keeps (Known file_id) (log now event file detail)
unfolding log modify throw
log-Known now event file detail = record {
  at = λ db h. record { known = rw (same_files now event file detail db) h.known };
}

pub upsert_state-Known :
    {file_id : String} (now : ℕ) (id : String) (size mtime : ℕ) (hash : Option String) (here : Bool)
    → Keeps (Known file_id) (upsert_state now id size mtime hash here)
unfolding upsert_state put_state modify throw
upsert_state-Known now id size mtime hash here = record {
  at = λ db h. record { known = ground (arith, h.known) };
}

pub update_cloud_state-Known :
    {file_id : String} (now : ℕ) (id : String) (version : ℕ) (hash : Option String)
    (status : SyncStatus)
    → Keeps (Known file_id) (update_cloud_state now id version hash status)
unfolding update_cloud_state
update_cloud_state-Known {file_id} now id version hash status = Keeps-modify _ λ db h. record {
  known = any-update (file_with_id file_id) (file_with_id id) _ db.files (λ f. refl) ∙ h.known;
}

-- The outcome is a value.
abbrev pub Returns : {E A : Type 0} → Result E A × Db → Type 0
Returns (ok a, db) = Unit
Returns (err e, db) = ⊥

pub log-Returns :
    (now : ℕ) (event file : String) (detail : Option String) (db : Db)
    → Known file db
    → Returns (log now event (some file) detail db)
unfolding log modify throw
log-Returns now event file detail db h = rw h.known tt

pub local-Keeps :
    {A : Type 0} {P : Db → Type 0} (sqlite : Fault) (m : Local A)
    → Keeps P m
    → Keeps P (local sqlite m)
unfolding local
local-Keeps sqlite m h = Keeps-attempt m _ h λ e. Keeps-throw _
