-- ===== src/Engine.antt =====
-- src/main/sync-engine.ts: the dispatch of the jobs (processOne), and the waiting time before a retry.
pub mod Task
pub mod Ready
pub mod Conflict
pub mod Process
pub mod Jobs
pub mod Actions
pub mod Group
pub mod Pull
pub mod Settled
pub mod Exclusive
pub mod Delay
pub mod Drain
mod Tests
use excel_sync.Base.{
  ℕ, zero, suc, String, Bool, true, false, ◌&&◌, ◌||◌, not, Option, none, some, List, [], ◌∷◌, map,
  length, remove, ◌==◌, string_eq, eqb, ◌+◌, ◌-◌, ◌*◌, ◌%◌, ◌^◌, min, max, if◌then◌else◌,
}
use excel_sync.Local.Schema.{PendingRow, Db}
use excel_sync.Local.Statements.{Local}
use excel_sync.Local.Marks.{mark_uploading, mark_retry}
use excel_sync.Local.Dispatch.{next_ready_pending}
use excel_sync.Local.Calls.{Call, perform}

-- A running job and its file, as activeJobs and activeFiles hold them.
pub record Job : Type 0 where
  pub id : String
  pub file_id : String

pub record Engine : Type 0 where
  pub db : Db
  pub active : List Job
  pub dispatch_counter : ℕ
  pub paused : Bool
  pub stopped : Bool
  pub cloud_access_enabled : Bool
  pub shutdown_draining : Bool

abbrev pub max_concurrent_jobs : ℕ
max_concurrent_jobs = 3

abbrev pub active_files : Engine → List String
active_files e = map (λ j. j.file_id) e.active

-- The body of the loop. It runs to its end at once: nothing in it is awaited.
start : ℕ → Engine → Option PendingRow → Engine
start now e none = e
start now e (some p) = record e {
  db = (mark_uploading now p.id e.db).1;
  active = record { id = p.id; file_id = p.file_id } ∷ e.active;
}

-- `this.dispatchCounter += 1`
abbrev pub count_up : Engine → Engine
count_up e = record e { dispatch_counter = e.dispatch_counter + 1 }

-- Every tenth time the oldest job is preferred.
abbrev pub choose : ℕ → Engine → Option PendingRow
choose now e = next_ready_pending now (active_files e) (eqb (e.dispatch_counter % 10) 0) e.db

unfoldable pub dispatch : ℕ → Engine → Engine
unfolding start
dispatch now e = start now (count_up e) (choose now (count_up e))

-- `while (this.activeJobs.size < this.maxConcurrentJobs)`. A round that starts no job changes nothing
-- but the counter, and the source stops there: `slots` rounds are enough.
unfoldable pub pump : ℕ → ℕ → Engine → Engine
pump now zero e = e
pump now (suc slots) e =
    let next = dispatch now e in
    let rest = pump now slots next in
    if eqb (length next.active) (length e.active) then next else rest

-- `can_sync` is the answer of canSyncCloud.
unfoldable pub process_one : ℕ → Bool → Engine → Engine
process_one now can_sync e =
    if e.paused || e.stopped || not e.cloud_access_enabled || e.shutdown_draining || not can_sync
    then e
    else pump now (max_concurrent_jobs - length e.active) e

-- The `finally` of a job.
unfoldable pub finish : Job → Engine → Engine
finish j e = record e { active = remove (λ k. k.id == j.id || k.file_id == j.file_id) e.active }

-- What happens to the engine: a dispatch, the end of a job, a call on the database by a running job,
-- the watcher or the user, and a change of the flags.
pub data Event : Type 0 where
  dispatches : ℕ → Bool → Event
  finishes : Job → Event
  calls : Call → Event
  flags : Bool → Bool → Bool → Bool → Event

unfoldable pub step : Event → Engine → Engine
step (dispatches now can_sync) e = process_one now can_sync e
step (finishes j) e = finish j e
step (calls c) e = record e { db = perform c e.db }
step (flags paused stopped enabled draining) e = record e {
  paused = paused;
  stopped = stopped;
  cloud_access_enabled = enabled;
  shutdown_draining = draining;
}

unfoldable pub run : List Event → Engine → Engine
run [] e = e
run (x ∷ xs) e = run xs (step x e)

-- The wait of scheduleRetry, in seconds. `attempt_count` is what the job had when it was dispatched.
unfoldable pub delay_seconds : ℕ → ℕ → ℕ
delay_seconds base attempt_count =
    let attempt = max 1 (attempt_count + 1) in min 3600 (base * 2 ^ min 8 (attempt - 1))

unfoldable pub schedule_retry : ℕ → PendingRow → String → String → Local (Unit {0})
schedule_retry now p code message db =
    mark_retry now p.id code message
      (now + delay_seconds db.settings.retry_base_seconds p.attempt_count * 1000) db
