-- ===== src/Engine/Delay.antt =====
-- src/main/sync-engine.ts, scheduleRetry: how long a job waits.
use excel_sync.Base.{
  ℕ, zero, suc, String, Bool, false, ◌&&◌, List, ◌≡◌, refl, ◌≤◌, ◌<◌, ◌+◌, ◌*◌, ◌-◌, ◌^◌, min, max,
  arith, All, [], ◌∷◌, Option, some, clip, ◌==◌, string_eq, modify, throw, ◌>>=◌, update,
  Bool-cases, inl, inr, leb, ltb, ◌⊎◌,
}
use excel_sync.Local.Schema.{PendingRow, Db, pending_with_id, retry_wait, SyncStatus}
use excel_sync.Local.Statements.{log, get_pending}
use excel_sync.Local.Queue.{set_status}
use excel_sync.Base.Outcome.Keeps.{Keeps, Keeps-when_some, Keeps-pure, Keeps-modify, Keeps-bind}
use excel_sync.Local.Dispatch.{is_ready}
use excel_sync.Local.Marks.{mark_retry, set_owner_status}
use excel_sync.Engine.{delay_seconds, schedule_retry}

doubled : (b a : ℕ) → b ≤ b * 2 ^ a
doubled b zero = omega arith
doubled b (suc a) = let h = doubled b a in grind arith

twice : (b k : ℕ) → b * 2 ^ k ≤ b * 2 ^ suc k
twice b k = grind arith

exponent : ℕ → ℕ
exponent n = min 8 (max 1 (n + 1) - 1)

exponent_grows : (n : ℕ) → (exponent (suc n) ≡ exponent n) ⊎ (exponent (suc n) ≡ suc (exponent n))
unfolding exponent
exponent_grows n = elim (Bool-cases (ltb n 8)) [
  | inl e ↦ inr (ground arith)
  | inr e ↦ inl (ground arith)
]

delay_grows :
    (base n : ℕ) → min 3600 (base * 2 ^ exponent n) ≤ min 3600 (base * 2 ^ exponent (suc n))
delay_grows base n = elim (exponent_grows n) [
  | inl e ↦ rw e (omega arith)
  | inr e ↦ rw e (let t = twice base (exponent n) in omega arith)
]

-- For a base of at most an hour the wait before a retry is at least the base and at most an hour, and
-- does not get shorter with one more attempt.
pub delay_seconds-bounds :
    (base attempts : ℕ)
    → base ≤ 3600
    → (base ≤ delay_seconds base attempts)
      × (delay_seconds base attempts ≤ 3600)
      × (delay_seconds base attempts ≤ delay_seconds base (suc attempts))
unfolding delay_seconds exponent
delay_seconds-bounds base attempts h =
    let d = doubled base (exponent attempts) in
    (omega arith, omega arith, delay_grows base attempts)

-- The job waits at the time `later`.
abbrev IsWaiting : String → ℕ → Db → Type 0
IsWaiting id later db = All (λ q. (pending_with_id id q && is_ready later [] q) ≡ false) db.pendings

-- A row of the job, as markRetry leaves it.
abbrev retried : ℕ → String → String → ℕ → PendingRow → PendingRow
retried now code message retry_at q = record q {
  status = retry_wait;
  next_retry_at = some retry_at;
  error_code = some code;
  error_message = some (clip 1000 message);
  updated_at = now;
}

not_due : (later retry_at : ℕ) → later < retry_at → leb retry_at later ≡ false
not_due later retry_at h = ground arith

and_false : (b : Bool) → (b && false) ≡ false
and_false b = ground arith

All-waiting :
    (now later retry_at : ℕ) (id code message : String) (ps : List PendingRow)
    → later < retry_at
    → All
        (λ q. (pending_with_id id q && is_ready later [] q) ≡ false)
        (update (pending_with_id id) (retried now code message retry_at) ps)
All-waiting now later retry_at id code message [] h = tt
All-waiting now later retry_at id code message (q ∷ ps) h =
    elim (Bool-cases (pending_with_id id q)) [
      | inl e ↦ rw e (
        rw (not_due later retry_at h) (and_false (q.id == id)),
        All-waiting now later retry_at id code message ps h,
      )
      | inr e ↦ rw e (rw e refl, All-waiting now later retry_at id code message ps h)
    ]

log-pendings :
    (now : ℕ) (event : String) (file detail : Option String) (db : Db)
    → (log now event file detail db).1.pendings ≡ db.pendings
unfolding log modify throw
log-pendings now event file detail db = ground arith

log-IsWaiting :
    (id : String) (later now : ℕ) (event : String) (file detail : Option String)
    → Keeps (IsWaiting id later) (log now event file detail)
log-IsWaiting id later now event file detail = record {
  at = λ db h. rw (log-pendings now event file detail db) h;
}

set_owner_status-IsWaiting :
    (id : String) (later now : ℕ) (s : SyncStatus) (o : Option PendingRow)
    → Keeps (IsWaiting id later) (set_owner_status now s o)
unfolding set_owner_status set_status
set_owner_status-IsWaiting id later now s o =
    Keeps-when_some _ _ _ (Keeps-pure _) λ _. Keeps-modify _ λ _ h. h

-- A job for which a retry was scheduled is not ready before its wait is over.
pub schedule_retry-waits :
    (now later : ℕ) (p : PendingRow) (code message : String) (db : Db)
    → later < now + delay_seconds db.settings.retry_base_seconds p.attempt_count * 1000
    → All
        (λ q. (pending_with_id p.id q && is_ready later [] q) ≡ false)
        (schedule_retry now p code message db).1.pendings
unfolding schedule_retry mark_retry ◌>>=◌
schedule_retry-waits now later p code message db h =
    (Keeps-bind _ _ (set_owner_status-IsWaiting p.id later now retry_wait (get_pending p.id db))
        λ _. log-IsWaiting p.id later now _ _ _).at
      _ (All-waiting now later _ p.id code message db.pendings h)
