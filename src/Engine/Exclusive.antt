-- ===== src/Engine/Exclusive.antt =====
-- src/main/sync-engine.ts, processOne: no two running jobs have the same file.
use excel_sync.Base.{
  ℕ, zero, suc, String, Bool, true, false, ◌||◌, not, Option, none, some, List, [], ◌∷◌, map,
  length, remove, ◌==◌, string_eq, ◌≡◌, refl, ◌≢◌, ◌≤◌, ◌+◌, ◌-◌, ◌%◌, eqb, arith, Bool-cases, inl,
  inr, All, All-remove, and-right,
}
use excel_sync.Local.Schema.{PendingRow, Db}
use excel_sync.Local.Dispatch.{next_ready_pending, member}
use excel_sync.Local.Dispatch.Choice.{next_ready_pending-IsChoice}
use excel_sync.Engine.{
  Job, Engine, start, count_up, choose, dispatch, pump, process_one, finish, Event, dispatches,
  finishes, calls, flags, step, run, max_concurrent_jobs,
}

abbrev pub Apart : List Job → Type 0
Apart [] = Unit
Apart (j ∷ js) = All (λ k. j.file_id ≢ k.file_id) js × Apart js

-- At most three jobs run, and no two of them have the same file.
pub record IsExclusive (e : Engine) : Type 0 where
  pub apart : Apart e.active
  pub few : length e.active ≤ max_concurrent_jobs

Apart-remove : (p : Job → Bool) (js : List Job) → Apart js → Apart (remove p js)
Apart-remove p [] h = tt
Apart-remove p (j ∷ js) (a, h) = elim (Bool-cases (p j)) [
  | inl e ↦ rw e (Apart-remove p js h)
  | inr e ↦ rw e (All-remove (λ k. j.file_id ≢ k.file_id) p js a, Apart-remove p js h)
]

length-remove : (p : Job → Bool) (js : List Job) → length (remove p js) ≤ length js
length-remove p [] = omega arith
length-remove p (j ∷ js) = elim (Bool-cases (p j)) [
  | inl e ↦ rw e (let h = length-remove p js in omega arith)
  | inr e ↦ rw e (let h = length-remove p js in omega arith)
]

contradiction : {A : Type 0} → true ≡ false → A
contradiction e = ground arith

differ : (s t : String) → (s == t) ≡ false → t ≢ s
differ s t e q = ground arith

not-false : (b : Bool) → not b ≡ true → b ≡ false
not-false b h = ground arith

not_member :
    (id : String) (js : List Job)
    → member id (map (λ j. j.file_id) js) ≡ false
    → All (λ k. id ≢ k.file_id) js
not_member id [] h = tt
not_member id (j ∷ js) h = elim (Bool-cases (j.file_id == id)) [
  | inl e ↦ contradiction (rw e at h)
  | inr e ↦ (differ j.file_id id e, not_member id js (rw e at h))
]

chosen_apart :
    (now : ℕ) (js : List Job) (oldest : Bool) (db : Db) {p : PendingRow}
    → next_ready_pending now (map (λ j. j.file_id) js) oldest db ≡ some p
    → All (λ k. p.file_id ≢ k.file_id) js
chosen_apart now js oldest db {p} e =
    let c = rw e at (next_ready_pending-IsChoice now (map (λ j. j.file_id) js) oldest db) in
    not_member p.file_id js (not-false _ (and-right _ _ c.1))

start-IsExclusive :
    (now : ℕ) (e : Engine) (o : Option PendingRow)
    → IsExclusive e
    → length e.active ≤ 2
    → ((p : PendingRow) → o ≡ some p → All (λ k. p.file_id ≢ k.file_id) e.active)
    → IsExclusive (start now e o)
unfolding start
start-IsExclusive now e none h l k = h
start-IsExclusive now e (some p) h l k = record { apart = (k p refl, h.apart); few = omega arith }

dispatch-IsExclusive :
    (now : ℕ) (e : Engine) → IsExclusive e → length e.active ≤ 2 → IsExclusive (dispatch now e)
unfolding dispatch
dispatch-IsExclusive now e h l =
    start-IsExclusive now (count_up e) (choose now (count_up e))
      (record { apart = h.apart; few = h.few }) l
      λ p q. chosen_apart now e.active (eqb ((e.dispatch_counter + 1) % 10) 0) e.db q

start-grows :
    (now : ℕ) (e : Engine) (o : Option PendingRow)
    → length (start now e o).active ≤ suc (length e.active)
unfolding start
start-grows now e none = omega arith
start-grows now e (some p) = omega arith

dispatch-grows : (now : ℕ) (e : Engine) → length (dispatch now e).active ≤ suc (length e.active)
unfolding dispatch
dispatch-grows now e = start-grows now (count_up e) (choose now (count_up e))

pump-IsExclusive :
    (now slots : ℕ) (e : Engine)
    → IsExclusive e
    → slots + length e.active ≤ max_concurrent_jobs
    → IsExclusive (pump now slots e)
unfolding pump
pump-IsExclusive now zero e h l = h
pump-IsExclusive now (suc slots) e h l =
    let next = dispatch-IsExclusive now e h (omega arith) in
    elim (Bool-cases (eqb (length (dispatch now e).active) (length e.active))) [
      | inl q ↦ rw q next
      | inr q ↦ rw q (
          let g = dispatch-grows now e in
          pump-IsExclusive now slots (dispatch now e) next (omega arith))
    ]

process_one-IsExclusive :
    (now : ℕ) (can_sync : Bool) (e : Engine)
    → IsExclusive e
    → IsExclusive (process_one now can_sync e)
unfolding process_one
process_one-IsExclusive now can_sync e h =
    elim (Bool-cases (
      e.paused || e.stopped || not e.cloud_access_enabled || e.shutdown_draining || not can_sync)) [
        | inl q ↦ rw q h
        | inr q ↦ rw q (
            let f = h.few in
            pump-IsExclusive now (max_concurrent_jobs - length e.active) e h (omega arith))
      ]

step-IsExclusive : (x : Event) (e : Engine) → IsExclusive e → IsExclusive (step x e)
unfolding step finish
step-IsExclusive (dispatches now can_sync) e h = process_one-IsExclusive now can_sync e h
step-IsExclusive (finishes j) e h =
    let l = length-remove (λ k. k.id == j.id || k.file_id == j.file_id) e.active in
    let f = h.few in
    record {
      apart = Apart-remove (λ k. k.id == j.id || k.file_id == j.file_id) e.active h.apart;
      few = omega arith;
    }
step-IsExclusive (calls c) e h = record { apart = h.apart; few = h.few }
step-IsExclusive (flags paused stopped enabled draining) e h = record {
  apart = h.apart;
  few = h.few;
}

-- Whatever happens to the engine, in any order (dispatches, ends of jobs, calls on the database,
-- pauses): if at most three jobs run and no two of them have the same file, then so it stays.
pub run-IsExclusive : (xs : List Event) (e : Engine) → IsExclusive e → IsExclusive (run xs e)
unfolding run
run-IsExclusive [] e h = h
run-IsExclusive (x ∷ xs) e h = run-IsExclusive xs (step x e) (step-IsExclusive x e h)
