-- ===== src/Engine/Drain.antt =====
-- src/main/sync-engine.ts, processOne: no ready job is left behind while there is room.
use excel_sync.Base.{
  ℕ, zero, suc, Bool, true, false, ◌||◌, not, none, some, ◌≡◌, ◌+◌, ◌-◌, ◌%◌, ◌⊎◌, inl, inr, length,
  eqb, Option-cases, All, arith, ◌≤◌,
}
use excel_sync.Local.Dispatch.{is_ready}
use excel_sync.Local.Dispatch.Choice.{next_ready_pending-IsChoice}
use excel_sync.Engine.{
  Engine, active_files, start, count_up, choose, dispatch, pump, process_one, max_concurrent_jobs,
}

-- All places are taken, or no job is ready whose file is free.
abbrev pub IsDrained : ℕ → Engine → Type 0
IsDrained now e =
    (length e.active ≡ max_concurrent_jobs)
    ⊎ All (λ q. is_ready now (active_files e) q ≡ false) e.db.pendings

same_length : (n : ℕ) → eqb (suc n) n ≡ false
same_length n = ground arith

eqb_refl : (n : ℕ) → eqb n n ≡ true
eqb_refl n = ground arith

none_ready :
    (now : ℕ) (e : Engine)
    → choose now (count_up e) ≡ none
    → All (λ q. is_ready now (active_files e) q ≡ false) e.db.pendings
none_ready now e c =
    rw c at (
      next_ready_pending-IsChoice now (active_files e) (eqb ((e.dispatch_counter + 1) % 10) 0) e.db)

pump-IsDrained :
    (now slots : ℕ) (e : Engine)
    → slots + length e.active ≡ max_concurrent_jobs
    → IsDrained now (pump now slots e)
unfolding pump dispatch start
pump-IsDrained now zero e h = inl (omega arith)
pump-IsDrained now (suc slots) e h = elim (Option-cases (choose now (count_up e))) [
  | inl c ↦ rw (c, eqb_refl (length e.active)) (inr (none_ready now e c))
  | inr (p, c) ↦
      rw (c, same_length (length e.active))
        (pump-IsDrained now slots (start now (count_up e) (some p)) (omega arith))
]

open_now : (a b c d : Bool) → (a || b || c || d) ≡ false → (a || b || c || d || not true) ≡ false
open_now a b c d h = ground arith

-- Where an engine that runs at most three jobs is not paused, stopped or draining and may reach the
-- cloud, a dispatch ends with three running jobs or with no ready job whose file is free.
pub process_one-IsDrained :
    (now : ℕ) (e : Engine)
    → (e.paused || e.stopped || not e.cloud_access_enabled || e.shutdown_draining) ≡ false
    → length e.active ≤ max_concurrent_jobs
    → IsDrained now (process_one now true e)
unfolding process_one
process_one-IsDrained now e h l =
    rw (open_now e.paused e.stopped (not e.cloud_access_enabled) e.shutdown_draining h)
      (pump-IsDrained now (max_concurrent_jobs - length e.active) e (omega arith))
