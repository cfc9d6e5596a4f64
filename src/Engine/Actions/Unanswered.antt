-- ===== src/Engine/Actions/Unanswered.antt =====
-- src/main/sync-engine.ts: what a request of the user writes when the Worker does not answer it.
use excel_sync.Base.{
  ℕ, String, Bool, true, false, Option, none, some, List, ◌≡◌, refl, ◌⊎◌, inl, Result, ok, err,
  continue, ◌>>=◌, gets, require, guard,
}
use excel_sync.Local.Schema.{Db}
use excel_sync.Local.Files.{RemoteInput}
use excel_sync.Local.Calls.{Call, run}
use excel_sync.Engine.Task.{Fault, Task, Await}
use excel_sync.Engine.Ready.{Found}
use excel_sync.Engine.Conflict.{World}
use excel_sync.Engine.Actions.{
  Fetch, Choice, restore, resolve_conflict, restore_local_copy, trash_saas_file, permanently_delete,
  restore_trash,
}

-- The task fails, and the database is as it was or as others made it while the engine awaited the answer.
abbrev pub Untouched : {A : Type 0} → List Call → Db → Result Fault A × Db → Type 0
Untouched calls db (ok a, after) = ⊥
Untouched calls db (err e, after) = (after ≡ db) ⊎ (after ≡ run calls db)

pub record Unwritten {A : Type 0} (calls : List Call) (m : Task A) : Type 0 where
  pub at : (db : Db) → Untouched calls db (m db)

module _ {A B : Type 0} (calls : List Call) where
  continue-Untouched :
      (k : A → Task B) (r : Result Fault A × Db) (db : Db)
      → Untouched calls db r
      → Untouched calls db (continue k r)
  continue-Untouched k (ok a, after) db h = absurd h
  continue-Untouched k (err e, after) db h = h

  bind-Unwritten : (m : Task A) (k : A → Task B) → Unwritten calls m → Unwritten calls (m >>= k)
  unfolding ◌>>=◌
  bind-Unwritten m k h = record { at = λ db. continue-Untouched k (m db) db (h.at db) }

  gets-Unwritten :
      (f : Db → A) (k : A → Task B)
      → ((a : A) → Unwritten calls (k a))
      → Unwritten calls (gets f >>= k)
  unfolding ◌>>=◌ gets
  gets-Unwritten f k h = record { at = λ db. (h (f db)).at db }

  require-Unwritten :
      (o : Option A) (e : Fault) (k : A → Task B)
      → ((a : A) → Unwritten calls (k a))
      → Unwritten calls (require o e >>= k)
  unfolding ◌>>=◌
  require-Unwritten none e k h = record { at = λ db. inl refl }
  require-Unwritten (some a) e k h = record { at = λ db. (h a).at db }

module _ {B : Type 0} (calls : List Call) where
  guard-Unwritten :
      (b : Bool) (e : Fault) (k : Unit {0} → Task B)
      → ((u : Unit {0}) → Unwritten calls (k u))
      → Unwritten calls (guard b e >>= k)
  unfolding ◌>>=◌
  guard-Unwritten true e k h = record { at = λ db. (h tt).at db }
  guard-Unwritten false e k h = record { at = λ db. inl refl }

ruleset unwritten_rules = (bind-Unwritten, gets-Unwritten, require-Unwritten, guard-Unwritten)

-- What the user asks of the engine, with the Worker's answer.
pub data UserRequest : Type 0 where
  trashes deletes : Await (Unit {0}) → String → UserRequest
  restores_trash : Await RemoteInput → Option Found → UserRequest
  restores_copy : Fetch → Option String → String → UserRequest
  resolves : Fetch → String → Choice → UserRequest
  restores_version : Fetch → World → String → Option String → ℕ → String → Await Bool → UserRequest

unfoldable pub serve_user : ℕ → Fault → UserRequest → Task (Unit {0})
serve_user now sqlite (trashes a id) = trash_saas_file now sqlite a id
serve_user now sqlite (deletes a id) = permanently_delete now sqlite a id
serve_user now sqlite (restores_trash a found) = restore_trash now sqlite a found
serve_user now sqlite (restores_copy w path id) = restore_local_copy now w path id
serve_user now sqlite (resolves w id choice) = resolve_conflict now w id choice
serve_user now sqlite (restores_version w job fresh path version id can_sync) =
    restore now w job fresh path version id can_sync

abbrev pub awaited : UserRequest → List Call
awaited (trashes a id) = a.meanwhile
awaited (deletes a id) = a.meanwhile
awaited (restores_trash a found) = a.meanwhile
awaited (restores_copy w path id) = w.remote.meanwhile
awaited (resolves w id choice) = w.remote.meanwhile
awaited (restores_version w job fresh path version id can_sync) = w.remote.meanwhile

-- The Worker's answer is an error.
abbrev pub IsUnanswered : UserRequest → Fault → Type 0
IsUnanswered (trashes a id) e = a.outcome ≡ err e
IsUnanswered (deletes a id) e = a.outcome ≡ err e
IsUnanswered (restores_trash a found) e = a.outcome ≡ err e
IsUnanswered (restores_copy w path id) e = w.remote.outcome ≡ err e
IsUnanswered (resolves w id choice) e = w.remote.outcome ≡ err e
IsUnanswered (restores_version w job fresh path version id can_sync) e = w.remote.outcome ≡ err e
