-- ===== src/Local/Sound/Files.antt =====
-- The methods on files keep the invariant of the queue.
use excel_sync.Base.{
  ℕ, String, ◌≡◌, refl, Bool, Option, none, some, ◌≤◌, arith, modify, inl, inr, Bool-cases,
}
use excel_sync.Base.Outcome.Keeps.{Keeps, Keeps-modify, keeps_rules}
use excel_sync.Local.Schema.{SyncStatus, FileRow, StateRow, PendingRow, DbError}
use excel_sync.Local.Statements.{update_file, remove_pendings, remove_files, update_state}
use excel_sync.Local.Files.{
  FileInput, RemoteInput, upsert_state, ensure_waiting_file, ensure_file, rename_file,
  upsert_remote_metadata, mark_cloud_trashed, mark_cloud_deleted,
}
use excel_sync.Local.Presence.{
  upsert_remote_file, remove_unsynced_file, mark_missing, update_cloud_state, set_favorite,
  mark_opened,
}
use excel_sync.Local.Sound.{
  IsSound, same_tables, update_file-IsSound, update_pendings-IsSound, remove_pendings-IsSound,
  remove_files-IsSound, insert_file-Keeps, move_file-Keeps, insert_state-Keeps, put_state-Keeps,
  put_version-Keeps, log-Keeps,
}

pub modify_file-Keeps :
    (id : String) (f : FileRow → FileRow)
    → ((x : FileRow) → (f x).id ≡ x.id)
    → Keeps {E = DbError} IsSound (modify (update_file id f))
modify_file-Keeps id f keep = Keeps-modify (update_file id f) (update_file-IsSound id f keep)

pub modify_state-Keeps :
    (id : String) (f : StateRow → StateRow)
    → Keeps {E = DbError} IsSound (modify (update_state id f))
modify_state-Keeps id f = Keeps-modify (update_state id f) (λ db h. same_tables refl refl h)

pub remove_pendings-Keeps :
    (p : PendingRow → Bool) → Keeps {E = DbError} IsSound (modify (remove_pendings p))
remove_pendings-Keeps p = Keeps-modify (remove_pendings p) (remove_pendings-IsSound p)

pub remove_files-Keeps :
    (p : FileRow → Bool) → Keeps {E = DbError} IsSound (modify (remove_files p))
remove_files-Keeps p = Keeps-modify (remove_files p) (remove_files-IsSound p)

pub ruleset statement_rules = (
  keeps_rules, insert_file-Keeps, move_file-Keeps, insert_state-Keeps, put_state-Keeps,
  put_version-Keeps, log-Keeps, modify_file-Keeps, modify_state-Keeps, remove_pendings-Keeps,
  remove_files-Keeps, refl,
)

pub mark_opened-Keeps : (now : ℕ) (id : String) → Keeps IsSound (mark_opened now id)
unfolding mark_opened
mark_opened-Keeps now id = search statement_rules

pub remove_unsynced_file-Keeps : (id : String) → Keeps IsSound (remove_unsynced_file id)
unfolding remove_unsynced_file
remove_unsynced_file-Keeps id = search statement_rules

pub rename_file-Keeps :
    (now : ℕ) (id : String) (input : FileInput) → Keeps IsSound (rename_file now id input)
unfolding rename_file
rename_file-Keeps now id input = search statement_rules depth 8

pub upsert_state-Keeps :
    (now : ℕ) (id : String) (size mtime : ℕ) (hash : Option String) (here : Bool)
    → Keeps IsSound (upsert_state now id size mtime hash here)
unfolding upsert_state
upsert_state-Keeps now id size mtime hash here = search statement_rules

pub ensure_waiting_file-Keeps :
    (now : ℕ) (fresh : String) (input : FileInput) (size mtime : ℕ)
    → Keeps IsSound (ensure_waiting_file now fresh input size mtime)
unfolding ensure_waiting_file
ensure_waiting_file-Keeps now fresh input size mtime = search statement_rules depth 10

pub ensure_file-Keeps :
    (now : ℕ) (fresh : String) (input : FileInput) (hash : String) (size mtime : ℕ)
    → Keeps IsSound (ensure_file now fresh input hash size mtime)
unfolding ensure_file
ensure_file-Keeps now fresh input hash size mtime =
    search (statement_rules, upsert_state-Keeps) depth 12

pub upsert_remote_metadata-Keeps :
    (now : ℕ) (input : RemoteInput) → Keeps IsSound (upsert_remote_metadata now input)
unfolding upsert_remote_metadata
upsert_remote_metadata-Keeps now input = search statement_rules depth 12

pub mark_cloud_trashed-Keeps : (now : ℕ) (id : String) → Keeps IsSound (mark_cloud_trashed now id)
unfolding mark_cloud_trashed
mark_cloud_trashed-Keeps now id = search statement_rules depth 12

pub mark_cloud_deleted-Keeps : (now : ℕ) (id : String) → Keeps IsSound (mark_cloud_deleted now id)
unfolding mark_cloud_deleted
mark_cloud_deleted-Keeps now id = search statement_rules depth 12

pub upsert_remote_file-Keeps :
    (now : ℕ) (given : RemoteInput) → Keeps IsSound (upsert_remote_file now given)
unfolding upsert_remote_file
upsert_remote_file-Keeps now given = search statement_rules depth 12

pub mark_missing-Keeps : (now : ℕ) (path : String) → Keeps IsSound (mark_missing now path)
unfolding mark_missing
mark_missing-Keeps now path = search statement_rules depth 12

pub update_cloud_state-Keeps :
    (now : ℕ) (id : String) (version : ℕ) (hash : Option String) (status : SyncStatus)
    → Keeps IsSound (update_cloud_state now id version hash status)
unfolding update_cloud_state
update_cloud_state-Keeps now id version hash status = search statement_rules depth 12

pub set_favorite-Keeps : (id : String) (favorite : Bool) → Keeps IsSound (set_favorite id favorite)
unfolding set_favorite
set_favorite-Keeps id favorite = search statement_rules depth 12
