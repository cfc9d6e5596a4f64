-- ===== src/Local/Files.antt =====
-- src/main/db.ts: the methods of LocalDb on files, their local state and their versions.
use excel_sync.Base.{
  ℕ, String, Bool, true, false, ◌&&◌, not, Option, none, some, List, [], ◌∷◌, ◌==◌, string_eq,
  nat_eq, ltb, leb, find, pure, modify, gets, guard, require, transaction, ◌>>=◌, ◌>>◌, when_some,
  if◌then◌else◌, is_some, clip,
}
use excel_sync.Local.Schema.{
  SyncStatus, CloudStatus, Backend, FileRow, StateRow, Db, local_path_occupied,
  local_file_record_missing, synced, pending, retry_wait, active, trashed, deleted, telegram_bot,
  is_active, hash_is, pending_of_file,
}
use excel_sync.Local.Statements.{
  Local, insert_file, update_file, move_file, insert_state, put_state, update_state,
  remove_pendings, log, get_file, get_file_by_path,
}

pub record FileInput : Type 0 where
  pub relative_path : String
  pub logical_name : String
  pub extension : String

pub record RemoteInput : Type 0 where
  pub id : String
  pub relative_path : String
  pub logical_name : String
  pub extension : String
  pub version : ℕ
  pub hash : Option String
  pub cloud_status : CloudStatus
  pub size : ℕ
  pub mtime_ms : ℕ
  pub storage_backend : Option Backend
  pub storage_locator : Option String

abbrev pub new_file : String → ℕ → FileInput → SyncStatus → FileRow
new_file id now input status = record {
  id = id;
  relative_path = input.relative_path;
  logical_name = input.logical_name;
  extension = input.extension;
  current_version = 0;
  current_hash = none;
  status = status;
  cloud_status = active;
  favorite = false;
  last_opened_at = none;
  created_at = now;
  updated_at = now;
  storage_backend = some telegram_bot;
  storage_locator = none;
}

-- `a ?? b`
abbrev pub or_else {ℓ} : {A : Type ℓ} → Option A → Option A → Option A
or_else none b = b
or_else (some a) b = some a

-- The newest of the rows, by `last_seen_at`.
newest_state : Option StateRow → List StateRow → Option StateRow
newest_state best [] = best
newest_state none (s ∷ ss) = newest_state (some s) ss
newest_state (some b) (s ∷ ss) =
    newest_state (if ltb b.last_seen_at s.last_seen_at then some s else some b) ss

missing_with_hash : String → ℕ → Db → StateRow → Bool
missing_with_hash hash cutoff db s =
    not s.exists_flag
    && hash_is hash s.last_hash
    && leb cutoff s.last_seen_at
    && is_some (find (λ f. f.id == s.file_id && is_active f.cloud_status) db.files)

missing_states : String → ℕ → Db → List StateRow → List StateRow
missing_states hash cutoff db [] = []
missing_states hash cutoff db (s ∷ ss) =
    let rest = missing_states hash cutoff db ss in
    if missing_with_hash hash cutoff db s then s ∷ rest else rest

unfoldable pub find_recently_missing_by_hash : String → ℕ → Db → Option FileRow
unfolding newest_state missing_with_hash missing_states
find_recently_missing_by_hash hash cutoff db =
    elim (newest_state none (missing_states hash cutoff db db.states)) [
      | none ↦ none
      | some s ↦ get_file s.file_id db
    ]

-- `INSERT … ON CONFLICT(file_id) DO UPDATE SET …, last_hash = COALESCE(excluded.last_hash, last_hash)`
unfoldable pub upsert_state : ℕ → String → ℕ → ℕ → Option String → Bool → Local (Unit {0})
upsert_state now id size mtime hash exists_now =
    put_state
      (record {
        file_id = id;
        size = size;
        mtime_ms = mtime;
        last_hash = hash;
        last_seen_at = now;
        exists_flag = exists_now;
      })
      (λ s. record s {
        size = size;
        mtime_ms = mtime;
        last_hash = or_else hash s.last_hash;
        last_seen_at = now;
        exists_flag = exists_now;
      })

insert_waiting : ℕ → String → FileInput → ℕ → ℕ → Local FileRow
insert_waiting now fresh input size mtime = do
  transaction (do
    insert_file (new_file fresh now input retry_wait)
    insert_state (record {
      file_id = fresh;
      size = size;
      mtime_ms = mtime;
      last_hash = none;
      last_seen_at = now;
      exists_flag = true;
    }))
  created ← gets (get_file fresh)
  require created local_file_record_missing

unfoldable pub ensure_waiting_file : ℕ → String → FileInput → ℕ → ℕ → Local FileRow
unfolding insert_waiting
ensure_waiting_file now fresh input size mtime = do
  found ← gets (get_file_by_path input.relative_path)
  when_some found (insert_waiting now fresh input size mtime) pure

insert_unless_found : ℕ → String → FileInput → Option FileRow → Local FileRow
insert_unless_found now fresh input found =
    when_some found
      (do insert_file (new_file fresh now input pending); pure (new_file fresh now input pending))
      pure

unfoldable pub ensure_file : ℕ → String → FileInput → String → ℕ → ℕ → Local FileRow
unfolding insert_unless_found
ensure_file now fresh input hash size mtime = do
  found ← gets (get_file_by_path input.relative_path)
  file ← insert_unless_found now fresh input found
  upsert_state now file.id size mtime (some hash) true
  stored ← gets (get_file file.id)
  when_some stored (pure file) pure

unfoldable pub rename_file : ℕ → String → FileInput → Local (Unit {0})
rename_file now id input = do
  move_file id input.relative_path (λ f. record f {
    relative_path = input.relative_path;
    logical_name = input.logical_name;
    extension = input.extension;
    updated_at = now;
  })
  modify (update_state id (λ s. record s { exists_flag = true; last_seen_at = now }))
  log now "RENAMED" (some id) (some (clip 1000 input.relative_path))

-- The columns that a row of the cloud's list overwrites.
abbrev pub apply_remote : ℕ → RemoteInput → Option Backend → Option String → FileRow → FileRow
apply_remote now input backend locator f = record f {
  relative_path = input.relative_path;
  logical_name = input.logical_name;
  extension = input.extension;
  current_version = input.version;
  current_hash = input.hash;
  storage_backend = backend;
  storage_locator = locator;
  status = synced;
  cloud_status = input.cloud_status;
  updated_at = now;
}

abbrev pub remote_file : ℕ → RemoteInput → Option Backend → Option String → FileRow
remote_file now input backend locator = apply_remote now input backend locator (
    new_file input.id now
      (record {
        relative_path = input.relative_path;
        logical_name = input.logical_name;
        extension = input.extension;
      })
      synced)

abbrev pub remote_backend : RemoteInput → Option FileRow → Option Backend
remote_backend input none = or_else input.storage_backend (some telegram_bot)
remote_backend input (some f) =
    or_else input.storage_backend (or_else f.storage_backend (some telegram_bot))

abbrev pub remote_locator : RemoteInput → Option FileRow → Option String
remote_locator input none = input.storage_locator
remote_locator input (some f) = or_else input.storage_locator f.storage_locator

-- `occupied && occupied.id !== id && …`
abbrev pub occupied_by_other : String → Option FileRow → Bool
occupied_by_other id none = false
occupied_by_other id (some f) = not (f.id == id)

abbrev active_occupied_by_other : String → Option FileRow → Bool
active_occupied_by_other id none = false
active_occupied_by_other id (some f) = not (f.id == id) && is_active f.cloud_status

store_metadata : ℕ → RemoteInput → Option FileRow → Local (Unit {0})
store_metadata now input existing =
    when_some existing
      (do
        insert_file (remote_file now input (remote_backend input none) (remote_locator input none))
        insert_state (record {
          file_id = input.id;
          size = input.size;
          mtime_ms = 0;
          last_hash = input.hash;
          last_seen_at = now;
          exists_flag = false;
        }))
      (λ f.
        move_file input.id input.relative_path
          (apply_remote now input (remote_backend input (some f)) (remote_locator input (some f))))

unfoldable pub upsert_remote_metadata : ℕ → RemoteInput → Local FileRow
unfolding store_metadata
upsert_remote_metadata now input = do
  occupied ← gets (get_file_by_path input.relative_path)
  guard (not (active_occupied_by_other input.id occupied)) local_path_occupied
  existing ← gets (get_file input.id)
  transaction (store_metadata now input existing)
  stored ← gets (get_file input.id)
  require stored local_file_record_missing

unfoldable pub mark_cloud : CloudStatus → String → ℕ → String → Local (Unit {0})
mark_cloud status event now id = do
  transaction (do
    modify (remove_pendings (pending_of_file id))
    modify (
        update_file id
          (λ f. record f { status = synced; cloud_status = status; updated_at = now })))
  log now event (some id) none

unfoldable pub mark_cloud_trashed : ℕ → String → Local (Unit {0})
unfolding mark_cloud
mark_cloud_trashed = mark_cloud trashed "SAAS_TRASHED"

unfoldable pub mark_cloud_deleted : ℕ → String → Local (Unit {0})
unfolding mark_cloud
mark_cloud_deleted = mark_cloud deleted "SAAS_PERMANENTLY_DELETED"
