-- ===== src/Local/Presence/Keeping.antt =====
-- Losing a local copy keeps the file of the cloud.
use excel_sync.Base.{
  ℕ, String, ◌≡◌, refl, Bool, Option, none, List, [], ◌∷◌, map, arith, update, Bool-cases,
  Option-cases, inl, inr, Result, ok, ◌>>=◌, when_some, transaction, ltb,
}
use excel_sync.Local.Schema.{FileRow, Db, DbError, CloudStatus, Backend}
use excel_sync.Local.Statements.{get_file_by_path}
use excel_sync.Local.Presence.{mark_missing_file, mark_missing}

-- A file as the cloud knows it: without the sync status and the time of the last change.
pub record CloudView : Type 0 where
  pub id : String
  pub relative_path : String
  pub current_version : ℕ
  pub current_hash : Option String
  pub cloud_status : CloudStatus
  pub storage_backend : Option Backend
  pub storage_locator : Option String

abbrev pub view : FileRow → CloudView
view f = record {
  id = f.id;
  relative_path = f.relative_path;
  current_version = f.current_version;
  current_hash = f.current_hash;
  cloud_status = f.cloud_status;
  storage_backend = f.storage_backend;
  storage_locator = f.storage_locator;
}

pub map-view-update :
    (p : FileRow → Bool) (f : FileRow → FileRow) (fs : List FileRow)
    → ((x : FileRow) → view (f x) ≡ view x)
    → map view (update p f fs) ≡ map view fs
map-view-update p f [] h = refl
map-view-update p f (x ∷ fs) h = ground (arith, h x, map-view-update p f fs h)

-- What `mark_missing` promises of its result `r` on `db`.
abbrev pub CloudKept : Db → Result DbError (Option FileRow) × Db → Type 0
CloudKept db r =
    ((row : Option FileRow) × (r.0 ≡ ok row))
    × (map view r.1.files ≡ map view db.files)
    × (r.1.versions ≡ db.versions)

mark_missing_file-CloudKept :
    (now : ℕ) (file : FileRow) (db : Db) → CloudKept db (mark_missing_file now file db)
unfolding mark_missing_file ◌>>=◌ transaction
mark_missing_file-CloudKept now file db = elim (Bool-cases (ltb 0 file.current_version)) [
  | inl e ↦ rw e ((_, refl), map-view-update _ _ db.files (λ x. refl), refl)
  | inr e ↦ rw e ((_, refl), refl, refl)
]

-- When a local file is gone, every file keeps what the cloud knows of it (its path, version, hash,
-- cloud status and place in the storage), and the recorded versions stay: a local deletion never
-- deletes anything from the cloud, and the call does not fail.
pub mark_missing-CloudKept :
    (now : ℕ) (path : String) (db : Db) → CloudKept db (mark_missing now path db)
unfolding mark_missing ◌>>=◌ when_some
mark_missing-CloudKept now path db = elim (Option-cases (get_file_by_path path db)) [
  | inl e ↦ rw (e, when_some) ((none, refl), refl, refl)
  | inr (file, e) ↦ rw (e, when_some) (mark_missing_file-CloudKept now file db)
]
