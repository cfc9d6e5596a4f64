-- ===== src/Local/Statements.antt =====
-- src/main/db.ts: the SQL statements that the methods of LocalDb run, with the constraints of the
-- schema (primary keys, unique columns, foreign keys, the range check of a priority). A statement
-- that breaks one throws and changes nothing.
use excel_sync.Base.{
  ℕ, String, Bool, true, ◌&&◌, ◌||◌, not, Option, none, some, List, [], ◌∷◌, ◌++◌, ◌==◌, string_eq,
  nat_eq, find, any, remove, update, leb, Action, throw, modify, if◌then◌else◌, take,
}
use excel_sync.Local.Schema.{
  FileRow, StateRow, PendingRow, VersionRow, HistoryRow, Db, DbError, constraint_failed,
  file_with_id, pending_with_id, state_of_file, same_path, has_file,
}

abbrev pub Local : Type 0 → Type 0
Local A = Action Db DbError A

-- `INSERT INTO files`: the id is the primary key, the path is unique up to case.
unfoldable pub insert_file : FileRow → Local (Unit {0})
insert_file f db =
    if any (λ g. g.id == f.id || same_path g.relative_path f.relative_path) db.files
    then throw constraint_failed db
    else modify (λ d. record d { files = d.files ++ (f ∷ []) }) db

-- `UPDATE files SET … WHERE id = ?` for columns without a constraint.
abbrev pub update_file : String → (FileRow → FileRow) → Db → Db
update_file id f db = record db { files = update (file_with_id id) f db.files }

-- `UPDATE files SET relative_path = …, … WHERE id = ?`: the new path must be free.
unfoldable pub move_file : String → String → (FileRow → FileRow) → Local (Unit {0})
move_file id path f db =
    if any (file_with_id id) db.files
      && any (λ g. not (g.id == id) && same_path g.relative_path path) db.files
    then throw constraint_failed db
    else modify (update_file id f) db

-- `INSERT INTO local_file_state`
unfoldable pub insert_state : StateRow → Local (Unit {0})
insert_state s db =
    if not (has_file s.file_id db) || any (state_of_file s.file_id) db.states
    then throw constraint_failed db
    else modify (λ d. record d { states = d.states ++ (s ∷ []) }) db

-- `INSERT INTO local_file_state … ON CONFLICT(file_id) DO UPDATE SET …`
unfoldable pub put_state : StateRow → (StateRow → StateRow) → Local (Unit {0})
put_state s merge db =
    if not (has_file s.file_id db)
    then throw constraint_failed db
    else if any (state_of_file s.file_id) db.states
    then modify (λ d. record d { states = update (state_of_file s.file_id) merge d.states }) db
    else modify (λ d. record d { states = d.states ++ (s ∷ []) }) db

abbrev pub update_state : String → (StateRow → StateRow) → Db → Db
update_state id f db = record db { states = update (state_of_file id) f db.states }

-- `INSERT INTO pending_sync`
unfoldable pub insert_pending : PendingRow → Local (Unit {0})
insert_pending p db =
    if not (has_file p.file_id db)
      || any (λ q. q.id == p.id || q.idempotency_key == p.idempotency_key) db.pendings
      || not (leb p.priority 4)
    then throw constraint_failed db
    else modify (λ d. record d { pendings = d.pendings ++ (p ∷ []) }) db

abbrev pub update_pending : String → (PendingRow → PendingRow) → Db → Db
update_pending id f db = record db { pendings = update (pending_with_id id) f db.pendings }

-- `UPDATE pending_sync SET … WHERE …`
abbrev pub update_pendings : (PendingRow → Bool) → (PendingRow → PendingRow) → Db → Db
update_pendings p f db = record db { pendings = update p f db.pendings }

-- `DELETE FROM pending_sync WHERE …`
abbrev pub remove_pendings : (PendingRow → Bool) → Db → Db
remove_pendings p db = record db { pendings = remove p db.pendings }

abbrev pub version_at : String → ℕ → VersionRow → Bool
version_at id n v = v.file_id == id && v.version == n

-- `INSERT INTO local_versions … ON CONFLICT(file_id, version) DO UPDATE SET …`
unfoldable pub put_version : VersionRow → (VersionRow → VersionRow) → Local (Unit {0})
put_version v merge db =
    if not (has_file v.file_id db)
    then throw constraint_failed db
    else if any (version_at v.file_id v.version) db.versions
    then modify
        (λ d. record d { versions = update (version_at v.file_id v.version) merge d.versions }) db
    else modify (λ d. record d { versions = d.versions ++ (v ∷ []) }) db

abbrev orphan : (FileRow → Bool) → Db → Option String → Option String
orphan p db none = none
orphan p db (some id) = if any (λ f. p f && f.id == id) db.files then none else some id

unlink : (FileRow → Bool) → Db → List HistoryRow → List HistoryRow
unlink p db [] = []
unlink p db (h ∷ hs) = record h { file_id = orphan p db h.file_id } ∷ unlink p db hs

-- `DELETE FROM files WHERE …`: its states, jobs and versions go with a file, and the history keeps
-- its events without it.
unfoldable pub remove_files : (FileRow → Bool) → Db → Db
unfolding unlink
remove_files p db = record db {
  files = remove p db.files;
  states = remove (λ s. any (λ f. p f && f.id == s.file_id) db.files) db.states;
  pendings = remove (λ q. any (λ f. p f && f.id == q.file_id) db.files) db.pendings;
  versions = remove (λ v. any (λ f. p f && f.id == v.file_id) db.files) db.versions;
  history = unlink p db db.history;
}

-- The history, newest first.
insert_event : HistoryRow → List HistoryRow → List HistoryRow
insert_event h [] = h ∷ []
insert_event h (g ∷ hs) =
    if leb g.created_at h.created_at then h ∷ g ∷ hs else g ∷ insert_event h hs

abbrev known : Option String → Db → Bool
known none db = true
known (some id) db = has_file id db

-- `log`: the newest 2000 events stay. The detail is cut by the caller's `slice`.
unfoldable pub log : ℕ → String → Option String → Option String → Local (Unit {0})
unfolding insert_event
log now event file detail db =
    if known file db
    then modify (λ d. record d { history = take 2000 (insert_event row d.history) }) db
    else throw constraint_failed db
  where
    row : HistoryRow
    row = record { file_id = file; event_type = event; detail = detail; created_at = now }

abbrev pub get_file : String → Db → Option FileRow
get_file id db = find (file_with_id id) db.files

unfoldable pub get_file_by_path : String → Db → Option FileRow
unfolding same_path
get_file_by_path path db = find (λ f. same_path f.relative_path path) db.files

abbrev pub get_state : String → Db → Option StateRow
get_state id db = find (state_of_file id) db.states

abbrev pub get_pending : String → Db → Option PendingRow
get_pending id db = find (pending_with_id id) db.pendings
