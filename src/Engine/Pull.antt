-- ===== src/Engine/Pull.antt =====
-- src/main/sync-engine.ts: pullRemoteChanges, which brings the cloud's files to the disk.
use excel_sync.Base.{
  ℕ, String, ◌<>◌, Bool, true, false, ◌&&◌, ◌||◌, not, Option, none, some, List, [], ◌∷◌, ◌==◌,
  string_eq, option_eq, eqb, leb, if◌then◌else◌, find, gets, pure, throw, attempt, ◌>>=◌, ◌>>◌,
  when_some, clip,
}
use excel_sync.Local.Schema.{
  Backend, FileRow, StateRow, is_active, is_in_flight, CloudStatus, active, state_of_file,
}
use excel_sync.Local.Statements.{get_file, get_file_by_path, log}
use excel_sync.Local.Files.{RemoteInput, upsert_remote_metadata, or_else, occupied_by_other}
use excel_sync.Local.Presence.{upsert_remote_file, mark_missing}
use excel_sync.Engine.Task.{Fault, api, system, Task, Await, await, local}
use excel_sync.Engine.Ready.{FileInfo}
use excel_sync.Engine.Conflict.{fault_message}
use excel_sync.Engine.Group.{Candidate, sync_telegram_user_group}

-- What downloadCurrentTo answers, without the size.
pub record Download : Type 0 where
  pub version : ℕ
  pub hash : Option String
  pub backend : Backend
  pub locator : Option String

-- A row of the cloud's list, its path below the sync directory (`none` where it is rejected), and what the
-- disk and the network answer about it.
pub record CloudFile : Type 0 where
  pub id : String
  pub current_version : ℕ
  pub current_hash : Option String
  pub cloud_status : CloudStatus
  pub storage_backend : Option Backend
  pub storage_locator : Option String
  pub raw_path : String
  pub relative_path : Option String
  pub logical_name : String
  pub extension : String
  pub on_disk : Await (Unit {0})
  pub download : Await Download
  pub info : Await FileInfo
  pub hash : Await String

abbrev metadata : CloudFile → String → CloudStatus → RemoteInput
metadata c path status = record {
  id = c.id;
  relative_path = path;
  logical_name = c.logical_name;
  extension = c.extension;
  version = c.current_version;
  hash = c.current_hash;
  cloud_status = status;
  size = 0;
  mtime_ms = 0;
  storage_backend = c.storage_backend;
  storage_locator = c.storage_locator;
}

abbrev version_or : ℕ → ℕ → ℕ
version_or version current = if eqb version 0 then current else version

abbrev downloaded : CloudFile → String → Download → FileInfo → String → RemoteInput
downloaded c path remote info hash = record (metadata c path active) {
  version = version_or remote.version c.current_version;
  hash = some hash;
  size = info.size;
  mtime_ms = info.mtime_ms;
  storage_backend = some remote.backend;
  storage_locator = or_else remote.locator c.storage_locator;
}

abbrev id_or_none : Option FileRow → String
id_or_none none = ""
id_or_none (some f) = f.id

unfoldable pub fetch_file : ℕ → Fault → CloudFile → String → Task (Unit {0})
fetch_file now sqlite c path = do
  occupied ← gets (get_file_by_path path)
  if occupied_by_other c.id occupied
      then local sqlite (
          log now "REMOTE_PATH_CONFLICT" (some c.id)
            (some (clip 1000 (path <> " occupied by " <> id_or_none occupied))))
      else do
        remote ← await c.download
        info ← await c.info
        hash ← when_some remote.hash (await c.hash) pure
        local sqlite (upsert_remote_file now (downloaded c path remote info hash)) >> pure tt

unfoldable pub is_missing : Fault → Bool
is_missing (system code message) = code == "ENOENT"
is_missing (api _ _ _ _) = false

unfoldable pub note_missing : ℕ → Fault → String → FileRow → Fault → Task FileRow
note_missing now sqlite path file e = if not (is_missing e) then throw e else do
  missing ← local sqlite (mark_missing now path)
  kept ← when_some missing (pure file) pure
  local sqlite (log now "LOCAL_COPY_MISSING_RECONCILED" (some kept.id) (some (clip 1000 path)))
  pure kept

abbrev exists_now : Option StateRow → Bool
exists_now none = false
exists_now (some s) = s.exists_flag

-- `state?.exists_flag === 0`
abbrev is_absent : Option StateRow → Bool
is_absent none = false
is_absent (some s) = not s.exists_flag

-- A local copy that the disk has no more is missing from now on.
unfoldable pub reconcile : ℕ → Fault → CloudFile → String → FileRow → Task FileRow
reconcile now sqlite c path file = do
  state ← gets (λ db. find (state_of_file file.id) db.states)
  if exists_now state
      then attempt (await c.on_disk >> pure file) (note_missing now sqlite path file)
      else pure file

unfoldable pub take_newer :
    ℕ → Fault → CloudFile → String → FileRow → Option StateRow → Task (Unit {0})
take_newer now sqlite c path file state =
    if is_absent state
    then local sqlite (upsert_remote_metadata now (metadata c path active)) >> pure tt
    else if leb c.current_version file.current_version && file.current_hash == c.current_hash
    then pure tt
    else fetch_file now sqlite c path

unfoldable pub revive : ℕ → Fault → CloudFile → String → FileRow → Task FileRow
revive now sqlite c path known =
    if is_active known.cloud_status
    then pure known
    else local sqlite (upsert_remote_metadata now (metadata c path active))

unfoldable pub pull_known : ℕ → Fault → CloudFile → String → FileRow → Task (Unit {0})
pull_known now sqlite c path known = if is_in_flight known.status then pure tt else do
  revived ← revive now sqlite c path known
  file ← reconcile now sqlite c path revived
  state ← gets (λ db. find (state_of_file file.id) db.states)
  take_newer now sqlite c path file state

unfoldable pub pull_inactive : ℕ → Fault → CloudFile → String → Option FileRow → Task (Unit {0})
pull_inactive now sqlite c path known =
    when_some known (pure tt)
      λ _. local sqlite (upsert_remote_metadata now (metadata c path c.cloud_status)) >> pure tt

unfoldable pub pull_file : ℕ → Fault → CloudFile → Task (Unit {0})
pull_file now sqlite c =
    if eqb c.current_version 0
    then pure tt
    else when_some c.relative_path
        (local sqlite (log now "REMOTE_PATH_REJECTED" (some c.id) (some (clip 1000 c.raw_path))))
        λ path. do
          known ← gets (get_file c.id)
          if not (is_active c.cloud_status)
              then pull_inactive now sqlite c path known
              else when_some known (fetch_file now sqlite c path) (pull_known now sqlite c path)

unfoldable pub pull_files : ℕ → Fault → List CloudFile → Task (Unit {0})
pull_files now sqlite [] = pure tt
pull_files now sqlite (c ∷ cs) = pull_file now sqlite c >> pull_files now sqlite cs

unfoldable pub is_session_error : Fault → Bool
is_session_error (api _ code _ _) = code == "AUTH_REQUIRED" || code == "INVALID_SESSION"
is_session_error (system _ _) = false

unfoldable pub is_chat_missing : Fault → Bool
is_chat_missing (api _ code _ _) = code == "TELEGRAM_CHAT_NOT_CONNECTED"
is_chat_missing (system _ _) = false

-- pullTelegramImports: whether the rest goes on.
unfoldable pub pull_imports : Await (Unit {0}) → Task Bool
pull_imports a = attempt (await a >> pure true) (λ e.
    if is_session_error e then pure false else if is_chat_missing e then pure true else throw e)

-- `allowed` is whether the engine may pull now.
unfoldable pub pull_remote_changes :
    ℕ
    → Fault
    → Bool
    → Await (Option String)
    → Await (List Candidate)
    → Await (Unit {0})
    → Await (List CloudFile)
    → Task (Unit {0})
pull_remote_changes now sqlite allowed status candidates imports files =
    if not allowed
    then pure tt
    else attempt
        (do
          attempt (sync_telegram_user_group now sqlite status candidates) (λ e.
              local sqlite
                (log now "TELEGRAM_USER_CATCHUP_ERROR" none (some (clip 1000 (fault_message e)))))
          goes_on ← pull_imports imports
          if not goes_on
              then pure tt
              else do cloud_files ← await files; pull_files now sqlite cloud_files)
        (λ e.
          if is_session_error e
          then pure tt
          else local sqlite (log now "REMOTE_PULL_ERROR" none (some (clip 1000 (fault_message e)))))
