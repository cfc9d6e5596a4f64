-- ===== src/Cloud/Commit.antt =====
-- worker/src/index.ts: commitUploadedIntent and handleCommit, with getRetention.
use excel_sync.Base.{
  ℕ, String, ◌<>◌, Bool, true, false, ◌&&◌, not, Option, none, some, List, [], ◌∷◌, ◌++◌, ◌==◌,
  string_eq, nat_eq, option_eq, leb, ltb, eqb, ◌+◌, find, any, update, count, if◌then◌else◌,
  decimal, gets, require, throw, modify, guard, pure, transaction, ◌>>=◌, ◌>>◌,
}
use excel_sync.Cloud.Schema.{
  editor, viewer, FileStatus, FileRow, IntentRow, VersionRow, Cloud, Handler, http, IntentStatus,
  uploaded, committed, abandoned, VersionStatus, expired,
}
use excel_sync.Cloud.Requests.{
  Request, get_owned_file, assert_file_lease_compatible, record_domain_event,
  record_file_state_snapshot, path_conflict,
}

abbrev pub default_retention : ℕ
default_retention = 20

-- `Number.isInteger(value) && value >= 2 && value <= 500 ? value : otherwise`
abbrev in_range : ℕ → Option ℕ → ℕ
in_range otherwise none = otherwise
in_range otherwise (some n) = if leb 2 n && leb n 500 then n else otherwise

-- The argument is `env.RETENTION_LIMIT`, `none` where it is no whole number of at least 0.
unfoldable pub parse_retention : Option ℕ → ℕ
parse_retention limit = in_range default_retention limit

unfoldable pub get_retention : Option ℕ → String → Cloud → ℕ
get_retention limit user_id c = in_range (parse_retention limit) (c.retention user_id)

pub record Committed : Type 0 where
  pub file_id : String
  pub version : ℕ
  pub hash : String

-- `current_hash ?? hash`
abbrev hash_or : String → Option String → String
hash_or hash none = hash
hash_or hash (some h) = h

abbrev pub has_version : String → Cloud → Bool
has_version version_id c = any (λ v. v.id == version_id) c.versions

-- `WHERE id = ? AND workspace_id = ? AND current_version = ?`
abbrev pub is_based : String → String → ℕ → FileRow → Bool
is_based file_id workspace_id version f =
    f.id == file_id && f.workspace_id == workspace_id && eqb f.current_version version

-- The first statement of the batch, with the number of rows that it inserts. UNIQUE(file_id, version).
unfoldable pub insert_version : VersionRow → String → Handler ℕ
insert_version v workspace_id = do
  present ← gets (λ c. any (is_based v.file_id workspace_id v.base_version) c.files)
  taken ← gets (λ c. any (λ w. w.file_id == v.file_id && eqb w.version v.version) c.versions)
  if not present
      then pure 0
      else if taken
      then throw (http 500 "INTERNAL_ERROR")
      else do modify (λ c. record c { versions = c.versions ++ v ∷ [] }); pure 1

-- `SET logical_name = ?, …, status = 'active'`
abbrev pub committed_file : Request → IntentRow → Option String → FileRow → FileRow
committed_file rq intent telegram_file_id f = record f {
  logical_name = intent.logical_name;
  current_version = intent.base_version + 1;
  current_telegram_file_id = telegram_file_id;
  current_telegram_message_id = intent.telegram_message_id;
  current_storage_backend = some intent.storage_backend;
  current_storage_locator = intent.storage_locator;
  current_hash = some intent.hash;
  updated_at = rq.now;
  updated_by = rq.user.id;
  status = FileStatus.active;
}

-- The second statement. The active files of a workspace have different paths (a unique index).
unfoldable pub update_file : Request → IntentRow → FileRow → String → Handler ℕ
update_file rq intent current version_id = do
  changes ← gets (λ c.
      if has_version version_id c
      then count (is_based intent.file_id current.workspace_id intent.base_version) c.files
      else 0)
  clash ← gets (path_conflict current.workspace_id current.relative_path intent.file_id)
  if ltb 0 changes && clash then throw (http 500 "INTERNAL_ERROR") else do
    modify (λ c.
        if has_version version_id c
        then record c {
          files =
              update (is_based intent.file_id current.workspace_id intent.base_version)
                (committed_file rq intent intent.telegram_file_id) c.files;
        }
        else c)
    pure changes

abbrev pub is_uploaded : IntentStatus → Bool
is_uploaded uploaded = true
is_uploaded _ = false

abbrev pub is_committed : IntentStatus → Bool
is_committed committed = true
is_committed _ = false

-- The third statement.
abbrev pub settle_intent : Request → IntentRow → String → Cloud → Cloud
settle_intent rq intent version_id c =
    if has_version version_id c
    then record c {
      intents =
          update (λ i. i.id == intent.id && i.owner_user_id == rq.user.id && is_uploaded i.status)
            (λ i. record i { status = committed; updated_at = rq.now }) c.intents;
    }
    else c

abbrev is_active_version : VersionStatus → Bool
is_active_version VersionStatus.active = true
is_active_version _ = false

-- The rows that the fourth statement archives, and those that the fifth lets expire:
-- `version <= newVersion - retention`, where the difference may be negative.
abbrev pub is_archived_by : String → ℕ → VersionRow → Bool
is_archived_by file_id new_version v =
    v.file_id == file_id && ltb v.version new_version && is_active_version v.status

abbrev pub is_expired_by : String → ℕ → ℕ → VersionRow → Bool
is_expired_by file_id new_version retention v =
    v.file_id == file_id && leb (v.version + retention) new_version

abbrev pub with_status : VersionStatus → VersionRow → VersionRow
with_status s v = record v { status = s }

abbrev pub aged_versions : String → ℕ → ℕ → List VersionRow → List VersionRow
aged_versions file_id new_version retention vs =
    update (is_expired_by file_id new_version retention) (with_status expired)
      (update (is_archived_by file_id new_version) (with_status VersionStatus.archived) vs)

abbrev pub age_versions : String → ℕ → ℕ → String → Cloud → Cloud
age_versions file_id new_version retention version_id c =
    if has_version version_id c
    then record c { versions = aged_versions file_id new_version retention c.versions }
    else c

abbrev pub log_commit : Request → String → ℕ → String → Cloud → Cloud
log_commit rq file_id new_version version_id c =
    if has_version version_id c
    then record c {
      sync_events =
          c.sync_events
          ++ record {
            user_id = rq.user.id;
            file_id = file_id;
            event_type = "SYNC_COMMIT";
            detail = "V" <> decimal new_version;
            created_at = rq.now;
          }
            ∷ [];
    }
    else c

abbrev legacy_storage_connection_id : String
legacy_storage_connection_id = "00000000-0000-4000-8000-000000000003"

abbrev or_legacy : Option String → String
or_legacy none = legacy_storage_connection_id
or_legacy (some id) = id

abbrev pub new_version_row : Request → String → IntentRow → String → ℕ → VersionRow
new_version_row rq version_id intent telegram_file_id message_id = record {
  id = version_id;
  file_id = intent.file_id;
  version = intent.base_version + 1;
  telegram_file_id = telegram_file_id;
  telegram_message_id = message_id;
  hash = intent.hash;
  size = intent.size;
  base_version = intent.base_version;
  restored_from_version = intent.restored_from_version;
  created_at = rq.now;
  created_by = rq.user.id;
  storage_connection_id = or_legacy intent.storage_connection_id;
  storage_backend = some intent.storage_backend;
  storage_locator = intent.storage_locator;
  status = VersionStatus.active;
}

-- The statements after the first two, with the changes that those made.
unfoldable pub finish_batch : Request → ℕ → IntentRow → VersionRow → ℕ × ℕ → Handler (ℕ × ℕ)
finish_batch rq retention intent v changes = do
  modify (settle_intent rq intent v.id)
  modify (age_versions intent.file_id v.version retention v.id)
  modify (log_commit rq intent.file_id v.version v.id)
  pure changes

-- `env.DB.batch`: one transaction. It answers with the changes of its first two statements.
unfoldable pub commit_batch : Request → ℕ → IntentRow → FileRow → VersionRow → Handler (ℕ × ℕ)
commit_batch rq retention intent current v = transaction do
  inserted ← insert_version v current.workspace_id
  updated ← update_file rq intent current v.id
  finish_batch rq retention intent v (inserted, updated)

-- `intent.telegram_file_id && intent.telegram_message_id !== null`, with the values.
abbrev pub stored_at : IntentRow → Option (String × ℕ)
stored_at intent = elim intent.telegram_file_id [
  | none ↦ none
  | some id ↦
      if id == ""
      then none
      else elim intent.telegram_message_id [ none ↦ none | some message_id ↦ some (id, message_id) ]
]

unfoldable pub abandon : Request → IntentRow → FileRow → Handler Committed
abandon rq intent current =
    if not (current.current_hash == some intent.hash)
    then throw (http 409 "BASE_VERSION_CONFLICT")
    else do
      modify (λ c. record c {
        intents =
            update (λ i. i.id == intent.id)
              (λ i. record i { status = abandoned; updated_at = rq.now }) c.intents;
      })
      pure (record { file_id = current.id; version = current.current_version; hash = intent.hash })

unfoldable pub announce : Request → IntentRow → FileRow → Handler Committed
announce rq intent current = do
  record_domain_event rq current.workspace_id intent.file_id
      ("content-update:" <> intent.id <> ":" <> decimal (intent.base_version + 1))
      (if eqb (intent.base_version + 1) 1 then "FILE_CONTENT_CREATED" else "FILE_CONTENT_UPDATED")
  record_file_state_snapshot rq intent.file_id "CONTENT_UPDATE"
  pure (record { file_id = intent.file_id; version = intent.base_version + 1; hash = intent.hash })

unfoldable pub advance :
    Request → Option ℕ → String → IntentRow → FileRow → String × ℕ → Handler Committed
advance rq limit version_id intent current (telegram_file_id, message_id) = do
  retention ← gets (get_retention limit rq.user.id)
  changes ←
      commit_batch rq retention intent current
        (new_version_row rq version_id intent telegram_file_id message_id)
  guard (eqb changes.0 1 && eqb changes.1 1) (http 409 "BASE_VERSION_CONFLICT")
  announce rq intent current

unfoldable pub commit_uploaded :
    Request → Option ℕ → String → IntentRow → String × ℕ → Handler Committed
unfolding abandon
commit_uploaded rq limit version_id intent stored = do
  current ← get_owned_file rq intent.file_id editor
  assert_file_lease_compatible rq intent.file_id
  if not (eqb current.current_version intent.base_version)
      then abandon rq intent current
      else advance rq limit version_id intent current stored

unfoldable pub replay_commit : Request → IntentRow → Handler Committed
replay_commit rq intent = do
  file ← get_owned_file rq intent.file_id viewer
  pure (record {
    file_id = file.id;
    version = file.current_version;
    hash = hash_or intent.hash file.current_hash;
  })

-- `version_id` is the `crypto.randomUUID()` of the new row.
unfoldable pub commit_uploaded_intent : Request → Option ℕ → String → IntentRow → Handler Committed
commit_uploaded_intent rq limit version_id intent =
    if is_committed intent.status then replay_commit rq intent else do
      _ ← guard (is_uploaded intent.status) (http 409 "INTENT_NOT_COMMITTABLE")
      stored ← require (stored_at intent) (http 409 "INTENT_NOT_COMMITTABLE")
      commit_uploaded rq limit version_id intent stored

unfoldable pub handle_commit : Request → Option ℕ → String → String → Handler Committed
handle_commit rq limit version_id intent_id = do
  found ← gets (λ c. find (λ i. i.id == intent_id && i.owner_user_id == rq.user.id) c.intents)
  intent ← require found (http 404 "INTENT_NOT_FOUND")
  commit_uploaded_intent rq limit version_id intent
