-- ===== src/Local/Schema.antt =====
-- src/main/db.ts: the rows of the tables, the row types, and the constraints that the schema
-- declares. A table is the list of its rows. Times are milliseconds: the ISO texts that the source
-- stores are compared as texts, which for texts of one format is the order of the times.
use excel_sync.Base.{
  ℕ, String, Bool, true, false, Option, none, some, List, ◌==◌, string_eq, to_lower, any,
}

pub data SyncStatus : Type 0 where
  synced pending uploading retry_wait conflict error : SyncStatus

pub data CloudStatus : Type 0 where
  active trashed deleted : CloudStatus

pub data Operation : Type 0 where
  upsert delete rename : Operation

pub data Backend : Type 0 where
  telegram_user_group telegram_bot : Backend

pub record FileRow : Type 0 where
  pub id : String
  pub relative_path : String
  pub logical_name : String
  pub extension : String
  pub current_version : ℕ
  pub current_hash : Option String
  pub status : SyncStatus
  pub cloud_status : CloudStatus
  pub favorite : Bool
  pub last_opened_at : Option ℕ
  pub created_at : ℕ
  pub updated_at : ℕ
  pub storage_backend : Option Backend
  pub storage_locator : Option String

pub record StateRow : Type 0 where
  pub file_id : String
  pub size : ℕ
  pub mtime_ms : ℕ
  pub last_hash : Option String
  pub last_seen_at : ℕ
  pub exists_flag : Bool

-- What an upload through the desktop's own Telegram session returns.
pub record Receipt : Type 0 where
  pub chat_id : String
  pub message_id : ℕ
  pub file_name : String
  pub size : ℕ
  pub sha256 : String
  pub mime_type : String
  pub created_at : ℕ

pub record PendingRow : Type 0 where
  pub id : String
  pub file_id : String
  pub operation : Operation
  pub local_path : String
  pub hash : Option String
  pub size : Option ℕ
  pub base_version : ℕ
  pub idempotency_key : String
  pub status : SyncStatus
  pub attempt_count : ℕ
  pub priority : ℕ
  pub next_retry_at : Option ℕ
  pub error_code : Option String
  pub error_message : Option String
  pub storage_backend : Backend
  pub storage_locator : Option String
  pub upload_receipt : Option Receipt
  pub restored_from_version : Option ℕ
  pub created_at : ℕ
  pub updated_at : ℕ

pub record VersionRow : Type 0 where
  pub file_id : String
  pub version : ℕ
  pub hash : String
  pub size : ℕ
  pub base_version : ℕ
  pub source_version : Option ℕ
  pub storage_backend : Option Backend
  pub storage_locator : Option String
  pub synced_at : ℕ

pub record HistoryRow : Type 0 where
  pub file_id : Option String
  pub event_type : String
  pub detail : Option String
  pub created_at : ℕ

pub data ImportStatus : Type 0 where
  discovered imported failed : ImportStatus

-- A row of telegram_user_imports. Chat and message are the primary key.
pub record ImportRow : Type 0 where
  pub chat_id : String
  pub message_id : ℕ
  pub file_name : String
  pub size : ℕ
  pub sha256 : Option String
  pub relative_path : Option String
  pub status : ImportStatus
  pub last_error : Option String

-- A row of local_meta for the key `telegram_user_checkpoint:<chat>`.
pub record Checkpoint : Type 0 where
  pub chat_id : String
  pub value : ℕ

pub record Settings : Type 0 where
  pub sync_directory : String
  pub worker_url : String
  pub auto_sync : Bool
  pub start_with_windows : Bool
  pub retry_base_seconds : ℕ
  pub retention_limit : ℕ
  pub default_storage_backend : Backend

pub record Db : Type 0 where
  pub files : List FileRow
  pub states : List StateRow
  pub pendings : List PendingRow
  pub versions : List VersionRow
  pub history : List HistoryRow
  pub imports : List ImportRow
  pub checkpoints : List Checkpoint
  pub settings : Settings

-- What a statement or a method throws.
pub data DbError : Type 0 where
  constraint_failed local_path_occupied local_file_record_missing : DbError

abbrev pub is_active : CloudStatus → Bool
is_active active = true
is_active _ = false

abbrev pub is_uploading : SyncStatus → Bool
is_uploading uploading = true
is_uploading _ = false

abbrev pub is_retry_wait : SyncStatus → Bool
is_retry_wait retry_wait = true
is_retry_wait _ = false

abbrev pub is_conflict : SyncStatus → Bool
is_conflict conflict = true
is_conflict _ = false

-- `status IN ('PENDING','RETRY_WAIT')`
abbrev pub is_queued : SyncStatus → Bool
is_queued pending = true
is_queued retry_wait = true
is_queued _ = false

-- `status IN ('PENDING','UPLOADING','RETRY_WAIT')`
abbrev pub is_in_flight : SyncStatus → Bool
is_in_flight pending = true
is_in_flight uploading = true
is_in_flight retry_wait = true
is_in_flight _ = false

-- `status IN ('ERROR','RETRY_WAIT')`
abbrev pub is_blocked : SyncStatus → Bool
is_blocked error = true
is_blocked retry_wait = true
is_blocked _ = false

abbrev pub is_upsert : Operation → Bool
is_upsert upsert = true
is_upsert _ = false

abbrev pub is_rename : Operation → Bool
is_rename rename = true
is_rename _ = false

abbrev pub is_delete : Operation → Bool
is_delete delete = true
is_delete _ = false

-- `WHERE hash = ?`: a null equals nothing.
abbrev pub hash_is : String → Option String → Bool
hash_is h none = false
hash_is h (some g) = g == h

-- `a COLLATE NOCASE = b`
unfoldable pub same_path : String → String → Bool
unfolding to_lower
same_path a b = to_lower a == to_lower b

abbrev pub file_with_id : String → FileRow → Bool
file_with_id id f = f.id == id

abbrev pub pending_with_id : String → PendingRow → Bool
pending_with_id id p = p.id == id

abbrev pub pending_of_file : String → PendingRow → Bool
pending_of_file id p = p.file_id == id

abbrev pub state_of_file : String → StateRow → Bool
state_of_file id s = s.file_id == id

abbrev pub has_file : String → Db → Bool
has_file id db = any (file_with_id id) db.files
