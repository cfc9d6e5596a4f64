-- ===== src/Cloud/Schema.antt =====
-- worker/src/index.ts and access.ts: the rows that the Worker keeps in D1, its errors, and the
-- tables. A table is the list of its rows; times are milliseconds, as in Local.Schema.
use excel_sync.Base.{ℕ, String, Bool, Option, List, Action}
use excel_sync.Local.Schema.{Backend}

pub data SystemRole : Type 0 where
  owner admin member : SystemRole

pub data AccountType : Type 0 where
  internal external : AccountType

pub data WorkspaceRole : Type 0 where
  manager editor viewer : WorkspaceRole

pub data Permission : Type 0 where
  manage edit view : Permission

pub data ScopeType : Type 0 where
  workspace storage folder file : ScopeType

pub data PrincipalType : Type 0 where
  user group : PrincipalType

pub record AuthUser : Type 0 where
  pub id : String
  pub organization_id : String
  pub system_role : SystemRole
  pub account_type : Option AccountType

pub record Workspace : Type 0 where
  pub id : String
  pub organization_id : String
  pub is_active : Bool
  pub default_storage_connection_id : Option String
  pub created_at : ℕ

pub record WorkspaceMember : Type 0 where
  pub workspace_id : String
  pub user_id : String
  pub role : WorkspaceRole

pub record Group : Type 0 where
  pub id : String
  pub organization_id : String
  pub is_active : Bool

pub record GroupMember : Type 0 where
  pub group_id : String
  pub user_id : String

pub record AccessRule : Type 0 where
  pub organization_id : String
  pub workspace_id : String
  pub principal_type : PrincipalType
  pub principal_id : String
  pub scope_type : ScopeType
  pub scope_value : String
  pub permission : Permission

pub data FileStatus : Type 0 where
  active trashed deleted : FileStatus

pub data IntentStatus : Type 0 where
  reserved uploaded committed abandoned : IntentStatus

pub data VersionStatus : Type 0 where
  active archived expired : VersionStatus

pub record FileRow : Type 0 where
  pub id : String
  pub logical_name : String
  pub relative_path : String
  pub current_version : ℕ
  pub current_telegram_file_id : Option String
  pub current_telegram_message_id : Option ℕ
  pub current_storage_backend : Option Backend
  pub current_storage_locator : Option String
  pub current_hash : Option String
  pub owner_user_id : String
  pub workspace_id : String
  pub home_storage_connection_id : Option String
  pub updated_by : String
  pub created_at : ℕ
  pub updated_at : ℕ
  pub status : FileStatus
  pub trashed_at : Option ℕ
  pub trashed_by : Option String

pub record IntentRow : Type 0 where
  pub id : String
  pub idempotency_key : String
  pub file_id : String
  pub owner_user_id : String
  pub workspace_id : String
  pub storage_connection_id : Option String
  pub logical_name : String
  pub base_version : ℕ
  pub hash : String
  pub size : ℕ
  pub status : IntentStatus
  pub telegram_file_id : Option String
  pub telegram_message_id : Option ℕ
  pub storage_backend : Backend
  pub storage_locator : Option String
  pub restored_from_version : Option ℕ
  pub updated_at : ℕ

pub record VersionRow : Type 0 where
  pub id : String
  pub file_id : String
  pub version : ℕ
  pub telegram_file_id : String
  pub telegram_message_id : ℕ
  pub hash : String
  pub size : ℕ
  pub base_version : ℕ
  pub restored_from_version : Option ℕ
  pub created_at : ℕ
  pub created_by : String
  pub storage_connection_id : String
  pub storage_backend : Option Backend
  pub storage_locator : Option String
  pub status : VersionStatus

-- A row of file_edit_leases: the file is the primary key, and the lease's id is unique.
pub record LeaseRow : Type 0 where
  pub file_id : String
  pub workspace_id : String
  pub owner_user_id : String
  pub owner_device_id : String
  pub owner_session_id : String
  pub lease_id : String
  pub created_at : ℕ
  pub heartbeat_at : ℕ
  pub expires_at : ℕ

pub data PresenceState : Type 0 where
  opened editing : PresenceState

-- A row of file_presence. File, user and device are the primary key.
pub record PresenceRow : Type 0 where
  pub file_id : String
  pub user_id : String
  pub device_id : String
  pub session_id : String
  pub state : PresenceState
  pub started_at : ℕ
  pub last_seen_at : ℕ

pub data Category : Type 0 where
  file_category collaboration recovery : Category

-- A row of notifications, without its texts. Recipient, event and category are unique; the event is
-- named by its key.
pub record NotificationRow : Type 0 where
  pub recipient_user_id : String
  pub event_key : String
  pub category : Category
  pub resource_id : String
  pub created_at : ℕ

-- A row of sync_events.
pub record SyncEvent : Type 0 where
  pub user_id : String
  pub file_id : String
  pub event_type : String
  pub detail : String
  pub created_at : ℕ

-- A row of domain_events. The key is unique.
pub record DomainEvent : Type 0 where
  pub event_key : String
  pub event_type : String
  pub workspace_id : String
  pub file_id : String
  pub actor_user_id : String
  pub created_at : ℕ

-- A row of file_state_history.
pub record Snapshot : Type 0 where
  pub file_id : String
  pub workspace_id : String
  pub logical_name : String
  pub relative_path : String
  pub status : FileStatus
  pub content_version : ℕ
  pub event_type : String
  pub actor_user_id : String
  pub created_at : ℕ

pub data RewindScope : Type 0 where
  folder_scope workspace_scope : RewindScope

pub data RewindAction : Type 0 where
  noop restore_path restore_status restore_version trash_new : RewindAction

-- What a rewind does to a file, with the targets that the action has.
pub record RewindStep : Type 0 where
  pub file_id : String
  pub action : RewindAction
  pub target_version : Option ℕ
  pub target_logical_name : Option String
  pub target_relative_path : Option String
  pub target_status : Option FileStatus

pub data ItemStatus : Type 0 where
  waiting running done failed skipped : ItemStatus

-- A row of rewind_items.
pub record RewindItem : Type 0 where
  pub id : String
  pub operation_id : String
  pub step : RewindStep
  pub status : ItemStatus
  pub attempts : ℕ
  pub error_text : Option String
  pub created_at : ℕ
  pub updated_at : ℕ

pub data RewindStatus : Type 0 where
  planned in_progress completed partial unsuccessful : RewindStatus

-- A row of rewind_operations, without its summary.
pub record RewindOperation : Type 0 where
  pub id : String
  pub organization_id : String
  pub workspace_id : String
  pub scope : RewindScope
  pub scope_value : String
  pub target_time : ℕ
  pub status : RewindStatus
  pub idempotency_key : String
  pub created_by : String
  pub created_at : ℕ
  pub started_at : Option ℕ
  pub completed_at : Option ℕ
  pub failed_items : Option ℕ

pub record Cloud : Type 0 where
  pub workspaces : List Workspace
  pub members : List WorkspaceMember
  pub groups : List Group
  pub group_members : List GroupMember
  pub rules : List AccessRule
  pub files : List FileRow
  pub versions : List VersionRow
  pub intents : List IntentRow
  pub leases : List LeaseRow
  pub presence : List PresenceRow
  pub notifications : List NotificationRow
  pub retention : String → Option ℕ
  pub sync_events : List SyncEvent
  pub domain_events : List DomainEvent
  pub snapshots : List Snapshot
  pub rewinds : List RewindOperation
  pub rewind_items : List RewindItem

-- `new HttpError(status, code)`
pub record HttpError : Type 0 where
  pub http_status : ℕ
  pub code : String

abbrev pub Handler : Type 0 → Type 0
Handler A = Action Cloud HttpError A

abbrev pub http : ℕ → String → HttpError
http s c = record { http_status = s; code = c }
