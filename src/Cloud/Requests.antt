-- ===== src/Cloud/Requests.antt =====
-- worker/src/index.ts and collab-upgrade.ts: what the file handlers share.
use excel_sync.Base.{
  ℕ, String, Bool, true, false, ◌&&◌, not, Option, none, some, [], ◌∷◌, ◌++◌, ◌==◌, string_eq, leb,
  find, any, remove, if◌then◌else◌, to_lower, clip, gets, require, modify, guard, pure, ◌>>=◌, ◌>>◌,
  when_some,
}
use excel_sync.Cloud.Schema.{
  AuthUser, WorkspaceRole, FileStatus, active, trashed, deleted, FileRow, Category, file_category,
  collaboration, recovery, NotificationRow, Snapshot, Cloud, Handler, http,
}
use excel_sync.Cloud.Access.{resolve_file_access, file_in_organization}

-- RequestAuth, with the time of the request.
pub record Request : Type 0 where
  pub user : AuthUser
  pub device_id : Option String
  pub session_id : String
  pub now : ℕ

abbrev pub is_active : FileStatus → Bool
is_active active = true
is_active trashed = false
is_active deleted = false

abbrev pub is_trashed : FileStatus → Bool
is_trashed active = false
is_trashed trashed = true
is_trashed deleted = false

unfoldable pub get_owned_file : Request → String → WorkspaceRole → Handler FileRow
get_owned_file rq file_id required = do
  access ← gets (λ c. resolve_file_access c rq.user file_id required)
  _ ← require access (http 404 "FILE_NOT_FOUND")
  found ←
      gets (λ c.
        find (λ f. f.id == file_id && file_in_organization c rq.user.organization_id f) c.files)
  require found (http 404 "FILE_NOT_FOUND")

abbrev pub prune_expired_leases : ℕ → String → Cloud → Cloud
prune_expired_leases now file_id c = record c {
  leases = remove (λ l. l.file_id == file_id && leb l.expires_at now) c.leases;
}

-- `auth.deviceId && lease.owner_device_id === auth.deviceId`
abbrev pub is_device : Option String → String → Bool
is_device none owner = false
is_device (some device) owner = not (device == "") && owner == device

unfoldable pub assert_file_lease_compatible : Request → String → Handler (Unit {0})
assert_file_lease_compatible rq file_id = do
  modify (prune_expired_leases rq.now file_id)
  lease ← gets (λ c. find (λ l. l.file_id == file_id) c.leases)
  when_some lease (pure tt) λ l.
      guard (l.owner_user_id == rq.user.id && is_device rq.device_id l.owner_device_id)
        (http 409 "FILE_LOCKED")

-- `event.slice(0, 1000)` and the insertion into sync_events
unfoldable pub record_event : Request → String → String → String → Handler (Unit {0})
record_event rq file_id event_type detail = modify λ c. record c {
  sync_events =
      c.sync_events
      ++ record {
        user_id = rq.user.id;
        file_id = file_id;
        event_type = event_type;
        detail = clip 1000 detail;
        created_at = rq.now;
      }
        ∷ [];
}

-- `INSERT OR IGNORE`: event_key is unique.
unfoldable pub record_domain_event :
    Request → String → String → String → String → Handler (Unit {0})
record_domain_event rq workspace_id file_id event_key event_type = modify λ c.
    if any (λ e. e.event_key == clip 500 event_key) c.domain_events then c else record c {
      domain_events =
          c.domain_events
          ++ record {
            event_key = clip 500 event_key;
            event_type = event_type;
            workspace_id = workspace_id;
            file_id = file_id;
            actor_user_id = rq.user.id;
            created_at = rq.now;
          }
            ∷ [];
    }

abbrev same_category : Category → Category → Bool
same_category file_category file_category = true
same_category collaboration collaboration = true
same_category recovery recovery = true
same_category _ _ = false

abbrev same_notification : NotificationRow → NotificationRow → Bool
same_notification a b =
    a.recipient_user_id == b.recipient_user_id
    && a.event_key == b.event_key
    && same_category a.category b.category

-- `INSERT OR IGNORE` into notifications. The event is given by its key, cut as it was recorded.
unfoldable pub create_notification :
    Request → String → String → Category → String → Handler (Unit {0})
create_notification rq recipient event_key category resource_id =
    let row : NotificationRow = record {
      recipient_user_id = recipient;
      event_key = clip 500 event_key;
      category = category;
      resource_id = resource_id;
      created_at = rq.now;
    } in
    modify λ c.
      if any (same_notification row) c.notifications
      then c
      else record c { notifications = c.notifications ++ row ∷ [] }

abbrev snapshot : Request → String → FileRow → Snapshot
snapshot rq event_type f = record {
  file_id = f.id;
  workspace_id = f.workspace_id;
  logical_name = f.logical_name;
  relative_path = f.relative_path;
  status = f.status;
  content_version = f.current_version;
  event_type = event_type;
  actor_user_id = rq.user.id;
  created_at = rq.now;
}

unfoldable pub record_file_state_snapshot : Request → String → String → Handler (Unit {0})
record_file_state_snapshot rq file_id event_type = do
  found ← gets (λ c. find (λ f. f.id == file_id) c.files)
  when_some found (pure tt)
      λ f. modify λ c. record c { snapshots = c.snapshots ++ snapshot rq event_type f ∷ [] }

-- `workspace_id = ? AND relative_path = ? COLLATE NOCASE AND status = 'active'`
abbrev pub holds_path : String → String → FileRow → Bool
holds_path workspace_id relative_path f =
    f.workspace_id == workspace_id
    && to_lower f.relative_path == to_lower relative_path
    && is_active f.status

abbrev pub path_conflict : String → String → String → Cloud → Bool
path_conflict workspace_id relative_path file_id c =
    any (λ f. holds_path workspace_id relative_path f && not (f.id == file_id)) c.files
