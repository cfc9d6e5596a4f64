-- ===== src/Cloud/Rewind/Items.antt =====
-- worker/src/collab-upgrade.ts: one item of a rewind (completeSimpleRewindItem, completeVersionRewindItem).
-- A plain Error has its message as the code.
use excel_sync.Base.{
  Result, ok, err, ℕ, String, ◌<>◌, Bool, true, false, ◌&&◌, ◌||◌, not, Option, none, some, [], ◌∷◌,
  ◌++◌, ◌==◌, string_eq, eqb, ltb, any, find, update, if◌then◌else◌, gets, require, guard, throw,
  modify, pure, transaction, ◌+◌, ◌>>=◌, ◌>>◌,
}
use excel_sync.Cloud.Schema.{
  FileStatus, IntentStatus, reserved, uploaded, VersionStatus, expired, archived, FileRow,
  VersionRow, LeaseRow, Snapshot, restore_path, restore_status, trash_new, RewindStep, done,
  RewindItem, Cloud, HttpError, Handler, http,
}
use excel_sync.Cloud.Requests.{
  Request, prune_expired_leases, record_domain_event, path_conflict, is_active,
}

abbrev pub plain : String → HttpError
plain message = http 500 message

abbrev lease_of_other : Request → Option LeaseRow → Bool
lease_of_other rq none = false
lease_of_other rq (some l) = not (l.owner_user_id == rq.user.id)

abbrev is_open_intent : IntentStatus → Bool
is_open_intent reserved = true
is_open_intent uploaded = true
is_open_intent _ = false

unfoldable pub assert_rewind_file_idle : Request → String → Handler (Unit {0})
assert_rewind_file_idle rq file_id = do
  modify (prune_expired_leases rq.now file_id)
  lease ← gets (λ c. find (λ l. l.file_id == file_id) c.leases)
  guard (not (lease_of_other rq lease)) (plain "FILE_LOCKED")
  busy ← gets (λ c. any (λ i. i.file_id == file_id && is_open_intent i.status) c.intents)
  guard (not busy) (plain "UPLOAD_IN_PROGRESS")

abbrev text_or : String → Option String → String
text_or s none = s
text_or s (some t) = t

abbrev status_or : FileStatus → Option FileStatus → FileStatus
status_or s none = s
status_or s (some t) = t

-- nextName, nextPath and nextStatus
unfoldable pub rewound : RewindStep → FileRow → FileRow
rewound s f = elim s.action [
  | restore_path ↦ record f {
    logical_name = text_or f.logical_name s.target_logical_name;
    relative_path = text_or f.relative_path s.target_relative_path;
  }
  | restore_status ↦ record f { status = status_or f.status s.target_status }
  | trash_new ↦ record f { status = status_or f.status s.target_status }
  | _ ↦ f
]

-- Whether the code looks for another active file at the path.
abbrev needs_free_path : RewindStep → FileRow → Bool
needs_free_path s f = elim s.action [
  | restore_path ↦ true
  | restore_status ↦ is_active (rewound s f).status
  | trash_new ↦ is_active (rewound s f).status
  | _ ↦ false
]

abbrev item_key : String → String → String
item_key operation_id item_id = "rewind-item:" <> operation_id <> ":" <> item_id

abbrev pub set_item : Request → String → (RewindItem → RewindItem) → Cloud → Cloud
set_item rq item_id f c = record c { rewind_items = update (λ i. i.id == item_id) f c.rewind_items }

abbrev pub finished : Request → RewindItem → RewindItem
finished rq i = record i { status = done; error_text = none; updated_at = rq.now }

abbrev history_row : Request → String → FileRow → String → Snapshot
history_row rq workspace_id f event_type = record {
  file_id = f.id;
  workspace_id = workspace_id;
  logical_name = f.logical_name;
  relative_path = f.relative_path;
  status = f.status;
  content_version = f.current_version;
  event_type = event_type;
  actor_user_id = rq.user.id;
  created_at = rq.now;
}

abbrev touched : Request → FileRow → FileRow
touched rq f = record f { updated_at = rq.now; updated_by = rq.user.id }

-- The batch's statements after those on the file. The key is short, so it is stored whole.
unfoldable pub conclude :
    Request → String → RewindItem → FileRow → String → String → Handler (Unit {0})
conclude rq workspace_id item row event_type state = do
  modify (set_item rq item.id (finished rq))
  record_domain_event rq workspace_id row.id (item_key item.operation_id item.id) event_type
  modify (λ c. record c { snapshots = c.snapshots ++ history_row rq workspace_id row state ∷ [] })

unfoldable pub complete_simple_item : Request → String → RewindItem → FileRow → Handler (Unit {0})
complete_simple_item rq workspace_id item file = do
  let next = rewound item.step file
  taken ← gets (path_conflict workspace_id next.relative_path file.id)
  guard (not (needs_free_path item.step file && taken)) (plain "REWIND_PATH_CONFLICT")
  transaction (do
    clash ← gets (path_conflict file.workspace_id next.relative_path file.id)
    guard (not (is_active next.status && clash)) (plain "UNIQUE constraint failed")
    modify (λ c. record c {
      files =
          update (λ f. f.id == file.id)
            (λ f. touched rq (record f {
              logical_name = next.logical_name;
              relative_path = next.relative_path;
              status = next.status;
            }))
            c.files;
    })
    conclude rq workspace_id item next "REWIND_ITEM_APPLIED" "REWIND")

-- What storage answers to the clone of an item's version, or its error: the file's id and the message's.
-- `fresh_version_id` is the item's new version row.
pub record Clones : Type 0 where
  pub clone : String → Result String (String × ℕ)
  pub fresh_version_id : String → String

abbrev is_usable : VersionRow → Bool
is_usable v = elim v.status [ expired ↦ false | _ ↦ not (v.storage_connection_id == "") ]

abbrev usable : Option VersionRow → Option VersionRow
usable none = none
usable (some v) = if is_usable v then some v else none

-- The statement does not name storage_backend and storage_locator, whose default is NULL.
abbrev pub rewound_version : Request → String → VersionRow → FileRow → String × ℕ → VersionRow
rewound_version rq version_id source file (stored_id, message_id) = record {
  id = version_id;
  file_id = file.id;
  version = file.current_version + 1;
  telegram_file_id = stored_id;
  telegram_message_id = message_id;
  hash = source.hash;
  size = source.size;
  base_version = file.current_version;
  restored_from_version = some source.version;
  created_at = rq.now;
  created_by = rq.user.id;
  storage_connection_id = source.storage_connection_id;
  storage_backend = none;
  storage_locator = none;
  status = VersionStatus.active;
}

-- `WHERE id = ? AND current_version = ?`
abbrev pub is_at : FileRow → FileRow → Bool
is_at file f = f.id == file.id && eqb f.current_version file.current_version

abbrev pub restored_file : Request → VersionRow → FileRow → FileRow
restored_file rq v f = touched rq (record f {
  current_version = v.version;
  current_telegram_file_id = some v.telegram_file_id;
  current_telegram_message_id = some v.telegram_message_id;
  current_hash = some v.hash;
})

abbrev pub is_archivable : VersionRow → VersionRow → Bool
is_archivable v w =
    w.file_id == v.file_id
    && ltb w.version v.version
    && elim w.status [ VersionStatus.active ↦ true | _ ↦ false ]

unfoldable pub insert_version_row : VersionRow → Handler (Unit {0})
insert_version_row v = do
  taken ←
      gets (λ c.
        any (λ w. w.id == v.id || w.file_id == v.file_id && eqb w.version v.version) c.versions)
  guard (not taken) (plain "UNIQUE constraint failed")
  modify (λ c. record c { versions = c.versions ++ v ∷ [] })

unfoldable pub version_batch :
    Request → String → RewindItem → FileRow → VersionRow → Handler (Unit {0})
version_batch rq workspace_id item file v = transaction do
  insert_version_row v
  modify (λ c. record c { files = update (is_at file) (restored_file rq v) c.files })
  modify (λ c. record c {
    versions = update (is_archivable v) (λ w. record w { status = archived }) c.versions;
  })
  conclude rq workspace_id item (record file { current_version = v.version })
      "REWIND_VERSION_RESTORED" "REWIND_VERSION_RESTORE"

unfoldable pub stored_clone : Result String (String × ℕ) → Handler (String × ℕ)
stored_clone (ok stored) = pure stored
stored_clone (err message) = throw (plain message)

abbrev wanted_version : RewindStep → ℕ
wanted_version s = elim s.target_version [ none ↦ 0 | some v ↦ v ]

unfoldable pub complete_version_item :
    Request → Clones → String → RewindItem → FileRow → Handler (Unit {0})
complete_version_item rq clones workspace_id item file = do
  found ←
      gets (λ c.
        find (λ v. v.file_id == file.id && eqb v.version (wanted_version item.step)) c.versions)
  source ← require (usable found) (plain "REWIND_SOURCE_VERSION_UNAVAILABLE")
  stored ← stored_clone (clones.clone item.id)
  version_batch rq workspace_id item file
      (rewound_version rq (clones.fresh_version_id item.id) source file stored)
