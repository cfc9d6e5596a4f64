-- ===== src/Cloud/Preflight.antt =====
-- worker/src/index.ts: handlePreflight. The names and paths of a request arrive normalised.
use excel_sync.Base.{
  ℕ, String, ◌<>◌, Bool, false, ◌&&◌, not, Option, none, some, [], ◌∷◌, ◌++◌, ◌==◌, string_eq,
  nat_eq, option_eq, leb, ltb, eqb, find, if◌then◌else◌, decimal, to_lower, gets, require, throw,
  modify, guard, pure, ◌>>=◌, ◌>>◌, when_some,
}
use excel_sync.Local.Schema.{Backend}
use excel_sync.Cloud.Schema.{
  file_category, editor, viewer, FileStatus, FileRow, IntentRow, IntentStatus, Cloud, Handler, http,
  Workspace, reserved, uploaded, committed, abandoned,
}
use excel_sync.Cloud.Access.{
  get_effective_workspace_role, workspace_role_at_least, can_create_resource_at_path,
}
use excel_sync.Cloud.Requests.{
  Request, get_owned_file, assert_file_lease_compatible, record_domain_event,
  record_file_state_snapshot, create_notification, is_active, holds_path,
}
use excel_sync.Cloud.Storage.{capabilities_for_storage_provider, backend_name, same_backend}

-- The request's body. `workspace_id` is `input.workspaceId`, `default_workspace_id` is what
-- getDefaultWorkspaceId answers; `fresh_file_id` and `intent_id` are the new UUIDs.
pub record PreflightInput : Type 0 where
  pub file_id : Option String
  pub workspace_id : Option String
  pub default_workspace_id : Option String
  pub logical_name : String
  pub relative_path : String
  pub hash : String
  pub size : ℕ
  pub base_version : ℕ
  pub idempotency_key : String
  pub storage_backend : Backend
  pub restored_from_version : Option ℕ
  pub fresh_file_id : String
  pub intent_id : String

pub data Verdict : Type 0 where
  noop : String → ℕ → Verdict
  stale : String → ℕ → Verdict
  already_committed : String → String → ℕ → Verdict
  commit_required upload_required : String → String → Verdict

unfoldable pub require_editor : Request → String → Handler (Unit {0})
require_editor rq workspace_id = do
  role ← gets (λ c. get_effective_workspace_role c rq.user workspace_id)
  guard (workspace_role_at_least role editor) (http 403 "WORKSPACE_UPLOAD_FORBIDDEN")

-- `input.x && input.x !== y`
abbrev differs_from : Option String → String → Bool
differs_from none y = false
differs_from (some x) y = not (x == y)

unfoldable pub check_target : Request → PreflightInput → String → Handler FileRow
unfolding require_editor
check_target rq input file_id = do
  file ← get_owned_file rq file_id editor
  guard (not (differs_from input.workspace_id file.workspace_id))
      (http 409 "FILE_WORKSPACE_MISMATCH")
  require_editor rq file.workspace_id
  guard (is_active file.status) (http 409 "FILE_NOT_ACTIVE")
  pure file

-- The file that `input.fileId` names, where it is in the table.
unfoldable pub find_target : Request → PreflightInput → Handler (Option FileRow)
unfolding check_target
find_target rq input = when_some input.file_id (pure none) λ file_id. do
  raw ← gets (λ c. find (λ f. f.id == file_id) c.files)
  when_some raw (pure none) λ _. do file ← check_target rq input file_id; pure (some file)

abbrev workspace_of : String → Option FileRow → String
workspace_of workspace_id none = workspace_id
workspace_of workspace_id (some f) = f.workspace_id

-- The first of the two comparisons that end in IDEMPOTENCY_KEY_REUSED.
abbrev is_replay : PreflightInput → String → IntentRow → Bool
is_replay input workspace_id i =
    not (differs_from input.file_id i.file_id)
    && i.workspace_id == workspace_id
    && i.logical_name == input.logical_name
    && to_lower i.hash == to_lower input.hash
    && eqb i.size input.size
    && eqb i.base_version input.base_version
    && same_backend i.storage_backend input.storage_backend

unfoldable pub check_replay :
    Request → PreflightInput → String → IntentRow → Handler (Option FileRow)
check_replay rq input workspace_id intent = do
  guard (is_replay input workspace_id intent) (http 409 "IDEMPOTENCY_KEY_REUSED")
  file ← get_owned_file rq intent.file_id editor
  guard
      (is_active file.status
        && file.workspace_id == workspace_id
        && to_lower file.relative_path == to_lower input.relative_path)
      (http 409 "IDEMPOTENCY_KEY_REUSED")
  pure (some file)

abbrev expected_id : Option String → Option FileRow → Option String
expected_id requested none = requested
expected_id requested (some f) = some f.id

-- `pathConflict && pathConflict.id !== expectedPathFileId`
abbrev is_other_file : Option FileRow → Option String → Bool
is_other_file none expected = false
is_other_file (some f) expected = not (some f.id == expected)

unfoldable pub check_path : PreflightInput → String → Option FileRow → Handler (Unit {0})
check_path input workspace_id file = do
  holder ← gets (λ c. find (holds_path workspace_id input.relative_path) c.files)
  guard (not (is_other_file holder (expected_id input.file_id file)))
      (http 409 "PATH_ALREADY_EXISTS")

abbrev lacks_storage : Backend → Workspace → Bool
lacks_storage backend w =
    backend_name backend == "telegram_bot" && w.default_storage_connection_id == none

unfoldable pub check_storage : Request → PreflightInput → String → Handler Workspace
check_storage rq input workspace_id = do
  found ← gets (λ c.
      find
        (λ w. w.id == workspace_id && w.organization_id == rq.user.organization_id && w.is_active)
        c.workspaces)
  storage ← require found (http 404 "WORKSPACE_NOT_FOUND")
  guard (not (lacks_storage input.storage_backend storage))
      (http 503 "WORKSPACE_STORAGE_NOT_CONFIGURED")
  let limit =
      (capabilities_for_storage_provider
        (backend_name input.storage_backend)).max_reliable_file_bytes
  guard (ltb 0 limit) (http 503 "STORAGE_PROVIDER_UNSUPPORTED")
  guard (leb input.size limit) (http 413 "FILE_TOO_LARGE")
  pure storage

abbrev created_file : Request → PreflightInput → String → Option String → String → FileRow
created_file rq input workspace_id connection_id file_id = record {
  id = file_id;
  logical_name = input.logical_name;
  relative_path = input.relative_path;
  current_version = 0;
  current_telegram_file_id = none;
  current_telegram_message_id = none;
  current_storage_backend = none;
  current_storage_locator = none;
  current_hash = none;
  owner_user_id = rq.user.id;
  workspace_id = workspace_id;
  home_storage_connection_id = connection_id;
  updated_by = rq.user.id;
  created_at = rq.now;
  updated_at = rq.now;
  status = FileStatus.active;
  trashed_at = none;
  trashed_by = none;
}

abbrev id_or : String → Option String → String
id_or fresh none = fresh
id_or fresh (some id) = id

unfoldable pub create_file : Request → PreflightInput → String → Option String → Handler FileRow
create_file rq input workspace_id connection_id = do
  allowed ← gets (λ c.
      can_create_resource_at_path c rq.user
        (record {
          workspace_id = workspace_id;
          storage_connection_id = connection_id;
          file_id = none;
          relative_path = input.relative_path;
        })
        editor)
  guard allowed (http 403 "RESOURCE_CREATE_FORBIDDEN")
  let file_id = id_or input.fresh_file_id input.file_id
  modify (λ c. record c {
    files = c.files ++ created_file rq input workspace_id connection_id file_id ∷ [];
  })
  file ← get_owned_file rq file_id editor
  record_domain_event rq workspace_id file_id ("file-created:" <> file_id) "FILE_CREATED"
  record_file_state_snapshot rq file_id "CREATE"
  pure file

abbrev new_intent : Request → PreflightInput → FileRow → String → Option String → IntentRow
new_intent rq input file workspace_id connection_id = record {
  id = input.intent_id;
  idempotency_key = input.idempotency_key;
  file_id = file.id;
  owner_user_id = rq.user.id;
  workspace_id = workspace_id;
  storage_connection_id = connection_id;
  logical_name = input.logical_name;
  base_version = input.base_version;
  hash = to_lower input.hash;
  size = input.size;
  status = reserved;
  telegram_file_id = none;
  telegram_message_id = none;
  storage_backend = input.storage_backend;
  storage_locator = none;
  restored_from_version = input.restored_from_version;
  updated_at = rq.now;
}

unfoldable pub answer_status : Request → FileRow → IntentRow → IntentStatus → Handler Verdict
answer_status rq file i committed = do
  fresh ← get_owned_file rq file.id viewer
  pure (already_committed fresh.id i.id fresh.current_version)
answer_status rq file i uploaded = pure (commit_required file.id i.id)
answer_status rq file i abandoned = throw (http 409 "INTENT_ABANDONED")
answer_status rq file i reserved = pure (upload_required file.id i.id)

unfoldable pub answer_intent : Request → PreflightInput → FileRow → IntentRow → Handler Verdict
answer_intent rq input file i = do
  guard
      (i.file_id == file.id
        && to_lower i.hash == to_lower input.hash
        && eqb i.base_version input.base_version
        && same_backend i.storage_backend input.storage_backend)
      (http 409 "IDEMPOTENCY_KEY_REUSED")
  answer_status rq file i i.status

abbrev intent_with_key : Request → PreflightInput → Cloud → Option IntentRow
intent_with_key rq input c =
    find (λ i. i.owner_user_id == rq.user.id && i.idempotency_key == input.idempotency_key)
      c.intents

unfoldable pub reserve :
    Request → PreflightInput → FileRow → String → Option String → Handler Verdict
unfolding answer_intent
reserve rq input file workspace_id connection_id = do
  existing ← gets (intent_with_key rq input)
  when_some existing
      (do
        modify (λ c. record c {
          intents = c.intents ++ new_intent rq input file workspace_id connection_id ∷ [];
        })
        pure (upload_required file.id input.intent_id))
      (answer_intent rq input file)

-- `file.current_hash?.toLowerCase() === input.hash.toLowerCase()`
abbrev has_hash : Option String → String → Bool
has_hash none hash = false
has_hash (some h) hash = to_lower h == to_lower hash

abbrev conflict_key : PreflightInput → FileRow → String
conflict_key input file =
    "sync-conflict:"
    <> file.id
    <> ":"
    <> input.idempotency_key
    <> ":"
    <> decimal file.current_version

unfoldable pub report_conflict : Request → PreflightInput → FileRow → String → Handler Verdict
report_conflict rq input file workspace_id = do
  record_domain_event rq workspace_id file.id (conflict_key input file) "SYNC_CONFLICT"
  create_notification rq rq.user.id (conflict_key input file) file_category file.id
  pure (stale file.id file.current_version)

unfoldable pub judge : Request → PreflightInput → FileRow → String → Option String → Handler Verdict
unfolding reserve
judge rq input file workspace_id connection_id =
    if has_hash file.current_hash input.hash && ltb 0 file.current_version
    then pure (noop file.id file.current_version)
    else if not (eqb file.current_version input.base_version)
    then report_conflict rq input file workspace_id
    else reserve rq input file workspace_id connection_id

unfoldable pub handle_preflight : Request → PreflightInput → Handler Verdict
unfolding require_editor find_target check_replay check_path check_storage create_file judge
handle_preflight rq input = do
  requested ←
      require (elim input.workspace_id [ some w ↦ some w | none ↦ input.default_workspace_id ])
        (http 400 "DEFAULT_WORKSPACE_REQUIRED")
  require_editor rq requested
  target ← find_target rq input
  let workspace_id = workspace_of requested target
  replayed ← gets (intent_with_key rq input)
  known ← when_some replayed (pure target) (check_replay rq input workspace_id)
  check_path input workspace_id known
  storage ← check_storage rq input workspace_id
  file ←
      when_some known (create_file rq input workspace_id storage.default_storage_connection_id) pure
  if ltb 0 file.current_version then assert_file_lease_compatible rq file.id else pure tt
  judge rq input file workspace_id storage.default_storage_connection_id
