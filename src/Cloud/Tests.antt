-- ===== src/Cloud/Tests.antt =====
-- Requests to the Worker at a concrete cloud.
use excel_sync.Base.{
  ◌≤◌, ◌+◌, arith, ℕ, Option, true, false, none, some, [], ◌∷◌, ◌≡◌, refl, ap, map, ok, string_eq,
  nat_eq, option_eq, decimal, is_some, to_lower, clip, ◌>>=◌, when_some, transaction,
}
use excel_sync.Local.Schema.{telegram_bot}
use excel_sync.Cloud.Schema.{
  AuthUser, SystemRole, internal, editor, manager, ScopeType, PrincipalType, FileRow, IntentRow,
  Cloud, AccessRule, FileStatus, VersionStatus, uploaded, edit,
}
use excel_sync.Cloud.Like.{like}
use excel_sync.Cloud.Access.{
  resolve_file_access, can_create_resource_at_path, place_of, get_effective_workspace_role,
  is_system_admin, resource_permission_at_least, best_permission, in_scope, get_membership,
  rule_applies, applies_to_user, in_group, member_access,
}
use excel_sync.Cloud.Access.Grants.{
  resolve_file_access-granted, can_create_resource_at_path-granted, best_permission-suffices,
}
use excel_sync.Cloud.Login.{
  Throttles, stored, LoginThrottleState, Others, failed_user_loaded, set_entry, handle_login,
  check_ip, record_login_failure, fail_ip, load_user, load_ip, load_entry, fail_entry,
}
use excel_sync.Cloud.Login.Guesses.{checks, checks-bounded, Guess, Alone, InWindow}
use excel_sync.Cloud.Requests.{
  Request, get_owned_file, assert_file_lease_compatible, record_domain_event,
  record_file_state_snapshot,
}
use excel_sync.Cloud.Commit.{
  commit_uploaded_intent, commit_uploaded, advance, announce, commit_batch, finish_batch,
  get_retention, insert_version, parse_retention, update_file,
}
use excel_sync.Cloud.Calls.{run, commits, trashes, deletes_permanently}
use excel_sync.Base.{any, ◌⊎◌}
use excel_sync.Cloud.Schema.{Snapshot}
use excel_sync.Cloud.Rewind.{steps_to}
use excel_sync.Cloud.Rewind.Restores.{HasState, rewound_by, asks_version, steps_to-HasState}
use excel_sync.Cloud.Kept.{Mark, HasVersion}
use excel_sync.Cloud.Kept.Runs.{run-HasVersion}
use excel_sync.Cloud.Kept.Commits.{Commits, commit_uploaded_intent-Commits}

abbrev pub an_editor : AuthUser
an_editor = record {
  id = "u1";
  organization_id = "o1";
  system_role = SystemRole.member;
  account_type = some internal;
}

abbrev pub a_file : FileRow
a_file = record {
  id = "f1";
  logical_name = "sales.xlsx";
  relative_path = "team_a/sales.xlsx";
  current_version = 3;
  current_telegram_file_id = some "t3";
  current_telegram_message_id = some 30;
  current_storage_backend = some telegram_bot;
  current_storage_locator = none;
  current_hash = some "aa";
  owner_user_id = "u1";
  workspace_id = "w1";
  home_storage_connection_id = some "s1";
  updated_by = "u1";
  created_at = 1;
  updated_at = 1;
  status = FileStatus.active;
  trashed_at = none;
  trashed_by = none;
}

abbrev pub an_intent : IntentRow
an_intent = record {
  id = "i1";
  idempotency_key = "k1";
  file_id = "f1";
  owner_user_id = "u1";
  workspace_id = "w1";
  storage_connection_id = some "s1";
  logical_name = "sales.xlsx";
  base_version = 3;
  hash = "bb";
  size = 10;
  status = uploaded;
  telegram_file_id = some "t4";
  telegram_message_id = some 40;
  storage_backend = telegram_bot;
  storage_locator = none;
  restored_from_version = none;
  updated_at = 5;
}

abbrev a_rule : AccessRule
a_rule = record {
  organization_id = "o1";
  workspace_id = "w1";
  principal_type = PrincipalType.group;
  principal_id = "g1";
  scope_type = ScopeType.folder;
  scope_value = "team_a";
  permission = edit;
}

abbrev pub a_cloud : Cloud
a_cloud = record {
  workspaces =
      record {
        id = "w1";
        organization_id = "o1";
        is_active = true;
        default_storage_connection_id = some "s1";
        created_at = 1;
      }
      ∷ [];
  members = record { workspace_id = "w1"; user_id = "u1"; role = editor } ∷ [];
  groups = record { id = "g1"; organization_id = "o1"; is_active = true } ∷ [];
  group_members = record { group_id = "g1"; user_id = "u1" } ∷ [];
  rules = a_rule ∷ [];
  files = a_file ∷ [];
  versions =
      record {
        id = "v3";
        file_id = "f1";
        version = 3;
        telegram_file_id = "t3";
        telegram_message_id = 30;
        hash = "aa";
        size = 9;
        base_version = 2;
        restored_from_version = none;
        created_at = 1;
        created_by = "u1";
        storage_connection_id = "s1";
        storage_backend = some telegram_bot;
        storage_locator = none;
        status = VersionStatus.active;
      }
      ∷ [];
  intents = an_intent ∷ [];
  leases = [];
  presence = [];
  notifications = [];
  retention = λ _. none;
  sync_events = [];
  domain_events = [];
  snapshots = [];
  rewinds = [];
  rewind_items = [];
}

abbrev pub a_request : Request
a_request = record { user = an_editor; device_id = none; session_id = "s1"; now = 9 }

resolve_file_access-granted_example :
    is_some (resolve_file_access a_cloud an_editor "f1" editor) ≡ true
unfolding string_eq is_system_admin get_membership rule_applies applies_to_user in_group in_scope
    like
resolve_file_access-granted_example = resolve_file_access-granted a_cloud an_editor "f1" editor

can_create_resource_at_path-granted_example :
    can_create_resource_at_path a_cloud an_editor (place_of a_file) manager ≡ false
unfolding get_effective_workspace_role is_system_admin get_membership string_eq
can_create_resource_at_path-granted_example =
    can_create_resource_at_path-granted a_cloud an_editor (place_of a_file) manager

best_permission-suffices_example :
    resource_permission_at_least (best_permission none (a_rule ∷ [])) editor ≡ true
best_permission-suffices_example = best_permission-suffices editor (a_rule ∷ [])

-- An underscore of a folder's name stands for any character: the rule on `team_a` also covers this.
folder_rule_reaches_another_folder :
    in_scope (record (place_of a_file) { relative_path = "team-a/salaries.xlsx" }) a_rule ≡ true
unfolding in_scope string_eq like
folder_rule_reaches_another_folder = refl

pub committed_version :
    (commit_uploaded_intent a_request none "v4" an_intent a_cloud).0
    ≡ ok (record { file_id = "f1"; version = 4; hash = "bb" })
unfolding commit_uploaded_intent ◌>>=◌ string_eq commit_uploaded get_owned_file resolve_file_access
    is_system_admin member_access get_membership best_permission rule_applies applies_to_user
    in_group in_scope like assert_file_lease_compatible when_some transaction clip decimal to_lower
    advance announce commit_batch finish_batch get_retention insert_version parse_retention
    update_file record_domain_event record_file_state_snapshot
committed_version = refl

commit_uploaded_intent-Commits_example :
    Commits "o1" an_intent a_cloud
      (record { file_id = "f1"; version = 4; hash = "bb" })
      (commit_uploaded_intent a_request none "v4" an_intent a_cloud).1
commit_uploaded_intent-Commits_example =
    commit_uploaded_intent-Commits a_request none "v4" an_intent a_cloud refl (
      ap (λ r. (r, (commit_uploaded_intent a_request none "v4" an_intent a_cloud).1))
        committed_version)

-- A file that was put in the trash after its new content was uploaded.
abbrev a_trashed_cloud : Cloud
a_trashed_cloud = record a_cloud {
  files =
      record a_file { status = FileStatus.trashed; trashed_at = some 8; trashed_by = some "u2" }
      ∷ [];
}

abbrev trash_mark : FileRow → FileStatus × Option ℕ
trash_mark f = (f.status, f.trashed_at)

-- The commit takes it out of the trash, and it still has the time and the user that trashed it.
commit_takes_out_of_trash :
    map trash_mark (commit_uploaded_intent a_request none "v4" an_intent a_trashed_cloud).1.files
    ≡ (FileStatus.active, some 8) ∷ []
unfolding commit_uploaded_intent ◌>>=◌ string_eq commit_uploaded get_owned_file resolve_file_access
    is_system_admin member_access get_membership best_permission rule_applies applies_to_user
    in_group in_scope like assert_file_lease_compatible when_some transaction clip decimal to_lower
    advance announce commit_batch finish_batch get_retention insert_version parse_retention
    update_file record_domain_event record_file_state_snapshot
commit_takes_out_of_trash = refl

abbrev version_three : Mark
version_three = record { file_id = "f1"; version = 3; hash = "aa" }

HasVersion-three : HasVersion version_three a_cloud
unfolding string_eq
HasVersion-three = record { reached = refl; recorded = refl }

run-HasVersion_example : HasVersion version_three (
    run
      ((a_request, commits none "v4" "i1")
        ∷ (a_request, trashes "f1" 4)
        ∷ (a_request, deletes_permanently "f1")
        ∷ [])
      a_cloud)
run-HasVersion_example = run-HasVersion version_three _ a_cloud HasVersion-three

abbrev a_failed_login : LoginThrottleState
a_failed_login = record { failures = 4; window_started_at = 100; blocked_until = none }

abbrev some_throttles : Throttles
some_throttles = record { users = λ _. some (stored a_failed_login); ips = λ _. none }

-- While the user's login awaits, another user's fails: its row and the address's are written.
abbrev others : Others
others = record {
  at_point = λ p t. record {
    users = set_entry "u2" (some (stored a_failed_login)) t.users;
    ips = λ _. some (stored a_failed_login);
  };
  failed_at = 250;
}

abbrev a_guess : Guess
a_guess = record { ip = "1.1.1.1"; time = 200; others = others }

others-Alone : Alone "u1" others
unfolding string_eq
others-Alone p t = refl

in_window : InWindow "u1" 100 a_guess
in_window = (omega arith, omega arith, omega arith, omega arith, others-Alone)

checks-bounded_example : 4 + checks "u1" (a_guess ∷ a_guess ∷ a_guess ∷ []) some_throttles ≤ 6
checks-bounded_example =
    checks-bounded "u1" (a_guess ∷ a_guess ∷ a_guess ∷ []) some_throttles a_failed_login refl
      (omega arith) (in_window, (in_window, (in_window, tt)))

-- Two wrong passwords of one user, of which the second runs while the first awaits, count once.
abbrev nobody : Others
nobody = record { at_point = λ p t. t; failed_at = 250 }

abbrev a_burst : Others
a_burst = record {
  at_point = λ p t. elim p [
    | failed_user_loaded ↦ (handle_login "u1" "2.2.2.2" 200 false nobody t).1
    | _ ↦ t
  ];
  failed_at = 250;
}

overlapping_failures_count_once :
    (handle_login "u1" "1.1.1.1" 200 false a_burst some_throttles).1.users "u1"
    ≡ some (stored (record a_failed_login { failures = 5 }))
unfolding handle_login check_ip record_login_failure fail_ip load_user load_ip load_entry fail_entry
    string_eq
overlapping_failures_count_once = refl

abbrev a_state : Snapshot
a_state = record {
  file_id = "f1";
  workspace_id = "w1";
  logical_name = "plan.xlsx";
  relative_path = "team_a/plan.xlsx";
  status = FileStatus.trashed;
  content_version = 2;
  event_type = "TRASH";
  actor_user_id = "u1";
  created_at = 1;
}

steps_to-HasState_example :
    HasState a_state (rewound_by (steps_to a_state a_file) a_file)
    × ((◌≡◌ {A = ℕ} 2 0)
        ⊎ (◌≡◌ {A = ℕ} 2 3)
        ⊎ (any (asks_version 2) (steps_to a_state a_file) ≡ true))
steps_to-HasState_example = steps_to-HasState a_state a_file
