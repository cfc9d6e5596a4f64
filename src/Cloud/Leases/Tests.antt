-- ===== src/Cloud/Leases/Tests.antt =====
-- Leases at a concrete cloud.
use excel_sync.Base.{
  Option, true, none, some, [], ◌∷◌, ◌≡◌, refl, ap, ok, string_eq, arith, ◌>>=◌, when_some,
}
use excel_sync.Cloud.Schema.{LeaseRow, Cloud, IntentRow, reserved, uploaded}
use excel_sync.Cloud.Requests.{Request, get_owned_file, assert_file_lease_compatible}
use excel_sync.Cloud.Like.{like}
use excel_sync.Cloud.Commit.{commit_uploaded_intent}
use excel_sync.Cloud.Calls.{run, acquires, takes_over, releases}
use excel_sync.Cloud.Leases.{handle_file_lease_acquire}
use excel_sync.Cloud.Leases.Single.{Single}
use excel_sync.Cloud.Leases.Single.Runs.{run-Single}
use excel_sync.Cloud.Leases.Locks.{
  locks_at, handle_file_lease_acquire-acquire_lock, lock, acquire_lock,
}
use excel_sync.Cloud.Leases.Guarded.{may_edit, commit_uploaded_intent-may_edit, store_part-may_edit}
use excel_sync.Cloud.Upload.{Stored, Provider, Part, store_part, save_upload}
use excel_sync.Cloud.Tests.{a_cloud, a_request, an_intent, committed_version}
use excel_sync.Cloud.Access.{
  resolve_file_access, is_system_admin, member_access, get_membership, best_permission,
  rule_applies, applies_to_user, in_group, in_scope,
}
use excel_sync.Cloud.Like.{like}

abbrev a_device_request : Request
a_device_request = record a_request { device_id = some "d1" }

abbrev an_old_lease : LeaseRow
an_old_lease = record {
  file_id = "f1";
  workspace_id = "w1";
  owner_user_id = "u2";
  owner_device_id = "d2";
  owner_session_id = "s2";
  lease_id = "l0";
  created_at = 1;
  heartbeat_at = 1;
  expires_at = 8;
}

-- The lease of another user has expired.
abbrev a_leased_cloud : Cloud
a_leased_cloud = record a_cloud { leases = an_old_lease ∷ [] }

Single-leased : Single a_leased_cloud
Single-leased = record { at_most = λ id. ground arith }

run-Single_example : Single (
    run
      ((a_device_request, acquires "f1" none "l1")
        ∷ (a_device_request, releases "f1" "l1")
        ∷ (a_device_request, takes_over "f1" "l2")
        ∷ [])
      a_leased_cloud)
run-Single_example = run-Single _ a_leased_cloud Single-leased

handle_file_lease_acquire-acquire_lock_example :
    locks_at 9 (handle_file_lease_acquire a_device_request "f1" none "l1" a_leased_cloud).1 "f1"
    ≡ some (lock a_device_request "d1" "l1")
unfolding string_eq resolve_file_access is_system_admin member_access get_membership best_permission
    rule_applies applies_to_user in_group in_scope like acquire_lock locks_at
handle_file_lease_acquire-acquire_lock_example =
    handle_file_lease_acquire-acquire_lock a_device_request "f1" none "l1" a_leased_cloud refl refl
      refl "f1"

commit_uploaded_intent-may_edit_example : may_edit a_request (locks_at 9 a_cloud "f1") ≡ true
commit_uploaded_intent-may_edit_example =
    commit_uploaded_intent-may_edit a_request none "v4" an_intent a_cloud refl (
      ap (λ r. (r, (commit_uploaded_intent a_request none "v4" an_intent a_cloud).1))
        committed_version)

abbrev a_stored : Stored
a_stored = record { file_id = "t4"; message_id = 40; locator = "t4" }

abbrev a_provider : Option Provider
a_provider = some (record { max_reliable_file_bytes = 100; upload = some a_stored })

abbrev a_part : Part
a_part = record { size = 10; signature_matches = true; sha256 = "bb" }

abbrev a_reserved_intent : IntentRow
a_reserved_intent = record an_intent { status = reserved }

abbrev a_reserved_cloud : Cloud
a_reserved_cloud = record a_cloud { intents = a_reserved_intent ∷ [] }

stored_part :
    (store_part a_request a_provider a_part a_reserved_intent a_reserved_cloud).0
    ≡ ok (record { intent_id = "i1"; status = uploaded })
unfolding store_part ◌>>=◌ get_owned_file resolve_file_access string_eq is_system_admin
    member_access get_membership best_permission rule_applies applies_to_user in_group in_scope like
    assert_file_lease_compatible when_some save_upload
stored_part = refl

store_part-may_edit_example : may_edit a_request (locks_at 9 a_reserved_cloud "f1") ≡ true
store_part-may_edit_example =
    store_part-may_edit a_request a_provider a_part a_reserved_intent a_reserved_cloud (
      ap (λ r. (r, (store_part a_request a_provider a_part a_reserved_intent a_reserved_cloud).1))
        stored_part)
