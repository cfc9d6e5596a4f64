-- ===== src/Cloud/Members/Tests.antt =====
-- The members of a workspace at a concrete cloud.
use excel_sync.Base.{[], ◌∷◌, ◌≡◌, refl, arith, string_eq, ◌>>=◌, gets, require, guard, modify}
use excel_sync.Cloud.Schema.{Cloud, manager}
use excel_sync.Cloud.Access.{get_membership, get_effective_workspace_role, is_system_admin}
use excel_sync.Cloud.Tests.{a_cloud, a_request}
use excel_sync.Cloud.Members.{handle_workspace_member_delete, ensure_org_workspace, require_manager}
use mathlib.Core.Option.{some}
use excel_sync.Cloud.Schema.{internal, viewer}
use excel_sync.Cloud.Members.{handle_workspace_member_put}
use excel_sync.Cloud.Members.Put.{Puts, handle_workspace_member_put-Puts}
use excel_sync.Cloud.Members.Managers.{Manned, handle_workspace_member_delete-Manned}

abbrev a_managed_cloud : Cloud
a_managed_cloud = record a_cloud {
  members =
      record { workspace_id = "w1"; user_id = "u1"; role = manager }
      ∷ record { workspace_id = "w1"; user_id = "u2"; role = manager }
      ∷ [];
}

Manned-managed : Manned "w1" "u2" a_managed_cloud
unfolding string_eq
Manned-managed = record { once = ground arith; manned = ground arith }

handle_workspace_member_delete-Manned_example :
    Manned "w1" "u2" (handle_workspace_member_delete a_request "w1" "u2" a_managed_cloud).1
handle_workspace_member_delete-Manned_example =
    handle_workspace_member_delete-Manned a_request "w1" "u2" a_managed_cloud Manned-managed

the_other_manager_stays :
    (handle_workspace_member_delete a_request "w1" "u2" a_managed_cloud).1.members
    ≡ record { workspace_id = "w1"; user_id = "u1"; role = manager } ∷ []
unfolding handle_workspace_member_delete ensure_org_workspace require_manager ◌>>=◌ gets require
    guard modify string_eq get_effective_workspace_role is_system_admin get_membership
the_other_manager_stays = refl

handle_workspace_member_put-Puts_example :
    Puts "w1" "u3" viewer a_managed_cloud
      (handle_workspace_member_put a_request "w1" "u3" viewer (some internal) a_managed_cloud)
unfolding string_eq
handle_workspace_member_put-Puts_example =
    handle_workspace_member_put-Puts a_request "w1" "u3" viewer (some internal) a_managed_cloud refl
