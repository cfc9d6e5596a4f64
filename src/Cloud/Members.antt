-- ===== src/Cloud/Members.antt =====
-- worker/src/enterprise.ts: the members of a workspace, their roles and their rules. The audit log and the
-- table of users are left out: `account` is the account type of the user that the request names, where the
-- organisation has that user and did not deactivate it.
pub mod Managers
pub mod Put
mod Tests
use excel_sync.Base.{
  String, Bool, true, false, ◌&&◌, ◌||◌, not, Option, [], ◌∷◌, ◌++◌, ◌==◌, string_eq, leb, any,
  remove, update, count, if◌then◌else◌, gets, require, guard, modify, transaction, ◌>>=◌, ◌>>◌,
}
use excel_sync.Cloud.Schema.{
  AccountType, external, internal, WorkspaceMember, WorkspaceRole, manager, editor, viewer,
  Permission, manage, edit, view, PrincipalType, user, group, ScopeType, workspace, AccessRule,
  Cloud, Handler, http,
}
use excel_sync.Cloud.Access.{
  get_effective_workspace_role, workspace_role_at_least, is_system_admin, get_membership,
  permission_for_workspace_role,
}
use excel_sync.Cloud.Requests.{Request}

abbrev pub is_known_workspace : Request → String → Cloud → Bool
is_known_workspace rq workspace_id c =
    any (λ w. w.id == workspace_id && w.organization_id == rq.user.organization_id) c.workspaces

unfoldable pub ensure_org_workspace : Request → String → Handler (Unit {0})
ensure_org_workspace rq workspace_id = do
  known ← gets (is_known_workspace rq workspace_id)
  guard known (http 404 "WORKSPACE_NOT_FOUND")

abbrev pub may_manage : Request → String → Cloud → Bool
may_manage rq workspace_id c =
    is_system_admin rq.user
    || workspace_role_at_least (get_effective_workspace_role c rq.user workspace_id) manager

-- `if (!isSystemAdmin(user)) await requireWorkspaceRole(…, 'MANAGER')`
unfoldable pub require_manager : Request → String → Handler (Unit {0})
require_manager rq workspace_id = do
  allowed ← gets (may_manage rq workspace_id)
  guard allowed (http 403 "WORKSPACE_FORBIDDEN")

abbrev pub is_manager : WorkspaceRole → Bool
is_manager manager = true
is_manager _ = false

abbrev pub is_external : AccountType → Bool
is_external external = true
is_external internal = false

abbrev pub is_member : String → String → WorkspaceMember → Bool
is_member workspace_id user_id m = m.workspace_id == workspace_id && m.user_id == user_id

abbrev is_user : PrincipalType → Bool
is_user user = true
is_user group = false

abbrev pub is_workspace : ScopeType → Bool
is_workspace workspace = true
is_workspace _ = false

-- `workspace_id = ? AND principal_type = 'USER' AND principal_id = ?`
abbrev pub is_rule_of : String → String → AccessRule → Bool
is_rule_of workspace_id user_id r =
    r.workspace_id == workspace_id && is_user r.principal_type && r.principal_id == user_id

abbrev pub put_member : String → String → WorkspaceRole → Cloud → Cloud
put_member workspace_id user_id role c =
    if any (is_member workspace_id user_id) c.members
    then record c {
      members = update (is_member workspace_id user_id) (λ m. record m { role = role }) c.members;
    }
    else record c {
      members =
          c.members ++ record { workspace_id = workspace_id; user_id = user_id; role = role } ∷ [];
    }

-- The unique index of resource_access_rules, for a rule of the user on the whole workspace.
abbrev pub is_workspace_rule : String → String → AccessRule → Bool
is_workspace_rule workspace_id user_id r =
    is_rule_of workspace_id user_id r && is_workspace r.scope_type && r.scope_value == workspace_id

abbrev workspace_rule : Request → String → String → WorkspaceRole → AccessRule
workspace_rule rq workspace_id user_id role = record {
  organization_id = rq.user.organization_id;
  workspace_id = workspace_id;
  principal_type = user;
  principal_id = user_id;
  scope_type = workspace;
  scope_value = workspace_id;
  permission = permission_for_workspace_role role;
}

unfoldable pub insert_workspace_rule :
    Request → String → String → WorkspaceRole → Handler (Unit {0})
insert_workspace_rule rq workspace_id user_id role = do
  taken ← gets (λ c. any (is_workspace_rule workspace_id user_id) c.rules)
  guard (not taken) (http 500 "INTERNAL_ERROR")
  modify (λ c. record c { rules = c.rules ++ workspace_rule rq workspace_id user_id role ∷ [] })

abbrev pub update_rules : String → String → WorkspaceRole → Cloud → Cloud
update_rules workspace_id user_id role c = record c {
  rules =
      update (is_rule_of workspace_id user_id)
        (λ r. record r { permission = permission_for_workspace_role role }) c.rules;
}

-- The second statement of the batch.
unfoldable pub put_rules : Request → String → String → WorkspaceRole → Bool → Handler (Unit {0})
put_rules rq workspace_id user_id role existed =
    if existed
    then modify (update_rules workspace_id user_id role)
    else insert_workspace_rule rq workspace_id user_id role

unfoldable pub handle_workspace_member_put :
    Request → String → String → WorkspaceRole → Option AccountType → Handler (Unit {0})
handle_workspace_member_put rq workspace_id user_id role account = do
  ensure_org_workspace rq workspace_id
  require_manager rq workspace_id
  target ← require account (http 404 "USER_NOT_FOUND")
  guard (not (is_external target && is_manager role)) (http 400 "EXTERNAL_MANAGER_FORBIDDEN")
  existed ← gets (λ c. any (is_member workspace_id user_id) c.members)
  transaction (
      modify (put_member workspace_id user_id role)
      >> put_rules rq workspace_id user_id role existed)

abbrev pub is_manager_of : String → WorkspaceMember → Bool
is_manager_of workspace_id m = m.workspace_id == workspace_id && is_manager m.role

abbrev pub drop_member : String → String → Cloud → Cloud
drop_member workspace_id user_id c = record c {
  rules = remove (is_rule_of workspace_id user_id) c.rules;
  members = remove (is_member workspace_id user_id) c.members;
}

unfoldable pub handle_workspace_member_delete : Request → String → String → Handler (Unit {0})
handle_workspace_member_delete rq workspace_id user_id = do
  ensure_org_workspace rq workspace_id
  require_manager rq workspace_id
  managers ← gets (λ c. count (is_manager_of workspace_id) c.members)
  found ← gets (λ c. get_membership c user_id workspace_id)
  target ← require found (http 404 "WORKSPACE_MEMBER_NOT_FOUND")
  guard (not (is_manager target && leb managers 1)) (http 409 "LAST_MANAGER_CANNOT_REMOVE")
  modify (drop_member workspace_id user_id)
