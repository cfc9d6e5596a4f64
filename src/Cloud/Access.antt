-- ===== src/Cloud/Access.antt =====
-- worker/src/access.ts: who may do what with a workspace and a file. The text that a request's
-- statement compares is compared here; SQL's `IN (SELECT …)` and joins are searches of the tables.
pub mod Grants
pub mod Folders
use excel_sync.Base.{
  ℕ, String, ◌<>◌, Bool, true, false, ◌&&◌, ◌||◌, not, Option, none, some, List, [], ◌∷◌, ◌==◌,
  string_eq, ltb, leb, find, any, select, if◌then◌else◌, is_some,
}
use excel_sync.Cloud.Schema.{
  SystemRole, owner, admin, member, AccountType, external, WorkspaceRole, manager, editor, viewer,
  Permission, manage, edit, view, workspace, storage, folder, file, user, group, AuthUser,
  WorkspaceMember, AccessRule, FileRow, Cloud,
}
use excel_sync.Cloud.Like.{like}

abbrev pub workspace_rank : WorkspaceRole → ℕ
workspace_rank viewer = 1
workspace_rank editor = 2
workspace_rank manager = 3

abbrev pub resource_rank : Permission → ℕ
resource_rank view = 1
resource_rank edit = 2
resource_rank manage = 3

abbrev is_external : Option AccountType → Bool
is_external (some external) = true
is_external _ = false

abbrev is_owner_or_admin : SystemRole → Bool
is_owner_or_admin owner = true
is_owner_or_admin admin = true
is_owner_or_admin member = false

unfoldable pub is_system_admin : AuthUser → Bool
is_system_admin u = not (is_external u.account_type) && is_owner_or_admin u.system_role

abbrev pub workspace_role_at_least : Option WorkspaceRole → WorkspaceRole → Bool
workspace_role_at_least none required = false
workspace_role_at_least (some actual) required =
    leb (workspace_rank required) (workspace_rank actual)

abbrev pub resource_permission_at_least : Option Permission → WorkspaceRole → Bool
resource_permission_at_least none required = false
resource_permission_at_least (some actual) required =
    leb (workspace_rank required) (resource_rank actual)

abbrev pub permission_for_workspace_role : WorkspaceRole → Permission
permission_for_workspace_role manager = manage
permission_for_workspace_role editor = edit
permission_for_workspace_role viewer = view

abbrev pub active_workspace : String → Cloud → Bool
active_workspace id c = any (λ w. w.id == id && w.is_active) c.workspaces

abbrev pub role_of : Option WorkspaceMember → Option WorkspaceRole
role_of none = none
role_of (some m) = some m.role

unfoldable pub get_membership : Cloud → String → String → Option WorkspaceRole
get_membership c user_id workspace_id = role_of (
    find
      (λ m.
        m.user_id == user_id && m.workspace_id == workspace_id && active_workspace m.workspace_id c)
      c.members)

unfoldable pub get_effective_workspace_role : Cloud → AuthUser → String → Option WorkspaceRole
get_effective_workspace_role c u workspace_id =
    if is_system_admin u
    then (if any
          (λ w. w.id == workspace_id && w.organization_id == u.organization_id && w.is_active)
          c.workspaces
        then some manager
        else none)
    else get_membership c u.id workspace_id

unfoldable pub best_permission : Option Permission → List AccessRule → Option Permission
best_permission best [] = best
best_permission none (r ∷ rs) = best_permission (some r.permission) rs
best_permission (some b) (r ∷ rs) =
    best_permission
      (some (if ltb (resource_rank b) (resource_rank r.permission) then r.permission else b)) rs

-- `principal_id IN (SELECT gm.group_id …)`
unfoldable pub in_group : Cloud → AuthUser → String → Bool
in_group c u group_id =
    any
      (λ m.
        m.group_id == group_id
        && m.user_id == u.id
        && any (λ g. g.id == m.group_id && g.is_active && g.organization_id == u.organization_id)
            c.groups)
      c.group_members

unfoldable pub applies_to_user : Cloud → AuthUser → AccessRule → Bool
applies_to_user c u r = elim r.principal_type [
  | user ↦ r.principal_id == u.id
  | group ↦ in_group c u r.principal_id
]

-- `COALESCE(?, '')`
abbrev coalesce : Option String → String
coalesce none = ""
coalesce (some s) = s

-- What a rule's scope is compared with.
pub record Place : Type 0 where
  pub workspace_id : String
  pub storage_connection_id : Option String
  pub file_id : Option String
  pub relative_path : String

unfoldable pub in_scope : Place → AccessRule → Bool
in_scope p r = elim r.scope_type [
  | workspace ↦ r.scope_value == p.workspace_id
  | storage ↦ r.scope_value == coalesce p.storage_connection_id
  | file ↦ r.scope_value == coalesce p.file_id
  | folder ↦ p.relative_path == r.scope_value || like (r.scope_value <> "/%") p.relative_path
]

-- The `WHERE` of the statement that reads resource_access_rules.
unfoldable pub rule_applies : Cloud → AuthUser → Place → AccessRule → Bool
rule_applies c u p r =
    r.organization_id == u.organization_id
    && r.workspace_id == p.workspace_id
    && applies_to_user c u r
    && in_scope p r

pub record FileAccess : Type 0 where
  pub workspace_id : String
  pub workspace_role : WorkspaceRole
  pub resource_permission : Permission

abbrev pub place_of : FileRow → Place
place_of f = record {
  workspace_id = f.workspace_id;
  storage_connection_id = f.home_storage_connection_id;
  file_id = some f.id;
  relative_path = f.relative_path;
}

-- `{ role!, permission! }`: both were compared before.
abbrev pub grant : FileRow → Option WorkspaceRole → Option Permission → Option FileAccess
grant f (some role) (some permission) = some (record {
  workspace_id = f.workspace_id;
  workspace_role = role;
  resource_permission = permission;
})
grant f _ _ = none

abbrev pub permission_at : Cloud → AuthUser → Place → Option Permission
permission_at c u p = best_permission none (select (rule_applies c u p) c.rules)

unfoldable pub member_access : Cloud → AuthUser → WorkspaceRole → FileRow → Option FileAccess
member_access c u required f =
    let role = get_membership c u.id f.workspace_id in
    let permission = permission_at c u (place_of f) in
    if not (workspace_role_at_least role required)
    then none
    else if not (resource_permission_at_least permission required)
    then none
    else grant f role permission

-- The file with its workspace, in the user's organisation.
abbrev pub file_in_organization : Cloud → String → FileRow → Bool
file_in_organization c organization_id f =
    any (λ w. w.id == f.workspace_id && w.organization_id == organization_id) c.workspaces

abbrev pub file_workspace_active : Cloud → String → FileRow → Bool
file_workspace_active c organization_id f =
    any (λ w. w.id == f.workspace_id && w.organization_id == organization_id && w.is_active)
      c.workspaces

file_access : Cloud → AuthUser → WorkspaceRole → Option FileRow → Option FileAccess
file_access c u required none = none
file_access c u required (some f) =
    if not (file_workspace_active c u.organization_id f)
    then none
    else if is_system_admin u
    then some (record {
      workspace_id = f.workspace_id;
      workspace_role = manager;
      resource_permission = manage;
    })
    else member_access c u required f

unfoldable pub resolve_file_access : Cloud → AuthUser → String → WorkspaceRole → Option FileAccess
unfolding file_access
resolve_file_access c u file_id required =
    file_access c u required
      (find (λ f. f.id == file_id && file_in_organization c u.organization_id f) c.files)

unfoldable pub can_create_resource_at_path : Cloud → AuthUser → Place → WorkspaceRole → Bool
can_create_resource_at_path c u p required =
    if not (workspace_role_at_least (get_effective_workspace_role c u p.workspace_id) required)
    then false
    else if is_system_admin u
    then true
    else resource_permission_at_least (permission_at c u p) required

unfoldable pub file_workspace_role : Cloud → String → String → Option (String × WorkspaceRole)
file_workspace_role c user_id file_id =
    elim (find (λ f. f.id == file_id && is_some (get_membership c user_id f.workspace_id))
      c.files) [
        | none ↦ none
        | some f ↦ elim (get_membership c user_id f.workspace_id) [
          | none ↦ none
          | some role ↦ some (f.workspace_id, role)
        ]
      ]
