-- ===== src/Cloud/Access/Grants.antt =====
-- worker/src/access.ts, resolveFileAccess and canCreateResourceAtPath: whom they let in.
use excel_sync.Base.{
  String, Bool, true, false, ◌&&◌, ◌||◌, Option, none, some, List, [], ◌∷◌, ◌==◌, string_eq, ltb,
  leb, find, any, select, if◌then◌else◌, is_some, ◌≡◌, refl, ap, ◌∙◌, arith, Bool-cases, inl, inr,
}
use excel_sync.Cloud.Schema.{AuthUser, WorkspaceRole, Permission, AccessRule, FileRow, Cloud}
use excel_sync.Cloud.Access.{
  workspace_rank, resource_rank, resource_permission_at_least, workspace_role_at_least,
  best_permission, rule_applies, Place, place_of, get_membership, is_system_admin,
  resolve_file_access, file_in_organization, file_workspace_active, member_access, permission_at,
  file_access, can_create_resource_at_path, get_effective_workspace_role, grant,
}

-- The rule gives the permission that the role asks for.
abbrev pub suffices : WorkspaceRole → AccessRule → Bool
suffices required r = leb (workspace_rank required) (resource_rank r.permission)

-- The better of two permissions suffices where one of them does.
better-suffices :
    (required : WorkspaceRole) (a b : Permission)
    → resource_permission_at_least
        (some (if ltb (resource_rank b) (resource_rank a) then a else b))
        required
      ≡ resource_permission_at_least (some b) required
        || resource_permission_at_least (some a) required
better-suffices required a b = elim (Bool-cases (ltb (resource_rank b) (resource_rank a))) [
  | inl e ↦ rw e (ground arith)
  | inr e ↦ rw e (ground arith)
]

or_assoc : (a b c : Bool) → (a || b) || c ≡ a || (b || c)
or_assoc true b c = refl
or_assoc false b c = refl

best_permission-from :
    (required : WorkspaceRole) (best : Permission) (rs : List AccessRule)
    → resource_permission_at_least (best_permission (some best) rs) required
      ≡ resource_permission_at_least (some best) required || any (suffices required) rs
unfolding best_permission
best_permission-from required best [] = ground arith
best_permission-from required best (r ∷ rs) =
    best_permission-from required
      (if ltb (resource_rank best) (resource_rank r.permission) then r.permission else best) rs
    ∙ ap (λ t. t || any (suffices required) rs) (better-suffices required r.permission best)
    ∙ or_assoc (resource_permission_at_least (some best) required) (suffices required r)
        (any (suffices required) rs)

-- The best permission of a list of rules suffices for a role exactly when one rule of the list does.
pub best_permission-suffices :
    (required : WorkspaceRole) (rs : List AccessRule)
    → resource_permission_at_least (best_permission none rs) required ≡ any (suffices required) rs
unfolding best_permission
best_permission-suffices required [] = refl
best_permission-suffices required (r ∷ rs) = best_permission-from required r.permission rs

any-select :
    {A : Type 0} (p q : A → Bool) (xs : List A) → any q (select p xs) ≡ any (λ x. p x && q x) xs
any-select p q [] = refl
any-select p q (x ∷ xs) = elim (Bool-cases (p x)) [
  | inl e ↦ rw e (ap (λ t. q x || t) (any-select p q xs))
  | inr e ↦ rw e (any-select p q xs)
]

-- Some rule that applies to the user at the place gives the permission.
abbrev pub has_rule : Cloud → AuthUser → Place → WorkspaceRole → Bool
has_rule c u p required = any (λ r. rule_applies c u p r && suffices required r) c.rules

permission_at-suffices :
    (c : Cloud) (u : AuthUser) (p : Place) (required : WorkspaceRole)
    → resource_permission_at_least (permission_at c u p) required ≡ has_rule c u p required
permission_at-suffices c u p required =
    best_permission-suffices required (select (rule_applies c u p) c.rules)
    ∙ any-select (rule_applies c u p) (suffices required) c.rules

-- Who may reach a file: its workspace is active and in the user's organisation, and the user is a
-- system administrator, or has the role in the workspace and a rule that gives the permission.
abbrev pub may_access : Cloud → AuthUser → WorkspaceRole → FileRow → Bool
may_access c u required f =
    file_workspace_active c u.organization_id f
    && (is_system_admin u
        || (workspace_role_at_least (get_membership c u.id f.workspace_id) required
            && has_rule c u (place_of f) required))

abbrev pub may_access_found : Cloud → AuthUser → WorkspaceRole → Option FileRow → Bool
may_access_found c u required none = false
may_access_found c u required (some f) = may_access c u required f

grant-some :
    (f : FileRow) (required : WorkspaceRole) (role : Option WorkspaceRole)
    (permission : Option Permission)
    → workspace_role_at_least role required ≡ true
    → resource_permission_at_least permission required ≡ true
    → is_some (grant f role permission) ≡ true
grant-some f required (some role) (some permission) h k = refl
grant-some f required none permission h k = ground arith
grant-some f required (some role) none h k = ground arith

member_access-has :
    (c : Cloud) (u : AuthUser) (required : WorkspaceRole) (f : FileRow)
    → is_some (member_access c u required f)
      ≡ workspace_role_at_least (get_membership c u.id f.workspace_id) required
        && resource_permission_at_least (permission_at c u (place_of f)) required
unfolding member_access
member_access-has c u required f =
    elim (Bool-cases (workspace_role_at_least (get_membership c u.id f.workspace_id) required)) [
      | inr e ↦ rw e refl
      | inl e ↦
          elim (Bool-cases
            (resource_permission_at_least (permission_at c u (place_of f)) required)) [
              | inr k ↦ rw (e, k) refl
              | inl k ↦
                  rw (e, k)
                    (grant-some f required (get_membership c u.id f.workspace_id)
                      (permission_at c u (place_of f)) e k)
            ]
    ]

found-granted :
    (c : Cloud) (u : AuthUser) (required : WorkspaceRole) (o : Option FileRow)
    → is_some (file_access c u required o) ≡ may_access_found c u required o
unfolding file_access
found-granted c u required none = refl
found-granted c u required (some f) =
    elim (Bool-cases (file_workspace_active c u.organization_id f)) [
      | inr e ↦ rw e refl
      | inl e ↦ elim (Bool-cases (is_system_admin u)) [
        | inl k ↦ rw (e, k) refl
        | inr k ↦
            rw (e, k)
              (member_access-has c u required f
                ∙ ap
                    (λ t.
                      workspace_role_at_least (get_membership c u.id f.workspace_id) required && t)
                    (permission_at-suffices c u (place_of f) required))
      ]
    ]

-- A request for a file is let through exactly when the organisation of the user has the file, its
-- workspace is active, and the user is a system administrator or both has the role in the
-- workspace and is given the permission by some access rule that applies.
pub resolve_file_access-granted :
    (c : Cloud) (u : AuthUser) (file_id : String) (required : WorkspaceRole)
    → is_some (resolve_file_access c u file_id required)
      ≡ may_access_found c u required
          (find (λ f. f.id == file_id && file_in_organization c u.organization_id f) c.files)
unfolding resolve_file_access
resolve_file_access-granted c u file_id required =
    found-granted c u required
      (find (λ f. f.id == file_id && file_in_organization c u.organization_id f) c.files)

-- A user may create a file at a path exactly when the user's role in the workspace is high enough
-- and the user is a system administrator or is given the permission by some rule that applies there.
pub can_create_resource_at_path-granted :
    (c : Cloud) (u : AuthUser) (p : Place) (required : WorkspaceRole)
    → can_create_resource_at_path c u p required
      ≡ workspace_role_at_least (get_effective_workspace_role c u p.workspace_id) required
        && (is_system_admin u || has_rule c u p required)
unfolding can_create_resource_at_path
can_create_resource_at_path-granted c u p required =
    elim (Bool-cases
      (workspace_role_at_least (get_effective_workspace_role c u p.workspace_id) required)) [
        | inr e ↦ rw e refl
        | inl e ↦ elim (Bool-cases (is_system_admin u)) [
          | inl k ↦ rw (e, k) refl
          | inr k ↦ rw (e, k) (permission_at-suffices c u p required)
        ]
      ]
