-- ===== src/Cloud/Members/Managers.antt =====
-- worker/src/enterprise.ts, handleWorkspaceMemberDelete: the managers that stay.
use excel_sync.Base.{
  String, true, false, ◌&&◌, not, Option, none, some, ◌≤◌, ◌≡◌, find-holds, count-remove,
  count-remove_split, count-split, find-count, ap, ◌==◌, string_eq, refl, leb, find, count, arith,
  inl, inr, Bool-cases, ◌>>=◌, ◌>>◌, gets, require, guard, modify,
}
use mathlib.Core.Option.{get_or}
use excel_sync.Base.Outcome.Keeps.{Keeps, keeps_rules, Keeps-bind}
use excel_sync.Cloud.Schema.{HttpError, http, Cloud, WorkspaceMember, WorkspaceRole}
use excel_sync.Cloud.Access.{get_membership, active_workspace, role_of}
use excel_sync.Cloud.Requests.{Request}
use excel_sync.Cloud.Members.{
  is_manager, is_manager_of, is_member, drop_member, ensure_org_workspace, require_manager,
  handle_workspace_member_delete,
}

-- The workspace has a manager, and the user is a member at most once.
pub record Manned (workspace_id user_id : String) (c : Cloud) : Type 0 where
  pub once : count (is_member workspace_id user_id) c.members ≤ 1
  pub manned : 1 ≤ count (is_manager_of workspace_id) c.members

-- A user who is found not to be a manager has a row that is not a manager's.
get_membership-count :
    (w u : String) (c : Cloud) (o : Option WorkspaceMember) {r : WorkspaceRole}
    → find
        (λ m. m.user_id == u && m.workspace_id == w && active_workspace m.workspace_id c)
        c.members
      ≡ o
    → role_of o ≡ some r
    → is_manager r ≡ false
    → 1 ≤ count (λ m. is_member w u m && not (is_manager_of w m)) c.members
get_membership-count w u c none e k h = cc
get_membership-count w u c (some m) {r} e k h =
    let s = ap (λ o. get_or o r) k in
    let f = find-holds _ c.members e in find-count _ _ c.members e (ground (arith, s))

drop_member-Manned :
    (w u : String) (c : Cloud) (r : WorkspaceRole)
    → get_membership c u w ≡ some r
    → not (is_manager r && leb (count (is_manager_of w) c.members) 1) ≡ true
    → Manned w u c
    → Manned w u (drop_member w u c)
unfolding get_membership
drop_member-Manned w u c r e g h =
    let p = is_manager_of w in
    let q = is_member w u in
    let a = count-remove_split p q c.members in
    let b = count-split p q c.members in
    let o = h.once in
    let m = h.manned in
    record {
      once = let l = count-remove q q c.members in omega arith;
      manned = elim (Bool-cases (is_manager r)) [
        | inl y ↦ ground (arith, y)
        | inr n ↦ let f = get_membership-count w u c _ refl e n in omega arith
      ];
    }

remove_found-Manned :
    (w u : String) (c : Cloud) (o : Option WorkspaceRole)
    → get_membership c u w ≡ o
    → Manned w u c
    → Manned w u
        ((require {E = HttpError} o (http 404 "WORKSPACE_MEMBER_NOT_FOUND") >>= λ target.
            guard
              (not (is_manager target && leb (count (is_manager_of w) c.members) 1))
              (http 409 "LAST_MANAGER_CANNOT_REMOVE")
            >> modify (drop_member w u))
          c).1
unfolding ◌>>=◌
remove_found-Manned w u c none e h = h
remove_found-Manned w u c (some r) e h =
    elim (Bool-cases (not (is_manager r && leb (count (is_manager_of w) c.members) 1))) [
      | inl g ↦ rw g (drop_member-Manned w u c r e g h)
      | inr g ↦ rw g h
    ]

remove_gets-Manned :
    (w u : String) (c : Cloud)
    → Manned w u c
    → Manned w u
        ((gets {E = HttpError} (λ c. count (is_manager_of w) c.members) >>= λ managers.
            gets (λ c. get_membership c u w) >>= λ found.
            require found (http 404 "WORKSPACE_MEMBER_NOT_FOUND") >>= λ target.
            guard
              (not (is_manager target && leb managers 1))
              (http 409 "LAST_MANAGER_CANNOT_REMOVE")
            >> modify (drop_member w u))
          c).1
unfolding ◌>>=◌
remove_gets-Manned w u c h = remove_found-Manned w u c _ refl h

-- A request to remove a member, answered or refused, leaves the workspace with a manager where it had one and where the user was a member of it at most once.
pub handle_workspace_member_delete-Manned :
    (rq : Request) (w u : String) (c : Cloud)
    → Manned w u c
    → Manned w u (handle_workspace_member_delete rq w u c).1
unfolding handle_workspace_member_delete ensure_org_workspace require_manager
handle_workspace_member_delete-Manned rq w u c h =
    Keeps.at
      (Keeps-bind _ _ (search keeps_rules)
        λ _. Keeps-bind _ _ (search keeps_rules) λ _. record { at = remove_gets-Manned w u })
      c h
