-- ===== src/Cloud/Members/Put.antt =====
-- worker/src/enterprise.ts, handleWorkspaceMemberPut: the role that the member has afterwards.
use excel_sync.Base.{
  String, Bool, true, false, ◌&&◌, not, Option, none, some, List, [], ◌∷◌, ◌++◌, ◌==◌, string_eq,
  ==_refl, ==_iff, ◌≡◌, refl, ◌∙◌, find, any, update, inl, inr, Bool-cases, arith, modify,
  transaction, gets, require, guard, ◌>>=◌, ◌>>◌, ok, err, Result,
}
use excel_sync.Cloud.Schema.{http, Cloud, HttpError, WorkspaceMember, WorkspaceRole, AccountType}
use excel_sync.Cloud.Access.{get_membership, role_of, active_workspace}
use excel_sync.Cloud.Requests.{Request}
use excel_sync.Cloud.Members.{
  is_member, put_member, put_rules, handle_workspace_member_put, insert_workspace_rule,
  is_workspace_rule, is_external, is_manager, ensure_org_workspace, require_manager,
  is_known_workspace, may_manage,
}

find-update_role :
    (q p : WorkspaceMember → Bool) (r : WorkspaceRole) (xs : List WorkspaceMember)
    → ((x : WorkspaceMember) → q x ≡ p x)
    → ((x : WorkspaceMember) → p (record x { role = r }) ≡ p x)
    → any p xs ≡ true
    → role_of (find q (update p (λ x. record x { role = r }) xs)) ≡ some r
find-update_role q p r [] k j h = cc
find-update_role q p r (x ∷ xs) k j h = elim (Bool-cases (p x)) [
  | inl e ↦ rw (e, k (record x { role = r }) ∙ j x ∙ e) refl
  | inr e ↦ rw (e, k x ∙ e) (find-update_role q p r xs k j (rw e at h))
]

find-append_role :
    (q : WorkspaceMember → Bool) (m : WorkspaceMember) (xs : List WorkspaceMember)
    → any q xs ≡ false
    → q m ≡ true
    → role_of (find q (xs ++ m ∷ [])) ≡ some m.role
find-append_role q m [] h k = rw k refl
find-append_role q m (x ∷ xs) h k = elim (Bool-cases (q x)) [
  | inl e ↦ cc (rw e at h)
  | inr e ↦ rw e (find-append_role q m xs (rw e at h) k)
]

-- The member that the active workspace has for a user is the row of the user.
joined_member :
    (c : Cloud) (w u : String) (m : WorkspaceMember)
    → active_workspace w c ≡ true
    → (m.user_id == u && m.workspace_id == w && active_workspace m.workspace_id c) ≡ is_member w u m
joined_member c w u m active = elim (Bool-cases (m.workspace_id == w)) [
  | inl e ↦ rw ((==_iff m.workspace_id w).0 e, active) (ground arith)
  | inr e ↦ rw e (ground arith)
]

any-same : {A : Type 0} (p q : A → Bool) (xs : List A) → ((x : A) → p x ≡ q x) → any p xs ≡ any q xs
any-same p q [] k = refl
any-same p q (x ∷ xs) k = ground (arith, k x, any-same p q xs k)

put_member-membership :
    (w u : String) (r : WorkspaceRole) (c : Cloud)
    → active_workspace w c ≡ true
    → get_membership (put_member w u r c) u w ≡ some r
unfolding get_membership
put_member-membership w u r c active = elim (Bool-cases (any (is_member w u) c.members)) [
  | inl e ↦ rw e (
      find-update_role _ (is_member w u) r c.members (λ x. joined_member c w u x active) (λ x. refl)
        e)
  | inr e ↦ rw e (
      find-append_role _ (record { workspace_id = w; user_id = u; role = r }) c.members
        (any-same _ (is_member w u) c.members (λ x. joined_member c w u x active) ∙ e)
        (joined_member c w u (record { workspace_id = w; user_id = u; role = r }) active
          ∙ rw (==_refl w, ==_refl u) refl))
]

-- What a request to give the user a role in the workspace leaves of the cloud `c`.
abbrev pub Puts :
    String → String → WorkspaceRole → Cloud → Result HttpError (Unit {0}) × Cloud → Type 0
Puts w u r c (ok _, after) = get_membership after u w ≡ some r
Puts w u r c (err _, after) = after ≡ c

batch-Puts :
    (rq : Request) (w u : String) (r : WorkspaceRole) (existed : Bool) (c : Cloud)
    → active_workspace w c ≡ true
    → Puts w u r c (transaction (modify (put_member w u r) >> put_rules rq w u r existed) c)
unfolding transaction put_rules insert_workspace_rule ◌>>=◌ get_membership
batch-Puts rq w u r true c active = put_member-membership w u r c active
batch-Puts rq w u r false c active =
    elim (Bool-cases (any (is_workspace_rule w u) (put_member w u r c).rules)) [
      | inl e ↦ rw e refl
      | inr e ↦ rw e (put_member-membership w u r c active)
    ]

account-Puts :
    (rq : Request) (w u : String) (r : WorkspaceRole) (account : Option AccountType) (c : Cloud)
    → active_workspace w c ≡ true
    → Puts w u r c (
        (require {E = HttpError} account (http 404 "USER_NOT_FOUND") >>= λ target.
        guard (not (is_external target && is_manager r)) (http 400 "EXTERNAL_MANAGER_FORBIDDEN")
        >> (gets (λ c. any (is_member w u) c.members) >>= λ existed.
            transaction (modify (put_member w u r) >> put_rules rq w u r existed)))
          c)
unfolding ◌>>=◌
account-Puts rq w u r none c active = refl
account-Puts rq w u r (some target) c active =
    elim (Bool-cases (not (is_external target && is_manager r))) [
      | inl e ↦ rw e (batch-Puts rq w u r (any (is_member w u) c.members) c active)
      | inr e ↦ rw e refl
    ]

-- In an active workspace a request to give a user a role either is answered, and the user is then a
-- member with that role, whether the user was one before or not; or it is refused and
-- leaves everything as it was, also where the first statement of its batch was done and the second failed.
pub handle_workspace_member_put-Puts :
    (rq : Request) (w u : String) (r : WorkspaceRole) (account : Option AccountType) (c : Cloud)
    → active_workspace w c ≡ true
    → Puts w u r c (handle_workspace_member_put rq w u r account c)
unfolding handle_workspace_member_put ensure_org_workspace require_manager ◌>>=◌
handle_workspace_member_put-Puts rq w u r account c active =
    elim (Bool-cases (is_known_workspace rq w c)) [
      | inr e ↦ rw e refl
      | inl e ↦ rw e (elim (Bool-cases (may_manage rq w c)) [
        | inr k ↦ rw k refl
        | inl k ↦ rw k (account-Puts rq w u r account c active)
      ])
    ]
