-- ===== src/Cloud/Leases/Guarded.antt =====
-- worker/src/collab-upgrade.ts, assertFileLeaseCompatible, and the requests that store content
-- (worker/src/index.ts: handleUpload, commitUploadedIntent): whose lock they respect.
use excel_sync.Base.{
  ℕ, String, Bool, true, false, ◌&&◌, Option, none, some, ◌==◌, string_eq, ◌≡◌, refl, ◌∙◌, ap, find,
  ◌>>=◌, ok, when_some, pure, guard,
}
use excel_sync.Base.Outcome.Ensures.{
  Ensures, Ensures-bind, Ensures-guard, Ensures-require, Ensures-returned, Ensures-imp,
  Ensures-first,
}
use excel_sync.Cloud.Schema.{http, uploaded, LeaseRow, IntentRow, Cloud, HttpError, editor}
use excel_sync.Cloud.Requests.{
  Request, assert_file_lease_compatible, prune_expired_leases, is_device,
}
use excel_sync.Cloud.Commit.{is_committed, Committed, commit_uploaded, commit_uploaded_intent}
use excel_sync.Cloud.Upload.{Provider, Part, UploadReply, store_part}
use excel_sync.Cloud.Kept.Commits.{get_owned_file-Ensures}
use excel_sync.Cloud.Leases.{lease_on}
use excel_sync.Cloud.Leases.Locks.{Lock, locks_at, lock_of, lock-pruned}

-- The file is not locked, or the lock is the user's on the request's device.
abbrev pub may_edit : Request → Option Lock → Bool
may_edit rq none = true
may_edit rq (some k) = k.user == rq.user.id && is_device rq.device_id k.device

abbrev Unlocked : Request → String → Cloud → Type 0
Unlocked rq file_id c = may_edit rq (locks_at rq.now c file_id) ≡ true

guard_lease :
    (rq : Request) (file_id : String) (c s : Cloud) (o : Option LeaseRow)
    → locks_at rq.now c file_id ≡ lock_of o
    → Ensures {E = HttpError}
        (λ _ _. Unlocked rq file_id c)
        (when_some o
          (pure {E = HttpError} (tt {0}))
          (λ l.
            guard
              (l.owner_user_id == rq.user.id && is_device rq.device_id l.owner_device_id)
              (http 409 "FILE_LOCKED"))
          s)
unfolding when_some pure
guard_lease rq file_id c s none e = rw e refl
guard_lease rq file_id c s (some l) e =
    Ensures-imp _ (λ _ _. Unlocked rq file_id c) _ (λ _ t g. rw e g.0) (Ensures-guard _ _ s)

assert_file_lease_compatible-locks :
    (rq : Request) (file_id : String) (c : Cloud)
    → Ensures (λ _ _. Unlocked rq file_id c) (assert_file_lease_compatible rq file_id c)
unfolding assert_file_lease_compatible ◌>>=◌
assert_file_lease_compatible-locks rq file_id c =
    let pruned = prune_expired_leases rq.now file_id c in
    guard_lease rq file_id c pruned (find (lease_on file_id) pruned.leases)
      (lock-pruned rq.now file_id c refl)

commit_uploaded-locks :
    (rq : Request) (limit : Option ℕ) (version_id : String) (i : IntentRow) (stored : String × ℕ)
    (c : Cloud)
    → Ensures (λ _ _. Unlocked rq i.file_id c) (commit_uploaded rq limit version_id i stored c)
unfolding commit_uploaded
commit_uploaded-locks rq limit version_id i stored c =
    Ensures-bind _ _ _ _ c (get_owned_file-Ensures rq i.file_id editor c) λ current s p.
      Ensures-first (Unlocked rq i.file_id c) _ _ s
        (rw p.1 (assert_file_lease_compatible-locks rq i.file_id c))

store_part-locks :
    (rq : Request) (provider : Option Provider) (part : Part) (i : IntentRow) (c : Cloud)
    → Ensures (λ _ _. Unlocked rq i.file_id c) (store_part rq provider part i c)
unfolding store_part
store_part-locks rq provider part i c =
    Ensures-bind _ _ _ _ c (Ensures-require provider _ c) λ _ s p.
      Ensures-bind _ _ _ _ s (Ensures-guard _ _ s) λ _ s' p'.
        Ensures-bind _ _ _ _ s' (get_owned_file-Ensures rq i.file_id editor s') λ current s'' p''.
          Ensures-first (Unlocked rq i.file_id c) _ _ s''
            (rw (p''.1 ∙ p'.1 ∙ p.1) (assert_file_lease_compatible-locks rq i.file_id c))

commit_uploaded_intent-locks :
    (rq : Request) (limit : Option ℕ) (version_id : String) (i : IntentRow) (c : Cloud)
    → is_committed i.status ≡ false
    → Ensures (λ _ _. Unlocked rq i.file_id c) (commit_uploaded_intent rq limit version_id i c)
unfolding commit_uploaded_intent
commit_uploaded_intent-locks rq limit version_id i c n =
    let Q = λ (_ : Committed) (_ : Cloud). Unlocked rq i.file_id c in
    rw n (
      Ensures-bind _ Q _ _ c (Ensures-guard _ _ c) λ _ s g.
        Ensures-bind _ Q _ _ s (Ensures-require _ _ s)
          λ stored s' p. rw (p.1 ∙ g.1) (commit_uploaded-locks rq limit version_id i stored c))

-- Where the commit of an uploaded intent is answered, the file of the intent was not locked by an
-- unexpired lease, or the lock was the user's on the request's device.
pub commit_uploaded_intent-may_edit :
    (rq : Request) (limit : Option ℕ) (version_id : String) (i : IntentRow) (c : Cloud)
    {r : Committed} {s : Cloud}
    → i.status ≡ uploaded
    → commit_uploaded_intent rq limit version_id i c ≡ (ok r, s)
    → may_edit rq (locks_at rq.now c i.file_id) ≡ true
commit_uploaded_intent-may_edit rq limit version_id i c u e =
    Ensures-returned (λ _ _. Unlocked rq i.file_id c) _
      (commit_uploaded_intent-locks rq limit version_id i c (ap is_committed u)) e

-- Where the part of an upload is stored, the file of its intent was not locked by an unexpired lease,
-- or the lock was the user's on the request's device.
pub store_part-may_edit :
    (rq : Request) (provider : Option Provider) (part : Part) (i : IntentRow) (c : Cloud)
    {r : UploadReply} {s : Cloud}
    → store_part rq provider part i c ≡ (ok r, s)
    → may_edit rq (locks_at rq.now c i.file_id) ≡ true
store_part-may_edit rq provider part i c e =
    Ensures-returned (λ _ _. Unlocked rq i.file_id c) _ (store_part-locks rq provider part i c) e
