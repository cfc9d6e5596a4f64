-- ===== src/Cloud/Kept/Commits.antt =====
-- worker/src/index.ts, commitUploadedIntent: what an answered commit has recorded.
use excel_sync.Base.{
  ℕ, String, true, false, Option, some, List, [], ◌∷◌, ◌==◌, string_eq, option_eq, ◌≡◌, refl, ◌∙◌,
  ap, sym, eqb, any, arith, Bool-cases, inl, inr, ◌+◌, ◌⊎◌, and-left, ◌>>=◌, ==_iff, eqb_iff, ok,
  find, ◌&&◌,
}
use excel_sync.Base.Outcome.Keeps.{Keeps-bind, Keeps-modify, keeps_rules}
use excel_sync.Base.Outcome.Ensures.{
  Ensures, Ensures-bind, Ensures-Keeps, Ensures-guard, Ensures-require, Ensures-imp, Ensures-gets,
  Ensures-pure, Ensures-returned,
}
use excel_sync.Cloud.Schema.{uploaded, FileRow, IntentRow, Cloud, HttpError, WorkspaceRole, editor}
use excel_sync.Cloud.Access.{file_in_organization}
use excel_sync.Cloud.Requests.{Request, get_owned_file, assert_file_lease_compatible}
use excel_sync.Cloud.Commit.{
  is_based, announce, advance, commit_uploaded, commit_uploaded_intent, abandon, Committed,
  is_committed,
}
use excel_sync.Cloud.Kept.{record_domain_event-Keeps, record_file_state_snapshot-Keeps, HasVersion}
use excel_sync.Cloud.Kept.Batch.{new_mark, is_at_base, commit_batch-Ensures}

weaker_base :
    (i : IntentRow) (workspace_id : String) (fs : List FileRow)
    → any (is_based i.file_id workspace_id i.base_version) fs ≡ true
    → any (is_at_base i) fs ≡ true
weaker_base i workspace_id [] h = h
weaker_base i workspace_id (f ∷ fs) h = ground (arith, weaker_base i workspace_id fs)

-- What the answer `r` to a commit of the intent promises, from `c` to `s`: it is the version after
-- the base, the cloud had the file at the base, and it has recorded the new version.
pub record Advanced (i : IntentRow) (c : Cloud) (r : Committed) (s : Cloud) : Type 0 where
  pub answer : r ≡ record { file_id = i.file_id; version = i.base_version + 1; hash = i.hash }
  pub from_base : any (is_at_base i) c.files ≡ true
  pub recorded : HasVersion (new_mark i) s

announce-Ensures :
    (rq : Request) (i : IntentRow) (current : FileRow) (c0 c : Cloud)
    → any (is_at_base i) c0.files ≡ true
    → HasVersion (new_mark i) c
    → Ensures (Advanced i c0) (announce rq i current c)
unfolding announce
announce-Ensures rq i current c0 c b h =
    let Q = Advanced i c0 in
    let P = HasVersion (new_mark i) in
    Ensures-bind (λ _ s. P s) Q _ _ c
      (Ensures-Keeps P _ c (record_domain_event-Keeps (new_mark i) rq _ _ _ _) h)
      λ _ s h.
        Ensures-bind (λ _ s. P s) Q _ _ s
          (Ensures-Keeps P _ s (record_file_state_snapshot-Keeps (new_mark i) rq _ _) h)
          λ _ s' h.
            Ensures-pure HttpError Q _ s' (record { answer = refl; from_base = b; recorded = h })

advance-Ensures :
    (rq : Request) (limit : Option ℕ) (version_id : String) (i : IntentRow) (current : FileRow)
    (t : String) (n : ℕ) (c : Cloud)
    → Ensures (Advanced i c) (advance rq limit version_id i current (t, n) c)
unfolding advance
advance-Ensures rq limit version_id i current t n c =
    let Q = Advanced i c in
    Ensures-bind _ Q _ _ c (Ensures-gets HttpError _ c) λ retention s q.
      Ensures-bind _ Q _ _ s (commit_batch-Ensures rq retention version_id i t n current s)
        λ changes s' h. Ensures-bind _ Q _ _ s' (Ensures-guard _ _ s') λ _ s'' g.
          let (b, done) =
            h ((eqb_iff changes.0 1).0 (and-left (eqb changes.0 1) (eqb changes.1 1) g.0)) in
          announce-Ensures rq i current c s''
            (weaker_base i current.workspace_id c.files (rw q.1 at b)) (rw g.1 done)

-- The file with the id in the organisation.
abbrev pub file_of : String → String → Cloud → Option FileRow
file_of organization_id id c =
    find (λ f. f.id == id && file_in_organization c organization_id f) c.files

pub get_owned_file-Ensures :
    (rq : Request) (id : String) (required : WorkspaceRole) (c : Cloud)
    → Ensures
        (λ f s. (file_of rq.user.organization_id id c ≡ some f) × (s ≡ c))
        (get_owned_file rq id required c)
unfolding get_owned_file
get_owned_file-Ensures rq id required c =
    let Q =
      λ (f : FileRow) (s : Cloud). (file_of rq.user.organization_id id c ≡ some f) × (s ≡ c) in
    Ensures-bind _ Q _ _ c (Ensures-gets HttpError _ c) λ _ s p.
      Ensures-bind _ Q _ _ s (Ensures-require _ _ s) λ _ s' p'.
        Ensures-bind _ Q _ _ s' (Ensures-gets HttpError _ s') λ _ s'' p''.
          Ensures-imp _ Q _
            (λ f t q. (
              ap (file_of rq.user.organization_id id) (sym (p'.1 ∙ p.1)) ∙ sym p''.0 ∙ q.0,
              q.1 ∙ p''.1 ∙ p'.1 ∙ p.1,
            ))
            (Ensures-require _ _ s'')

-- The lock's check changes neither the files nor the versions.
assert_file_lease_compatible-Ensures :
    (rq : Request) (id : String) (c : Cloud)
    → Ensures
        (λ _ s. (s.files ≡ c.files) × (s.versions ≡ c.versions))
        (assert_file_lease_compatible rq id c)
unfolding assert_file_lease_compatible
assert_file_lease_compatible-Ensures rq id c =
    Ensures-Keeps (λ s. (s.files ≡ c.files) × (s.versions ≡ c.versions)) _ c
      (Keeps-bind _ _ (Keeps-modify _ (λ s h. h)) λ _. search keeps_rules depth 8) (refl, refl)

-- What the answer `r` promises where another upload of the same content was faster: the
-- organisation's file has another version than the base, with the intent's hash, the answer is that
-- version, and no file or version changes.
pub record Superseded (organization_id : String) (i : IntentRow) (c : Cloud) (r : Committed)
    (s : Cloud) : Type 0 where
  pub current : FileRow
  pub found : file_of organization_id i.file_id c ≡ some current
  pub other_version : eqb current.current_version i.base_version ≡ false
  pub same_content : current.current_hash ≡ some i.hash
  pub answer : r ≡ record { file_id = current.id; version = current.current_version; hash = i.hash }
  pub files_same : s.files ≡ c.files
  pub versions_same : s.versions ≡ c.versions

abbrev pub Commits : String → IntentRow → Cloud → Committed → Cloud → Type 0
Commits organization_id i c r s = Advanced i c r s ⊎ Superseded organization_id i c r s

abandon-Ensures :
    (rq : Request) (i : IntentRow) (current : FileRow) (c s : Cloud)
    → file_of rq.user.organization_id i.file_id c ≡ some current
    → eqb current.current_version i.base_version ≡ false
    → (s.files ≡ c.files) × (s.versions ≡ c.versions)
    → Ensures (Commits rq.user.organization_id i c) (abandon rq i current s)
unfolding abandon ◌>>=◌
abandon-Ensures rq i current c s e o (f, v) =
    elim (Bool-cases (current.current_hash == some i.hash)) [
      | inr k ↦ rw k tt
      | inl k ↦ rw k (
          inr (record {
            current = current;
            found = e;
            other_version = o;
            same_content = (==_iff current.current_hash (some i.hash)).0 k;
            answer = refl;
            files_same = f;
            versions_same = v;
          }))
    ]

from_files :
    (i : IntentRow) (c s : Cloud) (r : Committed) (t : Cloud)
    → s.files ≡ c.files
    → Advanced i s r t
    → Advanced i c r t
from_files i c s r t f a = record {
  answer = a.answer;
  from_base = rw f at a.from_base;
  recorded = a.recorded;
}

commit_uploaded-Ensures :
    (rq : Request) (limit : Option ℕ) (version_id : String) (i : IntentRow) (stored : String × ℕ)
    (c : Cloud)
    → Ensures (Commits rq.user.organization_id i c) (commit_uploaded rq limit version_id i stored c)
unfolding commit_uploaded
commit_uploaded-Ensures rq limit version_id i (t, n) c =
    let Q = Commits rq.user.organization_id i c in
    Ensures-bind _ Q _ _ c (get_owned_file-Ensures rq i.file_id editor c) λ current s p.
      Ensures-bind _ Q _ _ s (assert_file_lease_compatible-Ensures rq i.file_id s) λ _ s' q.
        elim (Bool-cases (eqb current.current_version i.base_version)) [
          | inr e ↦ rw e (abandon-Ensures rq i current c s' p.0 e (rw p.1 at q))
          | inl e ↦ rw e (
              Ensures-imp (Advanced i s') Q _
                (λ r u a. inl (from_files i c s' r u (rw p.1 at q.0) a))
                (advance-Ensures rq limit version_id i current t n s'))
        ]

commit_uploaded_intent-Ensures :
    (rq : Request) (limit : Option ℕ) (version_id : String) (i : IntentRow) (c : Cloud)
    → is_committed i.status ≡ false
    → Ensures (Commits rq.user.organization_id i c) (commit_uploaded_intent rq limit version_id i c)
unfolding commit_uploaded_intent
commit_uploaded_intent-Ensures rq limit version_id i c n =
    let Q = Commits rq.user.organization_id i c in
    rw n (
      Ensures-bind _ Q _ _ c (Ensures-guard _ _ c) λ _ s g.
        Ensures-bind _ Q _ _ s (Ensures-require _ _ s)
          λ stored s' p. rw (p.1 ∙ g.1) (commit_uploaded-Ensures rq limit version_id i stored c))

-- Where the commit of an uploaded intent is answered, either the cloud had the file at the intent's
-- base version, the answer is the next version, and the cloud has recorded that version with the
-- intent's hash and brought the file to it; or the file of the user's organisation already has
-- another version with that same hash, the answer is that version, and no file and no version has
-- changed.
pub commit_uploaded_intent-Commits :
    (rq : Request) (limit : Option ℕ) (version_id : String) (i : IntentRow) (c : Cloud)
    {r : Committed} {s : Cloud}
    → i.status ≡ uploaded
    → commit_uploaded_intent rq limit version_id i c ≡ (ok r, s)
    → Commits rq.user.organization_id i c r s
commit_uploaded_intent-Commits rq limit version_id i c u e =
    Ensures-returned (Commits rq.user.organization_id i c) _
      (commit_uploaded_intent-Ensures rq limit version_id i c (ap is_committed u)) e
