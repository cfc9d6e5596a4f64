-- ===== src/Cloud/Kept.antt =====
-- What no request takes away from the cloud, and the rules of the statements for it.
pub mod Files
pub mod Content
pub mod Runs
pub mod Refusals
pub mod Batch
pub mod Commits
pub mod Leases
pub mod Rewinds
use excel_sync.Base.{
  ℕ, String, Bool, true, false, ◌&&◌, ◌||◌, Option, none, some, List, [], ◌∷◌, ◌++◌, ◌==◌,
  string_eq, ◌≡◌, refl, leb, eqb, ltb, any, update, if◌then◌else◌, arith, modify, gets, throw, pure,
  Bool-cases, inl, inr, ◌+◌, any-update, any-update_keeps, any-append_keeps, and-left, and-right,
  Result,
}
use excel_sync.Base.Outcome.Keeps.{
  Keeps, Keeps-modify, Keeps-bind, Keeps-gets, Keeps-guard, keeps_rules,
}
use excel_sync.Cloud.Schema.{
  WorkspaceRole, Category, FileRow, IntentRow, VersionRow, Cloud, HttpError, Handler,
}
use excel_sync.Cloud.Requests.{
  Request, get_owned_file, assert_file_lease_compatible, record_event, record_domain_event,
  record_file_state_snapshot, create_notification, path_conflict,
}
use excel_sync.Cloud.Commit.{is_based, committed_file, has_version}
use excel_sync.Cloud.Trash.{update_one, record_change}

-- The place of a version: its file, its number, and the content's hash.
pub record Mark : Type 0 where
  pub file_id : String
  pub version : ℕ
  pub hash : String

abbrev pub reaches : Mark → FileRow → Bool
reaches m f = f.id == m.file_id && leb m.version f.current_version

abbrev pub is_marked : Mark → VersionRow → Bool
is_marked m v = v.file_id == m.file_id && eqb v.version m.version && v.hash == m.hash

-- The file has reached the version, and the version is recorded with its hash.
pub record HasVersion (m : Mark) (c : Cloud) : Type 0 where
  pub reached : any (reaches m) c.files ≡ true
  pub recorded : any (is_marked m) c.versions ≡ true

-- A statement that touches neither the files nor the versions.
pub elsewhere-Keeps :
    (m : Mark) (f : Cloud → Cloud)
    → ((c : Cloud) → (f c).files ≡ c.files)
    → ((c : Cloud) → (f c).versions ≡ c.versions)
    → Keeps {E = HttpError} (HasVersion m) (modify f)
elsewhere-Keeps m f files versions =
    Keeps-modify f
      λ c h. record { reached = rw (files c) h.reached; recorded = rw (versions c) h.recorded }

pub when_version-Keeps :
    (m : Mark) (t : Cloud → Bool) (f : Cloud → Cloud)
    → ((c : Cloud) → HasVersion m c → HasVersion m (f c))
    → Keeps {E = HttpError} (HasVersion m) (modify (λ c. if t c then f c else c))
when_version-Keeps m t f k =
    Keeps-modify _ λ c h. elim (Bool-cases (t c)) [ inl e ↦ rw e (k c h) | inr e ↦ rw e h ]

pub elsewhere_when-Keeps :
    (m : Mark) (t : Cloud → Bool) (f : Cloud → Cloud)
    → ((c : Cloud) → (f c).files ≡ c.files)
    → ((c : Cloud) → (f c).versions ≡ c.versions)
    → Keeps {E = HttpError} (HasVersion m) (modify (λ c. if t c then f c else c))
elsewhere_when-Keeps m t f files versions =
    when_version-Keeps m t f
      λ c h. record { reached = rw (files c) h.reached; recorded = rw (versions c) h.recorded }

pub update_files-HasVersion :
    (m : Mark) (q : FileRow → Bool) (f : FileRow → FileRow)
    → ((x : FileRow) → q x ≡ true → reaches m x ≡ true → reaches m (f x) ≡ true)
    → (c : Cloud) → HasVersion m c
    → HasVersion m (record c { files = update q f c.files })
update_files-HasVersion m q f k c h = record {
  reached = any-update_keeps (reaches m) q f c.files k h.reached;
  recorded = h.recorded;
}

pub update_one-Keeps :
    (m : Mark) (q : FileRow → Bool) (f : FileRow → FileRow) (e : HttpError)
    → ((x : FileRow) → (f x).id ≡ x.id)
    → ((x : FileRow) → (f x).current_version ≡ x.current_version)
    → Keeps (HasVersion m) (update_one q f e)
unfolding update_one
update_one-Keeps m q f e ids versions = Keeps-bind _ _ (Keeps-gets _) λ _.
    Keeps-bind _ _
      (Keeps-modify _ (update_files-HasVersion m q f λ x _ h. rw (ids x, versions x) h))
      λ _. Keeps-guard _ e

pub record_event-Keeps :
    (m : Mark) (rq : Request) (id event detail : String)
    → Keeps (HasVersion m) (record_event rq id event detail)
unfolding record_event
record_event-Keeps m rq id event detail = elsewhere-Keeps m _ (λ c. refl) (λ c. refl)

pub record_domain_event-Keeps :
    (m : Mark) (rq : Request) (workspace_id id key event : String)
    → Keeps (HasVersion m) (record_domain_event rq workspace_id id key event)
unfolding record_domain_event
record_domain_event-Keeps m rq workspace_id id key event =
    elsewhere-Keeps m _ (λ c. ground arith) (λ c. ground arith)

pub create_notification-Keeps :
    (m : Mark) (rq : Request) (recipient key : String) (category : Category) (id : String)
    → Keeps (HasVersion m) (create_notification rq recipient key category id)
unfolding create_notification
create_notification-Keeps m rq recipient key category id =
    elsewhere-Keeps m _ (λ c. ground arith) (λ c. ground arith)

pub record_file_state_snapshot-Keeps :
    (m : Mark) (rq : Request) (id state : String)
    → Keeps (HasVersion m) (record_file_state_snapshot rq id state)
unfolding record_file_state_snapshot
record_file_state_snapshot-Keeps m rq id state = search (keeps_rules, elsewhere-Keeps) depth 8

pub assert_file_lease_compatible-Keeps :
    (m : Mark) (rq : Request) (id : String)
    → Keeps (HasVersion m) (assert_file_lease_compatible rq id)
unfolding assert_file_lease_compatible
assert_file_lease_compatible-Keeps m rq id = search (keeps_rules, elsewhere-Keeps) depth 8

pub get_owned_file-Keeps :
    (m : Mark) (rq : Request) (id : String) (required : WorkspaceRole)
    → Keeps (HasVersion m) (get_owned_file rq id required)
unfolding get_owned_file
get_owned_file-Keeps m rq id required = search keeps_rules depth 8

pub record_change-Keeps :
    (m : Mark) (rq : Request) (file : FileRow) (event detail key event_type state : String)
    → Keeps (HasVersion m) (record_change rq file event detail key event_type state)
unfolding record_change
record_change-Keeps m rq file event detail key event_type state =
    search
      (keeps_rules, record_event-Keeps, record_domain_event-Keeps, record_file_state_snapshot-Keeps)
      depth 8

pub ruleset request_rules = (
  keeps_rules, elsewhere-Keeps, update_one-Keeps, record_event-Keeps, record_domain_event-Keeps,
  record_file_state_snapshot-Keeps, assert_file_lease_compatible-Keeps, get_owned_file-Keeps,
  record_change-Keeps, create_notification-Keeps,
)
