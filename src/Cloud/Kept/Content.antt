-- ===== src/Cloud/Kept/Content.antt =====
-- A commit takes no recorded version away.
use excel_sync.Base.{
  ℕ, String, true, Option, [], ◌∷◌, ◌++◌, string_eq, ◌≡◌, refl, ◌∙◌, update, arith, modify,
  any-update, any-append_keeps,
}
use excel_sync.Base.Outcome.Keeps.{
  Keeps, Keeps-modify, Keeps-bind, Keeps-gets, Keeps-if, Keeps-pure, Keeps-throw, keeps_rules,
}
use excel_sync.Cloud.Schema.{archived, expired, FileRow, IntentRow, VersionRow, Cloud, HttpError}
use excel_sync.Cloud.Requests.{Request}
use excel_sync.Cloud.Commit.{
  is_based, committed_file, has_version, insert_version, update_file, commit_batch, finish_batch,
  announce, advance, commit_uploaded, replay_commit, commit_uploaded_intent, handle_commit,
  age_versions, abandon, is_archived_by, is_expired_by, with_status,
}
use excel_sync.Cloud.Kept.{
  Mark, reaches, is_marked, HasVersion, when_version-Keeps, elsewhere_when-Keeps,
  update_files-HasVersion, request_rules,
}

pub append_version-HasVersion :
    (m : Mark) (v : VersionRow) (c : Cloud)
    → HasVersion m c
    → HasVersion m (record c { versions = c.versions ++ v ∷ [] })
append_version-HasVersion m v c h = record {
  reached = h.reached;
  recorded = any-append_keeps (is_marked m) c.versions (v ∷ []) h.recorded;
}

insert_version-Keeps :
    (m : Mark) (v : VersionRow) (workspace_id : String)
    → Keeps (HasVersion m) (insert_version v workspace_id)
unfolding insert_version
insert_version-Keeps m v workspace_id =
    search (keeps_rules, Keeps-modify, append_version-HasVersion) depth 12

-- A commit takes a file from its base version to the next.
raise :
    (m : Mark) (rq : Request) (i : IntentRow) (workspace_id : String) (id : Option String)
    (f : FileRow)
    → is_based i.file_id workspace_id i.base_version f ≡ true
    → reaches m f ≡ true
    → reaches m (committed_file rq i id f) ≡ true
raise m rq i workspace_id id f q h = grind arith

update_file-Keeps :
    (m : Mark) (rq : Request) (intent : IntentRow) (current : FileRow) (version_id : String)
    → Keeps (HasVersion m) (update_file rq intent current version_id)
unfolding update_file
update_file-Keeps m rq intent current version_id = Keeps-bind _ _ (Keeps-gets _) λ changes.
    Keeps-bind _ _ (Keeps-gets _) λ clash. Keeps-if _ _ _ (Keeps-throw _) (
      Keeps-bind _ _
        (when_version-Keeps m (has_version version_id) _ (
          update_files-HasVersion m _ _
            (raise m rq intent current.workspace_id intent.telegram_file_id)))
        λ _. Keeps-pure _)

pub age_versions-HasVersion :
    (m : Mark) (id : String) (version retention : ℕ) (version_id : String)
    → Keeps {E = HttpError} (HasVersion m) (modify (age_versions id version retention version_id))
age_versions-HasVersion m id version retention version_id =
    when_version-Keeps m (has_version version_id) _ λ c h. record {
      reached = h.reached;
      recorded =
          any-update (is_marked m) (is_expired_by id version retention) (with_status expired)
            (update (is_archived_by id version) (with_status archived) c.versions) (λ v. refl)
          ∙ any-update (is_marked m) (is_archived_by id version) (with_status archived) c.versions
              (λ v. refl)
          ∙ h.recorded;
    }

pub finish_batch-Keeps :
    (m : Mark) (rq : Request) (retention : ℕ) (intent : IntentRow) (v : VersionRow)
    (changes : ℕ × ℕ)
    → Keeps (HasVersion m) (finish_batch rq retention intent v changes)
unfolding finish_batch
finish_batch-Keeps m rq retention intent v changes =
    search (keeps_rules, age_versions-HasVersion, elsewhere_when-Keeps) depth 14

commit_batch-Keeps :
    (m : Mark) (rq : Request) (retention : ℕ) (intent : IntentRow) (current : FileRow)
    (v : VersionRow)
    → Keeps (HasVersion m) (commit_batch rq retention intent current v)
unfolding commit_batch
commit_batch-Keeps m rq retention intent current v =
    search (keeps_rules, insert_version-Keeps, update_file-Keeps, finish_batch-Keeps) depth 14

pub handle_commit-Keeps :
    (m : Mark) (rq : Request) (limit : Option ℕ) (version_id id : String)
    → Keeps (HasVersion m) (handle_commit rq limit version_id id)
unfolding handle_commit commit_uploaded_intent commit_uploaded replay_commit advance announce
    abandon
handle_commit-Keeps m rq limit version_id id = search (request_rules, commit_batch-Keeps) depth 40
