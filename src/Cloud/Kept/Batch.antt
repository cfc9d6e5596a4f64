-- ===== src/Cloud/Kept/Batch.antt =====
-- worker/src/index.ts, commitUploadedIntent: what the statements of the batch do.
use excel_sync.Base.{
  ℕ, String, Bool, true, ◌&&◌, ◌==◌, string_eq, option_eq, ◌≡◌, refl, eqb, ltb, any, count, arith,
  Bool-cases, inl, inr, ◌+◌, any-update_makes, any-append_last, ◌>>=◌, ==_refl,
}
use excel_sync.Base.Outcome.Ensures.{
  Ensures, Ensures-bind, Ensures-transaction, Ensures-imp, Ensures-given,
}
use excel_sync.Cloud.Schema.{FileRow, IntentRow, VersionRow, Cloud}
use excel_sync.Cloud.Requests.{Request, path_conflict}
use excel_sync.Cloud.Commit.{
  is_based, committed_file, has_version, insert_version, update_file, commit_batch, finish_batch,
  new_version_row,
}
use excel_sync.Cloud.Kept.{Mark, reaches, is_marked, HasVersion}
use excel_sync.Cloud.Kept.Content.{finish_batch-Keeps}

-- The version that a commit of the intent makes.
abbrev pub new_mark : IntentRow → Mark
new_mark i = record { file_id = i.file_id; version = i.base_version + 1; hash = i.hash }

-- The cloud has the file at the intent's base version.
abbrev pub is_at_base : IntentRow → FileRow → Bool
is_at_base i f = f.id == i.file_id && eqb f.current_version i.base_version

abbrev pub AtBase : IntentRow → String → Cloud → Type 0
AtBase i workspace_id c = any (is_based i.file_id workspace_id i.base_version) c.files ≡ true

new_version_row-marked :
    (rq : Request) (version_id : String) (i : IntentRow) (t : String) (n : ℕ)
    → is_marked (new_mark i) (new_version_row rq version_id i t n) ≡ true
new_version_row-marked rq version_id i t n = rw (==_refl i.file_id, ==_refl i.hash) (ground arith)

zero_one : {A : Type 0} → ◌≡◌ {A = ℕ} 0 1 → A
zero_one h = ground arith

committed_file-reaches :
    (rq : Request) (i : IntentRow) (workspace_id : String) (f : FileRow)
    → is_based i.file_id workspace_id i.base_version f ≡ true
    → reaches (new_mark i) (committed_file rq i i.telegram_file_id f) ≡ true
committed_file-reaches rq i workspace_id f h = grind arith

insert_version-Ensures :
    (rq : Request) (version_id : String) (i : IntentRow) (t : String) (n : ℕ)
    (workspace_id : String) (c : Cloud)
    → Ensures
        (λ inserted s.
          (inserted ≡ 1)
          → AtBase i workspace_id c
            × AtBase i workspace_id s
            × (any (is_marked (new_mark i)) s.versions ≡ true)
            × (has_version version_id s ≡ true))
        (insert_version (new_version_row rq version_id i t n) workspace_id c)
unfolding insert_version ◌>>=◌
insert_version-Ensures rq version_id i t n workspace_id c =
    elim (Bool-cases (any (is_based i.file_id workspace_id i.base_version) c.files)) [
      | inr e ↦ rw e (λ h. zero_one h)
      | inl e ↦
          elim (Bool-cases
            (any (λ w. w.file_id == i.file_id && eqb w.version (i.base_version + 1)) c.versions)) [
              | inl k ↦ rw (e, k) tt
              | inr k ↦
                  rw (e, k)
                    (λ _. (
                      refl,
                      e,
                      any-append_last (is_marked (new_mark i)) c.versions _
                          (new_version_row-marked rq version_id i t n),
                      any-append_last (λ v. v.id == version_id) c.versions
                          (new_version_row rq version_id i t n) (==_refl version_id),
                    ))
            ]
    ]

update_file-Ensures :
    (rq : Request) (i : IntentRow) (current : FileRow) (version_id : String) (c : Cloud)
    → AtBase i current.workspace_id c
    → any (is_marked (new_mark i)) c.versions ≡ true
    → has_version version_id c ≡ true
    → Ensures (λ _ s. HasVersion (new_mark i) s) (update_file rq i current version_id c)
unfolding update_file ◌>>=◌
update_file-Ensures rq i current version_id c b v h =
    elim (Bool-cases (
      ltb 0 (count (is_based i.file_id current.workspace_id i.base_version) c.files)
      && path_conflict current.workspace_id current.relative_path i.file_id c)) [
        | inl e ↦ rw (h, e) tt
        | inr e ↦
            rw (h, e)
              (rw h (record {
                reached =
                    any-update_makes (reaches (new_mark i))
                      (is_based i.file_id current.workspace_id i.base_version)
                      (committed_file rq i i.telegram_file_id) c.files
                      (committed_file-reaches rq i current.workspace_id) b;
                recorded = v;
              }))
      ]

finish_batch-Ensures :
    (T : Type 0) (rq : Request) (retention : ℕ) (i : IntentRow) (v : VersionRow)
    (inserted updated : ℕ) (c : Cloud)
    → (inserted ≡ 1 → T × HasVersion (new_mark i) c)
    → Ensures
        (λ changes s. (changes.0 ≡ 1) → T × HasVersion (new_mark i) s)
        (finish_batch rq retention i v (inserted, updated) c)
unfolding finish_batch ◌>>=◌
finish_batch-Ensures T rq retention i v inserted updated c h = λ e.
    ((h e).0, (finish_batch-Keeps (new_mark i) rq retention i v (inserted, updated)).at c (h e).1)

update_file-after :
    (T : Type 0) (X : Type 0) (rq : Request) (i : IntentRow) (current : FileRow)
    (version_id : String) (c : Cloud)
    → (X
        → T
          × AtBase i current.workspace_id c
          × (any (is_marked (new_mark i)) c.versions ≡ true)
          × (has_version version_id c ≡ true))
    → Ensures (λ _ s. X → T × HasVersion (new_mark i) s) (update_file rq i current version_id c)
update_file-after T X rq i current version_id c h =
    Ensures-given X _ (update_file rq i current version_id c) λ x.
      let (t, b, v, k) = h x in
      Ensures-imp _ _ (update_file rq i current version_id c) (λ _ _ done. (t, done))
        (update_file-Ensures rq i current version_id c b v k)

pub commit_batch-Ensures :
    (rq : Request) (retention : ℕ) (version_id : String) (i : IntentRow) (t : String) (n : ℕ)
    (current : FileRow) (c : Cloud)
    → Ensures
        (λ changes s. (changes.0 ≡ 1) → AtBase i current.workspace_id c × HasVersion (new_mark i) s)
        (commit_batch rq retention i current (new_version_row rq version_id i t n) c)
unfolding commit_batch
commit_batch-Ensures rq retention version_id i t n current c =
    let v = new_version_row rq version_id i t n in
    let T = AtBase i current.workspace_id c in
    Ensures-transaction _ _ c (
      Ensures-bind _ _ (insert_version v current.workspace_id) _ c
        (insert_version-Ensures rq version_id i t n current.workspace_id c)
        λ inserted s h.
          Ensures-bind _ _ (update_file rq i current version_id) _ s
            (update_file-after T (inserted ≡ 1) rq i current version_id s h)
            λ updated s' h'. finish_batch-Ensures T rq retention i v inserted updated s' h')
