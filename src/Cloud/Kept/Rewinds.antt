-- ===== src/Cloud/Kept/Rewinds.antt =====
-- A rewind takes no recorded version away: an old version comes back as a new one.
use excel_sync.Base.{
  ℕ, String, Bool, List, [], ◌∷◌, string_eq, ◌≡◌, refl, ◌∙◌, ◌+◌, arith, Result, ok, err, modify,
  update, any-update,
}
use excel_sync.Base.Outcome.Keeps.{
  Keeps, Keeps-modify, Keeps-bind, Keeps-pure, Keeps-throw, Keeps-gets, Keeps-require,
  Keeps-attempt,
}
use excel_sync.Cloud.Schema.{archived, FileRow, VersionRow, RewindItem, RewindOperation, HttpError}
use excel_sync.Cloud.Requests.{Request}
use excel_sync.Cloud.Rewind.{RewindInput, require_rewind_permission}
use excel_sync.Cloud.Rewind.Items.{
  assert_rewind_file_idle, complete_simple_item, complete_version_item, conclude,
  insert_version_row, version_batch, stored_clone, Clones, is_at, restored_file, rewound_version,
}
use excel_sync.Cloud.Rewind.Execute.{
  do_item, fail_item, execute_item, execute_items, finish_rewind, announce_rewind, execute_open,
  execute_rewind_operation, start_rewind, handle_rewind_execute, handle_rewind_retry,
}
use excel_sync.Cloud.Kept.{Mark, is_marked, HasVersion, update_files-HasVersion, request_rules}
use excel_sync.Cloud.Kept.Content.{append_version-HasVersion}

module _ (m : Mark) (rq : Request) where
  update_files-Keeps :
      (q : FileRow → Bool) (f : FileRow → FileRow)
      → ((x : FileRow) → (f x).id ≡ x.id)
      → ((x : FileRow) → (f x).current_version ≡ x.current_version)
      → Keeps {E = HttpError} (HasVersion m) (modify (λ c. record c { files = update q f c.files }))
  update_files-Keeps q f ids versions =
      Keeps-modify _ (update_files-HasVersion m q f λ x _ h. rw (ids x, versions x) h)

  archive-Keeps :
      (q : VersionRow → Bool)
      → Keeps {E = HttpError} (HasVersion m) (
          modify (λ c. record c {
            versions = update q (λ w. record w { status = archived }) c.versions;
          }))
  archive-Keeps q = Keeps-modify _ λ c h. record {
    reached = h.reached;
    recorded = any-update (is_marked m) q _ c.versions (λ w. refl) ∙ h.recorded;
  }

  raise-Keeps :
      (file : FileRow) (v : VersionRow)
      → v.version ≡ file.current_version + 1
      → Keeps {E = HttpError}
          (HasVersion m)
          (modify (λ c. record c { files = update (is_at file) (restored_file rq v) c.files }))
  raise-Keeps file v next =
      Keeps-modify _
        (update_files-HasVersion m (is_at file) (restored_file rq v) λ x q h. grind arith)

  conclude-Keeps :
      (workspace_id : String) (item : RewindItem) (row : FileRow) (event_type state : String)
      → Keeps (HasVersion m) (conclude rq workspace_id item row event_type state)
  unfolding conclude
  conclude-Keeps workspace_id item row event_type state = search request_rules depth 20

  simple-Keeps :
      (workspace_id : String) (item : RewindItem) (file : FileRow)
      → Keeps (HasVersion m) (complete_simple_item rq workspace_id item file)
  unfolding complete_simple_item
  simple-Keeps workspace_id item file =
      search (request_rules, update_files-Keeps, conclude-Keeps) depth 20

  insert_version_row-Keeps : (v : VersionRow) → Keeps (HasVersion m) (insert_version_row v)
  unfolding insert_version_row
  insert_version_row-Keeps v =
      search (request_rules, Keeps-modify, append_version-HasVersion) depth 20

  version_batch-Keeps :
      (workspace_id : String) (item : RewindItem) (file : FileRow) (v : VersionRow)
      → v.version ≡ file.current_version + 1
      → Keeps (HasVersion m) (version_batch rq workspace_id item file v)
  unfolding version_batch
  version_batch-Keeps workspace_id item file v next =
      search (request_rules, insert_version_row-Keeps, raise-Keeps, archive-Keeps, conclude-Keeps)
        depth 20

  stored_clone-Keeps : (r : Result String (String × ℕ)) → Keeps (HasVersion m) (stored_clone r)
  unfolding stored_clone
  stored_clone-Keeps (ok stored) = Keeps-pure _
  stored_clone-Keeps (err message) = Keeps-throw _

  version-Keeps :
      (clones : Clones) (workspace_id : String) (item : RewindItem) (file : FileRow)
      → Keeps (HasVersion m) (complete_version_item rq clones workspace_id item file)
  unfolding complete_version_item
  version-Keeps clones workspace_id item file = Keeps-bind _ _ (Keeps-gets _) λ _.
      Keeps-bind _ _ (Keeps-require _ _) λ source. Keeps-bind _ _ (stored_clone-Keeps _) λ (t, n).
        version_batch-Keeps workspace_id item file
          (rewound_version rq (clones.fresh_version_id item.id) source file (t, n)) refl

  execute_item-Keeps :
      (clones : Clones) (workspace_id : String) (item : RewindItem)
      → Keeps (HasVersion m) (execute_item rq clones workspace_id item)
  unfolding execute_item do_item fail_item assert_rewind_file_idle
  execute_item-Keeps clones workspace_id item =
      search (request_rules, Keeps-attempt, version-Keeps, simple-Keeps) depth 30

  execute_items-Keeps :
      (clones : Clones) (workspace_id : String) (items : List RewindItem)
      → Keeps (HasVersion m) (execute_items rq clones workspace_id items)
  unfolding execute_items
  execute_items-Keeps clones workspace_id [] = Keeps-pure _
  execute_items-Keeps clones workspace_id (i ∷ is) =
      Keeps-bind _ _ (execute_item-Keeps clones workspace_id i)
        λ _. Keeps-bind _ _ (execute_items-Keeps clones workspace_id is) λ _. Keeps-pure _

  finish_rewind-Keeps :
      (operation : RewindOperation) (counts : ℕ × ℕ)
      → Keeps (HasVersion m) (finish_rewind rq operation counts)
  unfolding finish_rewind announce_rewind
  finish_rewind-Keeps operation (done_items, failures) = search request_rules depth 20

  operation-Keeps :
      (clones : Clones) (id : String) → Keeps (HasVersion m) (execute_rewind_operation rq clones id)
  unfolding execute_rewind_operation execute_open
  operation-Keeps clones id =
      search (request_rules, execute_items-Keeps, finish_rewind-Keeps) depth 20

  pub handle_rewind_execute-Keeps :
      (clones : Clones) (input : RewindInput) (id : String) (fresh : ℕ → String)
      → Keeps (HasVersion m) (handle_rewind_execute rq clones input id fresh)
  unfolding handle_rewind_execute start_rewind require_rewind_permission
  handle_rewind_execute-Keeps clones input id fresh =
      search (request_rules, operation-Keeps) depth 30

  pub handle_rewind_retry-Keeps :
      (clones : Clones) (id : String) → Keeps (HasVersion m) (handle_rewind_retry rq clones id)
  unfolding handle_rewind_retry
  handle_rewind_retry-Keeps clones id = search (request_rules, operation-Keeps) depth 20
