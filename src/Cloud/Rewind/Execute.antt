-- ===== src/Cloud/Rewind/Execute.antt =====
-- worker/src/collab-upgrade.ts: the start of a rewind (handleRewindExecute), its items one after the other
-- (executeRewindOperation), and its retry.
use excel_sync.Base.{
  ℕ, suc, String, ◌<>◌, Bool, true, false, ◌&&◌, ◌||◌, not, Option, none, some, List, [], ◌∷◌, ◌++◌,
  ◌==◌, string_eq, eqb, ltb, leb, find, select, update, count, take, if◌then◌else◌, clip, gets,
  require, guard, modify, pure, attempt, ◌+◌, ◌>>=◌, ◌>>◌, when_some,
}
use excel_sync.Cloud.Schema.{
  manager, recovery, RewindAction, noop, restore_path, restore_status, restore_version, trash_new,
  RewindStep, ItemStatus, waiting, running, done, failed, skipped, RewindItem, RewindStatus,
  planned, in_progress, completed, partial, unsuccessful, RewindOperation, Cloud, HttpError,
  Handler, http,
}
use excel_sync.Cloud.Access.{get_effective_workspace_role, workspace_role_at_least, is_system_admin}
use excel_sync.Cloud.Requests.{Request, record_domain_event, create_notification}
use excel_sync.Cloud.Rewind.{RewindInput, require_rewind_permission, plan_rewind}
use excel_sync.Cloud.Rewind.Items.{
  plain, set_item, assert_rewind_file_idle, complete_simple_item, complete_version_item, Clones,
}

abbrev is_noop : RewindAction → Bool
is_noop noop = true
is_noop _ = false

abbrev is_version : RewindAction → Bool
is_version restore_version = true
is_version _ = false

-- The `try`.
unfoldable pub do_item : Request → Clones → String → RewindItem → Handler Bool
do_item rq clones workspace_id item = do
  assert_rewind_file_idle rq item.step.file_id
  found ← gets (λ c. find (λ f. f.id == item.step.file_id) c.files)
  file ← require found (plain "FILE_NOT_FOUND")
  modify (
      set_item rq item.id
        (λ i. record i { status = running; attempts = i.attempts + 1; updated_at = rq.now }))
  if is_version item.step.action
      then complete_version_item rq clones workspace_id item file
      else complete_simple_item rq workspace_id item file
  pure true

unfoldable pub fail_item : Request → RewindItem → HttpError → Handler Bool
fail_item rq item e = do
  modify (
      set_item rq item.id (λ i. record i {
        status = failed;
        error_text = some (clip 1000 e.code);
        updated_at = rq.now;
      }))
  pure false

-- A round of the loop: whether the item is done.
unfoldable pub execute_item : Request → Clones → String → RewindItem → Handler Bool
execute_item rq clones workspace_id item =
    if is_noop item.step.action
    then modify (set_item rq item.id (λ i. record i { status = done; updated_at = rq.now }))
      >> pure true
    else attempt (do_item rq clones workspace_id item) (fail_item rq item)

abbrev tally : Bool → ℕ × ℕ → ℕ × ℕ
tally true (finished_items, failures) = (finished_items + 1, failures)
tally false (finished_items, failures) = (finished_items, failures + 1)

-- The numbers of items that are done and that failed.
unfoldable pub execute_items : Request → Clones → String → List RewindItem → Handler (ℕ × ℕ)
execute_items rq clones workspace_id [] = pure (0, 0)
execute_items rq clones workspace_id (i ∷ is) = do
  ok_item ← execute_item rq clones workspace_id i
  rest ← execute_items rq clones workspace_id is
  pure (tally ok_item rest)

abbrev is_done : ItemStatus → Bool
is_done done = true
is_done _ = false

abbrev is_settled : ItemStatus → Bool
is_settled done = true
is_settled skipped = true
is_settled _ = false

-- `ORDER BY action ASC`: the names of the actions in the order of their letters.
abbrev action_rank : RewindAction → ℕ
action_rank noop = 0
action_rank restore_path = 1
action_rank restore_status = 2
action_rank restore_version = 3
action_rank trash_new = 4

abbrev goes_before : RewindItem → RewindItem → Bool
goes_before i j =
    ltb i.created_at j.created_at
    || eqb i.created_at j.created_at && leb (action_rank i.step.action) (action_rank j.step.action)

unfoldable pub insert_item : RewindItem → List RewindItem → List RewindItem
insert_item i [] = i ∷ []
insert_item i (j ∷ js) = if goes_before i j then i ∷ j ∷ js else j ∷ insert_item i js

unfoldable pub sort_items : List RewindItem → List RewindItem
sort_items [] = []
sort_items (i ∷ is) = insert_item i (sort_items is)

abbrev open_items : String → Cloud → List RewindItem
open_items operation_id c = take 5000 (
    sort_items
      (select (λ i. i.operation_id == operation_id && not (is_done i.status)) c.rewind_items))

abbrev set_rewind : String → (RewindOperation → RewindOperation) → Cloud → Cloud
set_rewind id f c = record c { rewinds = update (λ o. o.id == id) f c.rewinds }

abbrev pub is_completed : RewindStatus → Bool
is_completed completed = true
is_completed _ = false

-- `Number(pending) === 0 ? 'COMPLETED' : done > 0 ? 'PARTIAL' : 'FAILED'`
abbrev final_status : ℕ → ℕ → RewindStatus
final_status left done_items =
    if eqb left 0 then completed else if ltb 0 done_items then partial else unsuccessful

abbrev status_name : RewindStatus → String
status_name planned = "PLANNED"
status_name in_progress = "RUNNING"
status_name completed = "COMPLETED"
status_name partial = "PARTIAL"
status_name unsuccessful = "FAILED"

abbrev started : Option ℕ → ℕ → Option ℕ
started none now = some now
started (some t) now = some t

pub record RewindReply : Type 0 where
  pub id : String
  pub status : RewindStatus

-- The event has no file.
unfoldable pub announce_rewind : Request → RewindOperation → RewindStatus → Handler RewindReply
announce_rewind rq operation status = do
  let key = "rewind-operation-status:" <> operation.id <> ":" <> status_name status
  record_domain_event rq operation.workspace_id "" key
      (if is_completed status then "REWIND_COMPLETED" else "REWIND_PARTIAL")
  create_notification rq rq.user.id key recovery operation.workspace_id
  pure (record { id = operation.id; status = status })

unfoldable pub finish_rewind : Request → RewindOperation → ℕ × ℕ → Handler RewindReply
finish_rewind rq operation (done_items, failures) = do
  left ←
      gets (λ c.
        count (λ i. i.operation_id == operation.id && not (is_settled i.status)) c.rewind_items)
  let status = final_status left done_items
  modify (
      set_rewind operation.id (λ o. record o {
        status = status;
        completed_at = if is_completed status then some rq.now else none;
        failed_items = if ltb 0 failures then some failures else none;
      }))
  announce_rewind rq operation status

unfoldable pub execute_open : Request → Clones → RewindOperation → Handler RewindReply
execute_open rq clones operation = do
  modify (
      set_rewind operation.id (λ o. record o {
        status = in_progress;
        started_at = started o.started_at rq.now;
        failed_items = none;
      }))
  items ← gets (open_items operation.id)
  counts ← execute_items rq clones operation.workspace_id items
  finish_rewind rq operation counts

unfoldable pub execute_rewind_operation : Request → Clones → String → Handler RewindReply
execute_rewind_operation rq clones operation_id = do
  found ← gets (λ c.
      find (λ o. o.id == operation_id && o.organization_id == rq.user.organization_id) c.rewinds)
  operation ← require found (http 404 "REWIND_NOT_FOUND")
  if is_completed operation.status
      then pure (record { id = operation_id; status = completed })
      else execute_open rq clones operation

abbrev planned_operation : Request → RewindInput → String → String → RewindOperation
planned_operation rq input scope_value id = record {
  id = id;
  organization_id = rq.user.organization_id;
  workspace_id = input.workspace_id;
  scope = input.scope;
  scope_value = scope_value;
  target_time = input.target_time;
  status = planned;
  idempotency_key = input.idempotency_key;
  created_by = rq.user.id;
  created_at = rq.now;
  started_at = none;
  completed_at = none;
  failed_items = none;
}

-- The items get the new ids `fresh 0`, `fresh 1`, ….
unfoldable pub planned_items :
    Request → (ℕ → String) → ℕ → String → List RewindStep → List RewindItem
planned_items rq fresh n id [] = []
planned_items rq fresh n id (s ∷ ss) =
    record {
      id = fresh n;
      operation_id = id;
      step = s;
      status = waiting;
      attempts = 0;
      error_text = none;
      created_at = rq.now;
      updated_at = rq.now;
    }
    ∷ planned_items rq fresh (suc n) id ss

unfoldable pub start_rewind :
    Request → Clones → RewindInput → String → String → (ℕ → String) → Handler RewindReply
start_rewind rq clones input scope_value id fresh = do
  plan ← gets (λ c. plan_rewind c input.workspace_id input.scope scope_value input.target_time)
  steps ← require plan (http 409 "REWIND_HISTORY_INCOMPLETE")
  modify (λ c. record c {
    rewinds = c.rewinds ++ planned_operation rq input scope_value id ∷ [];
    rewind_items = c.rewind_items ++ planned_items rq fresh 0 id steps;
  })
  execute_rewind_operation rq clones id

-- `id` and `fresh` are the new UUIDs.
unfoldable pub handle_rewind_execute :
    Request → Clones → RewindInput → String → (ℕ → String) → Handler RewindReply
handle_rewind_execute rq clones input id fresh = do
  guard (leb input.target_time rq.now) (http 400 "REWIND_TIME_IN_FUTURE")
  scope_value ← require_rewind_permission rq input
  existing ← gets (λ c.
      find
        (λ o.
          o.organization_id == rq.user.organization_id
          && o.idempotency_key == input.idempotency_key)
        c.rewinds)
  when_some existing (start_rewind rq clones input scope_value id fresh)
      λ o. execute_rewind_operation rq clones o.id

unfoldable pub handle_rewind_retry : Request → Clones → String → Handler RewindReply
handle_rewind_retry rq clones operation_id = do
  found ← gets (λ c.
      find (λ o. o.id == operation_id && o.organization_id == rq.user.organization_id) c.rewinds)
  operation ← require found (http 404 "REWIND_NOT_FOUND")
  role ← gets (λ c. get_effective_workspace_role c rq.user operation.workspace_id)
  guard (workspace_role_at_least role manager || is_system_admin rq.user)
      (http 403 "REWIND_FORBIDDEN")
  modify (λ c. record c {
    rewind_items =
        update (λ i. i.operation_id == operation_id && elim i.status [ failed ↦ true | _ ↦ false ])
          (λ i. record i { status = waiting; error_text = none; updated_at = rq.now })
          c.rewind_items;
  })
  execute_rewind_operation rq clones operation_id
