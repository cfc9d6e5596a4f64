-- ===== src/Local/Queue/Again.antt =====
-- Queueing the same content twice queues it once.
use excel_sync.Base.{
  ℕ, String, ◌≡◌, refl, Bool, true, ◌&&◌, ◌||◌, not, Option, none, some, List, [], ◌∷◌, ◌==◌,
  string_eq, ==_refl, any, any-append, select, update, arith, Bool-cases, inl, inr, Result, ok, err,
  settle, continue, modify, pure, ◌>>=◌, when_some, transaction, if◌then◌else◌, is_some,
}
use excel_sync.Base.Outcome.Keeps.{Keeps, Keeps-bind, Keeps-gets, Keeps-pure, keeps_rules}
use excel_sync.Local.Schema.{
  FileRow, PendingRow, Db, DbError, is_active, hash_is, pending, pending_with_id,
}
use excel_sync.Local.Statements.{Local, insert_pending, log}
use excel_sync.Local.Queue.{
  UpsertInput, active_with_hash, filled, has_active_pending_for_hash, oldest, fill_waiting,
  add_upsert, add_unless_taken, recover_insert, upsert_key, queue_upsert, is_waiting_row,
  upsert_row, catch_insert, set_status,
}

any-select :
    (p r : PendingRow → Bool) (ps : List PendingRow)
    → any p (select r ps) ≡ true
    → any (λ x. r x && p x) ps ≡ true
any-select p r [] h = h
any-select p r (q ∷ ps) h = ground (arith, any-select p r ps)

any-oldest :
    (p : PendingRow → Bool) (best : PendingRow) (ps : List PendingRow) {q : PendingRow}
    → oldest (some best) ps ≡ some q
    → p q ≡ true
    → any p (best ∷ ps) ≡ true
unfolding oldest
any-oldest p best [] e h = ground arith
any-oldest p best (x ∷ ps) {q} e h =
    ground (arith, any-oldest p best ps {q = q}, any-oldest p x ps {q = q})

any-oldest-none :
    (p : PendingRow → Bool) (ps : List PendingRow) {q : PendingRow}
    → oldest none ps ≡ some q
    → p q ≡ true
    → any p ps ≡ true
unfolding oldest
any-oldest-none p [] e h = cc
any-oldest-none p (x ∷ ps) e h = any-oldest p x ps e h

-- An update that makes each row it touches satisfy `q`, where some row is touched.
any-update_hit :
    (p q r : PendingRow → Bool) (f : PendingRow → PendingRow) (ps : List PendingRow)
    → ((x : PendingRow) → r x ≡ true → (p x ≡ true) × (q (f x) ≡ true))
    → any r ps ≡ true
    → any q (update p f ps) ≡ true
any-update_hit p q r f [] k h = h
any-update_hit p q r f (x ∷ ps) k h = ground (arith, k x, any-update_hit p q r f ps k)

-- The history is no part of the queue.
log-pendings :
    (now : ℕ) (event : String) (file detail : Option String) (db : Db)
    → (log now event file detail db).1.pendings ≡ db.pendings
unfolding log ◌>>=◌
log-pendings now event file detail db = ground arith

-- A job for this content is waiting or running.
abbrev IsBusy : FileRow → String → Db → Type 0
IsBusy file hash db = has_active_pending_for_hash file.id hash db ≡ true

module _ (file : FileRow) (hash : String) where
  log-IsBusy :
      (now : ℕ) (event : String) (of detail : Option String)
      → Keeps (IsBusy file hash) (log now event of detail)
  unfolding has_active_pending_for_hash
  log-IsBusy now event of detail = record {
    at = λ db h. rw (log-pendings now event of detail db) h;
  }

ruleset busy_rules = (keeps_rules, log-IsBusy)

module _ (now : ℕ) (file : FileRow) (input : UpsertInput) where
  abbrev waits_as : PendingRow → PendingRow → Bool
  waits_as old p = is_waiting_row file.id p && p.id == old.id

  waits_as_self :
      (old : PendingRow) (db : Db)
      → oldest none (select (is_waiting_row file.id) db.pendings) ≡ some old
      → any (waits_as old) db.pendings ≡ true
  waits_as_self old db e =
      any-select (pending_with_id old.id) (is_waiting_row file.id) db.pendings (
        any-oldest-none (pending_with_id old.id) (select (is_waiting_row file.id) db.pendings) e
          (==_refl old.id))

  fill_waiting-IsBusy :
      (old : PendingRow) (db : Db)
      → oldest none (select (is_waiting_row file.id) db.pendings) ≡ some old
      → IsBusy file input.hash (fill_waiting now file input old db).1
  unfolding fill_waiting ◌>>=◌ transaction
  fill_waiting-IsBusy old db e =
      (Keeps-bind _ _ (log-IsBusy file input.hash now _ _ _) (λ _. Keeps-gets _)).at _ (
        unfold has_active_pending_for_hash in
        any-update_hit (pending_with_id old.id) (active_with_hash file.id input.hash) (waits_as old)
          (filled now file input) db.pendings (λ x w. ground (arith, ==_refl input.hash))
          (waits_as_self old db e))

  insert_pending-IsBusy :
      (fresh : String) (db : Db)
      → (insert_pending (upsert_row fresh now file input) db).0 ≡ ok tt
      → IsBusy file input.hash (insert_pending (upsert_row fresh now file input) db).1
  unfolding insert_pending has_active_pending_for_hash ◌>>=◌
  insert_pending-IsBusy fresh db e = ground (
    arith,
    ==_refl file.id,
    ==_refl input.hash,
    any-append (active_with_hash file.id input.hash) db.pendings
        (upsert_row fresh now file input ∷ []),
  )

  -- The rest of the transaction leaves the queue alone.
  settled-IsBusy :
      (db : Db) (r : Result DbError (Unit {0}) × Db)
      → (r.0 ≡ ok tt → IsBusy file input.hash r.1)
      → (settle db (continue (λ _. modify (set_status now pending file.id)) r)).0 ≡ ok tt
      → IsBusy file input.hash
          (settle db (continue (λ _. modify (set_status now pending file.id)) r)).1
  unfolding modify set_status has_active_pending_for_hash
  settled-IsBusy db (ok tt, after) h e = h refl
  settled-IsBusy db (err x, after) h e = cc

  -- Where the insertion fails, the handler returns no row.
  caught-IsBusy :
      (k : Local (Option PendingRow)) (r : Result DbError (Unit {0}) × Db) {p : PendingRow}
      → Keeps (IsBusy file input.hash) k
      → (r.0 ≡ ok tt → IsBusy file input.hash r.1)
      → (continue
          (λ done. if not done then pure none else k)
          (recover_insert file input.hash r.1 r.0, r.1)).0
        ≡ ok (some p)
      → IsBusy file input.hash
          (continue
            (λ done. if not done then pure none else k)
            (recover_insert file input.hash r.1 r.0, r.1)).1
  unfolding recover_insert pure
  caught-IsBusy k (ok tt, after) keep h e = keep.at after (h refl)
  caught-IsBusy k (err x, after) keep h e =
      elim (Bool-cases (has_active_pending_for_hash file.id input.hash after)) [
        | inl t ↦ cc
        | inr t ↦ cc
      ]

  add_upsert-IsBusy :
      (fresh : String) (db : Db) {p : PendingRow}
      → (add_upsert now fresh file input db).0 ≡ ok (some p)
      → IsBusy file input.hash (add_upsert now fresh file input db).1
  unfolding add_upsert ◌>>=◌ catch_insert transaction
  add_upsert-IsBusy fresh db e =
      caught-IsBusy _
        (settle db (
          continue (λ _. modify (set_status now pending file.id))
            (insert_pending (upsert_row fresh now file input) db)))
        (Keeps-bind _ _ (log-IsBusy file input.hash now _ _ _) (λ _. Keeps-pure _))
        (settled-IsBusy db _ (insert_pending-IsBusy fresh db)) e

  add_unless_taken-IsBusy :
      (fresh : String) (db : Db) {p : PendingRow}
      → (add_unless_taken now fresh file input db).0 ≡ ok (some p)
      → IsBusy file input.hash (add_unless_taken now fresh file input db).1
  unfolding add_unless_taken ◌>>=◌
  add_unless_taken-IsBusy fresh db e =
      elim (Bool-cases (any (λ p. p.idempotency_key == upsert_key file input) db.pendings)) [
        | inl t ↦ cc (rw t at e)
        | inr t ↦ rw t (add_upsert-IsBusy fresh db (rw t at e))
      ]

  queued-IsBusy :
      (fresh : String) (db : Db) (waiting : Option PendingRow) {p : PendingRow}
      → oldest none (select (is_waiting_row file.id) db.pendings) ≡ waiting
      → (when_some waiting
          (add_unless_taken now fresh file input)
          (fill_waiting now file input)
          db).0
        ≡ ok (some p)
      → IsBusy file input.hash
          (when_some waiting
            (add_unless_taken now fresh file input)
            (fill_waiting now file input)
            db).1
  unfolding when_some
  queued-IsBusy fresh db none w e = add_unless_taken-IsBusy fresh db e
  queued-IsBusy fresh db (some old) w e = fill_waiting-IsBusy old db w

  queue_upsert-IsBusy :
      (fresh : String) (db : Db) {p : PendingRow}
      → (queue_upsert now fresh file input db).0 ≡ ok (some p)
      → IsBusy file input.hash (queue_upsert now fresh file input db).1
  unfolding queue_upsert ◌>>=◌
  queue_upsert-IsBusy fresh db e = elim (Bool-cases (is_active file.cloud_status)) [
    | inr t ↦ cc (rw t at e)
    | inl t ↦
        elim (Bool-cases (
          (not (is_some input.restored_from_version) && hash_is input.hash file.current_hash)
          || has_active_pending_for_hash file.id input.hash db)) [
            | inl b ↦ cc (rw (t, b) at e)
            | inr b ↦ rw (t, b) (queued-IsBusy fresh db _ refl (rw (t, b) at e))
          ]
  ]

busy_again :
    (now : ℕ) (fresh : String) (file : FileRow) (input : UpsertInput) (db : Db)
    → IsBusy file input.hash db
    → queue_upsert now fresh file input db ≡ (ok none, db)
unfolding queue_upsert ◌>>=◌
busy_again now fresh file input db h = ground arith

-- If queueing a content for a file has made a job, then queueing the same content for the file once
-- more, at any later time and with any other options, makes no second job and changes nothing.
pub queue_upsert_again :
    (now later : ℕ) (fresh other : String) (file : FileRow) (input again : UpsertInput) (db : Db)
    {p : PendingRow}
    → (queue_upsert now fresh file input db).0 ≡ ok (some p)
    → again.hash ≡ input.hash
    → let after = (queue_upsert now fresh file input db).1 in
      queue_upsert later other file again after ≡ (ok none, after)
queue_upsert_again now later fresh other file input again db e same =
    busy_again later other file again _ (rw same (queue_upsert-IsBusy now file input fresh db e))
