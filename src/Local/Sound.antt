-- ===== src/Local/Sound.antt =====
-- The invariant of the queue, statement by statement: every job belongs to a file of the database,
-- and its priority lies in the range that the schema checks.
pub mod Files
pub mod Jobs
pub mod Runs
pub mod Imports
use excel_sync.Base.{
  ℕ, ◌≤◌, String, ◌≡◌, refl, ap, ◌∙◌, Bool, true, false, remove, ◌&&◌, ◌||◌, not, Option, List, [],
  ◌∷◌, ◌++◌, ◌==◌, string_eq, any, update, leb, leb→le, arith, All, All-append, All-remove,
  All-update, All-imp, any-append, any-update, Bool-cases, inl, inr, throw, modify,
}
use excel_sync.Base.Outcome.Keeps.{Keeps}
use excel_sync.Local.Schema.{
  FileRow, StateRow, PendingRow, VersionRow, Db, file_with_id, has_file, same_path, state_of_file,
}
use excel_sync.Local.Statements.{
  insert_file, update_file, move_file, insert_state, put_state, insert_pending, update_pendings,
  remove_pendings, put_version, remove_files, log,
}

abbrev pub IsOwned : List FileRow → PendingRow → Type 0
IsOwned files p = any (file_with_id p.file_id) files ≡ true

pub record IsSound (db : Db) : Type 0 where
  pub owned : All (IsOwned db.files) db.pendings
  pub ranged : All (λ p. p.priority ≤ 4) db.pendings

-- A change of the other tables.
pub same_tables :
    {db db' : Db} → db'.files ≡ db.files → db'.pendings ≡ db.pendings → IsSound db → IsSound db'
same_tables e p h = record { owned = rw (e, p) h.owned; ranged = rw p h.ranged }

module _ (id : String) where
  pub update_file-IsSound :
      (f : FileRow → FileRow)
      → ((x : FileRow) → (f x).id ≡ x.id)
      → (db : Db) → IsSound db
      → IsSound (update_file id f db)
  update_file-IsSound f keep db h = record {
    owned =
        All-imp {Q = IsOwned (update (file_with_id id) f db.files)} db.pendings
          (λ p o.
            any-update (file_with_id p.file_id) (file_with_id id) f db.files
              (λ x. ap (λ (i : String). i == p.file_id) (keep x))
            ∙ o)
          h.owned;
    ranged = h.ranged;
  }

abbrev IsTame : (PendingRow → PendingRow) → Type 0
IsTame f = (q : PendingRow) → q.priority ≤ 4 → ((f q).priority ≤ 4) × ((f q).file_id ≡ q.file_id)

pub update_pendings-IsSound :
    (p : PendingRow → Bool) (f : PendingRow → PendingRow)
    → ((q : PendingRow) → q.priority ≤ 4 → (f q).priority ≤ 4)
    → ((q : PendingRow) → (f q).file_id ≡ q.file_id)
    → (db : Db) → IsSound db
    → IsSound (update_pendings p f db)
update_pendings-IsSound p f low keep db h = record {
  owned = All-update (IsOwned db.files) p f db.pendings (λ q o. rw keep o) h.owned;
  ranged = All-update (λ q. q.priority ≤ 4) p f db.pendings low h.ranged;
}

pub remove_pendings-IsSound :
    (p : PendingRow → Bool) (db : Db) → IsSound db → IsSound (remove_pendings p db)
remove_pendings-IsSound p db h = record {
  owned = All-remove (IsOwned db.files) p db.pendings h.owned;
  ranged = All-remove (λ q. q.priority ≤ 4) p db.pendings h.ranged;
}

pub insert_file-Keeps : (f : FileRow) → Keeps IsSound (insert_file f)
unfolding insert_file modify throw
insert_file-Keeps f = record {
  at = λ db h.
      elim (Bool-cases
        (any (λ g. g.id == f.id || same_path g.relative_path f.relative_path) db.files)) [
          | inl e ↦ rw e h
          | inr e ↦ rw e (record {
            owned =
                All-imp {Q = IsOwned (db.files ++ (f ∷ []))} db.pendings
                  (λ p o. any-append (file_with_id p.file_id) db.files (f ∷ []) ∙ rw o refl)
                  h.owned;
            ranged = h.ranged;
          })
        ];
}

pub move_file-Keeps :
    (id path : String) (f : FileRow → FileRow)
    → ((x : FileRow) → (f x).id ≡ x.id)
    → Keeps IsSound (move_file id path f)
unfolding move_file modify throw
move_file-Keeps id path f keep = record {
  at = λ db h.
      elim (Bool-cases (
        any (file_with_id id) db.files
        && any (λ g. not (g.id == id) && same_path g.relative_path path) db.files)) [
          | inl e ↦ rw e h
          | inr e ↦ rw e (update_file-IsSound id f keep db h)
        ];
}

pub insert_state-Keeps : (s : StateRow) → Keeps IsSound (insert_state s)
unfolding insert_state modify throw
insert_state-Keeps s = record {
  at = λ db h.
      elim (Bool-cases (not (has_file s.file_id db) || any (state_of_file s.file_id) db.states)) [
        | inl e ↦ rw e h
        | inr e ↦ rw e (same_tables refl refl h)
      ];
}

pub put_state-Keeps : (s : StateRow) (f : StateRow → StateRow) → Keeps IsSound (put_state s f)
unfolding put_state modify throw
put_state-Keeps s f = record { at = λ db h. same_tables (ground arith) (ground arith) h }

pub put_version-Keeps :
    (v : VersionRow) (f : VersionRow → VersionRow) → Keeps IsSound (put_version v f)
unfolding put_version modify throw
put_version-Keeps v f = record { at = λ db h. same_tables (ground arith) (ground arith) h }

pub log-Keeps :
    (now : ℕ) (event : String) (file detail : Option String)
    → Keeps IsSound (log now event file detail)
unfolding log modify throw
log-Keeps now event file detail = record {
  at = λ db h. same_tables (ground arith) (ground arith) h;
}

pub insert_pending-Keeps : (p : PendingRow) → Keeps IsSound (insert_pending p)
unfolding insert_pending modify throw
insert_pending-Keeps p = record {
  at = λ db h. elim (Bool-cases (has_file p.file_id db)) [
    | inr e ↦ rw e h
    | inl e ↦
        elim (Bool-cases
          (any (λ q. q.id == p.id || q.idempotency_key == p.idempotency_key) db.pendings)) [
            | inl t ↦ rw (e, t) h
            | inr t ↦ elim (Bool-cases (leb p.priority 4)) [
              | inr l ↦ rw (e, t, l) h
              | inl l ↦
                  rw (e, t, l)
                    (record {
                      owned = All-append (IsOwned db.files) db.pendings (p ∷ []) h.owned (e, tt);
                      ranged =
                          All-append (λ q. q.priority ≤ 4) db.pendings (p ∷ []) h.ranged
                            (leb→le p.priority 4 l, tt);
                    })
            ]
          ]
  ];
}

any-remove :
    (p : FileRow → Bool) (id : String) (files : List FileRow)
    → any (file_with_id id) files ≡ true
    → any (λ f. p f && f.id == id) files ≡ false
    → any (file_with_id id) (remove p files) ≡ true
any-remove p id [] h k = h
any-remove p id (f ∷ files) h k = ground (arith, any-remove p id files)

remove_orphans :
    (p : FileRow → Bool) (files : List FileRow) (ps : List PendingRow)
    → All (IsOwned files) ps
    → All (IsOwned (remove p files)) (remove (λ q. any (λ f. p f && f.id == q.file_id) files) ps)
remove_orphans p files [] h = tt
remove_orphans p files (q ∷ ps) (hq, h) =
    elim (Bool-cases (any (λ f. p f && f.id == q.file_id) files)) [
      | inl e ↦ rw e (remove_orphans p files ps h)
      | inr e ↦ rw e (any-remove p q.file_id files hq e, remove_orphans p files ps h)
    ]

pub remove_files-IsSound : (p : FileRow → Bool) (db : Db) → IsSound db → IsSound (remove_files p db)
unfolding remove_files
remove_files-IsSound p db h = record {
  owned = remove_orphans p db.files db.pendings h.owned;
  ranged =
      All-remove (λ q. q.priority ≤ 4) (λ q. any (λ f. p f && f.id == q.file_id) db.files)
        db.pendings h.ranged;
}
