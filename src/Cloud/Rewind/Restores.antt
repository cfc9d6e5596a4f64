-- ===== src/Cloud/Rewind/Restores.antt =====
-- worker/src/collab-upgrade.ts, planRewind: what the planned steps make of a file.
use excel_sync.Base.{
  ℕ, Bool, true, false, none, some, List, [], ◌∷◌, ◌++◌, string_eq, ◌≡◌, refl, ◌∙◌, ap, arith, eqb,
  ltb, any, inl, inr, Bool-cases, any-append_keeps, eqb_iff, ◌⊎◌,
}
use excel_sync.Cloud.Schema.{FileStatus, active, trashed, deleted, FileRow, Snapshot, RewindStep}
use excel_sync.Cloud.Rewind.{
  same_status, version_steps, path_steps, status_steps, or_noop, steps_to,
}
use excel_sync.Cloud.Rewind.Items.{rewound}

-- The steps that do not restore a version, one after the other.
unfoldable pub rewound_by : List RewindStep → FileRow → FileRow
rewound_by [] f = f
rewound_by (s ∷ ss) f = rewound_by ss (rewound s f)

-- The row has the name, the path and the status of the state.
pub record HasState (t : Snapshot) (f : FileRow) : Type 0 where
  pub name : f.logical_name ≡ t.logical_name
  pub path : f.relative_path ≡ t.relative_path
  pub status : f.status ≡ t.status

abbrev pub asks_version : ℕ → RewindStep → Bool
asks_version n s = elim s.target_version [ none ↦ false | some v ↦ eqb v n ]

rewound_by-append :
    (xs ys : List RewindStep) (f : FileRow)
    → rewound_by (xs ++ ys) f ≡ rewound_by ys (rewound_by xs f)
unfolding rewound_by
rewound_by-append [] ys f = refl
rewound_by-append (x ∷ xs) ys f = rewound_by-append xs ys (rewound x f)

rewound_by-noop :
    (f g : FileRow) (ss : List RewindStep) → rewound_by (or_noop f ss) g ≡ rewound_by ss g
unfolding rewound_by rewound
rewound_by-noop f g [] = refl
rewound_by-noop f g (s ∷ ss) = refl

same_status_lem : (a b : FileStatus) → same_status a b ≡ true → a ≡ b
same_status_lem active active h = refl
same_status_lem trashed trashed h = refl
same_status_lem deleted deleted h = refl
same_status_lem active trashed h = cc
same_status_lem active deleted h = cc
same_status_lem trashed active h = cc
same_status_lem trashed deleted h = cc
same_status_lem deleted active h = cc
same_status_lem deleted trashed h = cc

version_steps-rewound : (t : Snapshot) (f g : FileRow) → rewound_by (version_steps t f) g ≡ g
unfolding rewound_by rewound
version_steps-rewound t f g = ground arith

path_steps-name :
    (t : Snapshot) (f : FileRow) → (rewound_by (path_steps t f) f).logical_name ≡ t.logical_name
unfolding rewound_by rewound
path_steps-name t f = ground arith

path_steps-path :
    (t : Snapshot) (f : FileRow) → (rewound_by (path_steps t f) f).relative_path ≡ t.relative_path
unfolding rewound_by rewound
path_steps-path t f = ground arith

path_steps-status : (t : Snapshot) (f : FileRow) → (rewound_by (path_steps t f) f).status ≡ f.status
unfolding rewound_by rewound
path_steps-status t f = ground arith

status_steps-status :
    (t : Snapshot) (f g : FileRow)
    → g.status ≡ f.status
    → (rewound_by (status_steps t f) g).status ≡ t.status
unfolding rewound_by rewound
status_steps-status t f g h = ground (arith, same_status_lem t.status f.status)

status_steps-name :
    (t : Snapshot) (f g : FileRow) → (rewound_by (status_steps t f) g).logical_name ≡ g.logical_name
unfolding rewound_by rewound
status_steps-name t f g = ground arith

status_steps-path :
    (t : Snapshot) (f g : FileRow)
    → (rewound_by (status_steps t f) g).relative_path ≡ g.relative_path
unfolding rewound_by rewound
status_steps-path t f g = ground arith

steps_to-rewound :
    (t : Snapshot) (f : FileRow)
    → rewound_by (steps_to t f) f ≡ rewound_by (status_steps t f) (rewound_by (path_steps t f) f)
unfolding steps_to
steps_to-rewound t f =
    rewound_by-noop f f _
    ∙ rewound_by-append (version_steps t f ++ path_steps t f) (status_steps t f) f
    ∙ ap (rewound_by (status_steps t f)) (
        rewound_by-append (version_steps t f) (path_steps t f) f
        ∙ ap (rewound_by (path_steps t f)) (version_steps-rewound t f f))

any-version :
    (n : ℕ) (f : FileRow) (xs ys : List RewindStep)
    → any (asks_version n) xs ≡ true
    → any (asks_version n) (or_noop f (xs ++ ys)) ≡ true
any-version n f [] ys h = cc
any-version n f (x ∷ xs) ys h = any-append_keeps (asks_version n) (x ∷ xs) ys h

steps_to-version :
    (t : Snapshot) (f : FileRow)
    → ltb 0 t.content_version ≡ true
    → eqb t.content_version f.current_version ≡ false
    → any (asks_version t.content_version) (steps_to t f) ≡ true
unfolding steps_to
steps_to-version t f positive differs = rw (positive, differs) (ground arith)

zero_of : (n : ℕ) → ltb 0 n ≡ false → n ≡ 0
zero_of n h = ground arith

version_wanted :
    (t : Snapshot) (f : FileRow)
    → (t.content_version ≡ 0)
      ⊎ (t.content_version ≡ f.current_version)
      ⊎ (any (asks_version t.content_version) (steps_to t f) ≡ true)
version_wanted t f = elim (Bool-cases (ltb 0 t.content_version)) [
  | inr e ↦ inl (zero_of t.content_version e)
  | inl e ↦ elim (Bool-cases (eqb t.content_version f.current_version)) [
    | inl k ↦ inr (inl ((eqb_iff t.content_version f.current_version).0 k))
    | inr k ↦ inr (inr (steps_to-version t f e k))
  ]
]

-- The steps that a rewind plans for a file with a known state at the time give the file the name, the path
-- and the status of that state; and the file had no version then, or that is its version now, or a step asks
-- for it.
pub steps_to-HasState :
    (t : Snapshot) (f : FileRow)
    → HasState t (rewound_by (steps_to t f) f)
      × ((t.content_version ≡ 0)
          ⊎ (t.content_version ≡ f.current_version)
          ⊎ (any (asks_version t.content_version) (steps_to t f) ≡ true))
steps_to-HasState t f = (
  rw (steps_to-rewound t f) (record {
    name = status_steps-name t f _ ∙ path_steps-name t f;
    path = status_steps-path t f _ ∙ path_steps-path t f;
    status = status_steps-status t f _ (path_steps-status t f);
  }),
  version_wanted t f,
)
