-- ===== src/Cloud/Leases/Single.antt =====
-- worker/src/collab-upgrade.ts: the primary key of file_edit_leases, for the statements.
pub mod Runs
use excel_sync.Base.{
  ℕ, String, Bool, true, false, List, [], ◌∷◌, ◌++◌, ◌==◌, string_eq, ◌≡◌, refl, ◌≤◌, any, remove,
  update, count, if◌then◌else◌, arith, modify, inl, inr, Bool-cases, ==_refl, Option, ◌>>=◌, ◌+◌,
  and-left, ==_iff, count-remove, count-remove_self, count-update, count-append_last,
  count-append_other, any-count, gets, throw,
}
use excel_sync.Base.Outcome.Keeps.{Keeps, Keeps-modify, keeps_rules}
use excel_sync.Cloud.Schema.{LeaseRow, Cloud, HttpError, Category}
use excel_sync.Cloud.Requests.{
  Request, get_owned_file, assert_file_lease_compatible, record_event, record_domain_event,
  record_file_state_snapshot, create_notification, prune_expired_leases,
}
use excel_sync.Cloud.Leases.{
  lease_on, put_lease, renew_lease, add_lease, lease_payload, replace_lease, put_presence,
  new_lease, renewed, drop_lease, is_lease,
}

pub record Single (c : Cloud) : Type 0 where
  pub at_most : (file_id : String) → count (lease_on file_id) c.leases ≤ 1

pub unleased-Keeps :
    (f : Cloud → Cloud)
    → ((c : Cloud) → (f c).leases ≡ c.leases)
    → Keeps {E = HttpError} Single (modify f)
unleased-Keeps f k = Keeps-modify f λ c h. record { at_most = λ id. rw (k c) (h.at_most id) }

pub unleased_when-Keeps :
    (t : Cloud → Bool) (f : Cloud → Cloud)
    → ((c : Cloud) → (f c).leases ≡ c.leases)
    → Keeps {E = HttpError} Single (modify (λ c. if t c then f c else c))
unleased_when-Keeps t f k = Keeps-modify _ λ c h. elim (Bool-cases (t c)) [
  | inl e ↦ rw e (record { at_most = λ id. rw (k c) (h.at_most id) })
  | inr e ↦ rw e h
]

pub prune-Keeps :
    (q : LeaseRow → Bool)
    → Keeps {E = HttpError} Single (modify (λ c. record c { leases = remove q c.leases }))
prune-Keeps q = Keeps-modify _ λ c h. record {
  at_most =
      λ id. let a = count-remove (lease_on id) q c.leases in let b = h.at_most id in omega arith;
}

update_leases-Single :
    (q : LeaseRow → Bool) (f : LeaseRow → LeaseRow) (c : Cloud)
    → ((l : LeaseRow) → (f l).file_id ≡ l.file_id)
    → Single c
    → Single (record c { leases = update q f c.leases })
update_leases-Single q f c k h = record {
  at_most = λ id. rw (count-update (lease_on id) q f c.leases (λ l. rw (k l) refl)) (h.at_most id);
}

-- A row joins rows none of which is on its file.
count-join :
    (l : LeaseRow) (xs : List LeaseRow) (id : String)
    → count (lease_on l.file_id) xs ≡ 0
    → count (lease_on id) xs ≤ 1
    → count (lease_on id) (xs ++ l ∷ []) ≤ 1
count-join l xs id free h = elim (Bool-cases (l.file_id == id)) [
  | inl e ↦
      let last = count-append_last (lease_on id) xs l in
      let same = (==_iff l.file_id id).0 e in let none_on = (rw same at free) in omega arith
  | inr e ↦ rw (count-append_other (lease_on id) xs l e) h
]

pub put_lease-Keeps : (rq : Request) (l : LeaseRow) → Keeps Single (put_lease rq l)
unfolding put_lease ◌>>=◌
put_lease-Keeps rq l = record {
  at = λ c h. elim (Bool-cases (any (lease_on l.file_id) c.leases)) [
    | inl e ↦ rw e (update_leases-Single _ (renewed rq) c (λ k. refl) h)
    | inr e ↦ rw e (elim (Bool-cases (any (λ k. k.lease_id == l.lease_id) c.leases)) [
      | inl t ↦ rw t h
      | inr t ↦ rw t (record {
        at_most = λ id.
            count-join l c.leases id (any-count (lease_on l.file_id) c.leases e) (h.at_most id);
      })
    ])
  ];
}

pub put_presence-leases :
    (rq : Request) (id device : String) (c : Cloud)
    → (put_presence rq id device c).leases ≡ c.leases
put_presence-leases rq id device c = ground arith

replace_lease-Single :
    (rq : Request) (id workspace_id device fresh : String) (c : Cloud)
    → Single c
    → Single (replace_lease rq id workspace_id device fresh c)
replace_lease-Single rq id workspace_id device fresh c h =
    let l = new_lease rq id workspace_id device fresh in
    let rest = remove (lease_on id) c.leases in
    record {
      at_most = λ k.
          let free = count-remove_self (lease_on id) (lease_on id) c.leases (λ l e. e) in
          let fewer = count-remove (lease_on k) (lease_on id) c.leases in
          let one = h.at_most k in
          rw (put_presence-leases rq id device (record c { leases = rest ++ l ∷ [] }))
            (count-join l rest k free (omega arith));
    }

pub replace_lease-Keeps :
    (rq : Request) (id workspace_id device fresh : String)
    → Keeps {E = HttpError} Single (modify (replace_lease rq id workspace_id device fresh))
replace_lease-Keeps rq id workspace_id device fresh =
    Keeps-modify _ (replace_lease-Single rq id workspace_id device fresh)

pub drop_lease-Keeps :
    (rq : Request) (id device lease_id : String)
    → Keeps {E = HttpError} Single (modify (drop_lease rq id device lease_id))
drop_lease-Keeps rq id device lease_id = Keeps-modify _ λ c h. record {
  at_most = λ k.
      let fewer = count-remove (lease_on k) (is_lease rq id device lease_id) c.leases in
      let one = h.at_most k in omega arith;
}

pub renew-Keeps :
    (rq : Request) (q : LeaseRow → Bool)
    → Keeps {E = HttpError} Single
        (modify (λ c. record c { leases = update q (renewed rq) c.leases }))
renew-Keeps rq q = Keeps-modify _ λ c h. update_leases-Single q (renewed rq) c (λ k. refl) h

pub record_domain_event-Single :
    (rq : Request) (workspace_id id key event : String)
    → Keeps Single (record_domain_event rq workspace_id id key event)
unfolding record_domain_event
record_domain_event-Single rq workspace_id id key event = unleased-Keeps _ (λ c. ground arith)

pub create_notification-Single :
    (rq : Request) (recipient key : String) (category : Category) (id : String)
    → Keeps Single (create_notification rq recipient key category id)
unfolding create_notification
create_notification-Single rq recipient key category id = unleased-Keeps _ (λ c. ground arith)

pub put_presence-Single :
    (rq : Request) (id device : String)
    → Keeps {E = HttpError} Single (modify (put_presence rq id device))
put_presence-Single rq id device = unleased-Keeps _ (put_presence-leases rq id device)

pub ruleset single_rules = (
  keeps_rules, unleased-Keeps, unleased_when-Keeps, prune-Keeps, renew-Keeps, put_lease-Keeps,
  replace_lease-Keeps, drop_lease-Keeps, record_domain_event-Single, create_notification-Single,
  put_presence-Single,
)
