-- ===== src/Cloud/Leases/Locks.antt =====
-- worker/src/collab-upgrade.ts: the leases seen as a table of locks.
use excel_sync.Base.{
  any-find-some, ℕ, String, Bool, true, false, ◌&&◌, not, Option, none, some, List, [], ◌∷◌, ◌++◌,
  ◌==◌, string_eq, ◌≡◌, refl, leb, find, any, remove, update, if◌then◌else◌, arith, modify, inl,
  inr, Bool-cases, ==_refl, ◌>>=◌, ==_iff, Option-cases, ap, sym, find-holds, ◌∙◌,
}
use excel_sync.Base.Outcome.Keeps.{Keeps, Keeps-modify, keeps_rules}
use excel_sync.Cloud.Schema.{LeaseRow, Cloud, HttpError, editor}
use excel_sync.Cloud.Access.{FileAccess, resolve_file_access}
use excel_sync.Cloud.Requests.{Request, prune_expired_leases, record_domain_event}
use excel_sync.Cloud.Leases.Single.{put_presence-leases}
use excel_sync.Cloud.Leases.{
  lease_on, put_lease, renew_lease, add_lease, lease_payload, new_lease, renewed, announce_lease,
  acquire, handle_file_lease_acquire, require_access, device_of, is_mine, lease_id_for,
}

-- Who may edit a file, and under which lease id.
pub record Lock : Type 0 where
  pub user : String
  pub device : String
  pub lease_id : String

abbrev pub LockTable : Type 0
LockTable = String → Option Lock

-- A lock is given where there is none, and stays where there is one.
abbrev pub give : Option Lock → Lock → Option Lock
give none new = some new
give (some held) new = some held

unfoldable pub acquire_lock : String → Lock → LockTable → LockTable
acquire_lock file_id new locks k = if file_id == k then give (locks k) new else locks k

abbrev pub lock_of : Option LeaseRow → Option Lock
lock_of none = none
lock_of (some l) =
    some (record { user = l.owner_user_id; device = l.owner_device_id; lease_id = l.lease_id })

abbrev pub is_live : ℕ → String → LeaseRow → Bool
is_live now file_id l = lease_on file_id l && not (leb l.expires_at now)

-- The leases that have not expired.
unfoldable pub locks_at : ℕ → Cloud → LockTable
locks_at now c file_id = lock_of (find (is_live now file_id) c.leases)

find-remove {ℓ} :
    {A : Type ℓ} (p q : A → Bool) (xs : List A)
    → ((x : A) → p x ≡ true → q x ≡ false)
    → find p (remove q xs) ≡ find p xs
find-remove p q [] k = refl
find-remove p q (x ∷ xs) k = ground (arith, k x, find-remove p q xs k)

-- The rows of a kind, after those of them that are stale are gone.
find-remove_stale {ℓ} :
    {A : Type ℓ} (p q r : A → Bool) (xs : List A)
    → ((x : A) → q x ≡ (p x && not (r x)))
    → find p (remove q xs) ≡ find (λ x. p x && r x) xs
find-remove_stale p q r [] k = refl
find-remove_stale p q r (x ∷ xs) k = ground (arith, k x, find-remove_stale p q r xs k)

find-append_last {ℓ} :
    {A : Type ℓ} (p : A → Bool) (xs : List A) (x : A)
    → find p xs ≡ none
    → find p (xs ++ x ∷ []) ≡ (if p x then some x else none)
find-append_last p [] x h = ground arith
find-append_last p (y ∷ xs) x h = ground (arith, find-append_last p xs x)

find-append_other {ℓ} :
    {A : Type ℓ} (p : A → Bool) (xs : List A) (x : A)
    → p x ≡ false
    → find p (xs ++ x ∷ []) ≡ find p xs
find-append_other p [] x h = ground arith
find-append_other p (y ∷ xs) x h = ground (arith, find-append_other p xs x h)

find-update_other {ℓ} :
    {A : Type ℓ} (p q : A → Bool) (f : A → A) (xs : List A)
    → ((x : A) → q x ≡ true → (p x ≡ false) × (p (f x) ≡ false))
    → find p (update q f xs) ≡ find p xs
find-update_other p q f [] k = refl
find-update_other p q f (x ∷ xs) k = ground (arith, k x, find-update_other p q f xs k)

any-find {ℓ} : {A : Type ℓ} (p : A → Bool) (xs : List A) → find p xs ≡ none → any p xs ≡ false
any-find p [] h = refl
any-find p (x ∷ xs) h = ground (arith, any-find p xs)

any-remove {ℓ} :
    {A : Type ℓ} (p q : A → Bool) (xs : List A) → any p xs ≡ false → any p (remove q xs) ≡ false
any-remove p q [] h = refl
any-remove p q (x ∷ xs) h = ground (arith, any-remove p q xs)

-- The first row of a kind is updated, and is found still.
find-update_first {ℓ} :
    {A : Type ℓ} (p p' q : A → Bool) (f : A → A) (xs : List A) {a : A}
    → ((x : A) → p (f x) ≡ p x)
    → ((x : A) → p x ≡ false → p' x ≡ false)
    → ((x : A) → p x ≡ true → p' (f x) ≡ true)
    → find p xs ≡ some a
    → q a ≡ true
    → find p' (update q f xs) ≡ some (f a)
find-update_first p p' q f [] same wider live e t = cc
find-update_first p p' q f (x ∷ xs) {a} same wider live e t = ground (
  arith,
  same x,
  wider x,
  wider (f x),
  live x,
  find-update_first p p' q f xs {a = a} same wider live,
)

prune-locks :
    (now : ℕ) (f : String) (c : Cloud) (g : String)
    → locks_at now (prune_expired_leases now f c) g ≡ locks_at now c g
unfolding locks_at
prune-locks now f c g = ap lock_of (
    find-remove (is_live now g) (λ l. l.file_id == f && leb l.expires_at now) c.leases
      (λ l h. ground arith))

locks-pruned :
    (now : ℕ) (f : String) (c : Cloud)
    → lock_of (find (lease_on f) (prune_expired_leases now f c).leases) ≡ locks_at now c f
unfolding locks_at
locks-pruned now f c = ap lock_of (
    find-remove_stale (lease_on f) (λ l. l.file_id == f && leb l.expires_at now)
      (λ l. not (leb l.expires_at now)) c.leases (λ l. ground arith))

-- A statement that leaves the leases alone.
same_locks-Keeps :
    (now : ℕ) (t : LockTable) (f : Cloud → Cloud)
    → ((c : Cloud) → (f c).leases ≡ c.leases)
    → Keeps {E = HttpError} (λ c. (g : String) → locks_at now c g ≡ t g) (modify f)
unfolding locks_at
same_locks-Keeps now t f k = Keeps-modify f λ c h g. rw (k c) (h g)

prune_locks-Keeps :
    (now : ℕ) (t : LockTable) (file_id : String)
    → Keeps {E = HttpError}
        (λ c. (g : String) → locks_at now c g ≡ t g)
        (modify (prune_expired_leases now file_id))
prune_locks-Keeps now t file_id = Keeps-modify _ λ c h g. prune-locks now file_id c g ∙ h g

domain_event-locks :
    (rq : Request) (t : LockTable) (workspace_id id key event : String)
    → Keeps
        (λ c. (g : String) → locks_at rq.now c g ≡ t g)
        (record_domain_event rq workspace_id id key event)
unfolding record_domain_event
domain_event-locks rq t workspace_id id key event = same_locks-Keeps rq.now t _ (λ c. ground arith)

announce_lease-locks :
    (rq : Request) (t : LockTable) (file_id workspace_id device lease_id : String)
    → Keeps
        (λ c. (g : String) → locks_at rq.now c g ≡ t g)
        (announce_lease rq file_id workspace_id device lease_id)
unfolding announce_lease lease_payload
announce_lease-locks rq t file_id workspace_id device lease_id =
    search
      (keeps_rules, same_locks-Keeps, prune_locks-Keeps, domain_event-locks, put_presence-leases)
      depth 20

none-lock : (o : Option LeaseRow) → lock_of o ≡ none → o ≡ none
none-lock none h = refl
none-lock (some l) h = cc

abbrev lock_for : LeaseRow → Lock
lock_for l = record { user = l.owner_user_id; device = l.owner_device_id; lease_id = l.lease_id }

-- A live lease on a file without one is its lock.
add_lease-here :
    (now : ℕ) (l : LeaseRow) (c : Cloud)
    → locks_at now c l.file_id ≡ none
    → leb l.expires_at now ≡ false
    → locks_at now (add_lease l c) l.file_id ≡ some (lock_for l)
unfolding locks_at
add_lease-here now l c free live =
    let nothing = none-lock (find (is_live now l.file_id) c.leases) free in
    rw (find-append_last (is_live now l.file_id) c.leases l nothing, ==_refl l.file_id, live) refl

add_lease-there :
    (now : ℕ) (l : LeaseRow) (c : Cloud) (g : String)
    → (l.file_id == g) ≡ false
    → locks_at now (add_lease l c) g ≡ locks_at now c g
unfolding locks_at
add_lease-there now l c g e = ap lock_of (find-append_other (is_live now g) c.leases l (rw e refl))

renew_lease-here :
    (rq : Request) (l : LeaseRow) (c : Cloud) {old : LeaseRow}
    → find (lease_on l.file_id) c.leases ≡ some old
    → is_mine rq l.owner_device_id old ≡ true
    → locks_at rq.now (renew_lease rq l c) l.file_id ≡ some (lock_for old)
unfolding locks_at
renew_lease-here rq l c {old} found mine = ap lock_of (
    find-update_first (lease_on l.file_id) (is_live rq.now l.file_id)
      (λ k. k.file_id == l.file_id && is_mine rq l.owner_device_id k) (renewed rq) c.leases
      (λ k. refl) (λ k h. rw h refl) (λ k h. ground arith) found
      (rw (find-holds (lease_on l.file_id) c.leases found, mine) refl))

renew_lease-there :
    (rq : Request) (l : LeaseRow) (c : Cloud) (g : String)
    → (l.file_id == g) ≡ false
    → locks_at rq.now (renew_lease rq l c) g ≡ locks_at rq.now c g
unfolding locks_at
renew_lease-there rq l c g e = ap lock_of (
    find-update_other (is_live rq.now g)
      (λ k. k.file_id == l.file_id && is_mine rq l.owner_device_id k) (renewed rq) c.leases
      (λ k h. ground arith))

abbrev pub lock : Request → String → String → Lock
lock rq device lease_id = record { user = rq.user.id; device = device; lease_id = lease_id }

abbrev Shows : ℕ → LockTable → Cloud → Type 0
Shows now t c = (g : String) → locks_at now c g ≡ t g

-- A table that is known at the file, and elsewhere is the other one.
acquire_lock-agree :
    (s t : LockTable) (file_id : String) (new held : Lock)
    → s file_id ≡ some held
    → give (t file_id) new ≡ some held
    → ((g : String) → (file_id == g) ≡ false → s g ≡ t g)
    → (g : String) → s g ≡ acquire_lock file_id new t g
unfolding acquire_lock
acquire_lock-agree s t file_id new held here given there g = elim (Bool-cases (file_id == g)) [
  | inl e ↦ let same = (==_iff file_id g).0 e in rw (sym same, ==_refl file_id, given) here
  | inr e ↦ rw e (there g e)
]

-- The lock of a file, read after its expired leases are gone.
pub lock-pruned :
    (now : ℕ) (file_id : String) (c : Cloud) {o : Option LeaseRow}
    → find (lease_on file_id) (prune_expired_leases now file_id c).leases ≡ o
    → locks_at now c file_id ≡ lock_of o
lock-pruned now file_id c e = sym (locks-pruned now file_id c) ∙ ap lock_of e

add_pruned :
    (now : ℕ) (l : LeaseRow) (c : Cloud)
    → find (lease_on l.file_id) (prune_expired_leases now l.file_id c).leases ≡ none
    → leb l.expires_at now ≡ false
    → Shows now
        (acquire_lock l.file_id (lock_for l) (locks_at now c))
        (add_lease l (prune_expired_leases now l.file_id c))
add_pruned now l c e live =
    let pruned = prune_expired_leases now l.file_id c in
    let free = lock-pruned now l.file_id c e in
    acquire_lock-agree _ (locks_at now c) l.file_id (lock_for l) (lock_for l)
      (add_lease-here now l pruned (prune-locks now l.file_id c l.file_id ∙ free) live)
      (rw free refl)
      (λ g other. add_lease-there now l pruned g other ∙ prune-locks now l.file_id c g)

renew_pruned :
    (rq : Request) (l : LeaseRow) (c : Cloud) {old : LeaseRow} (new : Lock)
    → find (lease_on l.file_id) (prune_expired_leases rq.now l.file_id c).leases ≡ some old
    → is_mine rq l.owner_device_id old ≡ true
    → Shows rq.now
        (acquire_lock l.file_id new (locks_at rq.now c))
        (renew_lease rq l (prune_expired_leases rq.now l.file_id c))
renew_pruned rq l c {old} new e mine =
    let pruned = prune_expired_leases rq.now l.file_id c in
    acquire_lock-agree _ (locks_at rq.now c) l.file_id new (lock_for old)
      (renew_lease-here rq l pruned e mine) (rw (lock-pruned rq.now l.file_id c e) refl)
      (λ g other. renew_lease-there rq l pruned g other ∙ prune-locks rq.now l.file_id c g)

kept_pruned :
    (now : ℕ) (file_id : String) (c : Cloud) {held : LeaseRow} (new : Lock)
    → find (lease_on file_id) (prune_expired_leases now file_id c).leases ≡ some held
    → Shows now (acquire_lock file_id new (locks_at now c)) (prune_expired_leases now file_id c)
kept_pruned now file_id c {held} new e =
    let lock_is = lock-pruned now file_id c e in
    acquire_lock-agree _ (locks_at now c) file_id new (lock_for held)
      (prune-locks now file_id c file_id ∙ lock_is) (rw lock_is refl)
      (λ g other. prune-locks now file_id c g)

acquire-locks :
    (rq : Request) (file_id workspace_id device : String) (requested : Option String)
    (fresh : String) (c : Cloud)
    → any (λ k. k.lease_id == lease_id_for fresh requested none) c.leases ≡ false
    → Shows rq.now
        (acquire_lock file_id
          (lock rq device (lease_id_for fresh requested none))
          (locks_at rq.now c))
        (acquire rq file_id workspace_id device requested fresh c).1
unfolding acquire put_lease ◌>>=◌
acquire-locks rq file_id workspace_id device requested fresh c new =
    let pruned = prune_expired_leases rq.now file_id c in
    let id = lease_id_for fresh requested none in
    elim (Option-cases (find (lease_on file_id) (prune_expired_leases rq.now file_id c).leases)) [
      | inl e ↦
          rw
            (
              e,
              any-find (lease_on file_id) pruned.leases e,
              any-remove (λ k. k.lease_id == id) _ c.leases new,
            )
            ((announce_lease-locks rq _ file_id workspace_id device id).at _
              (add_pruned rq.now (new_lease rq file_id workspace_id device id) c e (ground arith)))
      | inr (l, e) ↦ rw e (elim (Bool-cases (is_mine rq device l)) [
        | inl m ↦
            rw (m, any-find-some (lease_on file_id) pruned.leases e)
              ((announce_lease-locks rq _ file_id workspace_id device l.lease_id).at _ (
                renew_pruned rq (new_lease rq file_id workspace_id device l.lease_id) c
                  (lock rq device id) e m))
        | inr m ↦ rw m (kept_pruned rq.now file_id c (lock rq device id) e)
      ])
    ]

-- Where the user's device is known, the user may edit the file, and no lease has the lease id that the
-- request brings or, where it brings none, the new one: the unexpired leases after a
-- handle_file_lease_acquire are the locks that a lock table has after the lock is asked for. Every
-- file's lock stays as it is, but that the file gets the user's and the device's where it has none.
pub handle_file_lease_acquire-acquire_lock :
    (rq : Request) (file_id : String) (requested : Option String) (fresh : String) (c : Cloud)
    {device : String} {access : FileAccess}
    → device_of rq.device_id ≡ some device
    → resolve_file_access c rq.user file_id editor ≡ some access
    → any (λ k. k.lease_id == lease_id_for fresh requested none) c.leases ≡ false
    → (g : String)
    → locks_at rq.now (handle_file_lease_acquire rq file_id requested fresh c).1 g
      ≡ acquire_lock file_id
          (lock rq device (lease_id_for fresh requested none))
          (locks_at rq.now c)
          g
unfolding handle_file_lease_acquire require_access ◌>>=◌
handle_file_lease_acquire-acquire_lock rq file_id requested fresh c {device} {access} d a new =
    rw (d, a) (acquire-locks rq file_id access.workspace_id device requested fresh c new)
