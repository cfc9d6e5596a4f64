-- ===== src/Cloud/Leases.antt =====
-- worker/src/collab-upgrade.ts: the leases that lock a file for editing. A device that is named in a
-- request is registered.
pub mod Single
pub mod Locks
pub mod Guarded
mod Tests
use excel_sync.Base.{
  ℕ, String, ◌<>◌, Bool, true, false, ◌&&◌, ◌||◌, not, Option, none, some, List, [], ◌∷◌, ◌++◌,
  ◌==◌, string_eq, eqb, ◌+◌, find, any, update, remove, count, if◌then◌else◌, is_some, gets,
  require, throw, modify, guard, pure, transaction, ◌>>=◌, ◌>>◌, when_some,
}
use excel_sync.Cloud.Schema.{
  viewer, editor, manager, LeaseRow, PresenceState, opened, editing, PresenceRow, collaboration,
  Cloud, Handler, http,
}
use excel_sync.Cloud.Access.{
  resolve_file_access, FileAccess, is_system_admin, workspace_role_at_least,
}
use excel_sync.Cloud.Requests.{
  Request, prune_expired_leases, is_device, record_domain_event, create_notification,
}

abbrev pub lease_ttl_ms : ℕ
lease_ttl_ms = 90000

abbrev pub lease_on : String → LeaseRow → Bool
lease_on file_id l = l.file_id == file_id

-- `if (!auth.deviceId)`
abbrev pub device_of : Option String → Option String
device_of none = none
device_of (some d) = if d == "" then none else some d

abbrev pub is_mine : Request → String → LeaseRow → Bool
is_mine rq device l = l.owner_user_id == rq.user.id && l.owner_device_id == device

-- The lease that locks the file, or none; leasePayload, without the names of the user and the device.
unfoldable pub lease_payload : Request → String → Handler (Option LeaseRow)
lease_payload rq file_id = do
  modify (prune_expired_leases rq.now file_id)
  gets (λ c. find (lease_on file_id) c.leases)

unfoldable pub require_access : Request → String → Handler FileAccess
require_access rq file_id = do
  access ← gets (λ c. resolve_file_access c rq.user file_id editor)
  require access (http 404 "FILE_NOT_FOUND")

unfoldable pub handle_file_lease_get : Request → String → Handler (Option LeaseRow)
handle_file_lease_get rq file_id = do
  access ← gets (λ c. resolve_file_access c rq.user file_id viewer)
  _ ← require access (http 404 "FILE_NOT_FOUND")
  lease_payload rq file_id

abbrev pub same_presence : PresenceRow → PresenceRow → Bool
same_presence a b = a.file_id == b.file_id && a.user_id == b.user_id && a.device_id == b.device_id

abbrev presence_row : Request → String → String → PresenceRow
presence_row rq file_id device = record {
  file_id = file_id;
  user_id = rq.user.id;
  device_id = device;
  session_id = rq.session_id;
  state = editing;
  started_at = rq.now;
  last_seen_at = rq.now;
}

-- `INSERT INTO file_presence … ON CONFLICT DO UPDATE`
abbrev pub put_presence : Request → String → String → Cloud → Cloud
put_presence rq file_id device c =
    let row = presence_row rq file_id device in
    if any (same_presence row) c.presence
    then record c {
      presence =
          update (same_presence row)
            (λ p. record p { session_id = rq.session_id; state = editing; last_seen_at = rq.now })
            c.presence;
    }
    else record c { presence = c.presence ++ row ∷ [] }

abbrev pub update_presence : String → String → String → (PresenceRow → PresenceRow) → Cloud → Cloud
update_presence file_id user_id device f c = record c {
  presence =
      update (λ p. p.file_id == file_id && p.user_id == user_id && p.device_id == device) f
        c.presence;
}

abbrev pub new_lease : Request → String → String → String → String → LeaseRow
new_lease rq file_id workspace_id device lease_id = record {
  file_id = file_id;
  workspace_id = workspace_id;
  owner_user_id = rq.user.id;
  owner_device_id = device;
  owner_session_id = rq.session_id;
  lease_id = lease_id;
  created_at = rq.now;
  heartbeat_at = rq.now;
  expires_at = rq.now + lease_ttl_ms;
}

abbrev pub renewed : Request → LeaseRow → LeaseRow
renewed rq l = record l {
  owner_session_id = rq.session_id;
  heartbeat_at = rq.now;
  expires_at = rq.now + lease_ttl_ms;
}

abbrev pub renew_lease : Request → LeaseRow → Cloud → Cloud
renew_lease rq l c = record c {
  leases =
      update (λ k. k.file_id == l.file_id && is_mine rq l.owner_device_id k) (renewed rq) c.leases;
}

abbrev pub add_lease : LeaseRow → Cloud → Cloud
add_lease l c = record c { leases = c.leases ++ l ∷ [] }

-- `INSERT INTO file_edit_leases … ON CONFLICT(file_id) DO UPDATE … WHERE` the owner is the same, and
-- the `catch` of a lease id that another file's lease has.
unfoldable pub put_lease : Request → LeaseRow → Handler (Unit {0})
put_lease rq l = do
  held ← gets (λ c. any (lease_on l.file_id) c.leases)
  taken ← gets (λ c. any (λ k. k.lease_id == l.lease_id) c.leases)
  if held
      then modify (renew_lease rq l)
      else if taken
      then throw (http 409 "FILE_LOCKED")
      else modify (add_lease l)

abbrev held_by_other : Request → String → Option LeaseRow → Bool
held_by_other rq device none = false
held_by_other rq device (some l) = not (is_mine rq device l)

-- `existing` is the user's, or there is none.
abbrev lease_id_for : String → Option String → Option LeaseRow → String
lease_id_for fresh requested (some l) = l.lease_id
lease_id_for fresh none none = fresh
lease_id_for fresh (some id) none = id

unfoldable pub announce_lease :
    Request → String → String → String → String → Handler (Option LeaseRow)
announce_lease rq file_id workspace_id device lease_id = do
  modify (put_presence rq file_id device)
  record_domain_event rq workspace_id file_id ("lease-acquired:" <> file_id <> ":" <> lease_id)
      "FILE_LOCK_ACQUIRED"
  lease_payload rq file_id

unfoldable pub acquire :
    Request → String → String → String → Option String → String → Handler (Option LeaseRow)
acquire rq file_id workspace_id device requested fresh = do
  modify (prune_expired_leases rq.now file_id)
  existing ← gets (λ c. find (lease_on file_id) c.leases)
  guard (not (held_by_other rq device existing)) (http 409 "FILE_LOCKED")
  let lease_id = lease_id_for fresh requested existing
  put_lease rq (new_lease rq file_id workspace_id device lease_id)
  announce_lease rq file_id workspace_id device lease_id

-- `requested` is the lease id of the body, `fresh` the `crypto.randomUUID()`.
unfoldable pub handle_file_lease_acquire :
    Request → String → Option String → String → Handler (Option LeaseRow)
handle_file_lease_acquire rq file_id requested fresh = do
  device ← require (device_of rq.device_id) (http 409 "DEVICE_REGISTRATION_REQUIRED")
  access ← require_access rq file_id
  acquire rq file_id access.workspace_id device requested fresh

abbrev pub is_lease : Request → String → String → String → LeaseRow → Bool
is_lease rq file_id device lease_id l =
    l.file_id == file_id && is_mine rq device l && l.lease_id == lease_id

unfoldable pub handle_file_lease_heartbeat : Request → String → String → Handler (Option LeaseRow)
handle_file_lease_heartbeat rq file_id lease_id = do
  device ← require (device_of rq.device_id) (http 409 "DEVICE_REGISTRATION_REQUIRED")
  _ ← require_access rq file_id
  modify (prune_expired_leases rq.now file_id)
  changes ← gets (λ c. count (is_lease rq file_id device lease_id) c.leases)
  modify (λ c. record c {
    leases = update (is_lease rq file_id device lease_id) (renewed rq) c.leases;
  })
  guard (eqb changes 1) (http 409 "LEASE_LOST")
  modify (
      update_presence file_id rq.user.id device
        (λ p. record p { session_id = rq.session_id; state = editing; last_seen_at = rq.now }))
  lease_payload rq file_id

-- `db.batch`: the lease goes and the presence is open again.
abbrev pub drop_lease : Request → String → String → String → Cloud → Cloud
drop_lease rq file_id device lease_id c =
    update_presence file_id rq.user.id device
      (λ p. record p { state = opened; last_seen_at = rq.now })
      (record c { leases = remove (is_lease rq file_id device lease_id) c.leases })

unfoldable pub release : Request → String → String → String → Handler (Unit {0})
release rq file_id device lease_id = do
  found ← gets (λ c. find (is_lease rq file_id device lease_id) c.leases)
  when_some found (pure tt) λ l. do
    modify (drop_lease rq file_id device lease_id)
    record_domain_event rq l.workspace_id file_id ("lease-released:" <> file_id <> ":" <> lease_id)
        "FILE_LOCK_RELEASED"

unfoldable pub handle_file_lease_release : Request → String → String → Handler (Unit {0})
handle_file_lease_release rq file_id lease_id =
    when_some (device_of rq.device_id) (pure tt) λ device. release rq file_id device lease_id

-- Whether the owner of the lease was asked: not without a lease, nor for one's own.
unfoldable pub handle_file_lease_takeover_request : Request → String → Handler Bool
handle_file_lease_takeover_request rq file_id = do
  access ← require_access rq file_id
  modify (prune_expired_leases rq.now file_id)
  found ← gets (λ c. find (lease_on file_id) c.leases)
  when_some found (pure false) λ l. if l.owner_user_id == rq.user.id then pure false else do
    let key = "lease-takeover-request:" <> file_id <> ":" <> l.lease_id <> ":" <> rq.user.id
    record_domain_event rq access.workspace_id file_id key "FILE_LOCK_TAKEOVER_REQUESTED"
    create_notification rq l.owner_user_id key collaboration file_id
    pure true

-- `db.batch`: the file's leases go, and the new one stands in their place. `fresh` is a new UUID.
abbrev pub replace_lease : Request → String → String → String → String → Cloud → Cloud
replace_lease rq file_id workspace_id device fresh c = put_presence rq file_id device (record c {
  leases =
      remove (lease_on file_id) c.leases ++ new_lease rq file_id workspace_id device fresh ∷ [];
})

unfoldable pub tell_previous : Request → String → String → Option LeaseRow → Handler (Unit {0})
tell_previous rq file_id key previous = when_some previous (pure tt) λ l.
    if l.owner_user_id == rq.user.id
    then pure tt
    else create_notification rq l.owner_user_id key collaboration file_id

unfoldable pub force_takeover :
    Request → String → String → String → String → Handler (Option LeaseRow)
unfolding tell_previous
force_takeover rq file_id workspace_id device fresh = do
  modify (prune_expired_leases rq.now file_id)
  previous ← gets (λ c. find (lease_on file_id) c.leases)
  modify (replace_lease rq file_id workspace_id device fresh)
  record_domain_event rq workspace_id file_id ("lease-force-takeover:" <> file_id <> ":" <> fresh)
      "FILE_LOCK_FORCE_TAKEOVER"
  tell_previous rq file_id ("lease-force-takeover:" <> file_id <> ":" <> fresh) previous
  lease_payload rq file_id

unfoldable pub handle_file_lease_force_takeover :
    Request → String → String → Handler (Option LeaseRow)
handle_file_lease_force_takeover rq file_id fresh = do
  device ← require (device_of rq.device_id) (http 409 "DEVICE_REGISTRATION_REQUIRED")
  access ← require_access rq file_id
  guard (is_system_admin rq.user || workspace_role_at_least (some access.workspace_role) manager)
      (http 403 "LOCK_TAKEOVER_FORBIDDEN")
  force_takeover rq file_id access.workspace_id device fresh
