-- ===== src/Cloud/Kept/Leases.antt =====
-- The requests on leases touch neither the files nor the versions.
use excel_sync.Base.{String, Option, arith, modify}
use excel_sync.Base.Outcome.Keeps.{Keeps}
use excel_sync.Cloud.Requests.{Request}
use excel_sync.Cloud.Leases.{
  lease_payload, require_access, handle_file_lease_get, handle_file_lease_acquire,
  handle_file_lease_heartbeat, handle_file_lease_release, handle_file_lease_takeover_request,
  handle_file_lease_force_takeover, put_lease, acquire, announce_lease, force_takeover, release,
  tell_previous, put_presence, replace_lease,
}
use excel_sync.Cloud.Schema.{LeaseRow, HttpError}
use excel_sync.Cloud.Kept.{Mark, HasVersion, request_rules, elsewhere-Keeps}

module _ (m : Mark) (rq : Request) where
  lease_payload-Keeps : (id : String) → Keeps (HasVersion m) (lease_payload rq id)
  unfolding lease_payload
  lease_payload-Keeps id = search request_rules depth 14

  require_access-Keeps : (id : String) → Keeps (HasVersion m) (require_access rq id)
  unfolding require_access
  require_access-Keeps id = search request_rules depth 14

  put_lease-Keeps : (l : LeaseRow) → Keeps (HasVersion m) (put_lease rq l)
  unfolding put_lease
  put_lease-Keeps l = search request_rules depth 14

  presence-Keeps :
      (id device : String)
      → Keeps {E = HttpError} (HasVersion m) (modify (put_presence rq id device))
  presence-Keeps id device = elsewhere-Keeps m _ (λ c. ground arith) (λ c. ground arith)

  pub handle_file_lease_get-Keeps :
      (id : String) → Keeps (HasVersion m) (handle_file_lease_get rq id)
  unfolding handle_file_lease_get
  handle_file_lease_get-Keeps id = search (request_rules, lease_payload-Keeps) depth 14

  acquire-Keeps :
      (id workspace_id device : String) (requested : Option String) (fresh : String)
      → Keeps (HasVersion m) (acquire rq id workspace_id device requested fresh)
  unfolding acquire announce_lease
  acquire-Keeps id workspace_id device requested fresh =
      search (request_rules, lease_payload-Keeps, put_lease-Keeps, presence-Keeps) depth 20

  pub handle_file_lease_acquire-Keeps :
      (id : String) (requested : Option String) (fresh : String)
      → Keeps (HasVersion m) (handle_file_lease_acquire rq id requested fresh)
  unfolding handle_file_lease_acquire
  handle_file_lease_acquire-Keeps id requested fresh =
      search (request_rules, require_access-Keeps, acquire-Keeps) depth 14

  pub handle_file_lease_heartbeat-Keeps :
      (id lease_id : String) → Keeps (HasVersion m) (handle_file_lease_heartbeat rq id lease_id)
  unfolding handle_file_lease_heartbeat
  handle_file_lease_heartbeat-Keeps id lease_id =
      search (request_rules, require_access-Keeps, lease_payload-Keeps) depth 20

  pub handle_file_lease_release-Keeps :
      (id lease_id : String) → Keeps (HasVersion m) (handle_file_lease_release rq id lease_id)
  unfolding handle_file_lease_release release
  handle_file_lease_release-Keeps id lease_id = search request_rules depth 20

  pub handle_file_lease_takeover_request-Keeps :
      (id : String) → Keeps (HasVersion m) (handle_file_lease_takeover_request rq id)
  unfolding handle_file_lease_takeover_request
  handle_file_lease_takeover_request-Keeps id =
      search (request_rules, require_access-Keeps) depth 20

  replace-Keeps :
      (id workspace_id device fresh : String)
      → Keeps {E = HttpError}
          (HasVersion m)
          (modify (replace_lease rq id workspace_id device fresh))
  replace-Keeps id workspace_id device fresh =
      elsewhere-Keeps m _ (λ c. ground arith) (λ c. ground arith)

  pub handle_file_lease_force_takeover-Keeps :
      (id fresh : String) → Keeps (HasVersion m) (handle_file_lease_force_takeover rq id fresh)
  unfolding handle_file_lease_force_takeover force_takeover tell_previous
  handle_file_lease_force_takeover-Keeps id fresh =
      search (request_rules, require_access-Keeps, lease_payload-Keeps, replace-Keeps) depth 24
