-- ===== src/Cloud/Upload.antt =====
-- worker/src/index.ts: handleUpload and handleUploadReceipt. The bytes of a part, their signature and
-- their hash come with the request, and the provider is the one that the storage router answers with.
use excel_sync.Base.{
  ℕ, String, ◌<>◌, Bool, true, false, ◌&&◌, not, Option, some, ◌==◌, string_eq, leb, ltb, eqb, find,
  update, count, if◌then◌else◌, decimal, to_lower, gets, require, modify, guard, pure, ◌>>=◌, ◌>>◌,
}
use excel_sync.Local.Schema.{Backend, telegram_bot, telegram_user_group}
use excel_sync.Cloud.Schema.{
  editor, IntentRow, Handler, http, IntentStatus, reserved, uploaded, committed,
}
use excel_sync.Cloud.Requests.{Request, get_owned_file, assert_file_lease_compatible}
use excel_sync.Cloud.Storage.{same_backend}

abbrev pub is_reserved : IntentStatus → Bool
is_reserved reserved = true
is_reserved _ = false

abbrev is_stored : IntentStatus → Bool
is_stored uploaded = true
is_stored committed = true
is_stored _ = false

-- `{ ok: true, intentId, status }`
pub record UploadReply : Type 0 where
  pub intent_id : String
  pub status : IntentStatus

abbrev reply : IntentRow → UploadReply
reply i = record { intent_id = i.id; status = i.status }

unfoldable pub find_intent : Request → String → Handler IntentRow
find_intent rq intent_id = do
  found ← gets (λ c. find (λ i. i.id == intent_id && i.owner_user_id == rq.user.id) c.intents)
  require found (http 404 "INTENT_NOT_FOUND")

-- Where a backend keeps an uploaded object: the file's id, the message's, and the locator.
pub record Stored : Type 0 where
  pub file_id : String
  pub message_id : ℕ
  pub locator : String

-- `UPDATE upload_intents SET status = 'uploaded', … WHERE … AND status = 'reserved'`, which must
-- change one row.
unfoldable pub save_upload : Request → String → Backend → Stored → Handler UploadReply
save_upload rq intent_id backend stored = do
  changes ← gets (λ c.
      count (λ i. i.id == intent_id && i.owner_user_id == rq.user.id && is_reserved i.status)
        c.intents)
  modify (λ c. record c {
    intents =
        update (λ i. i.id == intent_id && i.owner_user_id == rq.user.id && is_reserved i.status)
          (λ i. record i {
            status = uploaded;
            telegram_file_id = some stored.file_id;
            telegram_message_id = some stored.message_id;
            storage_backend = backend;
            storage_locator = some stored.locator;
            updated_at = rq.now;
          })
          c.intents;
  })
  guard (eqb changes 1) (http 503 "UPLOAD_METADATA_PERSIST_FAILED")
  pure (record { intent_id = intent_id; status = uploaded })

-- The uploaded part: its size, whether its first bytes fit the file's type, and its SHA-256.
pub record Part : Type 0 where
  pub size : ℕ
  pub signature_matches : Bool
  pub sha256 : String

-- The provider of a connection: the largest file it takes, and where it stores this one, or `none`
-- where it refuses it.
pub record Provider : Type 0 where
  pub max_reliable_file_bytes : ℕ
  pub upload : Option Stored

unfoldable pub store_part : Request → Option Provider → Part → IntentRow → Handler UploadReply
store_part rq provider part intent = do
  p ← require provider (http 503 "CLOUD_STORAGE_UNAVAILABLE")
  guard (leb part.size p.max_reliable_file_bytes && leb intent.size p.max_reliable_file_bytes)
      (http 413 "FILE_TOO_LARGE")
  cloud_file ← get_owned_file rq intent.file_id editor
  assert_file_lease_compatible rq intent.file_id
  guard (eqb cloud_file.current_version intent.base_version) (http 409 "BASE_VERSION_CONFLICT")
  guard (eqb part.size intent.size) (http 409 "UPLOAD_SIZE_MISMATCH")
  guard part.signature_matches (http 415 "FILE_SIGNATURE_MISMATCH")
  guard (part.sha256 == intent.hash) (http 409 "UPLOAD_HASH_MISMATCH")
  stored ← require p.upload (http 500 "INTERNAL_ERROR")
  save_upload rq intent.id telegram_bot stored

unfoldable pub handle_upload : Request → Option Provider → String → Part → Handler UploadReply
handle_upload rq provider intent_id part = do
  guard (ltb 0 part.size) (http 413 "FILE_TOO_LARGE")
  intent ← find_intent rq intent_id
  if is_stored intent.status then pure (reply intent) else do
    guard (is_reserved intent.status) (http 409 "INTENT_NOT_UPLOADABLE")
    guard (not (same_backend intent.storage_backend telegram_user_group))
        (http 409 "DESKTOP_STORAGE_REQUIRED")
    store_part rq provider part intent

pub record UploadReceipt : Type 0 where
  pub chat_id : String
  pub message_id : ℕ
  pub size : ℕ
  pub sha256 : String

-- `JSON.stringify({ chatId, messageId })`, for a chat id that needs no escapes.
abbrev receipt_locator : UploadReceipt → String
receipt_locator r =
    "{\"chatId\":\"" <> r.chat_id <> "\",\"messageId\":" <> decimal r.message_id <> "}"

abbrev receipt_stored : UploadReceipt → Stored
receipt_stored r = record {
  file_id = "user-group:" <> r.chat_id <> ":" <> decimal r.message_id;
  message_id = r.message_id;
  locator = receipt_locator r;
}

unfoldable pub handle_upload_receipt : Request → String → UploadReceipt → Handler UploadReply
handle_upload_receipt rq intent_id receipt = do
  intent ← find_intent rq intent_id
  guard (same_backend intent.storage_backend telegram_user_group)
      (http 409 "STORAGE_BACKEND_MISMATCH")
  if is_stored intent.status then pure (reply intent) else do
    guard (is_reserved intent.status) (http 409 "INTENT_NOT_UPLOADABLE")
    guard (eqb receipt.size intent.size) (http 409 "UPLOAD_SIZE_MISMATCH")
    guard (to_lower receipt.sha256 == to_lower intent.hash) (http 409 "UPLOAD_HASH_MISMATCH")
    save_upload rq intent.id telegram_user_group (receipt_stored receipt)
