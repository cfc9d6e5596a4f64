-- ===== src/Engine/Group.antt =====
-- src/main/sync-engine.ts: syncTelegramUserGroup, which imports the new messages of the Telegram group.
use excel_sync.Base.{
  ℕ, String, ◌<>◌, Bool, true, false, ◌||◌, not, Option, none, some, List, [], ◌∷◌, string_eq,
  option_eq, leb, if◌then◌else◌, is_some, gets, pure, attempt, ◌>>=◌, ◌>>◌, when_some, clip,
  decimal,
}
use excel_sync.Local.Schema.{Receipt, ImportRow, imported}
use excel_sync.Local.Statements.{log}
use excel_sync.Local.Imports.{
  ImportInput, get_telegram_import, begin_telegram_import, complete_telegram_import,
  fail_telegram_import, telegram_checkpoint, set_telegram_checkpoint,
}
use excel_sync.Engine.Task.{Fault, Task, Await, await, local}
use excel_sync.Engine.Ready.{Found, handle_file_ready}
use excel_sync.Engine.Conflict.{fault_message}

-- A message of the group with a file, what its download answers (the size and the hash), and the file as
-- handleFileReady finds it. `safe_name` is the base name of its file name.
pub record Candidate : Type 0 where
  pub message_id : ℕ
  pub file_name : String
  pub safe_name : String
  pub size : ℕ
  pub mime_type : String
  pub created_at : ℕ
  pub is_managed : Bool
  pub download : Await (ℕ × String)
  pub found : Found

abbrev import_path : Candidate → String
import_path c = "Telegram Imports/" <> decimal c.message_id <> "-" <> c.safe_name

abbrev import_receipt_of : String → Candidate → ℕ × String → Receipt
import_receipt_of chat_id c (size, hash) = record {
  chat_id = chat_id;
  message_id = c.message_id;
  file_name = c.file_name;
  size = size;
  sha256 = hash;
  mime_type = c.mime_type;
  created_at = c.created_at;
}

-- `existing?.status === 'IMPORTED'`
abbrev pub is_imported : Option ImportRow → Bool
is_imported none = false
is_imported (some i) = elim i.status [ imported ↦ true | _ ↦ false ]

abbrev import_input : String → Candidate → ImportInput
import_input chat_id c = record {
  chat_id = chat_id;
  message_id = c.message_id;
  file_name = c.file_name;
  size = c.size;
}

unfoldable pub fail_import : ℕ → Fault → String → Candidate → Fault → Task Bool
fail_import now sqlite chat_id c e = do
  local sqlite (fail_telegram_import chat_id c.message_id (fault_message e))
  local sqlite (
      log now "TELEGRAM_USER_IMPORT_ERROR" none
        (some (clip 1000 (decimal c.message_id <> ": " <> fault_message e))))
  pure false

-- The `try` and its `catch`: whether the message was imported.
unfoldable pub import_message : ℕ → Fault → String → Candidate → Task Bool
import_message now sqlite chat_id c =
    attempt
      (do
        file ← await c.download
        handle_file_ready now
            (record c.found { import_receipt = some (import_receipt_of chat_id c file) })
        local sqlite (complete_telegram_import chat_id c.message_id (import_path c) file.1)
        local sqlite (set_telegram_checkpoint chat_id c.message_id)
        pure true)
      (fail_import now sqlite chat_id c)

-- What one round of the loop does: the next checkpoint, or `none` for the `break`.
unfoldable pub import_candidate : ℕ → Fault → String → ℕ → Candidate → Task (Option ℕ)
import_candidate now sqlite chat_id checkpoint c =
    if leb c.message_id checkpoint then pure (some checkpoint) else do
      existing ← gets (get_telegram_import chat_id c.message_id)
      if not c.is_managed || is_imported existing
          then local sqlite (set_telegram_checkpoint chat_id c.message_id)
            >> pure (some c.message_id)
          else do
            begun ←
                if is_some existing
                then pure false
                else local sqlite (begin_telegram_import (import_input chat_id c))
            done ← import_message now sqlite chat_id c
            pure (if done then some c.message_id else none)

-- The loop over the candidates, with the checkpoint where it stops.
unfoldable pub import_all : ℕ → Fault → String → ℕ → List Candidate → Task ℕ
import_all now sqlite chat_id checkpoint [] = pure checkpoint
import_all now sqlite chat_id checkpoint (c ∷ cs) = do
  next ← import_candidate now sqlite chat_id checkpoint c
  when_some next (pure checkpoint) λ k. import_all now sqlite chat_id k cs

-- `status` is the chat, where the group may be read; `candidates` is what catchUp answers.
unfoldable pub sync_telegram_user_group :
    ℕ → Fault → Await (Option String) → Await (List Candidate) → Task (Unit {0})
sync_telegram_user_group now sqlite status candidates = do
  chat ← await status
  when_some chat (pure tt) λ chat_id. do
    checkpoint ← gets (telegram_checkpoint chat_id)
    messages ← await candidates
    import_all now sqlite chat_id checkpoint messages >> pure tt
