-- ===== src/Local/Imports.antt =====
-- src/main/db.ts: the methods of LocalDb on imports from the Telegram group, and the settings.
use excel_sync.Base.{
  ℕ, String, Bool, true, false, ◌&&◌, Option, none, some, [], ◌∷◌, ◌++◌, ◌==◌, string_eq, eqb, any,
  find, update, clip, min, max, if◌then◌else◌, modify, gets, pure, ◌>>=◌, ◌>>◌,
}
use excel_sync.Local.Schema.{
  ImportRow, ImportStatus, discovered, imported, failed, Checkpoint, Backend, Settings, Db,
}
use excel_sync.Local.Statements.{Local}

abbrev pub is_import : String → ℕ → ImportRow → Bool
is_import chat_id message_id i = i.chat_id == chat_id && eqb i.message_id message_id

abbrev pub get_telegram_import : String → ℕ → Db → Option ImportRow
get_telegram_import chat_id message_id db = find (is_import chat_id message_id) db.imports

-- The message, its file's name and its size.
pub record ImportInput : Type 0 where
  pub chat_id : String
  pub message_id : ℕ
  pub file_name : String
  pub size : ℕ

abbrev import_row : ImportInput → Option String → Option String → ImportStatus → ImportRow
import_row input path sha256 status = record {
  chat_id = input.chat_id;
  message_id = input.message_id;
  file_name = input.file_name;
  size = input.size;
  sha256 = sha256;
  relative_path = path;
  status = status;
  last_error = none;
}

-- `INSERT OR IGNORE`
unfoldable pub begin_telegram_import : ImportInput → Local Bool
begin_telegram_import input = do
  known ← gets (λ db. any (is_import input.chat_id input.message_id) db.imports)
  if known
      then pure false
      else modify
          (λ db. record db { imports = db.imports ++ import_row input none none discovered ∷ [] })
        >> pure true

unfoldable pub complete_telegram_import : String → ℕ → String → String → Local (Unit {0})
complete_telegram_import chat_id message_id path sha256 = modify λ db. record db {
  imports =
      update (is_import chat_id message_id)
        (λ i. record i {
          relative_path = some path;
          sha256 = some sha256;
          status = imported;
          last_error = none;
        })
        db.imports;
}

-- `INSERT … ON CONFLICT(chat_id, message_id) DO UPDATE SET …`
unfoldable pub remember_telegram_upload : ImportInput → String → String → Local (Unit {0})
remember_telegram_upload input path sha256 = modify λ db.
    if any (is_import input.chat_id input.message_id) db.imports
    then record db {
      imports =
          update (is_import input.chat_id input.message_id)
            (λ i. import_row input (some path) (some sha256) imported) db.imports;
    }
    else record db {
      imports = db.imports ++ import_row input (some path) (some sha256) imported ∷ [];
    }

unfoldable pub fail_telegram_import : String → ℕ → String → Local (Unit {0})
fail_telegram_import chat_id message_id message = modify λ db. record db {
  imports =
      update (is_import chat_id message_id)
        (λ i. record i { status = failed; last_error = some (clip 1000 message) }) db.imports;
}

abbrev value_or_zero : Option Checkpoint → ℕ
value_or_zero none = 0
value_or_zero (some k) = k.value

-- The last message of the chat that was looked at.
unfoldable pub telegram_checkpoint : String → Db → ℕ
telegram_checkpoint chat_id db = value_or_zero (find (λ k. k.chat_id == chat_id) db.checkpoints)

unfoldable pub set_telegram_checkpoint : String → ℕ → Local (Unit {0})
set_telegram_checkpoint chat_id message_id = modify λ db.
    if any (λ k. k.chat_id == chat_id) db.checkpoints
    then record db {
      checkpoints =
          update (λ k. k.chat_id == chat_id) (λ k. record k { value = message_id }) db.checkpoints;
    }
    else record db {
      checkpoints = db.checkpoints ++ record { chat_id = chat_id; value = message_id } ∷ [];
    }

-- `Partial<SettingsView>`
pub record SettingsPatch : Type 0 where
  pub sync_directory : Option String
  pub worker_url : Option String
  pub auto_sync : Option Bool
  pub start_with_windows : Option Bool
  pub retry_base_seconds : Option ℕ
  pub retention_limit : Option ℕ
  pub default_storage_backend : Option Backend

-- `a ?? b` for a `b` that is not null
abbrev value_or : {A : Type 0} → Option A → A → A
value_or none b = b
value_or (some a) b = a

abbrev patched : SettingsPatch → Settings → Settings
patched p s = record {
  sync_directory = value_or p.sync_directory s.sync_directory;
  worker_url = value_or p.worker_url s.worker_url;
  auto_sync = value_or p.auto_sync s.auto_sync;
  start_with_windows = value_or p.start_with_windows s.start_with_windows;
  retry_base_seconds = min 3600 (max 2 (value_or p.retry_base_seconds s.retry_base_seconds));
  retention_limit = min 500 (max 2 (value_or p.retention_limit s.retention_limit));
  default_storage_backend = value_or p.default_storage_backend s.default_storage_backend;
}

unfoldable pub set_settings : SettingsPatch → Local Settings
set_settings p = do
  modify (λ db. record db { settings = patched p db.settings })
  gets (λ db. db.settings)
