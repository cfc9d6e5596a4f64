-- ===== src/Local/Sound/Imports.antt =====
-- The methods on imports and settings touch neither the files nor the queue.
use excel_sync.Base.{ℕ, String, ◌≡◌, refl, arith, modify}
use excel_sync.Base.Outcome.Keeps.{Keeps, Keeps-modify, keeps_rules}
use excel_sync.Local.Schema.{Db, DbError}
use excel_sync.Local.Imports.{
  ImportInput, SettingsPatch, begin_telegram_import, complete_telegram_import,
  remember_telegram_upload, fail_telegram_import, set_telegram_checkpoint, set_settings,
}
use excel_sync.Local.Sound.{IsSound, same_tables}

pub beside-Keeps :
    (f : Db → Db)
    → ((db : Db) → (f db).files ≡ db.files)
    → ((db : Db) → (f db).pendings ≡ db.pendings)
    → Keeps {E = DbError} IsSound (modify f)
beside-Keeps f files pendings = Keeps-modify f λ db h. same_tables (files db) (pendings db) h

pub begin_telegram_import-Keeps :
    (input : ImportInput) → Keeps IsSound (begin_telegram_import input)
unfolding begin_telegram_import
begin_telegram_import-Keeps input = search (keeps_rules, beside-Keeps) depth 12

pub complete_telegram_import-Keeps :
    (chat_id : String) (message_id : ℕ) (path sha256 : String)
    → Keeps IsSound (complete_telegram_import chat_id message_id path sha256)
unfolding complete_telegram_import
complete_telegram_import-Keeps chat_id message_id path sha256 =
    beside-Keeps _ (λ db. refl) (λ db. refl)

pub remember_telegram_upload-Keeps :
    (input : ImportInput) (path sha256 : String)
    → Keeps IsSound (remember_telegram_upload input path sha256)
unfolding remember_telegram_upload
remember_telegram_upload-Keeps input path sha256 =
    beside-Keeps _ (λ db. ground arith) (λ db. ground arith)

pub fail_telegram_import-Keeps :
    (chat_id : String) (message_id : ℕ) (message : String)
    → Keeps IsSound (fail_telegram_import chat_id message_id message)
unfolding fail_telegram_import
fail_telegram_import-Keeps chat_id message_id message = beside-Keeps _ (λ db. refl) (λ db. refl)

pub set_telegram_checkpoint-Keeps :
    (chat_id : String) (message_id : ℕ) → Keeps IsSound (set_telegram_checkpoint chat_id message_id)
unfolding set_telegram_checkpoint
set_telegram_checkpoint-Keeps chat_id message_id =
    beside-Keeps _ (λ db. ground arith) (λ db. ground arith)

pub set_settings-Keeps : (patch : SettingsPatch) → Keeps IsSound (set_settings patch)
unfolding set_settings
set_settings-Keeps patch = search (keeps_rules, beside-Keeps) depth 12
