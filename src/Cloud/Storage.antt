-- ===== src/Cloud/Storage.antt =====
-- shared/storage-capabilities.ts, and the names of the backends.
use excel_sync.Base.{
  ℕ, String, Bool, true, false, ◌||◌, ◌*◌, ◌==◌, string_eq, if◌then◌else◌, to_lower,
}
use excel_sync.Local.Schema.{Backend, telegram_bot, telegram_user_group}

pub record StorageCapabilitiesView : Type 0 where
  pub max_upload_bytes : ℕ
  pub max_download_bytes : ℕ
  pub max_reliable_file_bytes : ℕ
  pub supports_large_files : Bool

abbrev capabilities_up_to : ℕ → Bool → StorageCapabilitiesView
capabilities_up_to n large = record {
  max_upload_bytes = n;
  max_download_bytes = n;
  max_reliable_file_bytes = n;
  supports_large_files = large;
}

unfoldable pub telegram_user_group_capabilities : StorageCapabilitiesView
telegram_user_group_capabilities = capabilities_up_to (2 * 1024 * 1024 * 1024) true

unfoldable pub telegram_official_bot_capabilities : StorageCapabilitiesView
telegram_official_bot_capabilities = capabilities_up_to (20 * 1024 * 1024) false

unfoldable pub capabilities_for_storage_provider : String → StorageCapabilitiesView
capabilities_for_storage_provider provider =
    if to_lower provider == "telegram_user_group"
    then telegram_user_group_capabilities
    else if to_lower provider == "telegram" || to_lower provider == "telegram_bot"
    then telegram_official_bot_capabilities
    else capabilities_up_to 0 false

abbrev pub backend_name : Backend → String
backend_name telegram_bot = "telegram_bot"
backend_name telegram_user_group = "telegram_user_group"

abbrev pub same_backend : Backend → Backend → Bool
same_backend a b = backend_name a == backend_name b
