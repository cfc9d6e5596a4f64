-- ===== src/Cloud/Access/Folders.antt =====
-- worker/src/access.ts: what a rule on a folder gives below the folder.
use excel_sync.Base.{List, string_eq}
use excel_sync.Cloud.Schema.{Cloud}
