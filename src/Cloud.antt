-- ===== src/Cloud.antt =====
-- The Worker: worker/src/access.ts, the file handlers of worker/src/index.ts, and what they use of
-- worker/src/collab-upgrade.ts and shared/storage-capabilities.ts.
pub mod Schema
pub mod Like
pub mod Access
pub mod Requests
pub mod Storage
pub mod Preflight
pub mod Upload
pub mod Commit
pub mod Trash
pub mod Leases
pub mod Rewind
pub mod Members
pub mod Login
mod Tests
pub mod Calls
pub mod Kept
