-- ===== src/Local.antt =====
-- The desktop database: src/main/db.ts, class LocalDb.
pub mod Schema
pub mod Statements
pub mod Files
pub mod Presence
pub mod Queue
pub mod Jobs
pub mod Marks
pub mod Imports
pub mod Dispatch
pub mod Calls
pub mod Sound
mod Tests
