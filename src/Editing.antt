-- ===== src/Editing.antt =====
-- The editing package: proposed changes of files, which wait for the user's approval.
pub mod Text
pub mod Disk
pub mod Spans
pub mod Model
pub mod Store
mod Tests
