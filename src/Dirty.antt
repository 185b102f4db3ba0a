-- ===== src/Dirty.antt =====
-- Blocks that have been written and not yet synced to the server.
pub mod Cache
pub mod File
pub mod Sync
pub mod Accounting
pub mod Reset
pub mod Runs
pub mod Finish
pub mod Buffer
