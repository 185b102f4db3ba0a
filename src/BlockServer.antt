-- ===== src/BlockServer.antt =====
-- The block server: reference maps, the server in memory, and the journal of one folder on disk.
pub mod Refs
pub mod Memory
pub mod TlfJournal
pub mod Disk
