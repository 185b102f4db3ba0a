-- ===== src/MdServer.antt =====
-- The metadata server's storage.
pub mod TlfStorage
pub mod Locks
pub mod Updates
pub mod Memory
