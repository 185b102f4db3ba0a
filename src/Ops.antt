-- ===== src/Ops.antt =====
-- The operations of a folder, libkbfs/ops.go.
pub mod WriteRange
pub mod Path
pub mod Update
pub mod Op
pub mod Conflict
pub mod Invert
