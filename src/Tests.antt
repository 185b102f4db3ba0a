-- ===== src/Tests.antt =====
-- The theorems at concrete inputs, and runs of the model on small inputs.
mod Data
mod Journals
mod Memory
mod TlfJournal
mod Disk
mod Metadata
mod Dirty
mod Padding
mod Splitter
mod MdMemory
mod BlockCache
mod Ops
mod Chains
