-- ===== src/Lib.antt =====
-- A verification library for the storage core of kbfs (package libkbfs): the journal that a client
-- keeps on disk, the metadata branch and the folder's block journal that are built on it, the block
-- servers over memory and over folders, and on the client's side the dirty blocks of files, the
-- splitting of writes into blocks and their padding, and the operations of a folder with the chains
-- in which conflict resolution collects them.
--
-- How the parts interact. `diskJournal` (libkbfs/disk_journal.go) is a directory with one file per
-- entry, named by its ordinal in 16 hexadecimal digits, and two files EARLIEST and LATEST.
-- `mdServerBranchJournal` (libkbfs/mdserver_branch_journal.go) keeps metadata IDs in one and uses
-- revisions as ordinals; `mdServerTlfStorage` (libkbfs/mdserver_tlf_storage.go) keeps the metadata
-- of a folder in files, one branch journal for each branch, and checks an update before it appends
-- it. `bserverTlfJournal` (libkbfs/bserver_tlf_journal.go) keeps a folder's blocks in files, the
-- references to them in memory, and an entry in a disk journal for every call that changed the
-- references: a restart replays the journal. `BlockServerMemory` (libkbfs/bserver_memory.go) does
-- the same in memory and shares the maps of references and the checks of Put. `BlockServerDisk`
-- (libkbfs/bserver_disk.go) opens a folder's journal at the first call on the folder and passes
-- calls on to it.
--
-- Files and the code they model:
-- - Prelude, Prelude/Errors, Prelude/Chain, Prelude/Action, Prelude/Maps, Prelude/Lists,
--   Prelude/Int: the errors of the source as constructors, Go maps as association lists, fallible
--   calls as `Result`, calls that change a state as `Action S A = S → Result A × S` (the state
--   comes back after an error too).
-- - FileStore: the calls of package os and ioutil, on a map from paths to contents in which single
--   paths can refuse to be read or written.
-- - Codec: the interface `Codec` of libkbfs/interfaces.go as a parameter; its law, that what was
--   encoded decodes to itself, is a hypothesis where it is used.
-- - Ordinal: `journalOrdinal`, `makeJournalOrdinal` and `journalOrdinal.String`.
-- - DiskJournal, DiskJournal/Files, Represents, Append: `diskJournal`, one function per method, and
--   its abstract view as an earliest ordinal and a list of entries.
-- - Revision: `MetadataRevision`, with the conversions `ordinalToRevision` and `revisionToOrdinal`
--   of libkbfs/mdserver_branch_journal.go.
-- - BranchJournal, BranchJournal/Range, Append, Head: `mdServerBranchJournal`.
-- - RootMetadata: the fields of `RootMetadata` (libkbfs/root_metadata.go) that the metadata server
--   reads, `CheckValidSuccessor` and `CheckValidSuccessorForServer`, and the readers and writers of
--   `BareTlfHandle` (libkbfs/bare_tlf_handle.go).
-- - MdServer/TlfStorage and below: `mdServerTlfStorage` (libkbfs/mdserver_tlf_storage.go) with
--   `isReader` and `isWriterOrValidRekey` (libkbfs/mdserver_local_shared.go); Put has `put`,
--   Successor which updates it accepts, Writes and Head what it stores.
-- - MdServer/Memory and below: `MDServerMemory` (libkbfs/mdserver_memory.go); Keys has the keys of
--   its maps, Sessions the calls on handles, observers, branches and locks, Put its `Put`,
--   Revisions what its lists hold, Range which of them `GetRange` returns, Heads and Preserve what
--   `Put` leaves and keeps, Runs what sequences of calls keep.
-- - MdServer/Locks, MdServer/Updates and below: `mdServerLocalTruncateLockManager` and
--   `mdServerLocalUpdateManager` (libkbfs/mdserver_local_shared.go).
-- - BlockServer/Refs: `BlockContext`, `blockRefEntry`, `blockRefMap` (libkbfs/data_types.go,
--   libkbfs/bserver_memory.go).
-- - BlockServer/Memory and below: `BlockServerMemory`; Calls has what a call returns, Invariant and
--   Runs what sequences of calls keep, Remove the removal of references.
-- - BlockServer/TlfJournal and below: `bserverTlfJournal`; Files has its paths, Entry its journal
--   entries, Replay `readJournalLocked`, Calls the operations; Deltas, Consistent, Preserve,
--   Distinct and DeepEqual have the lemmas behind Runs (restarts) and Shutdown; Data has the
--   contents of the blocks.
-- - BlockServer/Disk and below: `BlockServerDisk`; the disk is a map from paths to directories,
--   which all journals that have the same directory share; Good, Steps and Runs show that calls
--   keep journals and directories in agreement, Restart and Isolation what follows for `Get`.
-- - Prelude/Dict, Prelude/Int64, Prelude/Bits: Go maps with struct keys, int64 values as bit
--   patterns, the binary or.
-- - Blocks: `BlockPointer` (libkbfs/data_types.go), `FileBlock` (libkbfs/block_types.go) and
--   `getCachedBlockSize` (libkbfs/bcache.go).
-- - BlockCache, BlockCache/Room: `BlockCacheStandard` (libkbfs/bcache.go), with the operations of
--   the LRU cache as a parameter `Lru`; Room is about `makeRoomForSize`.
-- - Dirty/Cache: `DirtyBlockCacheStandard` (libkbfs/dirty_bcache.go); a round of
--   `processPermission` is `receive_request` and `consider_request`.
-- - Dirty/File, Dirty/Sync: `dirtyFile` (libkbfs/dirty_file.go), which holds the cache; Accounting
--   and Reset have what one call does to the byte counts, Runs what sequences of calls keep, Finish
--   how a sync ends, Buffer the bounds of the sync buffer.
-- - Padding and below: `nextPowerOfTwo`, `padBlock` and `depadBlock` (libkbfs/crypto_common.go);
--   Lengths and NextPower compare the shifts with a search for a power of two, Depad has the round
--   trip and the malformed inputs.
-- - Splitter and below: `BlockSplitterSimple` (libkbfs/bsplitter_simple.go); Splice, Branches and
--   Copy are about `CopyUntilSplit`, Converge and Rounds about the constructor.
-- - Ops/Path, Ops/Update, Ops/Op and below: `path` (libkbfs/data_types.go), and `blockUpdate`,
--   `OpCommon` and the ops of libkbfs/ops.go; Op/New has their constructors, Op/Pointers what they
--   do with block pointers.
-- - Ops/Conflict, Ops/Invert: `CheckConflict`, `GetDefaultAction` and
--   `invertOpForLocalNotifications` (libkbfs/ops.go; Invert/Reverse has what it does), with the
--   actions of libkbfs/cr_actions.go as data.
-- - Ops/WriteRange and below: `WriteRange` and the collapsing of writes (libkbfs/ops.go); Dirt has
--   what writes and truncates do to a file, Merge, Covers, Add and Collapse compare the collapsed
--   list with it.
-- - Chains, Chains/Make: `crChain` and `crChains` (libkbfs/cr_chains.go); a chain is an object at
--   an address that both maps hold.
-- - Chains/Actions, Chains/Build, Chains/NewOp: `getActionsToMerge` and
--   `copyOpAndRevertUnrefsToOriginals`, `newCRChains` with `identifyType`, and `makeChainForNewOp`
--   (libkbfs/cr_chains.go).
-- - Chains/Collapse and below: `crChain.collapse`; Replay has what ops do to the entry of a name,
--   Sound, Effect, Step and Correct the loop.
-- - Chains/Follow and below: the pointers of the chains as functions; Invariant, Extend, Begin and
--   Linked have one update, Notes, Adds and Runs one op, Latest a list of ops.
-- - Tests and below: concrete data and one run of each theorem on it.
--
-- Bounds and fuel. Ordinals are natural numbers below 2^64 and wrap around as uint64 does;
-- revisions are integers, and one that would leave the int64 range is refused as in the source, and
-- the differences of revisions in `GetRange` of the metadata server over memory wrap around. The
-- loop of `readJournalLocked` is given as many rounds as there are ordinals between the earliest
-- and the latest, the loop of `getRange` as many as there are revisions between the ends; the
-- theorems on both show that this is enough, since they give the result and not the error
-- `out_of_fuel`, which the source does not have. The loop of `makeRoomForSize` is given two rounds
-- more than the cache has entries, and the theorem on it gives a result other than `out_of_fuel`.
-- The loop of `NewBlockSplitterSimple` has ten rounds in the source too. `double_until_above`, the
-- search that `nextPowerOfTwo` is compared with, doubles at most 24 times, from 2^8 to 2^32.
--
-- What is left out. Floating-point numbers: what the dirty block cache computes with them is an
-- argument. Locks: every call is modelled as it runs alone, which the locks of the source enforce.
-- Contexts, logging, and the texts of errors. Nonces, block IDs, folder IDs and metadata IDs are
-- numbers, since this code only compares them. The hashes `MakePermanentBlockID` and `MakeMdID` are
-- parameters, and so are `MakeBareTlfHandle` and `IsValidRekeyRequest`, which read the keys of the
-- metadata. Go walks a map in an unspecified order: the calls over several blocks take the order as
-- given. A chain that is built by a call that fails is thrown away by its callers. The folder
-- operations, the conflict resolver and its actions, key management, handles, the cache of
-- metadata, RPC clients and the FUSE and Dokan bindings are not modelled.
pub mod Prelude
pub mod FileStore
pub mod Codec
pub mod Ops
pub mod Chains
pub mod Ordinal
pub mod DiskJournal
pub mod Revision
pub mod BranchJournal
pub mod RootMetadata
pub mod MdServer
pub mod BlockServer
pub mod Blocks
pub mod Dirty
pub mod Padding
pub mod Splitter
pub mod BlockCache
mod Tests
