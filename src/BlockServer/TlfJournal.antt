-- ===== src/BlockServer/TlfJournal.antt =====
-- `bserverTlfJournal` of libkbfs/bserver_tlf_journal.go: the blocks of one folder on disk, their
-- references in memory, and a journal of the calls that changed the references. The lock is left out:
-- each call runs alone.
mod Files
mod Entry
pub mod Replay
pub mod Calls
pub mod Deltas
pub mod Consistent
pub mod Preserve
pub mod Distinct
pub mod DeepEqual
pub mod Shutdown
pub mod Runs
pub mod Data
pub mod Open
unfoldable pub use Files.*
unfoldable pub use Entry.*
use kbfs.Prelude.{
  ℕ, zero, suc, ◌+◌, ◌-◌, ◌%◌, Bool, true, false, not, ◌&&◌, ◌==◌, leb, if◌then◌else◌, Option, none,
  some, List, [], ◌∷◌, Result, ok, err, length, is_not_exist, err_shutdown, block_non_existent,
  block_archived, half_mismatch, id_mismatch, codec_fault, out_of_fuel, panicked,
}
use kbfs.Prelude.Maps.{Map, lookup, insert}
use kbfs.Prelude.Action.{Action, ◌>>=◌, ◌>>◌, pure, reads, raise_if, modify}
use kbfs.Prelude.Chain.{◌>>=◌ as bind, ◌>>◌ as seq, fail_if}
use kbfs.FileStore.{Bytes, Store, read_file, write_file, mkdir_all, same_bytes}
use kbfs.Codec.{Codec}
use kbfs.Ordinal.{two64}
use kbfs.DiskJournal.{
  Journal, read_earliest_ordinal, read_latest_ordinal, read_journal_entry, append_journal_entry,
}
use kbfs.BlockServer.Refs.{
  BlockContext, BlockRefEntry, BlockRefMap, RefStatus, live_block_ref, archived_block_ref,
  get_ref_nonce, check_context, same_context, has_non_archived_ref, get_statuses,
}
use kbfs.BlockServer.Memory.{validate_block_server_put, remove_refs}

pub record BserverTlfJournal : Type 0 where
  pub j : Journal
  pub blocks : Store BlockFile
  pub refs : RefsMap
  pub is_shutdown : Bool

abbrev pub on_journal : {A : Type 0} → Action Journal A → Action BserverTlfJournal A
on_journal m s = let (r, j') = m s.j in (r, record s { j = j' })

abbrev pub on_blocks : {A : Type 0} → Action (Store BlockFile) A → Action BserverTlfJournal A
on_blocks m s = let (r, blocks') = m s.blocks in (r, record s { blocks = blocks' })

-- The guard `if j.isShutdown` of every call
abbrev pub check_open : Action BserverTlfJournal (Unit {0})
check_open s = (if s.is_shutdown then err err_shutdown else ok tt, s)

abbrev pub set_refs : ℕ → BlockRefMap → BserverTlfJournal → BserverTlfJournal
set_refs id block_refs s = record s { refs = insert id block_refs s.refs }

-- `getRefEntryLocked`
unfoldable pub get_ref_entry : ℕ → ℕ → RefsMap → Result BlockRefEntry
get_ref_entry id ref_nonce refs = elim (lookup id refs) [
  | none ↦ err block_non_existent
  | some block_refs ↦ elim (lookup ref_nonce block_refs) [
    | none ↦ err block_non_existent
    | some e ↦ ok e
  ]
]

-- A file that is not there means that the block does not exist.
abbrev pub missing_block : {A : Type 0} → Result A → Result A
missing_block (ok a) = ok a
missing_block (err e) = err (if is_not_exist e then block_non_existent else e)

-- `BlockCryptKeyServerHalf.UnmarshalBinary`
abbrev pub unmarshal_half : Bytes → Result Bytes
unmarshal_half buf = if length buf == 32 then ok buf else err codec_fault

abbrev pub is_block_non_existent : Result (Bytes × Bytes) → Bool
is_block_non_existent (err block_non_existent) = true
is_block_non_existent _ = false

-- The first part of `putData` on what `getDataLocked` returned: a block that exists must have the same
-- key server half.
unfoldable pub check_existing : Result (Bytes × Bytes) → Bytes → Result (Unit {0})
check_existing (ok (_, existing)) half = fail_if (not (same_bytes existing half)) half_mismatch
check_existing (err e) half = if is_block_non_existent (err e) then ok tt else err e

-- The check of `putRefEntryLocked`: an existing reference must have the same context.
unfoldable pub check_existing_ref : Result BlockRefEntry → BlockContext → Result (Unit {0})
check_existing_ref (ok e) context = check_context e context
check_existing_ref (err block_non_existent) context = ok tt
check_existing_ref (err e) context = err e

-- `putRefEntryLocked`
unfoldable pub put_ref_entry : ℕ → BlockRefEntry → Action BserverTlfJournal (Unit {0})
unfolding check_existing_ref
put_ref_entry id entry = do
  reads (λ s.
      check_existing_ref (get_ref_entry id (get_ref_nonce entry.context) s.refs) entry.context)
  modify (λ s. set_refs id (put_dropping (refs_of id s.refs) entry.context entry.status) s)

-- The loop of `archiveReferences`
unfoldable pub archive_loop : ℕ → List BlockContext → Action BserverTlfJournal (Unit {0})
unfolding put_ref_entry
archive_loop id [] s = (ok tt, s)
archive_loop id (c ∷ cs) s =
    elim (bind (get_ref_entry id (get_ref_nonce c) s.refs) (λ e. seq (check_context e c) (ok e))) [
      | err x ↦ (err x, s)
      | ok e ↦
          let (r, s1) = put_ref_entry id (record e { status = archived_block_ref }) s in
          elim r [ err x ↦ (err x, s1) | ok _ ↦ archive_loop id cs s1 ]
    ]

-- The loop of `getAll`
unfoldable pub all_statuses : RefsMap → Map (Map RefStatus)
all_statuses [] = []
all_statuses ((id, []) ∷ m) = all_statuses m
all_statuses ((id, r ∷ refs) ∷ m) = (id, get_statuses (r ∷ refs)) ∷ all_statuses m

unfoldable pub get_all : BserverTlfJournal → Result (Map (Map RefStatus))
unfolding all_statuses
get_all s = if s.is_shutdown then err err_shutdown else ok (all_statuses s.refs)
