-- ===== src/Dirty/Sync.antt =====
-- How the sync of a `dirtyFile` of libkbfs/dirty_file.go ends: it is finished, or taken back.
use kbfs.Prelude.{
  Bool, true, false, not, ◌&&◌, ◌||◌, if◌then◌else◌, none, some, [], ◌∷◌, ok, err,
  sync_not_in_progress, unexpected_syncing_block,
}
use kbfs.Prelude.Dict.{find, store}
use kbfs.Prelude.Int64.{neg64, is_positive}
use kbfs.Prelude.Action.{Action}
use kbfs.Blocks.{BlockPointer, same_pointer, pointer_key}
use kbfs.Dirty.Cache.{
  DirtyBlockCache, update_unsynced_bytes, update_syncing_bytes, block_sync_finished, sync_finished,
}
use kbfs.Dirty.File.{
  DirtyBlockState, is_syncing_state, is_not_syncing_state, needs_copy_state, BlockStates, DirtyFile,
  block_not_syncing, block_syncing, block_synced, block_already_copied,
}

-- What a round of the loop of `resetSyncingBlocksToDirty` does to the cache
unfoldable pub reset_bytes : DirtyBlockState → DirtyBlockCache → DirtyBlockCache
reset_bytes state d = elim state.sync [
  | block_not_syncing ↦ d
  | block_syncing ↦
      if state.orphaned
      then update_unsynced_bytes (neg64 state.sync_size) true d
      else update_syncing_bytes (neg64 state.sync_size) d
  | block_synced ↦
      if state.orphaned
      then sync_finished state.sync_size d
      else block_sync_finished (neg64 state.sync_size) d
]

abbrev pub reset_state : DirtyBlockState → DirtyBlockState
reset_state state =
    if is_not_syncing_state state.sync
    then state
    else record state { sync = block_not_syncing; copy = block_already_copied; sync_size = 0 }

-- The loop, over the blocks in the order of the walk: orphaned blocks go.
unfoldable pub reset_loop : BlockStates → DirtyBlockCache → BlockStates × DirtyBlockCache
unfolding reset_bytes
reset_loop [] d = ([], d)
reset_loop ((ptr, state) ∷ states) d =
    let (rest, d') = reset_loop states (reset_bytes state d) in
    if state.orphaned then (rest, d') else ((ptr, reset_state state) ∷ rest, d')

unfoldable pub reset_syncing_blocks_to_dirty : DirtyFile → DirtyFile
unfolding reset_loop
reset_syncing_blocks_to_dirty df =
    let (states, d) = reset_loop df.file_block_states df.dirty_bcache in
    record df { file_block_states = states; dirty_bcache = d; total_sync_bytes = 0 }

-- `setBlockSyncedLocked`, also of a block that is not in the map
unfoldable pub set_block_synced : BlockPointer → Action DirtyFile (Unit {0})
set_block_synced ptr df = elim (find ptr df.file_block_states) [
  | none ↦ (ok tt, df)
  | some state ↦
      if not (needs_copy_state state.copy) && is_not_syncing_state state.sync
      then (ok tt, df)
      else if not (is_syncing_state state.sync) && not state.orphaned
      then (err sync_not_in_progress, df)
      else (
        ok tt,
        record df {
          file_block_states = store ptr (record state { sync = block_synced }) df.file_block_states;
          dirty_bcache = block_sync_finished state.sync_size df.dirty_bcache;
        },
      )
]

-- The loop of `finishSync`, over the blocks in the order of the walk; `found` tells whether the
-- top block has been met.
unfoldable pub finish_loop : BlockStates → Bool → Action DirtyFile (Unit {0})
unfolding set_block_synced
finish_loop [] found df = (ok tt, df)
finish_loop ((ptr, state) ∷ states) found df =
    if state.orphaned || not (is_syncing_state state.sync)
    then finish_loop states found df
    else if found || not (same_pointer ptr df.tail_pointer)
    then (err unexpected_syncing_block, df)
    else let (r, df') = set_block_synced ptr df in
      elim r [ err e ↦ (err e, df') | ok _ ↦ finish_loop states true df' ]

-- The end of `finishSync`
unfoldable pub finish_bytes : DirtyFile → DirtyFile
finish_bytes df =
    let d = sync_finished df.total_sync_bytes df.dirty_bcache in
    let settled = record df { dirty_bcache = d; total_sync_bytes = 0; deferred_new_bytes = 0 } in
    if is_positive df.not_yet_syncing_bytes
    then record settled {
      dirty_bcache = update_unsynced_bytes (neg64 df.not_yet_syncing_bytes) false d;
      not_yet_syncing_bytes = 0;
    }
    else settled

unfoldable pub finish_sync : Action DirtyFile (Unit {0})
unfolding finish_loop finish_bytes
finish_sync df =
    let (r, df') = finish_loop df.file_block_states false df in
    elim r [ err e ↦ (err e, df') | ok _ ↦ (ok tt, finish_bytes df') ]
