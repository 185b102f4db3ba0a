-- ===== src/Dirty/File.antt =====
-- `dirtyFile` of libkbfs/dirty_file.go: which blocks of a file are dirty, and how far their sync is. The
-- lock is left out: each call runs alone. The dirty block cache, which the source shares between files,
-- is part of the state.
use kbfs.Prelude.{
  ℕ, Bool, true, false, not, ◌==◌, if◌then◌else◌, Option, none, some, List, [], ◌∷◌, ◌++◌, ok, err,
  Error, not_dirty, panicked, length,
}
use kbfs.Prelude.Dict.{find, store}
use kbfs.Prelude.Int64.{add64, sub64}
use kbfs.Prelude.Action.{Action}
use kbfs.Blocks.{BlockPointer, file_block, dir_block, pointer_key}
use kbfs.Dirty.Cache.{DirtyBlockCache, get, update_unsynced_bytes, update_syncing_bytes}

pub data DirtyBlockSyncState : Type 0 where
  block_not_syncing block_syncing block_synced : DirtyBlockSyncState

pub data DirtyBlockCopyState : Type 0 where
  block_needs_copy block_already_copied : DirtyBlockCopyState

pub record DirtyBlockState : Type 0 where
  pub sync : DirtyBlockSyncState
  pub copy : DirtyBlockCopyState
  pub sync_size : ℕ
  pub orphaned : Bool

-- The state of a block that is not in the map.
abbrev pub zero_state : DirtyBlockState
zero_state = record {
  sync = block_not_syncing;
  copy = block_needs_copy;
  sync_size = 0;
  orphaned = false;
}

abbrev pub is_syncing_state : DirtyBlockSyncState → Bool
is_syncing_state block_syncing = true
is_syncing_state _ = false

abbrev pub is_not_syncing_state : DirtyBlockSyncState → Bool
is_not_syncing_state block_not_syncing = true
is_not_syncing_state _ = false

abbrev pub needs_copy_state : DirtyBlockCopyState → Bool
needs_copy_state block_needs_copy = true
needs_copy_state block_already_copied = false

abbrev pub BlockStates : Type 0
BlockStates = List (BlockPointer × DirtyBlockState)

-- Listeners are channels; `notified` lists those that have received the error.
pub record DirtyFile : Type 0 where
  pub tail_pointer : BlockPointer
  pub branch : ℕ
  pub dirty_bcache : DirtyBlockCache
  pub file_block_states : BlockStates
  pub not_yet_syncing_bytes : ℕ
  pub total_sync_bytes : ℕ
  pub deferred_new_bytes : ℕ
  pub err_listeners : List ℕ
  pub notified : List (ℕ × Error)

unfoldable pub new_dirty_file : BlockPointer → ℕ → DirtyBlockCache → DirtyFile
new_dirty_file tail branch cache = record {
  tail_pointer = tail;
  branch = branch;
  dirty_bcache = cache;
  file_block_states = [];
  not_yet_syncing_bytes = 0;
  total_sync_bytes = 0;
  deferred_new_bytes = 0;
  err_listeners = [];
  notified = [];
}

-- `fileBlockStates[ptr]`
abbrev pub state_of : BlockPointer → BlockStates → DirtyBlockState
state_of ptr states = elim (find ptr states) [ none ↦ zero_state | some state ↦ state ]

unfoldable pub block_needs_copy_of : BlockPointer → DirtyFile → Bool
block_needs_copy_of ptr df = needs_copy_state (state_of ptr df.file_block_states).copy

unfoldable pub is_block_syncing : BlockPointer → DirtyFile → Bool
is_block_syncing ptr df = is_syncing_state (state_of ptr df.file_block_states).sync

unfoldable pub is_block_dirty : BlockPointer → DirtyFile → Bool
is_block_dirty ptr df = not (needs_copy_state (state_of ptr df.file_block_states).copy)

unfoldable pub update_not_yet_syncing_bytes : ℕ → DirtyFile → DirtyFile
update_not_yet_syncing_bytes new_bytes df = record df {
  not_yet_syncing_bytes = add64 df.not_yet_syncing_bytes new_bytes;
  dirty_bcache = update_unsynced_bytes new_bytes false df.dirty_bcache;
}

abbrev pub set_state : BlockPointer → DirtyBlockState → DirtyFile → DirtyFile
set_state ptr state df = record df { file_block_states = store ptr state df.file_block_states }

-- `setBlockDirty`: whether the block needs caching, whether it is being synced, and the new state
unfoldable pub set_block_dirty : BlockPointer → DirtyFile → (Bool × Bool) × DirtyFile
set_block_dirty ptr df =
    let state = state_of ptr df.file_block_states in
    (
      (needs_copy_state state.copy, not (is_not_syncing_state state.sync)),
      set_state ptr (record state { copy = block_already_copied }) df,
    )

unfoldable pub set_block_not_dirty : BlockPointer → DirtyFile → DirtyFile
set_block_not_dirty ptr df =
    set_state ptr (record (state_of ptr df.file_block_states) { copy = block_needs_copy }) df

-- The end of `setBlockSyncing`: `size` bytes of the block begin to sync.
unfoldable pub begin_sync : BlockPointer → ℕ → DirtyFile → DirtyFile
begin_sync ptr size df = record df {
  file_block_states =
      store ptr
        (record (state_of ptr df.file_block_states) {
          sync = block_syncing;
          copy = block_needs_copy;
          sync_size = size;
        })
        df.file_block_states;
  total_sync_bytes = add64 df.total_sync_bytes size;
  not_yet_syncing_bytes = sub64 df.not_yet_syncing_bytes size;
  dirty_bcache = update_syncing_bytes size df.dirty_bcache;
}

unfoldable pub set_block_syncing : BlockPointer → Action DirtyFile (Unit {0})
unfolding begin_sync
set_block_syncing ptr df =
    if needs_copy_state (state_of ptr df.file_block_states).copy
    then (err not_dirty, df)
    else elim (get ptr df.branch df.dirty_bcache) [
      | err e ↦ (err panicked, df)
      | ok block ↦ elim block [
        | dir_block n ↦ (err panicked, df)
        | file_block b ↦ (ok tt, begin_sync ptr (length b.contents) df)
      ]
    ]

unfoldable pub add_err_listener : ℕ → DirtyFile → DirtyFile
add_err_listener listener df = record df { err_listeners = df.err_listeners ++ listener ∷ [] }

abbrev pub notify_all : List ℕ → Error → List (ℕ × Error)
notify_all [] e = []
notify_all (l ∷ ls) e = (l, e) ∷ notify_all ls e

-- `notifyErrListeners`; `none` is a nil error.
unfoldable pub notify_err_listeners : Option Error → DirtyFile → DirtyFile
notify_err_listeners e df = elim e [
  | none ↦ record df { err_listeners = [] }
  | some x ↦ record df {
    err_listeners = [];
    notified = df.notified ++ notify_all df.err_listeners x;
  }
]

unfoldable pub set_block_orphaned : BlockPointer → Bool → DirtyFile → DirtyFile
set_block_orphaned ptr orphaned df = elim (find ptr df.file_block_states) [
  | none ↦ df
  | some state ↦ set_state ptr (record state { orphaned = orphaned }) df
]

unfoldable pub add_deferred_new_bytes : ℕ → DirtyFile → DirtyFile
add_deferred_new_bytes bytes df = record df {
  deferred_new_bytes = add64 df.deferred_new_bytes bytes;
}

unfoldable pub assimilate_deferred_new_bytes : DirtyFile → DirtyFile
assimilate_deferred_new_bytes df = if df.deferred_new_bytes == 0 then df else record df {
  dirty_bcache = update_unsynced_bytes df.deferred_new_bytes false df.dirty_bcache;
  deferred_new_bytes = 0;
}
