-- ===== src/Dirty/Runs.antt =====
-- The counts agree with the states after any sequence of calls.
use kbfs.Prelude.{
  ℕ, ◌<◌, ◌≡◌, refl, Bool, true, false, ◌==◌, ok, arith, Bool-cases, Option-cases, inl, inr, subst,
  length,
}
use kbfs.Prelude.Dict.{find, store}
use kbfs.Prelude.Int64.{half_word}
use kbfs.Blocks.{BlockPointer, Block, pointer_key, FileBlock, file_block}
use kbfs.Dirty.Cache.{new_dirty_block_cache, get, put, update_unsynced_bytes, block_sync_finished}
use kbfs.Dirty.File.{
  DirtyFile, block_syncing, block_synced, block_needs_copy, block_already_copied, state_of,
  is_not_syncing_state, new_dirty_file, update_not_yet_syncing_bytes, set_block_dirty,
  set_block_not_dirty, begin_sync, set_block_syncing, set_block_orphaned, add_deferred_new_bytes,
  assimilate_deferred_new_bytes,
}
use kbfs.Dirty.Sync.{set_block_synced, reset_syncing_blocks_to_dirty}
use kbfs.Dirty.Accounting.{
  IsBalanced-same_sync, IsBalanced-unsynced, IsBalanced-begin, IsBalanced-synced,
}
use kbfs.Dirty.Reset.{IsBalancedFile, reset-IsBalanced}

-- The calls of a file and of its folder, in any order, where a block is only begun to sync if no sync of
-- it is going on or has finished, and only finished while it is syncing; blocks are shorter than 2^63.
pub data Reach (tail : BlockPointer) (branch : ℕ) (lo hi : ℕ) : DirtyFile → Type 0 where
  start : Reach tail branch lo hi (new_dirty_file tail branch (new_dirty_block_cache lo hi))
  writes :
      {df : DirtyFile} (bytes : ℕ)
      → Reach tail branch lo hi df
      → Reach tail branch lo hi (update_not_yet_syncing_bytes bytes df)
  caches :
      {df : DirtyFile} (ptr : BlockPointer) (block : Block)
      → Reach tail branch lo hi df
      → Reach tail branch lo hi
          (record df { dirty_bcache = put ptr df.branch block df.dirty_bcache })
  dirties :
      {df : DirtyFile} (ptr : BlockPointer)
      → Reach tail branch lo hi df
      → Reach tail branch lo hi (set_block_dirty ptr df).1
  cleans :
      {df : DirtyFile} (ptr : BlockPointer)
      → Reach tail branch lo hi df
      → Reach tail branch lo hi (set_block_not_dirty ptr df)
  orphans :
      {df : DirtyFile} (ptr : BlockPointer) (orphaned : Bool)
      → Reach tail branch lo hi df
      → Reach tail branch lo hi (set_block_orphaned ptr orphaned df)
  begins :
      {df df' : DirtyFile} (ptr : BlockPointer) (b : FileBlock)
      → Reach tail branch lo hi df
      → is_not_syncing_state (state_of ptr df.file_block_states).sync ≡ true
      → get ptr df.branch df.dirty_bcache ≡ ok (file_block b)
      → length b.contents < half_word
      → set_block_syncing ptr df ≡ (ok tt, df')
      → Reach tail branch lo hi df'
  syncs :
      {df df' : DirtyFile} (ptr : BlockPointer)
      → Reach tail branch lo hi df
      → (state_of ptr df.file_block_states).sync ≡ block_syncing
      → set_block_synced ptr df ≡ (ok tt, df')
      → Reach tail branch lo hi df'
  resets :
      {df : DirtyFile}
      → Reach tail branch lo hi df
      → Reach tail branch lo hi (reset_syncing_blocks_to_dirty df)
  defers :
      {df : DirtyFile} (bytes : ℕ)
      → Reach tail branch lo hi df
      → Reach tail branch lo hi (add_deferred_new_bytes bytes df)
  assimilates :
      {df : DirtyFile}
      → Reach tail branch lo hi df
      → Reach tail branch lo hi (assimilate_deferred_new_bytes df)

begin_sync-IsBalanced :
    (ptr : BlockPointer) (size : ℕ) (df : DirtyFile)
    → is_not_syncing_state (state_of ptr df.file_block_states).sync ≡ true
    → size < half_word
    → IsBalancedFile df
    → IsBalancedFile (begin_sync ptr size df)
unfolding begin_sync
begin_sync-IsBalanced ptr size df e h b =
    IsBalanced-begin ptr
      (record (state_of ptr df.file_block_states) {
        sync = block_syncing;
        copy = block_needs_copy;
        sync_size = size;
      })
      df.file_block_states df.total_sync_bytes df.dirty_bcache e refl h b

set_block_syncing-begin_sync :
    (ptr : BlockPointer) (b : FileBlock) (df df' : DirtyFile)
    → get ptr df.branch df.dirty_bcache ≡ ok (file_block b)
    → set_block_syncing ptr df ≡ (ok tt, df')
    → begin_sync ptr (length b.contents) df ≡ df'
unfolding set_block_syncing
set_block_syncing-begin_sync ptr b df df' g h = ground arith

pub set_block_synced-IsBalanced :
    (ptr : BlockPointer) (df df' : DirtyFile)
    → (state_of ptr df.file_block_states).sync ≡ block_syncing
    → set_block_synced ptr df ≡ (ok tt, df')
    → IsBalancedFile df
    → IsBalancedFile df'
unfolding set_block_synced
set_block_synced-IsBalanced ptr df df' e h b =
    let state = state_of ptr df.file_block_states in
    subst IsBalancedFile
      {x = record df {
        file_block_states = store ptr (record state { sync = block_synced }) df.file_block_states;
        dirty_bcache = block_sync_finished state.sync_size df.dirty_bcache;
      }}
      {y = df'} (ground arith)
      (IsBalanced-synced ptr df.file_block_states df.total_sync_bytes df.dirty_bcache e b)

set_block_orphaned-IsBalanced :
    (ptr : BlockPointer) (orphaned : Bool) (df : DirtyFile)
    → IsBalancedFile df
    → IsBalancedFile (set_block_orphaned ptr orphaned df)
unfolding set_block_orphaned
set_block_orphaned-IsBalanced ptr orphaned df b =
    elim (Option-cases (find ptr df.file_block_states)) [
      | inl missing ↦
          subst IsBalancedFile {x = df} {y = set_block_orphaned ptr orphaned df} (ground arith) b
      | inr (state, there) ↦
          subst IsBalancedFile
            {x = record df {
              file_block_states =
                  store ptr (record (state_of ptr df.file_block_states) { orphaned = orphaned })
                    df.file_block_states;
            }}
            {y = set_block_orphaned ptr orphaned df} (ground arith)
            (IsBalanced-same_sync ptr
              (record (state_of ptr df.file_block_states) { orphaned = orphaned })
              df.file_block_states df.total_sync_bytes df.dirty_bcache refl refl b)
    ]

-- After any sequence of the calls of `Reach` on a new file over a new cache that it has for itself (bytes
-- written or deferred, blocks cached, made dirty or clean, orphaned, begun to sync, their sync finished or
-- taken back, and deferred bytes assimilated; `finishSync`, `Delete` and the calls on permissions are not
-- among them), where a block is shorter than 2^63, begins to sync only if no sync of it is going on or has
-- finished, and its sync finishes only while it is going on: the bytes being synced are those of the syncing
-- blocks, the total exceeds the unsynced bytes by those of the synced blocks, and the file's own count of
-- its sync is both together.
pub Reach-IsBalanced :
    {tail : BlockPointer} {branch lo hi : ℕ} {df : DirtyFile}
    → Reach tail branch lo hi df
    → IsBalancedFile df
unfolding new_dirty_file new_dirty_block_cache update_not_yet_syncing_bytes set_block_dirty
    set_block_not_dirty add_deferred_new_bytes assimilate_deferred_new_bytes put
Reach-IsBalanced start = record { sized = tt; syncing = refl; total = refl; outstanding = refl }
Reach-IsBalanced (writes {df = df} bytes r) =
    IsBalanced-unsynced df.file_block_states df.total_sync_bytes bytes df.dirty_bcache
      (Reach-IsBalanced r)
Reach-IsBalanced (caches {df = df} ptr block r) =
    let b = Reach-IsBalanced r in
    record { sized = b.sized; syncing = b.syncing; total = b.total; outstanding = b.outstanding }
Reach-IsBalanced (dirties {df = df} ptr r) =
    IsBalanced-same_sync ptr
      (record (state_of ptr df.file_block_states) { copy = block_already_copied })
      df.file_block_states df.total_sync_bytes df.dirty_bcache refl refl (Reach-IsBalanced r)
Reach-IsBalanced (cleans {df = df} ptr r) =
    IsBalanced-same_sync ptr
      (record (state_of ptr df.file_block_states) { copy = block_needs_copy }) df.file_block_states
      df.total_sync_bytes df.dirty_bcache refl refl (Reach-IsBalanced r)
Reach-IsBalanced (orphans {df = df} ptr orphaned r) =
    set_block_orphaned-IsBalanced ptr orphaned df (Reach-IsBalanced r)
Reach-IsBalanced (begins {df = df} {df' = df'} ptr b r idle g short h) =
    subst IsBalancedFile (set_block_syncing-begin_sync ptr b df df' g h)
      (begin_sync-IsBalanced ptr (length b.contents) df idle short (Reach-IsBalanced r))
Reach-IsBalanced (syncs {df = df} {df' = df'} ptr r e h) =
    set_block_synced-IsBalanced ptr df df' e h (Reach-IsBalanced r)
Reach-IsBalanced (resets {df = df} r) = reset-IsBalanced df (Reach-IsBalanced r)
Reach-IsBalanced (defers bytes r) = Reach-IsBalanced r
Reach-IsBalanced (assimilates {df = df} r) = elim (Bool-cases (df.deferred_new_bytes == 0)) [
  | inl nothing ↦
      subst IsBalancedFile {x = df} {y = assimilate_deferred_new_bytes df} (ground arith)
        (Reach-IsBalanced r)
  | inr some_bytes ↦
      subst IsBalancedFile
        {x = record df {
          dirty_bcache = update_unsynced_bytes df.deferred_new_bytes false df.dirty_bcache;
          deferred_new_bytes = 0;
        }}
        {y = assimilate_deferred_new_bytes df} (ground arith)
        (IsBalanced-unsynced df.file_block_states df.total_sync_bytes df.deferred_new_bytes
          df.dirty_bcache (Reach-IsBalanced r))
]
