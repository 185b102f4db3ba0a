-- ===== src/Tests/Dirty.antt =====
-- Dirty files and the dirty block cache at concrete inputs.
use kbfs.Prelude.{◌≡◌, refl, true, false, [], ◌∷◌, arith}
use kbfs.Blocks.{BlockPointer, FileBlock, file_block}
use kbfs.Dirty.Cache.{
  DirtyBlockCache, DirtyReq, new_dirty_block_cache, get, put, update_unsynced_bytes, sync_finished,
  grown_buffer, halved_buffer, accept_new_write, request_permission_to_dirty, receive_request,
  consider_request,
}
use kbfs.Dirty.File.{
  DirtyFile, new_dirty_file, set_block_dirty, set_block_syncing, begin_sync,
  update_not_yet_syncing_bytes,
}
use kbfs.Dirty.Sync.{set_block_synced}
use kbfs.Dirty.Reset.{IsBalancedFile}
use kbfs.Dirty.Runs.{Reach, start, writes, caches, dirties, begins, syncs, Reach-IsBalanced}
use kbfs.Dirty.Buffer.{
  start as fresh, asked, received, considered, finished, InBounds, CacheRun-InBounds,
}

abbrev top : BlockPointer
top = record {
  id = 5;
  key_gen = 1;
  data_ver = 1;
  context = record { creator = 1; writer = 0; ref_nonce = 0 };
}

abbrev hello : FileBlock
hello = record { is_ind = false; contents = 1 ∷ 2 ∷ 3 ∷ []; encoded_size = 0 }

abbrev written : DirtyFile
written =
    (set_block_dirty top (
      let df =
        update_not_yet_syncing_bytes 3 (new_dirty_file top 0 (new_dirty_block_cache 10 100)) in
      record df { dirty_bcache = put top df.branch (file_block hello) df.dirty_bcache })).1

written-Reach : Reach top 0 10 100 written
written-Reach = dirties top (caches top (file_block hello) (writes 3 start))

abbrev under_sync : DirtyFile
under_sync = (set_block_syncing top written).1

under_sync-Reach : Reach top 0 10 100 under_sync
unfolding set_block_syncing begin_sync set_block_dirty update_not_yet_syncing_bytes new_dirty_file
    new_dirty_block_cache put get update_unsynced_bytes
under_sync-Reach = begins top hello written-Reach refl refl (omega arith) refl

abbrev synced : DirtyFile
synced = (set_block_synced top under_sync).1

synced-Reach : Reach top 0 10 100 synced
unfolding set_block_syncing begin_sync set_block_dirty update_not_yet_syncing_bytes new_dirty_file
    new_dirty_block_cache put get set_block_synced update_unsynced_bytes
synced-Reach = syncs top under_sync-Reach refl refl

Reach-IsBalanced_example : IsBalancedFile under_sync
Reach-IsBalanced_example = Reach-IsBalanced under_sync-Reach

abbrev a_request : DirtyReq
a_request = record { resp_chan = 1; bytes = 60; start = 0; deadline = 9 }

abbrev busy : DirtyBlockCache
busy = sync_finished 40 (
    consider_request 0 true
      (receive_request (request_permission_to_dirty a_request (new_dirty_block_cache 10 100)).1))

busy_buffer : (busy.sync_buffer_size ≡ 50) × (busy.granted ≡ 1 ∷ [])
unfolding new_dirty_block_cache request_permission_to_dirty receive_request consider_request
    accept_new_write halved_buffer sync_finished grown_buffer
busy_buffer = (refl, refl)

CacheRun-InBounds_example : InBounds 10 100 busy
CacheRun-InBounds_example =
    CacheRun-InBounds (omega arith) (omega arith)
      (finished 40 (omega arith) (considered 0 true (received (asked a_request fresh))))
