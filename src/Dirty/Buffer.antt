-- ===== src/Dirty/Buffer.antt =====
-- The sync buffer stays between its bounds, and what is asked for reaches the counts.
use kbfs.Prelude.{ℕ, ◌*◌, ◌<◌, ◌≤◌, ◌≡◌, refl, Bool, arith}
use kbfs.Prelude.Int64.{half_word}
use kbfs.Blocks.{BlockPointer, Block}
use kbfs.Dirty.Cache.{
  DirtyBlockCache, DirtyReq, new_dirty_block_cache, put, delete, update_unsynced_bytes,
  update_syncing_bytes, block_sync_finished, grown_buffer, sync_finished, halved_buffer,
  accept_new_write, request_permission_to_dirty, receive_request, consider_request, shutdown,
}

-- The calls on a cache, in any order. Syncs send less than 2^62 bytes at once.
pub data CacheRun (lo hi : ℕ) : DirtyBlockCache → Type 0 where
  start : CacheRun lo hi (new_dirty_block_cache lo hi)
  puts :
      {d : DirtyBlockCache} (ptr : BlockPointer) (branch : ℕ) (block : Block)
      → CacheRun lo hi d
      → CacheRun lo hi (put ptr branch block d)
  deletes :
      {d : DirtyBlockCache} (ptr : BlockPointer) (branch : ℕ)
      → CacheRun lo hi d
      → CacheRun lo hi (delete ptr branch d)
  unsynced :
      {d : DirtyBlockCache} (bytes : ℕ) (was_syncing : Bool)
      → CacheRun lo hi d
      → CacheRun lo hi (update_unsynced_bytes bytes was_syncing d)
  syncing :
      {d : DirtyBlockCache} (size : ℕ)
      → CacheRun lo hi d
      → CacheRun lo hi (update_syncing_bytes size d)
  block_finished :
      {d : DirtyBlockCache} (size : ℕ)
      → CacheRun lo hi d
      → CacheRun lo hi (block_sync_finished size d)
  finished :
      {d : DirtyBlockCache} (size : ℕ)
      → size * 2 < half_word
      → CacheRun lo hi d
      → CacheRun lo hi (sync_finished size d)
  asked :
      {d : DirtyBlockCache} (req : DirtyReq)
      → CacheRun lo hi d
      → CacheRun lo hi (request_permission_to_dirty req d).1
  received : {d : DirtyBlockCache} → CacheRun lo hi d → CacheRun lo hi (receive_request d)
  considered :
      {d : DirtyBlockCache} (backpressure : ℕ) (was_slow : Bool)
      → CacheRun lo hi d
      → CacheRun lo hi (consider_request backpressure was_slow d)
  closed : {d : DirtyBlockCache} → CacheRun lo hi d → CacheRun lo hi (shutdown d).1

-- The bounds are the ones the cache was made with, and the buffer is between them.
pub record InBounds (lo hi : ℕ) (d : DirtyBlockCache) : Type 0 where
  pub least : d.min_sync_buffer_size ≡ lo
  pub most : d.max_sync_buffer_size ≡ hi
  pub above : lo ≤ d.sync_buffer_size
  pub below : d.sync_buffer_size ≤ hi

-- The bounds only depend on three fields.
abbrev Keeps : DirtyBlockCache → DirtyBlockCache → Type 0
Keeps d e =
    (e.min_sync_buffer_size ≡ d.min_sync_buffer_size)
    × (e.max_sync_buffer_size ≡ d.max_sync_buffer_size)
    × (e.sync_buffer_size ≡ d.sync_buffer_size)

InBounds-Keeps :
    {lo hi : ℕ} (d e : DirtyBlockCache) → Keeps d e → InBounds lo hi d → InBounds lo hi e
InBounds-Keeps d e (a, b, c) i = record {
  least = omega (arith, a, i.least);
  most = omega (arith, b, i.most);
  above = omega (arith, c, i.above);
  below = omega (arith, c, i.below);
}

grown_buffer-InBounds :
    {lo hi : ℕ} (size : ℕ) (d : DirtyBlockCache)
    → hi * 2 < half_word
    → size * 2 < half_word
    → InBounds lo hi d
    → (lo ≤ grown_buffer size d) × (grown_buffer size d ≤ hi)
unfolding grown_buffer
grown_buffer-InBounds size d h s i = (
  ground (arith, i.least, i.most, i.above, i.below),
  ground (arith, i.least, i.most, i.above, i.below),
)

halved_buffer-InBounds :
    {lo hi : ℕ} (d : DirtyBlockCache)
    → hi * 2 < half_word
    → InBounds lo hi d
    → (lo ≤ halved_buffer d) × (halved_buffer d ≤ hi)
unfolding halved_buffer
halved_buffer-InBounds d h i = (
  ground (arith, i.least, i.most, i.above, i.below),
  ground (arith, i.least, i.most, i.above, i.below),
)

sync_finished-InBounds :
    {lo hi : ℕ} (size : ℕ) (d : DirtyBlockCache)
    → hi * 2 < half_word
    → size * 2 < half_word
    → InBounds lo hi d
    → InBounds lo hi (sync_finished size d)
unfolding sync_finished
sync_finished-InBounds size d h s i =
    let (above, below) = grown_buffer-InBounds size d h s i in
    record {
      least = ground (arith, i.least);
      most = ground (arith, i.most);
      above = ground (arith, above, i.above);
      below = ground (arith, below, i.below);
    }

consider_request-InBounds :
    {lo hi : ℕ} (backpressure : ℕ) (was_slow : Bool) (d : DirtyBlockCache)
    → hi * 2 < half_word
    → InBounds lo hi d
    → InBounds lo hi (consider_request backpressure was_slow d)
unfolding consider_request accept_new_write
consider_request-InBounds backpressure was_slow d h i =
    let (above, below) = halved_buffer-InBounds d h i in
    record {
      least = ground (arith, i.least);
      most = ground (arith, i.most);
      above = ground (arith, above, i.above);
      below = ground (arith, below, i.below);
    }

-- With bounds below 2^62, after any calls in which no sync sends 2^62 bytes or more, the sync buffer is at
-- least the minimum and at most the maximum that the cache was made with.
pub CacheRun-InBounds :
    {lo hi : ℕ} {d : DirtyBlockCache}
    → lo ≤ hi
    → hi * 2 < half_word
    → CacheRun lo hi d
    → InBounds lo hi d
unfolding new_dirty_block_cache put delete update_unsynced_bytes update_syncing_bytes
    block_sync_finished request_permission_to_dirty receive_request shutdown
CacheRun-InBounds o h start = record { least = refl; most = refl; above = omega arith; below = o }
CacheRun-InBounds o h (puts {d = d} ptr branch block r) =
    InBounds-Keeps d (put ptr branch block d) (refl, refl, refl) (CacheRun-InBounds o h r)
CacheRun-InBounds o h (deletes {d = d} ptr branch r) =
    InBounds-Keeps d (delete ptr branch d) (refl, refl, refl) (CacheRun-InBounds o h r)
CacheRun-InBounds o h (unsynced {d = d} bytes was r) =
    InBounds-Keeps d (update_unsynced_bytes bytes was d) (refl, refl, refl)
      (CacheRun-InBounds o h r)
CacheRun-InBounds o h (syncing {d = d} size r) =
    InBounds-Keeps d (update_syncing_bytes size d) (refl, refl, refl) (CacheRun-InBounds o h r)
CacheRun-InBounds o h (block_finished {d = d} size r) =
    InBounds-Keeps d (block_sync_finished size d) (refl, refl, refl) (CacheRun-InBounds o h r)
CacheRun-InBounds o h (finished {d = d} size s r) =
    sync_finished-InBounds size d h s (CacheRun-InBounds o h r)
CacheRun-InBounds o h (asked {d = d} req r) =
    InBounds-Keeps d (request_permission_to_dirty req d).1
      (ground arith, ground arith, ground arith) (CacheRun-InBounds o h r)
CacheRun-InBounds o h (received {d = d} r) =
    InBounds-Keeps d (receive_request d) (ground arith, ground arith, ground arith)
      (CacheRun-InBounds o h r)
CacheRun-InBounds o h (considered {d = d} backpressure was_slow r) =
    consider_request-InBounds backpressure was_slow d h (CacheRun-InBounds o h r)
CacheRun-InBounds o h (closed {d = d} r) =
    InBounds-Keeps d (shutdown d).1 (ground arith, ground arith, ground arith)
      (CacheRun-InBounds o h r)
