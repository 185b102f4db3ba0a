-- ===== src/BlockCache/Room.antt =====
-- `makeRoomForSize` of libkbfs/bcache.go ends, with room for the block or an empty cache.
use kbfs.Prelude.{ℕ, zero, suc}
use kbfs.FileStore.{Bytes}
use kbfs.Blocks.{BlockPointer, Block}
use kbfs.BlockCache.{Lru, IdCacheKey, on_evict}

module _ {I C : Type 0} (id_lru : Lru IdCacheKey BlockPointer I) (lru : Lru ℕ Block C)
    (hash : Bytes → ℕ) where
  -- The cache without its `n` oldest entries, and the total without their sizes
  abbrev pub evict_oldest : ℕ → C → ℕ → C × ℕ
  evict_oldest zero c total = (c, total)
  evict_oldest (suc n) c total =
      let (evicted, c1) = lru.remove_oldest c in evict_oldest n c1 (on_evict evicted total)
