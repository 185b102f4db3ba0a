-- ===== src/Tests/BlockCache.antt =====
-- The block cache at concrete inputs, with a list as its LRU cache.
use kbfs.Prelude.{ℕ, ◌≡◌, refl, ltb, if◌then◌else◌, some, none, List, [], ◌∷◌, length}
use kbfs.Prelude.Maps.{Map, lookup, insert, erase}
use kbfs.FileStore.{Bytes}
use kbfs.Blocks.{BlockPointer, Block, dir_block, get_cached_block_size}
use kbfs.BlockCache.{
  Lru, IdCacheKey, BlockCacheStandard, new_block_cache_standard, make_room_for_size, evict_loop,
  put_block, delete_permanent, permanent_entry,
}

-- The oldest entry is the first.
abbrev drop_oldest : Map Block → List Block × Map Block
drop_oldest [] = ([], [])
drop_oldest ((k, b) ∷ m) = (b ∷ [], m)

abbrev add_newest : ℕ → Block → Map Block → List Block × Map Block
add_newest k b m = if ltb (length m) 2 then ([], insert k b m) else drop_oldest (insert k b m)

abbrev list_lru : Lru ℕ Block (Map Block)
list_lru = record {
  get = λ k m. (lookup k m, m);
  add = add_newest;
  remove = λ k m. ([], erase k m);
  remove_oldest = drop_oldest;
  len = λ m. length m;
}

-- A cache of known pointers that remembers nothing
abbrev no_lru : Lru IdCacheKey BlockPointer (Unit {0})
no_lru = record {
  get = λ k m. (none, m);
  add = λ k v m. ([], m);
  remove = λ k m. ([], m);
  remove_oldest = λ m. ([], m);
  len = λ m. 0;
}

abbrev no_hash : Bytes → ℕ
no_hash b = 0

abbrev pointer_to : ℕ → BlockPointer
pointer_to id = record {
  id = id;
  key_gen = 1;
  data_ver = 1;
  context = record { creator = 1; writer = 0; ref_nonce = 0 };
}

abbrev full_cache : BlockCacheStandard (Unit {0}) (Map Block)
full_cache = record {
  clean_bytes_capacity = 100;
  ids = some tt;
  clean_transient = some ((1, dir_block 40) ∷ (2, dir_block 50) ∷ []);
  clean_permanent = [];
  clean_total_bytes = 90;
}

-- A permanent block in a cache without transient entries is not counted when it is put, but taken off when it
-- is deleted.
underflow :
    (delete_permanent no_lru list_lru no_hash 7
      (put_block no_lru list_lru no_hash
        (pointer_to 7)
        1
        (dir_block 40)
        permanent_entry
        (new_block_cache_standard no_lru list_lru no_hash tt [] 0 100)).1).clean_total_bytes
    ≡ 18446744073709551576
unfolding delete_permanent put_block new_block_cache_standard make_room_for_size evict_loop
    get_cached_block_size
underflow = refl
